-- ===== src/Server/Handler/Machine.antt =====
-- `BasicHandler::RunStateMachine` of dev/svr/common/basic_handler.cpp, over the callbacks of any
-- handler.
pub mod Ranks
pub mod Callbacks
pub mod Lowering
pub mod Outcome
pub mod Handlers
use lsf.Prelude.{ℕ, zero, suc, Bool, true, false, Option, none, some, ◌≡◌, refl}
use lsf.Server.Handler.{
  State, client_request, server_request, httpsvr_wait, httpsvr_message, httpsvr_timeout, curl_wait,
  curl_message, curl_timeout, confsvr_wait, confsvr_message, confsvr_timeout, dbsvr_next,
  dbsvr_query, dbsvr_query_wait, dbsvr_query_message, dbsvr_query_timeout, dbsvr_query_success,
  dbsvr_update, dbsvr_update_wait, dbsvr_update_message, dbsvr_update_timeout, dbsvr_update_success,
  dbsvr_delete, dbsvr_delete_wait, dbsvr_delete_message, dbsvr_delete_timeout, dbsvr_delete_success,
  dbsvr_insert, dbsvr_insert_wait, dbsvr_insert_message, dbsvr_insert_timeout, dbsvr_insert_success,
  finish, World, RspTypes, set_state, on_session_finish, session_timeout, session_http_timeout,
  set_session_timer, store, release_own,
}
use lsf.Server.Handler.Database.{default_on}

-- What the machine does in a state: call back, set a timer of this length and stop, or end.
pub data Phase : Type 0 where
  runs : Phase
  waits : ℕ → Phase
  ends : Phase

-- The switch of the machine. Every state has its case, so that the default of the switch is never
-- taken.
unfoldable pub phase : State → Phase
phase client_request = runs
phase server_request = runs
phase httpsvr_wait = waits session_http_timeout
phase httpsvr_message = runs
phase httpsvr_timeout = runs
phase curl_wait = waits session_http_timeout
phase curl_message = runs
phase curl_timeout = runs
phase confsvr_wait = waits session_timeout
phase confsvr_message = runs
phase confsvr_timeout = runs
phase dbsvr_next = runs
phase dbsvr_query = runs
phase dbsvr_query_wait = waits session_timeout
phase dbsvr_query_message = runs
phase dbsvr_query_timeout = runs
phase dbsvr_query_success = runs
phase dbsvr_update = runs
phase dbsvr_update_wait = waits session_timeout
phase dbsvr_update_message = runs
phase dbsvr_update_timeout = runs
phase dbsvr_update_success = runs
phase dbsvr_delete = runs
phase dbsvr_delete_wait = waits session_timeout
phase dbsvr_delete_message = runs
phase dbsvr_delete_timeout = runs
phase dbsvr_delete_success = runs
phase dbsvr_insert = runs
phase dbsvr_insert_wait = waits session_timeout
phase dbsvr_insert_message = runs
phase dbsvr_insert_timeout = runs
phase dbsvr_insert_success = runs
phase finish = ends

-- A handler: the callbacks that it may override, `OnSessionFinish` among them.
pub record Handler : Type 0 where
  pub on : State → World → Option (State × World)
  pub on_finish : World → World

-- `BasicHandler` itself.
unfoldable pub default_handler : RspTypes → Handler
default_handler types = record { on = default_on types; on_finish = on_session_finish types }

-- The result of a callback becomes the state.
unfoldable pub enter : Option (State × World) → Option World
enter none = none
enter (some (s, w)) = some (set_state s w)

unfoldable pub advance : Handler → World → Option World
advance h w = enter (h.on w.session.state w)

-- A waiting session is left to its manager.
unfoldable pub suspend : Option World → Option World
suspend none = none
suspend (some w) = some (store w)

-- `OnSessionFinish` and `ReleaseSession`.
unfoldable pub end_session : Handler → World → World
end_session h w = release_own (h.on_finish w)

-- `RunStateMachine` with fuel; none is the end of the fuel, an access out of range, or a search for
-- a timer's id without end.
unfoldable pub run : ℕ → Handler → ℕ → World → Option World
run zero h now w = none
run (suc n) h now w = elim (phase w.session.state) [
  | waits ms ↦ suspend (set_session_timer now ms w)
  | ends ↦ some (end_session h w)
  | runs ↦ elim (advance h w) [ none ↦ none | some w' ↦ run n h now w' ]
]
