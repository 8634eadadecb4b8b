-- ===== src/Server/Handler.antt =====
-- The session that a handler works on, of dev/svr/proto/data_mem.proto, with the managers and the
-- messages around it, and the parts of `BasicHandler` (dev/svr/common/basic_handler.cpp) that
-- send, set errors and set timers.
pub mod Handles
pub mod Progress
pub mod Unlocks
pub mod Database
pub mod Machine
pub mod Entry
use lsf.Prelude.{
  ℕ, ◌+◌, ◌%◌, ◌^◌, Bool, true, false, not, Option, none, some, List, [], ◌∷◌, ◌++◌, map, length,
  leb, ◌==◌, if◌then◌else◌, ◌≡◌,
}
use lsf.Prelude.Dict
use lsf.Manager
use lsf.Manager.Ids.{id_count}
use lsf.Manager.Timers.{Timer, TimerManager, create_timer}
use lsf.Manager.Sessions.{Session, SessionManager, release_session}
use lsf.Server.Messages.{
  DbData, no_data, Request, query_req, update_req, insert_req, delete_req, unlock_notify, Response,
}

-- `ENSessionState`.
pub data State : Type 0 where
  client_request : State
  server_request : State
  httpsvr_wait : State
  httpsvr_message : State
  httpsvr_timeout : State
  curl_wait : State
  curl_message : State
  curl_timeout : State
  confsvr_wait : State
  confsvr_message : State
  confsvr_timeout : State
  dbsvr_next : State
  dbsvr_query : State
  dbsvr_query_wait : State
  dbsvr_query_message : State
  dbsvr_query_timeout : State
  dbsvr_query_success : State
  dbsvr_update : State
  dbsvr_update_wait : State
  dbsvr_update_message : State
  dbsvr_update_timeout : State
  dbsvr_update_success : State
  dbsvr_delete : State
  dbsvr_delete_wait : State
  dbsvr_delete_message : State
  dbsvr_delete_timeout : State
  dbsvr_delete_success : State
  dbsvr_insert : State
  dbsvr_insert_wait : State
  dbsvr_insert_message : State
  dbsvr_insert_timeout : State
  dbsvr_insert_success : State
  finish : State

-- `ENServerType`, the values that are looked at.
pub data ServerType : Type 0 where
  config_center : ServerType
  data_server : ServerType
  http_server : ServerType
  other_server : ServerType

-- The values of `ENError` and `ENInternalError` that the handler sets.
pub data Error : Type 0 where
  httpsvr_timeout_error : Error
  confsvr_timeout_error : Error
  query_error : Error
  parse_error : Error
  query_timeout_error : Error
  update_error : Error
  update_timeout_error : Error
  insert_error : Error
  insert_timeout_error : Error
  delete_error : Error
  delete_timeout_error : Error

pub data InternalError : Type 0 where
  curl_timeout_error : InternalError

pub record DbHandle : Type 0 where
  pub data_type : ℕ
  pub id : ℕ
  pub content : DbData
  pub need_lock : Option Bool
  pub query_finish : Bool
  pub version : Option ℕ
  pub lock_id : Option ℕ

-- An answer of another server: who sent it, and the parts of the SS message that are looked at.
pub record ServerResponse : Type 0 where
  pub src_server_type : ServerType
  pub query_rsp : Response
  pub update_rsp : Response
  pub insert_rsp : Response
  pub delete_rsp : Response

-- A request is there when its type is; the result fields of the responses are the errors.
pub record HandlerSession : Type 0 where
  pub base : Session
  pub state : State
  pub db_handles : List DbHandle
  pub db_process_index : ℕ
  pub is_send_rsp : Bool
  pub cs_request : Option ℕ
  pub uid : ℕ
  pub cs_error : Option Error
  pub ss_request : Option ℕ
  pub ss_error : Option InternalError
  pub svr_response : ServerResponse
  pub curl_result : Bool
  pub curl_content : List ℕ

-- What is sent: to the data server with and without the id of the session, and the responses.
pub data Message : Type 0 where
  db_request : (session_id : ℕ) → Request → Message
  db_notify : Request → Message
  client_response : (type : ℕ) → Option Error → Message
  server_response : (type : ℕ) → Option InternalError → Message

-- The session that is worked on is the object of the manager: `store` writes it there.
pub record World : Type 0 where
  pub session : HandlerSession
  pub sessions : SessionManager
  pub timers : TimerManager
  pub sent : List Message

-- `_cs_rsp_type` and `_ss_rsp_type`; the types NONE are none.
pub record RspTypes : Type 0 where
  pub cs_rsp_type : Option ℕ
  pub ss_rsp_type : Option ℕ

unfoldable pub send_all : List Message → World → World
send_all ms w = record w { sent = w.sent ++ ms }

unfoldable pub set_state : State → World → World
set_state s w = record w { session = record w.session { state = s } }

unfoldable pub set_handles : List DbHandle → World → World
set_handles hs w = record w { session = record w.session { db_handles = hs } }

unfoldable pub set_index : ℕ → World → World
set_index i w = record w { session = record w.session { db_process_index = i } }

-- The two `SetErrorResponse`.
unfoldable pub error_if : Option ℕ → Option ℕ → Error → World → World
error_if none rsp e w = w
error_if (some req) none e w = w
error_if (some req) (some rsp) e w = record w { session = record w.session { cs_error = some e } }

unfoldable pub set_error : RspTypes → Error → World → World
set_error types e w = error_if w.session.cs_request types.cs_rsp_type e w

unfoldable pub internal_error_if : Option ℕ → Option ℕ → InternalError → World → World
internal_error_if none rsp e w = w
internal_error_if (some req) none e w = w
internal_error_if (some req) (some rsp) e w = record w {
  session = record w.session { ss_error = some e };
}

unfoldable pub set_internal_error : RspTypes → InternalError → World → World
set_internal_error types e w = internal_error_if w.session.ss_request types.ss_rsp_type e w

-- `SendResponse`.
unfoldable pub mark_sent : World → World
mark_sent w = record w { session = record w.session { is_send_rsp = true } }

unfoldable pub respond_server : Option ℕ → Option ℕ → World → World
respond_server none rsp w = w
respond_server (some req) none w = w
respond_server (some req) (some rsp) w =
    send_all (server_response rsp w.session.ss_error ∷ []) (mark_sent w)

unfoldable pub respond : Option ℕ → Option ℕ → RspTypes → World → World
respond none rsp types w = respond_server w.session.ss_request types.ss_rsp_type w
respond (some req) none types w = respond_server w.session.ss_request types.ss_rsp_type w
respond (some req) (some rsp) types w =
    send_all (client_response rsp w.session.cs_error ∷ []) (mark_sent w)

unfoldable pub send_response : RspTypes → World → World
send_response types w =
    if w.session.is_send_rsp then w else respond w.session.cs_request types.cs_rsp_type types w

-- The messages that `OnSessionFinish` unlocks the data with.
unfoldable pub unlock_message : Option Bool → Option ℕ → ℕ → ℕ → List Message
unlock_message none lock type id = []
unlock_message (some false) lock type id = []
unlock_message (some true) none type id = []
unlock_message (some true) (some l) type id = db_notify (unlock_notify type id l) ∷ []

unfoldable pub unlock_messages : List DbHandle → List Message
unlock_messages [] = []
unlock_messages (h ∷ hs) =
    unlock_message h.need_lock h.lock_id h.data_type h.id ++ unlock_messages hs

unfoldable pub on_session_finish : RspTypes → World → World
on_session_finish types w = send_response types (send_all (unlock_messages w.session.db_handles) w)

-- `TIMER_TYPE_SESSION_TIMEOUT`, `DEF_SESSION_TIMEOUT` and `DEF_SESSION_HTTP_TIMEOUT`.
abbrev pub session_timeout_type : ℕ
session_timeout_type = 1

abbrev pub session_timeout : ℕ
session_timeout = 2000

abbrev pub session_http_timeout : ℕ
session_http_timeout = 10000

-- The manager's object of the session is this one.
unfoldable pub store : World → World
store w = record w {
  sessions = record w.sessions {
    sessions = Manager.put w.session.base.session_id w.session.base w.sessions.sessions;
  };
}

-- What `SetSessionTimer` does with the timer that it got.
unfoldable pub own_timer : ℕ → Option Timer → TimerManager → TimerManager
own_timer session_id none m = m
own_timer session_id (some timer) m = record m {
  timers = Manager.put timer.timer_id (record timer { session_id = session_id }) m.timers;
}

unfoldable pub use_timer : Option (Option ℕ × TimerManager) → World → Option World
use_timer none w = none
use_timer (some (none, timers)) w = some (record w { timers = timers })
use_timer (some (some id, timers)) w = some (record w {
  timers = own_timer w.session.base.session_id (Dict.find id timers.timers.map) timers;
  session = record w.session { base = record w.session.base { timer_id = some id } };
})

-- `SetSessionTimer` at this time; none for a search for an id without end.
unfoldable pub set_session_timer : ℕ → ℕ → World → Option World
set_session_timer now milli_second w =
    use_timer (create_timer id_count now milli_second session_timeout_type w.timers) w

-- `ReleaseSession` for this session.
unfoldable pub release_own : World → World
release_own w =
    let (sessions, timers) =
      release_session w.session.base.session_id ((store w).sessions, w.timers) in
    record w { sessions = sessions; timers = timers }
