-- ===== src/Server/Handler/Machine/Handlers.antt =====
-- The handlers of dev/svr/common/basic_handler.cpp whose loop ends: `BasicHandler`, and one that
-- overrides `OnDBSvrQuerySuccess` so that the data are written back.
use lsf.Prelude.{
  ℕ, Bool, true, false, not, Option, none, some, if◌then◌else◌, ◌≡◌, arith, refl, sym, subst,
}
use lsf.Server.Handler.{
  State, client_request, server_request, httpsvr_wait, httpsvr_message, httpsvr_timeout, curl_wait,
  curl_message, curl_timeout, confsvr_wait, confsvr_message, confsvr_timeout, dbsvr_next,
  dbsvr_query, dbsvr_query_wait, dbsvr_query_message, dbsvr_query_timeout, dbsvr_query_success,
  dbsvr_update, dbsvr_update_wait, dbsvr_update_message, dbsvr_update_timeout, dbsvr_update_success,
  dbsvr_delete, dbsvr_delete_wait, dbsvr_delete_message, dbsvr_delete_timeout, dbsvr_delete_success,
  dbsvr_insert, dbsvr_insert_wait, dbsvr_insert_message, dbsvr_insert_timeout, dbsvr_insert_success,
  finish, World, RspTypes, on_session_finish, set_error, set_internal_error, error_if,
  internal_error_if, Error, InternalError, send_all, set_handles, set_index, DbHandle,
  httpsvr_timeout_error, confsvr_timeout_error, query_timeout_error, update_timeout_error,
  insert_timeout_error, delete_timeout_error, curl_timeout_error, update_error, insert_error,
  delete_error,
}
use lsf.Server.Handler.Handles.{handle_at, is_ok, is_for}
use lsf.Server.Messages.{Response, RobotData}
use lsf.Server.Handler.Database
use lsf.Server.Handler.Database.{default_on, to_save}
use lsf.Server.Handler.Machine.{Handler, default_handler}
use lsf.Server.Handler.Machine.Ranks.{rank, fits, Lowers, weight}
use lsf.Server.Handler.Machine.Lowering.{default_on-Lowers}
use lsf.Server.Handler.Machine.Outcome.{Same, IsLowering, on_session_finish-Same}

-- The result of a callback has the managers as they were.
abbrev pub SameIn : World → Option (State × World) → Type 0
SameIn w none = w ≡ w
SameIn w (some (s, w')) = Same w w'

pub SameIn-branch :
    (w : World) (b : Bool) (x y : Option (State × World))
    → SameIn w x
    → SameIn w y
    → SameIn w (if b then x else y)
SameIn-branch w true x y hx hy = hx
SameIn-branch w false x y hx hy = hy

set_error-Same : (types : RspTypes) (e : Error) (w : World) → Same w (set_error types e w)
unfolding set_error error_if
set_error-Same types e w = (ground arith, (ground arith, ground arith))

set_internal_error-Same :
    (types : RspTypes) (e : InternalError) (w : World) → Same w (set_internal_error types e w)
unfolding set_internal_error internal_error_if
set_internal_error-Same types e w = (ground arith, (ground arith, ground arith))

on_query-Same : (types : RspTypes) (w : World) → Same w (Database.on_query types w).1
unfolding Database.on_query Database.check_ready set_error error_if send_all set_index
on_query-Same types w = (ground arith, (ground arith, ground arith))

on_query_message-Same :
    (types : RspTypes) (w : World) → Same w (Database.on_query_message types w).1
unfolding Database.on_query_message Database.check_ready set_error error_if set_handles set_index
on_query_message-Same types w = (ground arith, (ground arith, ground arith))

send_update-Same :
    (w : World) (id : ℕ) (k : DbHandle) (r : Option RobotData)
    → Same w (Database.send_update id k r w).1
unfolding Database.send_update send_all
send_update-Same w id k none = (refl, (refl, refl))
send_update-Same w id k (some r) = (refl, (refl, refl))

update_handle-Same :
    (types : RspTypes) (w : World) (o : Option DbHandle)
    → Same w (Database.update_handle types w o).1
unfolding Database.update_handle Database.send_update send_all set_handles set_error error_if
update_handle-Same types w none = (refl, (refl, refl))
update_handle-Same types w (some k) = (ground arith, (ground arith, ground arith))

insert_handle-Same : (w : World) (o : Option DbHandle) → Same w (Database.insert_handle w o).1
unfolding Database.insert_handle send_all
insert_handle-Same w none = (refl, (refl, refl))
insert_handle-Same w (some k) = (refl, (refl, refl))

delete_handle-Same : (w : World) (o : Option DbHandle) → Same w (Database.delete_handle w o).1
unfolding Database.delete_handle send_all
delete_handle-Same w none = (refl, (refl, refl))
delete_handle-Same w (some k) = (refl, (refl, refl))

check_answer-Same :
    (types : RspTypes) (e : Error) (s : State) (rsp : Response) (w : World) (o : Option DbHandle)
    → SameIn w (Database.check_answer types e s rsp w o)
unfolding Database.check_answer
check_answer-Same types e s rsp w none = refl
check_answer-Same types e s rsp w (some k) =
    let wrong = some (finish, set_error types e w) in
    SameIn-branch w (not (is_for rsp.data_type rsp.id k)) wrong
      (if not (is_ok rsp.result) then wrong else some (s, w)) (set_error-Same types e w)
      (SameIn-branch w (not (is_ok rsp.result)) wrong (some (s, w)) (set_error-Same types e w)
        (refl, (refl, refl)))

pub default_on-Same : (types : RspTypes) (s : State) (w : World) → SameIn w (default_on types s w)
unfolding default_on Database.on_client_request set_handles Database.on_next set_index
    Database.on_update Database.on_insert Database.on_delete Database.on_update_message
    Database.on_insert_message Database.on_delete_message
default_on-Same types client_request w = (refl, (refl, refl))
default_on-Same types server_request w = (refl, (refl, refl))
default_on-Same types httpsvr_wait w = (refl, (refl, refl))
default_on-Same types httpsvr_message w = (refl, (refl, refl))
default_on-Same types httpsvr_timeout w = set_error-Same types httpsvr_timeout_error w
default_on-Same types curl_wait w = (refl, (refl, refl))
default_on-Same types curl_message w = (refl, (refl, refl))
default_on-Same types curl_timeout w = set_internal_error-Same types curl_timeout_error w
default_on-Same types confsvr_wait w = (refl, (refl, refl))
default_on-Same types confsvr_message w = (refl, (refl, refl))
default_on-Same types confsvr_timeout w = set_error-Same types confsvr_timeout_error w
default_on-Same types dbsvr_next w = (refl, (refl, refl))
default_on-Same types dbsvr_query w = on_query-Same types w
default_on-Same types dbsvr_query_wait w = (refl, (refl, refl))
default_on-Same types dbsvr_query_message w = on_query_message-Same types w
default_on-Same types dbsvr_query_timeout w = set_error-Same types query_timeout_error w
default_on-Same types dbsvr_query_success w = (refl, (refl, refl))
default_on-Same types dbsvr_update w =
    update_handle-Same types w (handle_at w.session.db_process_index w.session.db_handles)
default_on-Same types dbsvr_update_wait w = (refl, (refl, refl))
default_on-Same types dbsvr_update_message w =
    check_answer-Same types update_error dbsvr_update_success w.session.svr_response.update_rsp w
      (handle_at w.session.db_process_index w.session.db_handles)
default_on-Same types dbsvr_update_timeout w = set_error-Same types update_timeout_error w
default_on-Same types dbsvr_update_success w = (refl, (refl, refl))
default_on-Same types dbsvr_delete w =
    delete_handle-Same w (handle_at w.session.db_process_index w.session.db_handles)
default_on-Same types dbsvr_delete_wait w = (refl, (refl, refl))
default_on-Same types dbsvr_delete_message w =
    check_answer-Same types delete_error dbsvr_delete_success w.session.svr_response.delete_rsp w
      (handle_at w.session.db_process_index w.session.db_handles)
default_on-Same types dbsvr_delete_timeout w = set_error-Same types delete_timeout_error w
default_on-Same types dbsvr_delete_success w = (refl, (refl, refl))
default_on-Same types dbsvr_insert w =
    insert_handle-Same w (handle_at w.session.db_process_index w.session.db_handles)
default_on-Same types dbsvr_insert_wait w = (refl, (refl, refl))
default_on-Same types dbsvr_insert_message w =
    check_answer-Same types insert_error dbsvr_insert_success w.session.svr_response.insert_rsp w
      (handle_at w.session.db_process_index w.session.db_handles)
default_on-Same types dbsvr_insert_timeout w = set_error-Same types insert_timeout_error w
default_on-Same types dbsvr_insert_success w = (refl, (refl, refl))
default_on-Same types finish w = (refl, (refl, refl))

-- On a session that fits, every callback of `BasicHandler` that the loop calls accesses no handle
-- out of range, lowers the measure and leaves a session that fits; a callback, `OnSessionFinish`
-- included, leaves the managers and the session's base fields alone.
pub default_handler-IsLowering : (types : RspTypes) → IsLowering (default_handler types)
unfolding default_handler
default_handler-IsLowering types = record {
  lowers = default_on-Lowers types;
  same = λ s s' w w' e. subst (SameIn w) e (default_on-Same types s w);
  finishes = on_session_finish-Same types;
}

abbrev is_query_success : State → Bool
is_query_success dbsvr_query_success = true
is_query_success _ = false

is_query_success-eq : (s : State) → is_query_success s ≡ true → s ≡ dbsvr_query_success
is_query_success-eq dbsvr_query_success e = refl
is_query_success-eq _ e = absurd (ground (arith, e))

-- A handler that writes back every handle once all are there.
unfoldable pub updating_handler : RspTypes → Handler
updating_handler types = record {
  on = λ s w. if is_query_success s then some (dbsvr_update, w) else default_on types s w;
  on_finish = on_session_finish types;
}

pub Lowers-pick :
    (s : State) (w : World) (b : Bool) (x y : Option (State × World))
    → (b ≡ true → Lowers s w x)
    → (b ≡ false → Lowers s w y)
    → Lowers s w (if b then x else y)
Lowers-pick s w true x y hx hy = hx refl
Lowers-pick s w false x y hx hy = hy refl

update_after_query-Lowers :
    (w : World)
    → fits dbsvr_query_success w ≡ true
    → Lowers dbsvr_query_success w (some (dbsvr_update, w))
unfolding Lowers fits rank weight
update_after_query-Lowers w f = (omega arith, ground (arith, f))

pub updating_handler-IsLowering : (types : RspTypes) → IsLowering (updating_handler types)
unfolding updating_handler
updating_handler-IsLowering types = record {
  lowers = λ s w p f.
      Lowers-pick s w (is_query_success s) (some (dbsvr_update, w)) (default_on types s w)
        (λ e.
          subst (λ t. fits t w ≡ true → Lowers t w (some (dbsvr_update, w)))
            (sym (is_query_success-eq s e)) (update_after_query-Lowers w) f)
        (λ e. default_on-Lowers types s w p f);
  same = λ s s' w w' e. subst (SameIn w) e (
      SameIn-branch w (is_query_success s) (some (dbsvr_update, w)) (default_on types s w)
        (refl, (refl, refl)) (default_on-Same types s w));
  finishes = on_session_finish-Same types;
}
