-- ===== src/Server/Handler/Machine/Lowering.antt =====
-- Every callback of `BasicHandler` in dev/svr/common/basic_handler.cpp lowers the measure.
use lsf.Prelude.{Bool, true, false, some, ◌≡◌, ◌≢◌, arith, refl, ap, sym, ◌∙◌}
use lsf.Server.Handler.{
  State, client_request, server_request, httpsvr_wait, httpsvr_message, httpsvr_timeout, curl_wait,
  curl_message, curl_timeout, confsvr_wait, confsvr_message, confsvr_timeout, dbsvr_next,
  dbsvr_query, dbsvr_query_wait, dbsvr_query_message, dbsvr_query_timeout, dbsvr_query_success,
  dbsvr_update, dbsvr_update_wait, dbsvr_update_message, dbsvr_update_timeout, dbsvr_update_success,
  dbsvr_delete, dbsvr_delete_wait, dbsvr_delete_message, dbsvr_delete_timeout, dbsvr_delete_success,
  dbsvr_insert, dbsvr_insert_wait, dbsvr_insert_message, dbsvr_insert_timeout, dbsvr_insert_success,
  finish, World, RspTypes, set_error, update_error, insert_error, delete_error,
  httpsvr_timeout_error, confsvr_timeout_error, query_timeout_error, update_timeout_error,
  insert_timeout_error, delete_timeout_error, curl_timeout_error, set_internal_error,
}
use lsf.Server.Handler.Database
use lsf.Server.Handler.Database.{default_on, to_save}
use lsf.Server.Handler.Machine.{Phase, runs, waits, ends, phase}
use lsf.Server.Handler.Machine.Ranks.{
  weight, rank, fits, Lowers, length-set_error, length-set_internal_error,
}
use lsf.Server.Handler.Machine.Callbacks.{
  on_client_request-Lowers, on_next-Lowers, on_query-Lowers, on_query_message-Lowers,
  update_handle-Lowers, insert_handle-Lowers, delete_handle-Lowers, check_answer-Lowers,
  finish-Lowers,
}

update_message-Lowers :
    (types : RspTypes) (w : World)
    → fits dbsvr_update_message w ≡ true
    → Lowers dbsvr_update_message w (Database.on_update_message types w)
unfolding Database.on_update_message rank weight fits
update_message-Lowers types w h =
    check_answer-Lowers types update_error dbsvr_update_message dbsvr_update_success
      w.session.svr_response.update_rsp w h (ground (arith, h)) (omega arith) (omega arith)
      (ground (arith, h))

insert_message-Lowers :
    (types : RspTypes) (w : World)
    → fits dbsvr_insert_message w ≡ true
    → Lowers dbsvr_insert_message w (Database.on_insert_message types w)
unfolding Database.on_insert_message rank weight fits
insert_message-Lowers types w h =
    check_answer-Lowers types insert_error dbsvr_insert_message dbsvr_insert_success
      w.session.svr_response.insert_rsp w h (ground (arith, h)) (omega arith) (omega arith)
      (ground (arith, h))

delete_message-Lowers :
    (types : RspTypes) (w : World)
    → fits dbsvr_delete_message w ≡ true
    → Lowers dbsvr_delete_message w (Database.on_delete_message types w)
unfolding Database.on_delete_message rank weight fits
delete_message-Lowers types w h =
    check_answer-Lowers types delete_error dbsvr_delete_message dbsvr_delete_success
      w.session.svr_response.delete_rsp w h (ground (arith, h)) (omega arith) (omega arith)
      (ground (arith, h))

update_success-Lowers :
    (w : World)
    → fits dbsvr_update_success w ≡ true
    → Lowers dbsvr_update_success w (some (dbsvr_next, w))
unfolding rank weight fits Lowers
update_success-Lowers w h = (omega arith, ground (arith, h))

abbrev stopped : Phase → Bool
stopped runs = false
stopped (waits ms) = true
stopped ends = true

stops-phase : (s : State) → stopped (phase s) ≡ true → phase s ≢ runs
stops-phase s t e = absurd (ground (arith, sym t ∙ ap stopped e))

-- The callbacks of a handler that overrides none.
pub default_on-Lowers :
    (types : RspTypes) (s : State) (w : World)
    → phase s ≡ runs
    → fits s w ≡ true
    → Lowers s w (default_on types s w)
unfolding default_on rank weight fits phase
default_on-Lowers types client_request w p h = on_client_request-Lowers w h
default_on-Lowers types server_request w p h = finish-Lowers server_request w w h (omega arith) refl
default_on-Lowers types httpsvr_wait w p h = absurd (stops-phase httpsvr_wait refl p)
default_on-Lowers types httpsvr_message w p h =
    finish-Lowers httpsvr_message w w h (omega arith) refl
default_on-Lowers types httpsvr_timeout w p h =
    finish-Lowers httpsvr_timeout w (set_error types httpsvr_timeout_error w) h (omega arith)
      (length-set_error types httpsvr_timeout_error w)
default_on-Lowers types curl_wait w p h = absurd (stops-phase curl_wait refl p)
default_on-Lowers types curl_message w p h = finish-Lowers curl_message w w h (omega arith) refl
default_on-Lowers types curl_timeout w p h =
    finish-Lowers curl_timeout w (set_internal_error types curl_timeout_error w) h (omega arith)
      (length-set_internal_error types curl_timeout_error w)
default_on-Lowers types confsvr_wait w p h = absurd (stops-phase confsvr_wait refl p)
default_on-Lowers types confsvr_message w p h =
    finish-Lowers confsvr_message w w h (omega arith) refl
default_on-Lowers types confsvr_timeout w p h =
    finish-Lowers confsvr_timeout w (set_error types confsvr_timeout_error w) h (omega arith)
      (length-set_error types confsvr_timeout_error w)
default_on-Lowers types dbsvr_next w p h = on_next-Lowers w h
default_on-Lowers types dbsvr_query w p h = on_query-Lowers types w h
default_on-Lowers types dbsvr_query_wait w p h = absurd (stops-phase dbsvr_query_wait refl p)
default_on-Lowers types dbsvr_query_message w p h = on_query_message-Lowers types w h
default_on-Lowers types dbsvr_query_timeout w p h =
    finish-Lowers dbsvr_query_timeout w (set_error types query_timeout_error w) h (omega arith)
      (length-set_error types query_timeout_error w)
default_on-Lowers types dbsvr_query_success w p h =
    finish-Lowers dbsvr_query_success w w h (omega arith) refl
default_on-Lowers types dbsvr_update w p h = update_handle-Lowers types w h
default_on-Lowers types dbsvr_update_wait w p h = absurd (stops-phase dbsvr_update_wait refl p)
default_on-Lowers types dbsvr_update_message w p h = update_message-Lowers types w h
default_on-Lowers types dbsvr_update_timeout w p h =
    finish-Lowers dbsvr_update_timeout w (set_error types update_timeout_error w) h (omega arith)
      (length-set_error types update_timeout_error w)
default_on-Lowers types dbsvr_update_success w p h = update_success-Lowers w h
default_on-Lowers types dbsvr_delete w p h = delete_handle-Lowers w h
default_on-Lowers types dbsvr_delete_wait w p h = absurd (stops-phase dbsvr_delete_wait refl p)
default_on-Lowers types dbsvr_delete_message w p h = delete_message-Lowers types w h
default_on-Lowers types dbsvr_delete_timeout w p h =
    finish-Lowers dbsvr_delete_timeout w (set_error types delete_timeout_error w) h (omega arith)
      (length-set_error types delete_timeout_error w)
default_on-Lowers types dbsvr_delete_success w p h =
    finish-Lowers dbsvr_delete_success w w h (omega arith) refl
default_on-Lowers types dbsvr_insert w p h = insert_handle-Lowers w h
default_on-Lowers types dbsvr_insert_wait w p h = absurd (stops-phase dbsvr_insert_wait refl p)
default_on-Lowers types dbsvr_insert_message w p h = insert_message-Lowers types w h
default_on-Lowers types dbsvr_insert_timeout w p h =
    finish-Lowers dbsvr_insert_timeout w (set_error types insert_timeout_error w) h (omega arith)
      (length-set_error types insert_timeout_error w)
default_on-Lowers types dbsvr_insert_success w p h =
    finish-Lowers dbsvr_insert_success w w h (omega arith) refl
default_on-Lowers types finish w p h = absurd (stops-phase finish refl p)
