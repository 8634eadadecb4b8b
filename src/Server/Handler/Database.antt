-- ===== src/Server/Handler/Database.antt =====
-- The callbacks of `BasicHandler` in dev/svr/common/basic_handler.cpp, as a handler has them that
-- overrides none. None of a result is an access out of range.
use lsf.Prelude.{
  ℕ, suc, ◌%◌, ◌^◌, not, Option, none, some, [], ◌∷◌, map, length, leb, ◌==◌, if◌then◌else◌,
}
use lsf.Server.Messages.{
  user_data_type, robot_data_type, Response, or_zero, update_req, insert_req, delete_req, RobotData,
}
use lsf.Server.Handler.{
  State, client_request, server_request, httpsvr_wait, httpsvr_message, httpsvr_timeout, curl_wait,
  curl_message, curl_timeout, confsvr_wait, confsvr_message, confsvr_timeout, dbsvr_next,
  dbsvr_query, dbsvr_query_wait, dbsvr_query_message, dbsvr_query_timeout, dbsvr_query_success,
  dbsvr_update, dbsvr_update_wait, dbsvr_update_message, dbsvr_update_timeout, dbsvr_update_success,
  dbsvr_delete, dbsvr_delete_wait, dbsvr_delete_message, dbsvr_delete_timeout, dbsvr_delete_success,
  dbsvr_insert, dbsvr_insert_wait, dbsvr_insert_message, dbsvr_insert_timeout, dbsvr_insert_success,
  finish, Error, httpsvr_timeout_error, confsvr_timeout_error, query_error, parse_error,
  query_timeout_error, update_error, update_timeout_error, insert_error, insert_timeout_error,
  delete_error, delete_timeout_error, curl_timeout_error, DbHandle, db_request, World, RspTypes,
  send_all, set_handles, set_index, set_error, set_internal_error,
}
use lsf.Server.Handler.Handles.{
  is_ok, is_for, add_query_data_and_lock, is_query_ready, query_message, assign, handle_at, put_at,
}

-- `OnClientRequest`: the data of the user, with a lock.
unfoldable pub on_client_request : World → State × World
on_client_request w = (
  dbsvr_query,
  set_handles (add_query_data_and_lock user_data_type w.session.uid w.session.db_handles) w,
)

-- `OnDBSvrNext`; the index has 32 bits.
unfoldable pub on_next : World → State × World
on_next w =
    let i = suc w.session.db_process_index % 2 ^ 32 in
    (if leb (length w.session.db_handles) i then finish else dbsvr_query_success, set_index i w)

-- The end of a query and of an answer to one.
unfoldable pub check_ready : World → State × World
check_ready w =
    if is_query_ready w.session.db_handles
    then (dbsvr_query_success, set_index 0 w)
    else (dbsvr_query_wait, w)

-- `OnDBSvrQuery`; `QueryData` is always true.
unfoldable pub on_query : RspTypes → World → State × World
on_query types w =
    if leb (length w.session.db_handles) w.session.db_process_index
    then (finish, w)
    else if length w.session.db_handles == 0
    then (finish, set_error types query_error w)
    else check_ready
        (send_all (map (query_message w.session.base.session_id) w.session.db_handles) w)

-- `OnDBSvrQueryMessage`.
unfoldable pub on_query_message : RspTypes → World → State × World
on_query_message types w =
    let rsp = w.session.svr_response.query_rsp in
    let filled = assign rsp w.session.db_handles in
    if not (is_ok rsp.result)
    then (finish, set_error types query_error w)
    else if not filled.0
    then (finish, set_error types parse_error (set_handles filled.1 w))
    else check_ready (set_handles filled.1 w)

-- The robot data of an update, none if its `ByteSize` is 0.
unfoldable pub to_save : Option RobotData → Option RobotData
to_save none = none
to_save (some r) = elim r.uid [
  | some _ ↦ some r
  | none ↦ elim r.last_init_chips_time [ none ↦ none | some _ ↦ some r ]
]

unfoldable pub send_update : ℕ → DbHandle → Option RobotData → World → State × World
send_update session_id h none w = (dbsvr_update_success, w)
send_update session_id h (some r) w =
    let request =
      update_req h.data_type h.id (or_zero h.version) (or_zero h.lock_id)
        (record { robot_data = some r }) in
    (dbsvr_update_wait, send_all (db_request session_id request ∷ []) w)

-- `OnDBSvrUpdate` with the handle of the index; the lock is used up.
unfoldable pub update_handle : RspTypes → World → Option DbHandle → State × World
update_handle types w none = (finish, w)
update_handle types w (some h) =
    let i = w.session.db_process_index in
    let w' = set_handles (put_at i (record h { lock_id = none }) w.session.db_handles) w in
    if h.data_type == robot_data_type
    then send_update w.session.base.session_id h (to_save h.content.robot_data) w'
    else (finish, set_error types update_error w')

-- `OnDBSvrUpdate`: the index is out of range exactly when there is no such handle.
unfoldable pub on_update : RspTypes → World → State × World
on_update types w =
    update_handle types w (handle_at w.session.db_process_index w.session.db_handles)

-- `OnDBSvrInsert`.
unfoldable pub insert_handle : World → Option DbHandle → State × World
insert_handle w none = (finish, w)
insert_handle w (some h) = (
  dbsvr_insert_wait,
  send_all (db_request w.session.base.session_id (insert_req h.data_type h.id h.content) ∷ []) w,
)

unfoldable pub on_insert : World → State × World
on_insert w = insert_handle w (handle_at w.session.db_process_index w.session.db_handles)

-- `OnDBSvrDelete`.
unfoldable pub delete_handle : World → Option DbHandle → State × World
delete_handle w none = (finish, w)
delete_handle w (some h) = (
  dbsvr_delete_wait,
  send_all (db_request w.session.base.session_id (delete_req h.data_type h.id) ∷ []) w,
)

unfoldable pub on_delete : World → State × World
on_delete w = delete_handle w (handle_at w.session.db_process_index w.session.db_handles)

-- The common text of `OnDBSvrUpdateMessage`, `OnDBSvrInsertMessage` and `OnDBSvrDeleteMessage`.
unfoldable pub check_answer :
    RspTypes → Error → State → Response → World → Option DbHandle → Option (State × World)
check_answer types e success rsp w none = none
check_answer types e success rsp w (some h) =
    if not (is_for rsp.data_type rsp.id h)
    then some (finish, set_error types e w)
    else if not (is_ok rsp.result)
    then some (finish, set_error types e w)
    else some (success, w)

unfoldable pub on_update_message : RspTypes → World → Option (State × World)
on_update_message types w =
    check_answer types update_error dbsvr_update_success w.session.svr_response.update_rsp w
      (handle_at w.session.db_process_index w.session.db_handles)

unfoldable pub on_insert_message : RspTypes → World → Option (State × World)
on_insert_message types w =
    check_answer types insert_error dbsvr_insert_success w.session.svr_response.insert_rsp w
      (handle_at w.session.db_process_index w.session.db_handles)

unfoldable pub on_delete_message : RspTypes → World → Option (State × World)
on_delete_message types w =
    check_answer types delete_error dbsvr_delete_success w.session.svr_response.delete_rsp w
      (handle_at w.session.db_process_index w.session.db_handles)

-- All callbacks; in the states that the machine stops at there is none.
unfoldable pub default_on : RspTypes → State → World → Option (State × World)
default_on types client_request w = some (on_client_request w)
default_on types server_request w = some (finish, w)
default_on types httpsvr_message w = some (finish, w)
default_on types httpsvr_timeout w = some (finish, set_error types httpsvr_timeout_error w)
default_on types confsvr_timeout w = some (finish, set_error types confsvr_timeout_error w)
default_on types confsvr_message w = some (finish, w)
default_on types curl_message w = some (finish, w)
default_on types curl_timeout w = some (finish, set_internal_error types curl_timeout_error w)
default_on types dbsvr_next w = some (on_next w)
default_on types dbsvr_query w = some (on_query types w)
default_on types dbsvr_query_message w = some (on_query_message types w)
default_on types dbsvr_query_timeout w = some (finish, set_error types query_timeout_error w)
default_on types dbsvr_query_success w = some (finish, w)
default_on types dbsvr_update w = some (on_update types w)
default_on types dbsvr_update_message w = on_update_message types w
default_on types dbsvr_update_timeout w = some (finish, set_error types update_timeout_error w)
default_on types dbsvr_update_success w = some (dbsvr_next, w)
default_on types dbsvr_insert w = some (on_insert w)
default_on types dbsvr_insert_message w = on_insert_message types w
default_on types dbsvr_insert_timeout w = some (finish, set_error types insert_timeout_error w)
default_on types dbsvr_insert_success w = some (finish, w)
default_on types dbsvr_delete w = some (on_delete w)
default_on types dbsvr_delete_message w = on_delete_message types w
default_on types dbsvr_delete_timeout w = some (finish, set_error types delete_timeout_error w)
default_on types dbsvr_delete_success w = some (finish, w)
default_on types httpsvr_wait w = some (finish, w)
default_on types curl_wait w = some (finish, w)
default_on types confsvr_wait w = some (finish, w)
default_on types dbsvr_query_wait w = some (finish, w)
default_on types dbsvr_update_wait w = some (finish, w)
default_on types dbsvr_insert_wait w = some (finish, w)
default_on types dbsvr_delete_wait w = some (finish, w)
default_on types finish w = some (finish, w)
