-- ===== src/Server/Handler/Entry.antt =====
-- How the events get to the loop: `GetServerResponse`, `WaitResponseTimeout`, `GetClientRequest`,
-- `GetServerRequest` and `GetCurlResult` of dev/svr/common/basic_handler.cpp.
pub mod Events
pub mod Resumed
pub mod Endings
use lsf.Prelude.{ℕ, Bool, true, false, not, Option, none, some, List, if◌then◌else◌, ◌≡◌}
use lsf.Manager.Timers.{TimerManager, release_timer}
use lsf.Server.Messages.{or_zero}
use lsf.Server.Handler.{
  State, client_request, server_request, httpsvr_wait, httpsvr_message, httpsvr_timeout, curl_wait,
  curl_message, curl_timeout, confsvr_wait, confsvr_message, confsvr_timeout, dbsvr_next,
  dbsvr_query, dbsvr_query_wait, dbsvr_query_message, dbsvr_query_timeout, dbsvr_query_success,
  dbsvr_update, dbsvr_update_wait, dbsvr_update_message, dbsvr_update_timeout, dbsvr_update_success,
  dbsvr_delete, dbsvr_delete_wait, dbsvr_delete_message, dbsvr_delete_timeout, dbsvr_delete_success,
  dbsvr_insert, dbsvr_insert_wait, dbsvr_insert_message, dbsvr_insert_timeout, dbsvr_insert_success,
  finish, World, ServerResponse, ServerType, config_center, data_server, http_server, other_server,
  set_state,
}
use lsf.Server.Handler.Machine.{Handler, run}

-- The first switch of `GetServerResponse`: who may answer in a waiting state, and the state then.
unfoldable pub answered : State → Option (ServerType × State)
answered client_request = none
answered server_request = none
answered httpsvr_wait = some (http_server, httpsvr_message)
answered httpsvr_message = none
answered httpsvr_timeout = none
answered curl_wait = none
answered curl_message = none
answered curl_timeout = none
answered confsvr_wait = some (config_center, confsvr_message)
answered confsvr_message = none
answered confsvr_timeout = none
answered dbsvr_next = none
answered dbsvr_query = none
answered dbsvr_query_wait = some (data_server, dbsvr_query_message)
answered dbsvr_query_message = none
answered dbsvr_query_timeout = none
answered dbsvr_query_success = none
answered dbsvr_update = none
answered dbsvr_update_wait = some (data_server, dbsvr_update_message)
answered dbsvr_update_message = none
answered dbsvr_update_timeout = none
answered dbsvr_update_success = none
answered dbsvr_delete = none
answered dbsvr_delete_wait = some (data_server, dbsvr_delete_message)
answered dbsvr_delete_message = none
answered dbsvr_delete_timeout = none
answered dbsvr_delete_success = none
answered dbsvr_insert = none
answered dbsvr_insert_wait = some (data_server, dbsvr_insert_message)
answered dbsvr_insert_message = none
answered dbsvr_insert_timeout = none
answered dbsvr_insert_success = none
answered finish = none

-- The switch of `WaitResponseTimeout`.
unfoldable pub timed_out : State → Option State
timed_out client_request = none
timed_out server_request = none
timed_out httpsvr_wait = some httpsvr_timeout
timed_out httpsvr_message = none
timed_out httpsvr_timeout = none
timed_out curl_wait = some curl_timeout
timed_out curl_message = none
timed_out curl_timeout = none
timed_out confsvr_wait = some confsvr_timeout
timed_out confsvr_message = none
timed_out confsvr_timeout = none
timed_out dbsvr_next = none
timed_out dbsvr_query = none
timed_out dbsvr_query_wait = some dbsvr_query_timeout
timed_out dbsvr_query_message = none
timed_out dbsvr_query_timeout = none
timed_out dbsvr_query_success = none
timed_out dbsvr_update = none
timed_out dbsvr_update_wait = some dbsvr_update_timeout
timed_out dbsvr_update_message = none
timed_out dbsvr_update_timeout = none
timed_out dbsvr_update_success = none
timed_out dbsvr_delete = none
timed_out dbsvr_delete_wait = some dbsvr_delete_timeout
timed_out dbsvr_delete_message = none
timed_out dbsvr_delete_timeout = none
timed_out dbsvr_delete_success = none
timed_out dbsvr_insert = none
timed_out dbsvr_insert_wait = some dbsvr_insert_timeout
timed_out dbsvr_insert_message = none
timed_out dbsvr_insert_timeout = none
timed_out dbsvr_insert_success = none
timed_out finish = none

abbrev pub same_server : ServerType → ServerType → Bool
same_server config_center config_center = true
same_server data_server data_server = true
same_server http_server http_server = true
same_server other_server other_server = true
same_server _ _ = false

-- The timer's id is cleared; an absent id is read as 0.
unfoldable pub clear_timer : World → World
clear_timer w = record w {
  session = record w.session { base = record w.session.base { timer_id = none } };
}

unfoldable pub drop_timer : World → World
drop_timer w =
    clear_timer (record w { timers = release_timer (or_zero w.session.base.timer_id) w.timers })

unfoldable pub receive : ServerResponse → World → World
receive rsp w = record w { session = record w.session { svr_response = rsp } }

-- `GetServerResponse`.
unfoldable pub resume_answered :
    ℕ → Handler → ℕ → ServerResponse → World → Option (ServerType × State) → Option World
resume_answered fuel h now rsp w none = some w
resume_answered fuel h now rsp w (some (need, s)) =
    if not (same_server rsp.src_server_type need)
    then some w
    else run fuel h now (set_state s (receive rsp (drop_timer w)))

unfoldable pub get_server_response : ℕ → Handler → ℕ → ServerResponse → World → Option World
get_server_response fuel h now rsp w =
    resume_answered fuel h now rsp (receive rsp w) (answered w.session.state)

-- `WaitResponseTimeout`.
unfoldable pub resume_timed_out : ℕ → Handler → ℕ → World → Option State → Option World
resume_timed_out fuel h now w none = some w
resume_timed_out fuel h now w (some s) = run fuel h now (set_state s (clear_timer w))

unfoldable pub wait_response_timeout : ℕ → Handler → ℕ → World → Option World
wait_response_timeout fuel h now w = resume_timed_out fuel h now w (timed_out w.session.state)

-- `GetClientRequest` of a message of this type from this user.
unfoldable pub get_client_request : ℕ → Handler → ℕ → ℕ → ℕ → World → Option World
get_client_request fuel h now msg_type uid w = run fuel h now (
    set_state client_request
      (record w { session = record w.session { cs_request = some msg_type; uid = uid } }))

-- `GetServerRequest`.
unfoldable pub get_server_request : ℕ → Handler → ℕ → ℕ → World → Option World
get_server_request fuel h now msg_type w = run fuel h now (
    set_state server_request
      (record w { session = record w.session { ss_request = some msg_type } }))

-- `GetCurlResult`.
unfoldable pub get_curl_result : ℕ → Handler → ℕ → Bool → List ℕ → World → Option World
get_curl_result fuel h now result content w =
    let w' = drop_timer w in
    run fuel h now (
      set_state curl_message (record w' {
        session = record w'.session { curl_result = result; curl_content = content };
      }))
