-- ===== src/Examples/Dispatch.antt =====
-- A server with two sessions that wait for the data server.
use lsf.Prelude.{
  ℕ, Bool, true, false, Option, none, some, [], ◌∷◌, ◌==◌, if◌then◌else◌, ◌≡◌, ◌≢◌, ◌⊎◌, arith,
  refl, subst,
}
use lsf.Prelude.Dict
use lsf.Manager
use lsf.Manager.Sessions.{Session, get_session}
use lsf.Server.Messages.{Response, no_data, ok_result}
use lsf.Manager.Sessions.{release_session, timer_of}
use lsf.Manager.Timers.{release_timer, set_deleted, get_timer}
use lsf.Server.Handler.{
  set_state, set_index, set_handles, on_session_finish, send_response, send_all, unlock_messages,
  unlock_message, respond, respond_server, mark_sent, release_own, store, set_error, error_if,
  dbsvr_query_wait, dbsvr_query_timeout, HandlerSession, ServerResponse, data_server, RspTypes,
}
use lsf.Server.Handler.Handles.{new_handle, assign, fill, fill_content, is_query_ready}
use lsf.Server.Handler.Database.{default_on, on_query_message, check_ready}
use lsf.Server.Handler.Machine.Ranks.{fits}
use lsf.Server.Handler.Entry.{
  timed_out, get_server_response, resume_answered, answered, receive, drop_timer, clear_timer,
}
use lsf.Server.Handler.Machine.{Handler, default_handler, run, phase, advance, enter, end_session}
use lsf.Server.Handler.Machine.Outcome.{IsLowering}
use lsf.Server.Handler.Machine.Handlers.{default_handler-IsLowering}
use lsf.Server.Dispatch.{
  on_typed_message, is_request, restore_session, load_found, settle, instance_of, cs_instance,
  keep_body, Server, HandlerManager, ServerMessage, on_connection_message, on_session_timer, load,
}
use lsf.Server.Dispatch.Events.{AllLowering, Own, Kept}
use lsf.Server.Dispatch.Timeouts.{Gone, Waiting, loaded, on_session_timer-ends}
use lsf.Server.Dispatch.Late.{on_session_timer-late}
use lsf.Server.Dispatch.Fallback.{instance_of-IsLowering}
use lsf.Server.Dispatch.Requests.{on_connection_message-Kept}

abbrev rsp_types : RspTypes
rsp_types = record { cs_rsp_type = some 12; ss_rsp_type = none }

abbrev added : ℕ → Option Handler
added t = if t == 11 then some (default_handler rsp_types) else none

abbrev handlers : HandlerManager
handlers = record {
  cs_handler = added;
  ss_handler = λ t. none;
  cs_is_valid = λ t. t == 11;
  ss_is_valid = λ t. false;
}

abbrev LoweringIn : Option Handler → Type 0
LoweringIn none = true ≡ true
LoweringIn (some h) = IsLowering h

added-LoweringIn : (b : Bool) → LoweringIn (if b then some (default_handler rsp_types) else none)
added-LoweringIn true = default_handler-IsLowering rsp_types
added-LoweringIn false = refl

added-IsLowering : (t : ℕ) (h : Handler) → added t ≡ some h → IsLowering h
added-IsLowering t h e = subst LoweringIn e (added-LoweringIn (t == 11))

all_lowering : AllLowering handlers
all_lowering =
    instance_of-IsLowering handlers added-IsLowering (λ t h e. absurd (ground (arith, e)))

abbrev blank : Response
blank = record {
  result = ok_result;
  data_type = 3;
  id = 5;
  version = some 2;
  content = no_data;
  lock_id = none;
}

abbrev answer : ServerResponse
answer = record {
  src_server_type = data_server;
  query_rsp = blank;
  update_rsp = blank;
  insert_rsp = blank;
  delete_rsp = blank;
}

abbrev base_of : ℕ → Session
base_of id = record { session_id = id; create_time = 50; timer_id = none }

abbrev waiting : ℕ → HandlerSession
waiting id = record {
  base = base_of id;
  state = dbsvr_query_wait;
  db_handles = new_handle 3 5 ∷ [];
  db_process_index = 0;
  is_send_rsp = false;
  cs_request = some 11;
  uid = 5;
  cs_error = none;
  ss_request = none;
  ss_error = none;
  svr_response = answer;
  curl_result = false;
  curl_content = [];
}

abbrev two_sessions : Server
two_sessions = record {
  sessions = record {
    sessions = record { max_size = 10; map = (1, base_of 1) ∷ (2, base_of 2) ∷ [] };
    cur_max_id = 2;
  };
  bodies = (1, waiting 1) ∷ (2, waiting 2) ∷ [];
  timers = record { timers = record { max_size = 10; map = [] }; timer_heap = []; cur_max_id = 4 };
  sent = [];
}

two_sessions-Own : Own two_sessions
unfolding get_session Dict.find
two_sessions-Own k b e = ground (arith, e)

abbrev message : ServerMessage
message = record { msg_type = some 99; dst_server_type = 5; session_id = 1; rsp = answer }

abbrev or_server : Option Server → Server → Server
or_server none s = s
or_server (some s) s' = s

abbrev after : Server
after = or_server (on_connection_message 40 handlers 70 5 (some message) two_sessions) two_sessions

processed : on_connection_message 40 handlers 70 5 (some message) two_sessions ≡ some after
unfolding on_connection_message on_typed_message is_request restore_session load load_found
    get_session Dict.find settle get_server_response resume_answered answered run phase set_state
    advance enter instance_of cs_instance default_handler default_on on_query_message assign fill
    fill_content check_ready is_query_ready set_index set_handles end_session on_session_finish
    send_response send_all unlock_messages unlock_message respond respond_server mark_sent
    release_own release_session store timer_of Manager.put Manager.erase Dict.insert Dict.erase
    keep_body receive drop_timer clear_timer release_timer set_deleted get_timer set_error error_if
processed = refl

second : get_session 2 two_sessions.sessions ≡ some (base_of 2)
unfolding get_session Dict.find
second = refl

on_connection_message-Kept_example :
    (get_session 2 after.sessions ≡ some (base_of 2))
    × (Dict.find 2 after.bodies ≡ Dict.find 2 two_sessions.bodies)
on_connection_message-Kept_example =
    on_connection_message-Kept 40 handlers 70 5 message two_sessions after 2 (base_of 2)
      all_lowering two_sessions-Own (omega arith) processed (omega arith) second

waiting-fits : fits dbsvr_query_wait (loaded (base_of 1) (waiting 1) two_sessions) ≡ true
unfolding fits
waiting-fits = refl

first_base : get_session 1 two_sessions.sessions ≡ some (base_of 1)
unfolding get_session Dict.find
first_base = refl

first_body : Dict.find 1 two_sessions.bodies ≡ some (waiting 1)
unfolding Dict.find
first_body = refl

query_times_out : timed_out dbsvr_query_wait ≡ some dbsvr_query_timeout
unfolding timed_out
query_times_out = refl

on_session_timer-ends_example :
    (s' : Server) × ((on_session_timer 18 handlers 2070 1 two_sessions ≡ some s')
      × ((Gone 1 s' ⊎ Waiting 2070 1 two_sessions.timers s')
          × (((k : ℕ) → k ≢ 1 → Kept k two_sessions s') × Own s')))
on_session_timer-ends_example =
    on_session_timer-ends handlers 2070 1 two_sessions (base_of 1) (waiting 1) dbsvr_query_timeout
      all_lowering two_sessions-Own first_base first_body query_times_out waiting-fits (omega arith)

its_handler : instance_of handlers (some 11) none ≡ default_handler rsp_types
unfolding instance_of cs_instance
its_handler = refl

no_request : is_request handlers 99 ≡ false
unfolding is_request
no_request = refl

on_session_timer-late_example :
    (s' : Server) × ((on_session_timer 2 handlers 2070 1 two_sessions ≡ some s')
      × (Gone 1 s' × (on_connection_message 40 handlers 2080 5 (some message) s' ≡ some s')))
on_session_timer-late_example =
    on_session_timer-late 0 40 handlers rsp_types 2070 2080 5 99 message two_sessions (base_of 1)
      (waiting 1) dbsvr_query_timeout two_sessions-Own first_base first_body query_times_out
      its_handler refl no_request
