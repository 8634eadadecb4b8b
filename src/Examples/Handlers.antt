-- ===== src/Examples/Handlers.antt =====
-- A session with the handles of two robots, and the handlers on it.
use lsf.Prelude.{
  ℕ, suc, ◌+◌, ◌<◌, true, false, none, some, List, [], ◌∷◌, ◌++◌, ◌==◌, if◌then◌else◌, ◌≡◌, arith,
  refl,
}
use lsf.Server.Messages.{no_data, ok_result, Response}
use lsf.Server.Handler.{
  unlock_messages, client_response, State, dbsvr_query, dbsvr_query_wait, dbsvr_query_message,
  dbsvr_query_timeout, dbsvr_query_success, dbsvr_update, data_server, DbHandle, ServerResponse,
  HandlerSession, World, RspTypes, parse_error, on_session_finish,
}
use lsf.Server.Handler.Handles.{new_handle, assign, pending, handle_at}
use lsf.Server.Handler.Database
use lsf.Server.Handler.Progress.{asked_for, on_query_message-pending}
use lsf.Server.Handler.Unlocks.{
  count_releases, count_held, holds, on_session_finish-releases, on_update-releases,
  on_update-loses_lock,
}
use lsf.Server.Handler.Entry.Endings.{get_server_response-parse_error}
use lsf.Manager.Sessions.{get_session}
use lsf.Server.Handler.Machine.{run, default_handler}
use lsf.Server.Handler.Machine.Ranks.{rank, fits, weight}
use lsf.Server.Handler.Machine.Outcome.{Outcome, run-Outcome, IsLowering}
use lsf.Server.Handler.Machine.Handlers.{
  default_handler-IsLowering, updating_handler, updating_handler-IsLowering,
}
use lsf.Server.Handler.Entry.{
  answered, timed_out, clear_timer, drop_timer, get_server_response, wait_response_timeout,
}
use lsf.Server.Handler.Entry.Events.{fuel_for}
use lsf.Server.Handler.Entry.Resumed.{get_server_response-Outcome, wait_response_timeout-Outcome}

abbrev types : RspTypes
types = record { cs_rsp_type = some 12; ss_rsp_type = none }

abbrev empty_response : Response
empty_response = record {
  result = ok_result;
  data_type = 1;
  id = 0;
  version = none;
  content = no_data;
  lock_id = none;
}

abbrev first_answer : ServerResponse
first_answer = record {
  src_server_type = data_server;
  query_rsp = record empty_response { data_type = 3; id = 5; version = some 2; lock_id = some 7 };
  update_rsp = empty_response;
  insert_rsp = empty_response;
  delete_rsp = empty_response;
}

abbrev locking : ℕ → DbHandle
locking id = record (new_handle 3 id) { need_lock = some true }

-- A handle that has its answer, with a lock.
abbrev filled : DbHandle
filled = record (locking 5) {
  query_finish = true;
  version = some 2;
  lock_id = some 7;
  content = record { robot_data = some (record { uid = some 5; last_init_chips_time = none }) };
}

abbrev some_session : State → List DbHandle → HandlerSession
some_session s hs = record {
  base = record { session_id = 1; create_time = 50; timer_id = some 4 };
  state = s;
  db_handles = hs;
  db_process_index = 0;
  is_send_rsp = false;
  cs_request = some 11;
  uid = 5;
  cs_error = none;
  ss_request = none;
  ss_error = none;
  svr_response = first_answer;
  curl_result = false;
  curl_content = [];
}

abbrev world : State → List DbHandle → World
world s hs = record {
  session = some_session s hs;
  sessions = record { sessions = record { max_size = 10; map = [] }; cur_max_id = 1 };
  timers = record { timers = record { max_size = 10; map = [] }; timer_heap = []; cur_max_id = 4 };
  sent = [];
}

-- Two queries without an answer.
abbrev asking : World
asking = world dbsvr_query_wait (locking 5 ∷ locking 6 ∷ [])

asking-fits : fits dbsvr_query_wait asking ≡ true
unfolding fits
asking-fits = refl

answered_by_data_server : answered dbsvr_query_wait ≡ some (data_server, dbsvr_query_message)
unfolding answered
answered_by_data_server = refl

get_server_response-Outcome_example :
    (w' : World) × ((get_server_response
          (fuel_for asking)
          (updating_handler types)
          60
          first_answer
          asking
        ≡ some w')
      × Outcome 60 (drop_timer asking).session.base (drop_timer asking).timers w')
get_server_response-Outcome_example =
    get_server_response-Outcome (updating_handler types) 60 first_answer asking data_server
      dbsvr_query_message (updating_handler-IsLowering types) answered_by_data_server refl
      asking-fits (omega arith)

times_out : timed_out dbsvr_query_wait ≡ some dbsvr_query_timeout
unfolding timed_out
times_out = refl

wait_response_timeout-Outcome_example :
    (w' : World) × ((wait_response_timeout (fuel_for asking) (default_handler types) 2060 asking
        ≡ some w')
      × Outcome 2060 (clear_timer asking).session.base asking.timers w')
wait_response_timeout-Outcome_example =
    wait_response_timeout-Outcome (default_handler types) 2060 asking dbsvr_query_timeout
      (default_handler-IsLowering types) times_out asking-fits (omega arith)

abbrev started : World
started = world dbsvr_query (locking 5 ∷ locking 6 ∷ [])

started-fits : fits dbsvr_query started ≡ true
unfolding fits
started-fits = refl

started-rank : rank dbsvr_query started < 20
unfolding rank weight
started-rank = omega arith

run-Outcome_example :
    (w' : World) × ((run 20 (default_handler types) 60 started ≡ some w')
      × Outcome 60 started.session.base started.timers w')
run-Outcome_example =
    run-Outcome 20 (default_handler types) 60 started (default_handler-IsLowering types)
      started-fits (omega arith) started-rank

asked : asked_for 3 5 (locking 5 ∷ locking 6 ∷ []) ≡ true
unfolding asked_for
asked = refl

on_query_message-pending_example :
    (suc (pending (Database.on_query_message types asking).1.session.db_handles)
      ≡ pending (locking 5 ∷ locking 6 ∷ []))
    × ((Database.on_query_message types asking).0 ≡ (
        if pending (locking 5 ∷ locking 6 ∷ []) == 1
        then dbsvr_query_success
        else dbsvr_query_wait))
on_query_message-pending_example = on_query_message-pending types asking refl refl asked

-- The default query is for the data of the user.
abbrev user_answer : ServerResponse
user_answer = record first_answer {
  query_rsp = record empty_response { data_type = 1; id = 5; version = some 2 };
}

abbrev user_asking : World
user_asking = world dbsvr_query_wait (record (new_handle 1 5) { need_lock = some true } ∷ [])

get_server_response-parse_error_example :
    (w' : World) × ((get_server_response 2 (default_handler types) 60 user_answer user_asking
        ≡ some w')
      × ((get_session 1 w'.sessions ≡ none)
          × (w'.sent
              ≡ ([]
                  ++ unlock_messages
                      (assign user_answer.query_rsp user_asking.session.db_handles).1)
                ++ (client_response 12 (some parse_error) ∷ []))))
get_server_response-parse_error_example =
    get_server_response-parse_error types 60 user_answer user_asking refl refl refl refl refl 0 11
      12 refl refl refl

abbrev writing : World
writing = world dbsvr_update (filled ∷ locking 6 ∷ [])

on_session_finish-releases_example :
    count_releases 3 5 7 (on_session_finish types writing).sent
    ≡ count_releases 3 5 7 [] + count_held 3 5 7 (filled ∷ locking 6 ∷ [])
on_session_finish-releases_example = on_session_finish-releases types 3 5 7 writing

first_handle : handle_at 0 (filled ∷ locking 6 ∷ []) ≡ some filled
unfolding handle_at
first_handle = refl

saved :
    Database.to_save filled.content.robot_data
    ≡ some (record { uid = some 5; last_init_chips_time = none })
unfolding Database.to_save
saved = refl

on_update-releases_example :
    count_releases 3 5 7 (Database.on_update types writing).1.sent
      + count_held 3 5 7 (Database.on_update types writing).1.session.db_handles
    ≡ count_releases 3 5 7 [] + count_held 3 5 7 (filled ∷ locking 6 ∷ [])
on_update-releases_example =
    on_update-releases types 3 5 7 7 writing filled
      (record { uid = some 5; last_init_chips_time = none }) first_handle refl saved refl refl

-- A handle with a lock whose data are empty.
abbrev nothing_to_write : DbHandle
nothing_to_write = record filled { content = no_data }

abbrev not_writing : World
not_writing = world dbsvr_update (nothing_to_write ∷ [])

only_handle : handle_at 0 (nothing_to_write ∷ []) ≡ some nothing_to_write
unfolding handle_at
only_handle = refl

not_saved : Database.to_save nothing_to_write.content.robot_data ≡ none
unfolding Database.to_save
not_saved = refl

on_update-loses_lock_example :
    ((Database.on_update types not_writing).1.sent ≡ [])
    × ((t i l : ℕ)
        → count_held t i l (Database.on_update types not_writing).1.session.db_handles
            + (if holds t i l nothing_to_write then 1 else 0)
          ≡ count_held t i l (nothing_to_write ∷ []))
on_update-loses_lock_example =
    on_update-loses_lock types not_writing nothing_to_write only_handle refl not_saved

default_handler-IsLowering_example : IsLowering (default_handler types)
default_handler-IsLowering_example = default_handler-IsLowering types
