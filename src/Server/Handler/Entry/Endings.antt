-- ===== src/Server/Handler/Entry/Endings.antt =====
-- How an answer that the session cannot use ends it: `OnDBSvrQueryMessage`, `OnSessionFinish` and
-- `ReleaseSession` of dev/svr/common/basic_handler.cpp in one event.
use lsf.Prelude.{
  ℕ, suc, true, false, Option, none, some, [], ◌∷◌, ◌++◌, ◌==◌, ◌≡◌, arith, refl, subst, ◌∙◌, ap,
  ap₂,
}
use lsf.Manager.Sessions.{get_session}
use lsf.Server.Messages.{robot_data_type}
use lsf.Server.Handler.{
  State, finish, httpsvr_wait, curl_wait, confsvr_wait, dbsvr_update_wait, dbsvr_insert_wait,
  dbsvr_delete_wait, dbsvr_query_wait, dbsvr_query_message, World, RspTypes, ServerResponse,
  data_server, ServerType, client_response, parse_error, set_state, set_handles, set_error,
  error_if, send_all, mark_sent, respond, send_response, on_session_finish, unlock_messages,
  release_own, store,
}
use lsf.Server.Handler.Handles.{is_ok, assign, has_handle}
use lsf.Server.Handler.Database.{default_on}
use lsf.Server.Handler.Progress.{on_query_message-unknown}
use lsf.Server.Handler.Machine.{
  Handler, default_handler, phase, runs, ends, advance, enter, end_session, run,
}
use lsf.Server.Handler.Machine.Outcome.{run-runs, run-ends, ends-gone}
use lsf.Server.Handler.Machine.Handlers.{default_handler-IsLowering}
use lsf.Server.Handler.Entry.{
  timed_out, resume_timed_out, wait_response_timeout, answered, same_server, receive, drop_timer,
  clear_timer, resume_answered, get_server_response,
}

finish-ends : (w : World) → w.session.state ≡ finish → phase w.session.state ≡ ends
unfolding phase
finish-ends w e = rw e refl

-- Two rounds are enough when the callback ends the session.
pub run-finish :
    (n : ℕ) (h : Handler) (now : ℕ) (w v : World)
    → phase w.session.state ≡ runs
    → advance h w ≡ some v
    → v.session.state ≡ finish
    → run (suc (suc n)) h now w ≡ some (end_session h v)
run-finish n h now w v p step e =
    run-runs (suc n) h now w v p step ∙ run-ends n h now v (finish-ends v e)

-- The end of a session sends what unlocks its data, and the response.
sent-end_session :
    (types : RspTypes) (w : World) (t c : ℕ)
    → w.session.cs_request ≡ some t
    → types.cs_rsp_type ≡ some c
    → w.session.is_send_rsp ≡ false
    → (end_session (default_handler types) w).sent
      ≡ (w.sent ++ unlock_messages w.session.db_handles)
        ++ (client_response c w.session.cs_error ∷ [])
unfolding end_session default_handler on_session_finish send_response send_all respond mark_sent
    release_own store
sent-end_session types w t c asked typed fresh = ground (arith, asked, typed, fresh)

-- An answer that is waited for is given to the loop.
resumed :
    (fuel : ℕ) (h : Handler) (now : ℕ) (rsp : ServerResponse) (w : World) (need : ServerType)
    (s : State)
    → answered w.session.state ≡ some (need, s)
    → same_server rsp.src_server_type need ≡ true
    → get_server_response fuel h now rsp w
      ≡ run fuel h now (set_state s (receive rsp (drop_timer (receive rsp w))))
unfolding get_server_response resume_answered receive
resumed fuel h now rsp w need s e same = ground (arith, e, same)

-- The world in which the answer is looked at.
abbrev taken : ServerResponse → World → World
taken rsp w = set_state dbsvr_query_message (receive rsp (drop_timer (receive rsp w)))

abbrev refused : RspTypes → ServerResponse → World → World
refused types rsp w = set_state finish (
    set_error types parse_error
      (set_handles (assign rsp.query_rsp w.session.db_handles).1 (taken rsp w)))

-- The error is noted; nothing is sent yet.
refused-fields :
    (types : RspTypes) (rsp : ServerResponse) (w : World) (t c : ℕ)
    → w.session.cs_request ≡ some t
    → types.cs_rsp_type ≡ some c
    → let v = refused types rsp w in
      (v.session.base.session_id ≡ w.session.base.session_id)
      × ((v.session.cs_request ≡ some t)
          × ((v.session.cs_error ≡ some parse_error)
              × ((v.session.is_send_rsp ≡ w.session.is_send_rsp)
                  × ((v.session.db_handles ≡ (assign rsp.query_rsp w.session.db_handles).1)
                      × (v.sent ≡ w.sent)))))
unfolding set_error error_if set_handles set_state receive drop_timer clear_timer
refused-fields types rsp w t c asked typed =
    rw (asked, typed) (refl, (refl, (refl, (refl, (refl, refl)))))

module _ (types : RspTypes) (now : ℕ) (rsp : ServerResponse) (w : World)
    (waiting : w.session.state ≡ dbsvr_query_wait) (from : rsp.src_server_type ≡ data_server)
    (good : is_ok rsp.query_rsp.result ≡ true)
    (unknown : (rsp.query_rsp.data_type == robot_data_type) ≡ false)
    (there : has_handle rsp.query_rsp.data_type rsp.query_rsp.id w.session.db_handles ≡ true) where
  advance-refused : advance (default_handler types) (taken rsp w) ≡ some (refused types rsp w)
  unfolding advance default_handler default_on enter set_state receive drop_timer clear_timer
  advance-refused =
      ap (λ p. enter (some p)) (on_query_message-unknown types (taken rsp w) good unknown there)

  from_data_server : same_server rsp.src_server_type data_server ≡ true
  from_data_server = rw from refl

  answered_query : answered w.session.state ≡ some (data_server, dbsvr_query_message)
  unfolding answered
  answered_query = rw waiting refl

  get_server_response-refused :
      (n : ℕ)
      → get_server_response (suc (suc n)) (default_handler types) now rsp w
        ≡ some (end_session (default_handler types) (refused types rsp w))
  unfolding phase set_state
  get_server_response-refused n =
      resumed (suc (suc n)) (default_handler types) now rsp w data_server dbsvr_query_message
        answered_query from_data_server
      ∙ run-finish n (default_handler types) now (taken rsp w) (refused types rsp w) refl
          advance-refused refl

  -- When a session of a client request that waits for a query, and whose handler overrides
  -- nothing of `BasicHandler` and has a type of client responses, gets an answer of the data
  -- server without an error, for one of its handles, whose type is not that of robot data, and no
  -- response was sent, then two rounds of the loop are enough for `GetServerResponse`; the
  -- session is gone, and what was sent for it are the messages that unlock the data of its
  -- handles, as the answer leaves them, and the client response with the parse error.
  pub get_server_response-parse_error :
      (n t c : ℕ)
      → w.session.cs_request ≡ some t
      → types.cs_rsp_type ≡ some c
      → w.session.is_send_rsp ≡ false
      → (w' : World) × ((get_server_response (suc (suc n)) (default_handler types) now rsp w
            ≡ some w')
          × ((get_session w.session.base.session_id w'.sessions ≡ none)
              × (w'.sent
                  ≡ (w.sent ++ unlock_messages (assign rsp.query_rsp w.session.db_handles).1)
                    ++ (client_response c (some parse_error) ∷ []))))
  unfolding default_handler
  get_server_response-parse_error n t c asked typed fresh =
      let h = default_handler types in
      let v = refused types rsp w in
      let (id, (asked', (error, (fresh', (handles, sent))))) =
        refused-fields types rsp w t c asked typed in
      (
        end_session h v,
        (
          get_server_response-refused n,
          (
            subst (λ i. get_session i (end_session h v).sessions ≡ none) id
                (ends-gone h v (default_handler-IsLowering types)),
            sent-end_session types v t c asked' typed (fresh' ∙ fresh)
                ∙ ap₂ (λ ms e. ms ++ (client_response c e ∷ []))
                    (ap₂ (λ ms hs. ms ++ unlock_messages hs) sent handles) error,
          ),
        ),
      )

-- `BasicHandler` ends a session in each of the states of a timeout.
abbrev EndsIn : RspTypes → Option State → World → Type 0
EndsIn types none w = w ≡ w
EndsIn types (some s) w =
    (phase s ≡ runs) × ((v : World) × (default_on types s w ≡ some (finish, v)))

timed_out-EndsIn : (types : RspTypes) (s : State) (w : World) → EndsIn types (timed_out s) w
unfolding timed_out phase default_on
timed_out-EndsIn types httpsvr_wait w = (refl, (_, refl))
timed_out-EndsIn types curl_wait w = (refl, (_, refl))
timed_out-EndsIn types confsvr_wait w = (refl, (_, refl))
timed_out-EndsIn types dbsvr_query_wait w = (refl, (_, refl))
timed_out-EndsIn types dbsvr_update_wait w = (refl, (_, refl))
timed_out-EndsIn types dbsvr_insert_wait w = (refl, (_, refl))
timed_out-EndsIn types dbsvr_delete_wait w = (refl, (_, refl))
timed_out-EndsIn types _ w = refl

-- The timer of a waiting session of `BasicHandler` ends the session.
pub wait_response_timeout-gone :
    (n : ℕ) (types : RspTypes) (now : ℕ) (w : World) (s : State)
    → timed_out w.session.state ≡ some s
    → (w' : World) × ((wait_response_timeout (suc (suc n)) (default_handler types) now w ≡ some w')
        × (get_session w.session.base.session_id w'.sessions ≡ none))
unfolding wait_response_timeout resume_timed_out clear_timer set_state advance enter default_handler
wait_response_timeout-gone n types now w s e =
    let h = default_handler types in
    let v = set_state s (clear_timer w) in
    let (p, (x, on)) = subst (λ o. EndsIn types o v) e (timed_out-EndsIn types w.session.state v) in
    let v' = set_state finish x in
    let (timers, (sessions, base)) = (default_handler-IsLowering types).same s finish v x on in
    (
      end_session h v',
      (
        ap (λ o. resume_timed_out (suc (suc n)) h now w o) e
            ∙ run-finish n h now v v' p (ap enter on) refl,
        subst (λ b. get_session b.session_id (end_session h v').sessions ≡ none) base
            (ends-gone h v' (default_handler-IsLowering types)),
      ),
    )
