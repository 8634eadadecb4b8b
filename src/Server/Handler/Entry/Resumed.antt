-- ===== src/Server/Handler/Entry/Resumed.antt =====
-- Every event of dev/svr/common/basic_handler.cpp is processed to an end: the session is gone or
-- waits.
use lsf.Prelude.{ℕ, ◌+◌, ◌≤◌, ◌^◌, true, some, length, ◌≡◌, arith, sym, subst, ◌∙◌}
use lsf.Manager
use lsf.Manager.Ids.{id_count}
use lsf.Manager.Timers.{TimerManager, release_timer, set_deleted}
use lsf.Server.Messages.{or_zero}
use lsf.Server.Handler.{State, client_request, World, ServerResponse, ServerType, set_state}
use lsf.Server.Handler.Machine.{Handler}
use lsf.Server.Handler.Machine.Ranks.{fits, room}
use lsf.Server.Handler.Machine.Outcome.{IsLowering, Outcome, run-Outcome}
use lsf.Server.Handler.Entry.{
  answered, timed_out, same_server, clear_timer, drop_timer, receive, resume_answered,
  get_server_response, resume_timed_out, wait_response_timeout, get_client_request,
}
use lsf.Server.Handler.Entry.Events.{fuel_for, rank-bound, After, answered-After, timed_out-After}

max_size-release_timer :
    (id : ℕ) (m : TimerManager) → (release_timer id m).timers.max_size ≡ m.timers.max_size
unfolding release_timer set_deleted Manager.put
max_size-release_timer id m = ground arith

room-pos : (s : State) → 1 ≤ room s
room-pos client_request = omega arith
room-pos _ = omega arith

fits-After : (s s' : State) (w : World) → After s s' → fits s w ≡ true → fits s' w ≡ true
unfolding fits
fits-After s s' w (one, at) f = ground (arith, one, at, f, room-pos s)

-- For a handler whose callbacks lower the measure and leave the managers alone, a waiting session
-- that fits, a timer manager for at most 2^24 timers and an answer of the server that is waited
-- for, `GetServerResponse` ends with fuel of 13 and 5 for each handle; then the session is gone,
-- or it waits, stored and with a new timer if there was room for one.
pub get_server_response-Outcome :
    (h : Handler) (now : ℕ) (rsp : ServerResponse) (w : World) (need : ServerType) (s : State)
    → IsLowering h
    → answered w.session.state ≡ some (need, s)
    → same_server rsp.src_server_type need ≡ true
    → fits w.session.state w ≡ true
    → w.timers.timers.max_size ≤ id_count
    → (w' : World) × ((get_server_response (fuel_for w) h now rsp w ≡ some w')
        × Outcome now (drop_timer w).session.base (drop_timer w).timers w')
unfolding get_server_response resume_answered receive drop_timer clear_timer set_state fits
get_server_response-Outcome h now rsp w need s good e same f small =
    let v = set_state s (receive rsp (drop_timer w)) in
    let f' = fits-After w.session.state s w (answered-After w.session.state s need e) f in
    let (w', (eq, o)) =
      run-Outcome (fuel_for w) h now v good f'
        (subst (λ n. n ≤ id_count)
          (sym (max_size-release_timer (or_zero w.session.base.timer_id) w.timers)) small)
        (rank-bound s v) in
    (w', (ground (arith, e, same) ∙ eq, o))

fits-timed_out :
    (s s' : State) (w : World) → timed_out s ≡ some s' → fits s w ≡ true → fits s' w ≡ true
unfolding fits
fits-timed_out s s' w e f =
    let (one, at) = timed_out-After s s' e in ground (arith, one, at, f, room-pos s)

-- For a handler whose callbacks lower the measure and leave the managers alone, a waiting session
-- that fits and a timer manager for at most 2^24 timers, `WaitResponseTimeout` ends with fuel of
-- 13 and 5 for each handle; then the session is gone, or it waits, stored and with a new timer if
-- there was room for one.
pub wait_response_timeout-Outcome :
    (h : Handler) (now : ℕ) (w : World) (s : State)
    → IsLowering h
    → timed_out w.session.state ≡ some s
    → fits w.session.state w ≡ true
    → w.timers.timers.max_size ≤ id_count
    → (w' : World) × ((wait_response_timeout (fuel_for w) h now w ≡ some w')
        × Outcome now (clear_timer w).session.base w.timers w')
unfolding wait_response_timeout resume_timed_out clear_timer set_state fits
wait_response_timeout-Outcome h now w s good e f small =
    let v = set_state s (clear_timer w) in
    let (w', (eq, o)) =
      run-Outcome (fuel_for w) h now v good (fits-timed_out w.session.state s w e f) small
        (rank-bound s v) in
    (w', (ground (arith, e) ∙ eq, o))

pub get_client_request-Outcome :
    (h : Handler) (now msg_type uid : ℕ) (w : World)
    → IsLowering h
    → 2 + length w.session.db_handles ≤ 2 ^ 31
    → w.timers.timers.max_size ≤ id_count
    → (w' : World) × ((get_client_request (fuel_for w) h now msg_type uid w ≡ some w')
        × Outcome now w.session.base w.timers w')
unfolding get_client_request set_state fits
get_client_request-Outcome h now msg_type uid w good few small =
    let v =
      set_state client_request
        (record w { session = record w.session { cs_request = some msg_type; uid = uid } }) in
    run-Outcome (fuel_for w) h now v good (ground (arith, few)) small (rank-bound client_request v)
