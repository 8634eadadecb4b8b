-- ===== src/Server/Dispatch/Events.antt =====
-- What an SS message or a timer of dev/svr/common/common_service.cpp and session_manager.cpp leaves of
-- the sessions that it is not for.
use lsf.Prelude.{
  ℕ, Bool, true, false, not, Option, none, some, if◌then◌else◌, ◌≡◌, ◌≢◌, arith, refl, inl, inr,
  Option-cases, sym, subst, ==_false,
}
use lsf.Prelude.Dict
use lsf.Prelude.Dict.{Dict}
use lsf.Manager.Sessions.{Session, SessionManager, get_session}
use lsf.Server.Handler.{State, HandlerSession, ServerResponse, ServerType, World, set_state}
use lsf.Server.Handler.Machine.{Handler, run}
use lsf.Server.Handler.Machine.Outcome.{IsLowering}
use lsf.Server.Handler.Entry.{
  get_server_response, wait_response_timeout, resume_answered, resume_timed_out, answered,
  timed_out, receive, drop_timer, clear_timer, same_server,
}
use lsf.Server.Dispatch.{
  Server, load, load_found, keep_body, settle, on_session_timer, timeout_found, HandlerManager,
  instance_of, restore_session,
}
use lsf.Server.Dispatch.Isolation.{OthersIn, run-Others}

-- A session is as before.
abbrev pub Kept : ℕ → Server → Server → Type 0
Kept k s s' =
    (get_session k s'.sessions ≡ get_session k s.sessions)
    × (Dict.find k s'.bodies ≡ Dict.find k s.bodies)

-- All sessions are, but perhaps this one.
abbrev pub ApartIn : ℕ → Server → Option Server → Type 0
ApartIn id s none = s ≡ s
ApartIn id s (some s') = (k : ℕ) → k ≢ id → Kept k s s'

keep_body-other :
    (id k : ℕ) (o : Option Session) (body : HandlerSession) (bodies : Dict HandlerSession)
    → k ≢ id
    → Dict.find k (keep_body id o body bodies) ≡ Dict.find k bodies
unfolding keep_body
keep_body-other id k none body bodies ne =
    ground (arith, Dict.find-erase id k bodies, ==_false id k (λ e. ne (sym e)))
keep_body-other id k (some base) body bodies ne =
    ground (arith, Dict.find-insert id k body bodies, ==_false id k (λ e. ne (sym e)))

pub settle-Apart :
    (id : ℕ) (o : Option World) (s : Server)
    → OthersIn id s.sessions o
    → ApartIn id s (settle id o s)
unfolding settle
settle-Apart id none s others = refl
settle-Apart id (some w) s others =
    λ k ne. (others k ne, keep_body-other id k (get_session id w.sessions) w.session s.bodies ne)

OthersIn-branch :
    (id : ℕ) (m : SessionManager) (b : Bool) (x y : Option World)
    → OthersIn id m x
    → OthersIn id m y
    → OthersIn id m (if b then x else y)
OthersIn-branch id m true x y hx hy = hx
OthersIn-branch id m false x y hx hy = hy

resume_answered-Others :
    (fuel : ℕ) (h : Handler) (now : ℕ) (rsp : ServerResponse) (w : World)
    (o : Option (ServerType × State))
    → IsLowering h
    → OthersIn w.session.base.session_id w.sessions (resume_answered fuel h now rsp w o)
unfolding resume_answered receive drop_timer clear_timer set_state
resume_answered-Others fuel h now rsp w none good = λ k ne. refl
resume_answered-Others fuel h now rsp w (some (need, s)) good =
    let v = set_state s (receive rsp (drop_timer w)) in
    OthersIn-branch w.session.base.session_id w.sessions
      (not (same_server rsp.src_server_type need)) (some w) (run fuel h now v) (λ k ne. refl)
      (run-Others fuel h now v good)

get_server_response-Others :
    (fuel : ℕ) (h : Handler) (now : ℕ) (rsp : ServerResponse) (w : World)
    → IsLowering h
    → OthersIn w.session.base.session_id w.sessions (get_server_response fuel h now rsp w)
unfolding get_server_response receive
get_server_response-Others fuel h now rsp w good =
    resume_answered-Others fuel h now rsp (receive rsp w) (answered w.session.state) good

resume_timed_out-Others :
    (fuel : ℕ) (h : Handler) (now : ℕ) (w : World) (o : Option State)
    → IsLowering h
    → OthersIn w.session.base.session_id w.sessions (resume_timed_out fuel h now w o)
unfolding resume_timed_out clear_timer set_state
resume_timed_out-Others fuel h now w none good = λ k ne. refl
resume_timed_out-Others fuel h now w (some s) good =
    run-Others fuel h now (set_state s (clear_timer w)) good

-- Every session is stored under its own id.
abbrev pub Own : Server → Type 0
Own s = (k : ℕ) (b : Session) → get_session k s.sessions ≡ some b → b.session_id ≡ k

-- The handlers of a manager, the fallback included, lower the measure.
abbrev pub AllLowering : HandlerManager → Type 0
AllLowering hs = (cs ss : Option ℕ) → IsLowering (instance_of hs cs ss)

-- The world of a session that was found has its id and the manager as it is.
load-found :
    (id : ℕ) (s : Server) (w : World)
    → Own s
    → load id s ≡ some w
    → (w.session.base.session_id ≡ id) × (w.sessions ≡ s.sessions)
unfolding load load_found
load-found id s w own e = elim (Option-cases (get_session id s.sessions)) [
  | inl g ↦ absurd (ground (arith, e, g))
  | inr (b, g) ↦ elim (Option-cases (Dict.find id s.bodies)) [
    | inl f ↦ absurd (ground (arith, e, g, f))
    | inr (body, f) ↦ (ground (arith, e, g, f, own id b g), ground (arith, e, g, f))
  ]
]

pub restore_session-Apart :
    (fuel : ℕ) (hs : HandlerManager) (now id : ℕ) (rsp : ServerResponse) (s : Server)
    → AllLowering hs
    → Own s
    → ApartIn id s (restore_session fuel hs now id rsp (load id s) s)
unfolding restore_session
restore_session-Apart fuel hs now id rsp s good own =
    elim (Option-cases (load id s))
      as (λ _. ApartIn id s (restore_session fuel hs now id rsp (load id s) s)) [
        | inl e ↦
            subst (λ o. ApartIn id s (restore_session fuel hs now id rsp o s)) (sym e)
              (λ k ne. (refl, refl))
        | inr (w, e) ↦
            let (same, sessions) = load-found id s w own e in
            let h = instance_of hs w.session.cs_request w.session.ss_request in
            let r = get_server_response fuel h now rsp w in
            subst (λ o. ApartIn id s (restore_session fuel hs now id rsp o s)) (sym e)
              (settle-Apart id r s (
                subst (λ m. OthersIn id m r) sessions
                  (subst (λ i. OthersIn i w.sessions r) same
                    (get_server_response-Others fuel h now rsp w
                      (good w.session.cs_request w.session.ss_request)))))
      ]

-- If a session timer is processed to an end, it leaves all sessions as they were, but its own.
pub on_session_timer-Apart :
    (fuel : ℕ) (hs : HandlerManager) (now id : ℕ) (s : Server)
    → AllLowering hs
    → Own s
    → ApartIn id s (on_session_timer fuel hs now id s)
unfolding on_session_timer timeout_found wait_response_timeout
on_session_timer-Apart fuel hs now id s good own =
    elim (Option-cases (load id s))
      as (λ _. ApartIn id s (timeout_found fuel hs now id (load id s) s)) [
        | inl e ↦
            subst (λ o. ApartIn id s (timeout_found fuel hs now id o s)) (sym e)
              (λ k ne. (refl, refl))
        | inr (w, e) ↦
            let (same, sessions) = load-found id s w own e in
            let h = instance_of hs w.session.cs_request w.session.ss_request in
            let r = wait_response_timeout fuel h now w in
            subst (λ o. ApartIn id s (timeout_found fuel hs now id o s)) (sym e)
              (settle-Apart id r s (
                subst (λ m. OthersIn id m r) sessions
                  (subst (λ i. OthersIn i w.sessions r) same
                    (resume_timed_out-Others fuel h now w (timed_out w.session.state)
                      (good w.session.cs_request w.session.ss_request)))))
      ]
