-- ===== src/Server/Dispatch/Timeouts.antt =====
-- A session timer of dev/svr/common/session_manager.cpp: what becomes of its own session and of all
-- others.
use lsf.Prelude.{
  ℕ, ◌≤◌, true, Option, none, some, ◌≡◌, ◌≢◌, arith, refl, ◌⊎◌, inl, inr, Bool-cases, ◌==◌, sym,
  subst, ◌∙◌, ==_refl,
}
use lsf.Prelude.Dict
use lsf.Prelude.Dict.{Dict}
use lsf.Manager
use lsf.Manager.Ids.{id_count}
use lsf.Manager.Timers.{TimerManager, get_timer}
use lsf.Manager.Sessions.{Session, get_session}
use lsf.Server.Handler.{State, HandlerSession, World}
use lsf.Server.Handler.Machine.{phase, waits}
use lsf.Server.Handler.Machine.Ranks.{fits}
use lsf.Server.Handler.Machine.Outcome.{Outcome, Waits, waiting_timer}
use lsf.Server.Handler.Entry.{timed_out, clear_timer, wait_response_timeout}
use lsf.Server.Handler.Entry.Events.{fuel_for}
use lsf.Server.Handler.Entry.Resumed.{wait_response_timeout-Outcome}
use lsf.Server.Dispatch.{
  Server, HandlerManager, load, load_found, keep_body, settle, timeout_found, on_session_timer,
  instance_of,
}
use lsf.Server.Dispatch.Events.{Kept, ApartIn, Own, AllLowering, on_session_timer-Apart}

-- The world of a session with this entry in the manager and this rest.
abbrev pub loaded : Session → HandlerSession → Server → World
loaded base body s = record {
  session = record body { base = base };
  sessions = s.sessions;
  timers = s.timers;
  sent = s.sent;
}

-- Nothing is left of the session.
abbrev pub Gone : ℕ → Server → Type 0
Gone id s = (get_session id s.sessions ≡ none) × (Dict.find id s.bodies ≡ none)

-- The session waits; its parts are stored together under its id, and it has a new timer, unless
-- there was no room for one in these timers.
pub record Waiting (now id : ℕ) (timers : TimerManager) (s : Server) : Type 0 where
  pub body : HandlerSession
  pub time : ℕ
  pub rest : Dict.find id s.bodies ≡ some body
  pub entry : get_session id s.sessions ≡ some body.base
  pub own : body.base.session_id ≡ id
  pub state : phase body.state ≡ waits time
  pub timer :
      (Manager.full timers.timers ≡ true)
      ⊎ ((t : ℕ) × ((body.base.timer_id ≡ some t)
            × (get_timer t s.timers ≡ some (waiting_timer now time id t))))

module _ (id : ℕ) (s : Server) (w : World) where
  abbrev pub settled : Server
  settled = record {
    sessions = w.sessions;
    timers = w.timers;
    sent = w.sent;
    bodies = keep_body id (get_session id w.sessions) w.session s.bodies;
  }

  pub settled-Gone : get_session id w.sessions ≡ none → Gone id settled
  unfolding keep_body
  settled-Gone e = (e, rw e (ground (arith, Dict.find-erase id id s.bodies, ==_refl id)))

  settled-Waiting :
      (now : ℕ) (base : Session) (timers : TimerManager)
      → base.session_id ≡ id
      → Waits now base timers w
      → Waiting now id timers settled
  unfolding keep_body
  settled-Waiting now base timers same v = record {
    body = w.session;
    time = v.time;
    rest = rw stored (ground (arith, Dict.find-insert id id w.session s.bodies, ==_refl id));
    entry = stored;
    own = v.own ∙ same;
    state = v.state;
    timer =
        subst
          (λ i.
            (Manager.full timers.timers ≡ true)
            ⊎ ((t : ℕ) × ((w.session.base.timer_id ≡ some t)
                  × (get_timer t w.timers ≡ some (waiting_timer now v.time i t)))))
          same v.timer;
  }
    where
      stored : get_session id w.sessions ≡ some w.session.base
      stored = subst (λ i. get_session i w.sessions ≡ some w.session.base) same v.stored

  settled-Outcome :
      (now : ℕ) (base : Session) (timers : TimerManager)
      → base.session_id ≡ id
      → Outcome now base timers w
      → Gone id settled ⊎ Waiting now id timers settled
  unfolding Outcome
  settled-Outcome now base timers same (inl gone) =
      inl (settled-Gone (subst (λ i. get_session i w.sessions ≡ none) same gone))
  settled-Outcome now base timers same (inr v) = inr (settled-Waiting now base timers same v)

-- A session that is found is worked on in its world.
pub timer-found :
    (fuel : ℕ) (hs : HandlerManager) (now id : ℕ) (s : Server) (base : Session)
    (body : HandlerSession) (w : World)
    → get_session id s.sessions ≡ some base
    → Dict.find id s.bodies ≡ some body
    → wait_response_timeout fuel
        (instance_of hs body.cs_request body.ss_request)
        now
        (loaded base body s)
      ≡ some w
    → on_session_timer fuel hs now id s ≡ some (settled id s w)
unfolding on_session_timer load load_found timeout_found settle
timer-found fuel hs now id s base body w found rest e = rw (found, rest, e) refl

-- What is said of the other sessions holds of the server that there is.
apart-Kept :
    (id : ℕ) (s s' : Server) (o : Option Server)
    → o ≡ some s'
    → ApartIn id s o
    → (k : ℕ) → k ≢ id
    → Kept k s s'
apart-Kept id s s' o e apart = subst (ApartIn id s) e apart

Own-Kept :
    (now id : ℕ) (timers : TimerManager) (s s' : Server)
    → Own s
    → ((k : ℕ) → k ≢ id → Kept k s s')
    → Gone id s' ⊎ Waiting now id timers s'
    → Own s'
Own-Kept now id timers s s' own kept fate k b found = elim (Bool-cases (k == id)) [
  | inl e ↦
      own_one fate (subst (λ i. get_session i s'.sessions ≡ some b) (ground arith) found)
      ∙ ground arith
  | inr ne ↦ own k b (sym (kept k (ground arith)).0 ∙ found)
]
  where
    own_one :
        Gone id s' ⊎ Waiting now id timers s'
        → get_session id s'.sessions ≡ some b
        → b.session_id ≡ id
    own_one (inl gone) f = absurd (ground (arith, gone.0, f))
    own_one (inr v) f = ground (arith, v.entry, v.own, f)

-- When the callbacks of every handler lower the measure and leave the managers alone, every
-- session is stored under its own id, the session is stored in a waiting state and fits, and the
-- timer manager is for at most 2^24 timers, then its session timer is processed to an end with
-- fuel of 13 and 5 for each handle; afterwards nothing is left of the session, or it waits again,
-- its parts stored together, with a new timer unless there was no room for one; every other
-- session is as it was, and every session is stored under its own id.
pub on_session_timer-ends :
    (hs : HandlerManager) (now id : ℕ) (s : Server) (base : Session) (body : HandlerSession)
    (next : State)
    → AllLowering hs
    → Own s
    → get_session id s.sessions ≡ some base
    → Dict.find id s.bodies ≡ some body
    → timed_out body.state ≡ some next
    → fits body.state (loaded base body s) ≡ true
    → s.timers.timers.max_size ≤ id_count
    → (s' : Server) × ((on_session_timer (fuel_for (loaded base body s)) hs now id s ≡ some s')
        × ((Gone id s' ⊎ Waiting now id s.timers s') × (((k : ℕ) → k ≢ id → Kept k s s') × Own s')))
unfolding clear_timer
on_session_timer-ends hs now id s base body next good own found rest out f small =
    let h = instance_of hs body.cs_request body.ss_request in
    let v = loaded base body s in
    let (w, (e, o)) =
      wait_response_timeout-Outcome h now v next (good body.cs_request body.ss_request) out f
        small in
    let s' = settled id s w in
    let done = timer-found (fuel_for v) hs now id s base body w found rest e in
    let fate =
      settled-Outcome id s w now (clear_timer v).session.base s.timers (own id base found) o in
    let kept =
      apart-Kept id s s' _ done (on_session_timer-Apart (fuel_for v) hs now id s good own) in
    (s', (done, (fate, (kept, Own-Kept now id s.timers s s' own kept fate))))
