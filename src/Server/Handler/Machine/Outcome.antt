-- ===== src/Server/Handler/Machine/Outcome.antt =====
-- What a run of `RunStateMachine` in dev/svr/common/basic_handler.cpp comes to: it ends, and the
-- session is gone or waits.
use lsf.Prelude.{
  ℕ, zero, suc, ◌≤◌, ◌<◌, true, false, Option, none, some, ◌≡◌, arith, refl, ◌⊎◌, inl, inr,
  Bool-cases, ap, sym, subst, ◌∙◌, add64, ==_refl,
}
use lsf.Prelude.Dict
use lsf.Manager
use lsf.Manager.Ids.{id_count}
use lsf.Manager.Timers.{Timer, TimerManager, create_timer, create_timer-fresh, get_timer}
use lsf.Manager.Sessions.{Session, get_session, release_session}
use lsf.Server.Handler.{
  State, World, RspTypes, set_state, send_all, on_session_finish, send_response,
  session_timeout_type, set_session_timer, store, release_own, use_timer, own_timer, respond,
  respond_server, mark_sent,
}
use lsf.Server.Handler.Machine.{
  Phase, runs, waits, ends, phase, Handler, enter, advance, suspend, end_session, run,
}
use lsf.Server.Handler.Machine.Ranks.{rank, fits, Lowers}

-- The managers and the fields of the session that they know.
abbrev pub Same : World → World → Type 0
Same w w' =
    (w'.timers ≡ w.timers) × ((w'.sessions ≡ w.sessions) × (w'.session.base ≡ w.session.base))

-- The callbacks of a handler lower the measure, and leave the managers alone.
pub record IsLowering (h : Handler) : Type 0 where
  pub lowers : (s : State) (w : World) → phase s ≡ runs → fits s w ≡ true → Lowers s w (h.on s w)
  pub same : (s s' : State) (w w' : World) → h.on s w ≡ some (s', w') → Same w w'
  pub finishes : (w : World) → Same w (h.on_finish w)

-- The timer that a session waits under: it is the session's, and due after this time from now.
abbrev pub waiting_timer : ℕ → ℕ → ℕ → ℕ → Timer
waiting_timer now ms session_id id = record {
  timer_id = id;
  timer_milli_seconds = add64 now ms;
  timer_type = session_timeout_type;
  is_delete = false;
  session_id = session_id;
}

-- The session waits, the manager has it as it is, and it has a new timer, unless there is no room for one.
pub record Waits (now : ℕ) (base : Session) (timers : TimerManager) (after : World) : Type 0 where
  pub time : ℕ
  pub state : phase after.session.state ≡ waits time
  pub in_range : fits after.session.state after ≡ true
  pub own : after.session.base.session_id ≡ base.session_id
  pub stored : get_session base.session_id after.sessions ≡ some after.session.base
  pub timer :
      (Manager.full timers.timers ≡ true)
      ⊎ ((id : ℕ) × ((after.session.base.timer_id ≡ some id)
            × (get_timer id after.timers ≡ some (waiting_timer now time base.session_id id))))

-- The session is gone, or it waits.
unfoldable pub Outcome : ℕ → Session → TimerManager → World → Type 0
Outcome now base timers w' =
    (get_session base.session_id w'.sessions ≡ none) ⊎ Waits now base timers w'

-- What `advance` makes of the result of a callback.
enter-lower :
    (s : State) (w : World) (o : Option (State × World))
    → Lowers s w o
    → ((s' : State) (w' : World) → o ≡ some (s', w') → Same w w')
    → (w' : World) × ((enter o ≡ some w')
        × ((rank w'.session.state w' < rank s w) × ((fits w'.session.state w' ≡ true) × Same w w')))
unfolding enter Lowers set_state rank fits
enter-lower s w none low same = absurd low
enter-lower s w (some (s', v)) low same = (set_state s' v, (refl, (low.0, (low.1, same s' v refl))))

store-found :
    (w : World) → get_session w.session.base.session_id (store w).sessions ≡ some w.session.base
unfolding store get_session Manager.put
store-found w = ground (
  arith,
  Dict.find-insert w.session.base.session_id w.session.base.session_id w.session.base
      w.sessions.sessions.map,
  ==_refl w.session.base.session_id,
)

own_timer-found :
    (session_id id now ms : ℕ) (timers : TimerManager)
    → get_timer id timers ≡ some (waiting_timer now ms 0 id)
    → get_timer id (own_timer session_id (Dict.find id timers.timers.map) timers)
      ≡ some (waiting_timer now ms session_id id)
unfolding get_timer own_timer Manager.put
own_timer-found session_id id now ms timers e = ground (
  arith,
  e,
  Dict.find-insert id id (waiting_timer now ms session_id id) timers.timers.map,
  ==_refl id,
)

full-Waits :
    (now ms : ℕ) (w : World)
    → phase w.session.state ≡ waits ms
    → fits w.session.state w ≡ true
    → Manager.full w.timers.timers ≡ true
    → (w' : World) × ((suspend (set_session_timer now ms w) ≡ some w')
        × Waits now w.session.base w.timers w')
unfolding set_session_timer suspend create_timer use_timer store fits
full-Waits now ms w p f full = (
  store w,
  (
    ground (arith, full),
    record {
      time = ms;
      state = p;
      in_range = f;
      own = refl;
      stored = store-found w;
      timer = inl full;
    },
  ),
)

timed-Waits :
    (now ms : ℕ) (w : World)
    → phase w.session.state ≡ waits ms
    → fits w.session.state w ≡ true
    → Manager.full w.timers.timers ≡ false
    → w.timers.timers.max_size ≤ id_count
    → (w' : World) × ((suspend (set_session_timer now ms w) ≡ some w')
        × Waits now w.session.base w.timers w')
unfolding set_session_timer suspend use_timer store fits
timed-Waits now ms w p f free small =
    let (id, timers, created, new, found, others, heap) =
      create_timer-fresh now ms session_timeout_type w.timers free small in
    let base' : Session = record w.session.base { timer_id = some id } in
    let v : World = record w {
      timers = own_timer w.session.base.session_id (Dict.find id timers.timers.map) timers;
      session = record w.session { base = base' };
    } in
    (
      store v,
      (
        ap (λ o. suspend (use_timer o w)) created,
        record {
          time = ms;
          state = p;
          in_range = f;
          own = refl;
          stored = store-found v;
          timer =
              inr (id, (refl, own_timer-found w.session.base.session_id id now ms timers found));
        },
      ),
    )

release_own-gone :
    (w : World) → get_session w.session.base.session_id (release_own w).sessions ≡ none
unfolding release_own release_session get_session Manager.erase
release_own-gone w = ground (
  arith,
  Dict.find-erase w.session.base.session_id w.session.base.session_id
      (store w).sessions.sessions.map,
  ==_refl w.session.base.session_id,
)

pub on_session_finish-Same : (types : RspTypes) (w : World) → Same w (on_session_finish types w)
unfolding on_session_finish send_response send_all respond respond_server mark_sent
on_session_finish-Same types w = (ground arith, (ground arith, ground arith))

pub ends-gone :
    (h : Handler) (w : World)
    → IsLowering h
    → get_session w.session.base.session_id (end_session h w).sessions ≡ none
unfolding end_session
ends-gone h w good =
    subst (λ b. get_session b.session_id (end_session h w).sessions ≡ none) (good.finishes w).1.1
      (release_own-gone (h.on_finish w))

pub Phase-cases : (p : Phase) → ((p ≡ ends) ⊎ ((ms : ℕ) × (p ≡ waits ms))) ⊎ (p ≡ runs)
Phase-cases runs = inr refl
Phase-cases (waits ms) = inl (inr (ms, refl))
Phase-cases ends = inl (inl refl)

-- One round of the loop.
pub run-ends :
    (n : ℕ) (h : Handler) (now : ℕ) (w : World)
    → phase w.session.state ≡ ends
    → run (suc n) h now w ≡ some (end_session h w)
unfolding run
run-ends n h now w e = ground (arith, e)

pub run-waits :
    (n : ℕ) (h : Handler) (now ms : ℕ) (w : World)
    → phase w.session.state ≡ waits ms
    → run (suc n) h now w ≡ suspend (set_session_timer now ms w)
unfolding run
run-waits n h now ms w e = ground (arith, e)

pub run-runs :
    (n : ℕ) (h : Handler) (now : ℕ) (w w' : World)
    → phase w.session.state ≡ runs
    → advance h w ≡ some w'
    → run (suc n) h now w ≡ run n h now w'
unfolding run
run-runs n h now w w' e step = ground (arith, e, step)

set_session_timer-Waits :
    (now ms : ℕ) (w : World)
    → phase w.session.state ≡ waits ms
    → fits w.session.state w ≡ true
    → w.timers.timers.max_size ≤ id_count
    → (w' : World) × ((suspend (set_session_timer now ms w) ≡ some w')
        × Waits now w.session.base w.timers w')
set_session_timer-Waits now ms w p f small = elim (Bool-cases (Manager.full w.timers.timers)) [
  | inl full ↦ full-Waits now ms w p f full
  | inr free ↦ timed-Waits now ms w p f free small
]

-- For a handler whose callbacks lower the measure and leave the managers alone, a session that
-- fits (fewer than 2^31 handles, one less before a client request, and the index in range where
-- an answer needs it), a timer manager for at most 2^24 timers, and more fuel than the measure,
-- `RunStateMachine` ends; then the session is gone from its manager, or it is in a waiting state
-- and stored, and has a timer of that state's length, unless there was no room for one.
pub run-Outcome :
    (n : ℕ) (h : Handler) (now : ℕ) (w : World)
    → IsLowering h
    → fits w.session.state w ≡ true
    → w.timers.timers.max_size ≤ id_count
    → rank w.session.state w < n
    → (w' : World) × ((run n h now w ≡ some w') × Outcome now w.session.base w.timers w')
unfolding Outcome advance
run-Outcome zero h now w good f small less = absurd (omega arith)
run-Outcome (suc n) h now w good f small less = elim (Phase-cases (phase w.session.state)) [
  | inl (inl e) ↦ (end_session h w, (run-ends n h now w e, inl (ends-gone h w good)))
  | inl (inr (ms, e)) ↦
      let (w', (eq, waiting)) = set_session_timer-Waits now ms w e f small in
      (w', (run-waits n h now ms w e ∙ eq, inr waiting))
  | inr e ↦
      let s = w.session.state in
      let (v, (step, (less', (f', (timers, (sessions, base)))))) =
        enter-lower s w (h.on s w) (good.lowers s w e f) (λ s' w' on. good.same s s' w w' on) in
      let small' : v.timers.timers.max_size ≤ id_count =
        subst (λ t. t.timers.max_size ≤ id_count) (sym timers) small in
      let (w', (eq, o)) = run-Outcome n h now v good f' small' (omega arith) in
      (
        w',
        (
          run-runs n h now w v e step ∙ eq,
          subst (λ b. Outcome now b w.timers w') base
              (subst (λ t. Outcome now v.session.base t w') timers o),
        ),
      )
]
