-- ===== src/Server/Dispatch/Isolation.antt =====
-- Sessions do not disturb each other: what an event of dev/svr/common/common_service.cpp leaves of the
-- sessions that it is not for.
use lsf.Prelude.{
  ℕ, zero, suc, Option, none, some, ◌≡◌, ◌≢◌, arith, refl, inl, inr, Option-cases, sym, subst, ◌∙◌,
  ==_false,
}
use lsf.Prelude.Dict
use lsf.Prelude.Dict.{Dict}
use lsf.Manager
use lsf.Manager.Ids.{id_count}
use lsf.Manager.Timers.{TimerManager, create_timer}
use lsf.Manager.Sessions.{SessionManager, get_session, release_session}
use lsf.Server.Handler.{
  State, World, set_session_timer, use_timer, own_timer, store, release_own, session_timeout_type,
  set_state,
}
use lsf.Server.Handler.Machine.{Handler, run, phase, runs, advance, enter, suspend, end_session}
use lsf.Server.Handler.Machine.Outcome.{
  Same, IsLowering, Phase-cases, run-ends, run-waits, run-runs,
}

-- The other sessions of the manager are as before.
abbrev pub Others : ℕ → SessionManager → SessionManager → Type 0
Others id m m' = (k : ℕ) → k ≢ id → get_session k m' ≡ get_session k m

store-Others : (w : World) → Others w.session.base.session_id w.sessions (store w).sessions
unfolding store get_session Manager.put
store-Others w k ne = ground (
  arith,
  Dict.find-insert w.session.base.session_id k w.session.base w.sessions.sessions.map,
  ==_false w.session.base.session_id k (λ e. ne (sym e)),
)

-- The same of a result, if there is one.
abbrev pub OthersIn : ℕ → SessionManager → Option World → Type 0
OthersIn id m none = id ≡ id
OthersIn id m (some w) = Others id m w.sessions

use_timer-Others :
    (o : Option (Option ℕ × TimerManager)) (w : World)
    → OthersIn w.session.base.session_id w.sessions (suspend (use_timer o w))
unfolding use_timer suspend
use_timer-Others none w = refl
use_timer-Others (some (none, timers)) w = store-Others (record w { timers = timers })
use_timer-Others (some (some id, timers)) w = store-Others (record w {
  timers = own_timer w.session.base.session_id (Dict.find id timers.timers.map) timers;
  session = record w.session { base = record w.session.base { timer_id = some id } };
})

release_own-Others :
    (w : World) → Others w.session.base.session_id w.sessions (release_own w).sessions
unfolding release_own release_session get_session Manager.erase
release_own-Others w k ne =
    let id = w.session.base.session_id in
    let apart = ==_false id k (λ e. ne (sym e)) in
    ground (arith, Dict.find-erase id k (store w).sessions.sessions.map, apart)
    ∙ store-Others w k ne

run-none :
    (n : ℕ) (h : Handler) (now : ℕ) (w : World)
    → phase w.session.state ≡ runs
    → advance h w ≡ none
    → run (suc n) h now w ≡ none
unfolding run
run-none n h now w e step = ground (arith, e, step)

end_session-Others :
    (h : Handler) (w : World)
    → IsLowering h
    → Others w.session.base.session_id w.sessions (end_session h w).sessions
unfolding end_session
end_session-Others h w good =
    let (timers, (sessions, base)) = good.finishes w in
    let w' = h.on_finish w in
    subst (λ b. Others b.session_id w.sessions (release_own w').sessions) base
      (subst (λ m. Others w'.session.base.session_id m (release_own w').sessions) sessions
        (release_own-Others w'))

abbrev SameAs : World → Option World → Type 0
SameAs w none = w ≡ w
SameAs w (some w') = Same w w'

enter-Same :
    (w : World) (o : Option (State × World)) (w' : World)
    → ((s' : State) (v : World) → o ≡ some (s', v) → Same w v)
    → enter o ≡ some w'
    → Same w w'
unfolding enter set_state
enter-Same w none w' same e = absurd (ground (arith, e))
enter-Same w (some (s', v)) w' same e = subst (SameAs w) e (same s' v refl)

pub run-Others :
    (n : ℕ) (h : Handler) (now : ℕ) (w : World)
    → IsLowering h
    → OthersIn w.session.base.session_id w.sessions (run n h now w)
unfolding run advance set_session_timer
run-Others zero h now w good = refl
run-Others (suc n) h now w good =
    let id = w.session.base.session_id in
    elim (Phase-cases (phase w.session.state))
      as (λ _. OthersIn id w.sessions (run (suc n) h now w)) [
        | inl (inl e) ↦
            subst (OthersIn id w.sessions) (sym (run-ends n h now w e))
              (end_session-Others h w good)
        | inl (inr (ms, e)) ↦
            subst (OthersIn id w.sessions) (sym (run-waits n h now ms w e))
              (use_timer-Others (create_timer id_count now ms session_timeout_type w.timers) w)
        | inr e ↦
            elim (Option-cases (advance h w))
              as (λ _. OthersIn id w.sessions (run (suc n) h now w)) [
                | inl step ↦ subst (OthersIn id w.sessions) (sym (run-none n h now w e step)) refl
                | inr (v, step) ↦
                    let (timers, (sessions, base)) =
                      enter-Same w (h.on w.session.state w) v
                        (λ s' x on. good.same w.session.state s' w x on) step in
                    subst (OthersIn id w.sessions) (sym (run-runs n h now w v e step)) (
                      subst (λ b. OthersIn b.session_id w.sessions (run n h now v)) base
                        (subst (λ m. OthersIn v.session.base.session_id m (run n h now v)) sessions
                          (run-Others n h now v good)))
              ]
      ]
