-- ===== src/Manager/Sessions.antt =====
-- `SessionManager` of dev/svr/common/session_manager.cpp, with the timers it shares.
pub mod Leaks
use lsf.Prelude.{
  ℕ, ◌+◌, ◌*◌, ◌≤◌, ◌<◌, ◌%◌, ◌^◌, Bool, true, false, not, ◌&&◌, ◌||◌, Option, none, some, List, [],
  ◌∷◌, ◌==◌, ltb, leb, if◌then◌else◌, length, mem, map, arith, ◌≡◌, ◌≢◌, refl, Bool-cases, inl, inr,
  Distinct, add64, ◌∙◌, ap, sym,
}
use lsf.Prelude.Dict.{Dict}
use lsf.Prelude.Dict
use lsf.Manager.{Manager}
use lsf.Manager
use lsf.Manager.Ids.{next_id, id_count, next_id-total}
use lsf.Manager.Timers.{TimerManager, release_timer}

-- The fields that the manager reads; `timer_id` is optional, as in the message.
pub record Session : Type 0 where
  pub session_id : ℕ
  pub create_time : ℕ
  pub timer_id : Option ℕ

pub record SessionManager : Type 0 where
  pub sessions : Manager Session
  pub cur_max_id : ℕ

-- `DEF_SESSION_LEAK_TIME`.
abbrev pub leak_time : ℕ
leak_time = 300 * 1000

unfoldable pub get_session : ℕ → SessionManager → Option Session
get_session id m = Dict.find id m.sessions.map

unfoldable pub create_session : ℕ → ℕ → SessionManager → Option (Option ℕ × SessionManager)
create_session fuel now m =
    if Manager.full m.sessions
    then some (none, m)
    else elim (next_id fuel (λ k. Manager.exist k m.sessions) m.cur_max_id) [
      | none ↦ none
      | some (id, cur') ↦
          let session : Session = record { session_id = id; create_time = now; timer_id = none } in
          some (some id, record { sessions = Manager.put id session m.sessions; cur_max_id = cur' })
    ]

-- The timer of the session is released as well.
unfoldable pub timer_of : Option Session → TimerManager → TimerManager
timer_of none timers = timers
timer_of (some s) timers = elim s.timer_id [
  | none ↦ timers
  | some timer_id ↦ release_timer timer_id timers
]

unfoldable pub release_session : ℕ → SessionManager × TimerManager → SessionManager × TimerManager
release_session id (m, timers) =
    (record m { sessions = Manager.erase id m.sessions }, timer_of (get_session id m) timers)

-- The check for leaks: the sessions that are too old are collected and then released.
unfoldable pub is_leak : ℕ → Session → Bool
is_leak now s = ltb (add64 s.create_time leak_time) now

unfoldable pub leaks : ℕ → Dict Session → List ℕ
leaks now [] = []
leaks now ((k, s) ∷ d) = if is_leak now s then s.session_id ∷ leaks now d else leaks now d

unfoldable pub release_all : List ℕ → SessionManager × TimerManager → SessionManager × TimerManager
release_all [] st = st
release_all (id ∷ ids) st = release_all ids (release_session id st)

unfoldable pub check_leak : ℕ → SessionManager × TimerManager → SessionManager × TimerManager
check_leak now (m, timers) = release_all (leaks now m.sessions.map) (m, timers)

-- When the manager is not full and may hold fewer sessions than there are ids, the search ends, the
-- new id was not in use, the new session is found under it with the clock's time and no timer, and
-- every other session is as before.
pub create_session-fresh :
    (now : ℕ) (m : SessionManager)
    → Manager.full m.sessions ≡ false
    → m.sessions.max_size ≤ id_count
    → (id : ℕ) × (m' : SessionManager) × (create_session id_count now m ≡ some (some id, m'))
      × (get_session id m ≡ none)
      × (get_session id m' ≡ some (record { session_id = id; create_time = now; timer_id = none }))
      × ((k : ℕ) → k ≢ id → get_session k m' ≡ get_session k m)
unfolding create_session get_session Manager.full Manager.exist Manager.put
create_session-fresh now m room small =
    let (id, cur', found, new, lt) = next_id-total m.sessions.map m.cur_max_id (ground arith) in
    let s : Session = record { session_id = id; create_time = now; timer_id = none } in
    let m' : SessionManager = record {
      sessions = Manager.put id s m.sessions;
      cur_max_id = cur';
    } in
    (
      id,
      m',
      rw (room, found) refl,
      Dict.exist-none id m.sessions.map new,
      ground (arith, Dict.find-insert id id s m.sessions.map),
      λ k ne. ground (arith, Dict.find-insert id k s m.sessions.map),
    )
