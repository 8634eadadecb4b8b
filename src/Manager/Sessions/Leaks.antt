-- ===== src/Manager/Sessions/Leaks.antt =====
-- What the periodic check for leaks of `SessionManager::Init` leaves.
use lsf.Prelude.{
  ℕ, Bool, false, Option, none, some, List, [], ◌∷◌, if◌then◌else◌, mem, arith, ◌≡◌, ltb, add64,
  refl, Distinct, ◌∙◌, ap,
}
use lsf.Prelude.Dict.{Dict}
use lsf.Prelude.Dict
use lsf.Manager.{Manager}
use lsf.Manager
use lsf.Manager.Timers.{TimerManager}
use lsf.Manager.Sessions.{
  leak_time, Session, SessionManager, get_session, release_session, is_leak, leaks, release_all,
  check_leak,
}

-- Every session is stored under its own id.
abbrev pub Owned : Dict Session → Type 0
Owned [] = Unit {0}
Owned ((k, s) ∷ d) = (s.session_id ≡ k) × Owned d

-- A session that is too old is dropped.
abbrev pub keep : ℕ → Option Session → Option Session
keep now none = none
keep now (some s) = if ltb (add64 s.create_time leak_time) now then none else some s

-- The id is that of a session that is too old.
abbrev pub leaking : ℕ → Option Session → Bool
leaking now none = false
leaking now (some s) = ltb (add64 s.create_time leak_time) now

leaks-absent :
    (now k : ℕ) (d : Dict Session)
    → Owned d
    → mem k (Dict.keys d) ≡ false
    → mem k (leaks now d) ≡ false
unfolding leaks
leaks-absent now k [] o h = refl
leaks-absent now k ((j, s) ∷ d) o h = ground (arith, leaks-absent now k d o.1)

mem-leaks :
    (now k : ℕ) (d : Dict Session)
    → Owned d
    → Distinct (Dict.keys d)
    → mem k (leaks now d) ≡ leaking now (Dict.find k d)
unfolding leaks is_leak Dict.find
mem-leaks now k [] o h = refl
mem-leaks now k ((j, s) ∷ d) o h =
    ground (arith, mem-leaks now k d o.1 h.1, leaks-absent now j d o.1 h.0, o.0)

get_session-release_all :
    (k : ℕ) (ids : List ℕ) (st : SessionManager × TimerManager)
    → get_session k (release_all ids st).0 ≡ (if mem k ids then none else get_session k st.0)
unfolding release_all release_session get_session Manager.erase
get_session-release_all k [] st = refl
get_session-release_all k (id ∷ ids) (m, timers) = ground (
  arith,
  get_session-release_all k ids (release_session id (m, timers)),
  Dict.find-erase id k m.sessions.map,
)

keep-leaking : (now : ℕ) (o : Option Session) → (if leaking now o then none else o) ≡ keep now o
keep-leaking now none = refl
keep-leaking now (some s) = refl

-- On sessions that are stored once, each under its own id, the check for leaks drops exactly
-- those whose creation time and the leak time lie before the clock, and every other session is
-- found as before.
pub check_leak-keep :
    (now k : ℕ) (m : SessionManager) (timers : TimerManager)
    → Owned m.sessions.map
    → Distinct (Dict.keys m.sessions.map)
    → get_session k (check_leak now (m, timers)).0 ≡ keep now (get_session k m)
unfolding check_leak get_session
check_leak-keep now k m timers o d =
    get_session-release_all k (leaks now m.sessions.map) (m, timers)
    ∙ ap (λ b. if b then none else Dict.find k m.sessions.map) (mem-leaks now k m.sessions.map o d)
    ∙ keep-leaking now (Dict.find k m.sessions.map)
