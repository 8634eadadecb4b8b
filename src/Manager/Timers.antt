-- ===== src/Manager/Timers.antt =====
-- `TimerManager` of dev/svr/common/timer_manager.h and timer_manager.cpp. The timers are a manager, and
-- the heap of pairs of a due time and an id is a list in the order in which `top` and `pop` give
-- them. The cached clock of the event loop is the argument `now`.
pub mod Tick
use lsf.Prelude.{
  ℕ, ◌+◌, ◌≤◌, ◌<◌, ◌%◌, ◌^◌, Bool, true, false, not, ◌&&◌, ◌||◌, Option, none, some, List, [], ◌∷◌,
  ◌==◌, ltb, leb, if◌then◌else◌, length, mem, map, arith, ◌≡◌, ◌≢◌, refl, Bool-cases, inl, inr,
  Distinct, add64, ◌∙◌, ap, sym,
}
use lsf.Prelude.Dict.{Dict}
use lsf.Prelude.Dict
use lsf.Manager.{Manager}
use lsf.Manager
use lsf.Manager.Ids.{next_id, id_count, next_id-total}

-- The fields that the manager reads; `session_id` is what the owner of the timer stores in it.
pub record Timer : Type 0 where
  pub timer_id : ℕ
  pub timer_milli_seconds : ℕ
  pub timer_type : ℕ
  pub is_delete : Bool
  pub session_id : ℕ

pub record TimerManager : Type 0 where
  pub timers : Manager Timer
  pub timer_heap : List (ℕ × ℕ)
  pub cur_max_id : ℕ

-- The order of `std::greater` on pairs, smallest on top.
abbrev pub before : ℕ × ℕ → ℕ × ℕ → Bool
before (due, id) (due', id') = ltb due due' || ((due == due') && ltb id id')

unfoldable pub push : ℕ × ℕ → List (ℕ × ℕ) → List (ℕ × ℕ)
push p [] = p ∷ []
push p (q ∷ h) = if before q p then q ∷ push p h else p ∷ q ∷ h

unfoldable pub get_timer : ℕ → TimerManager → Option Timer
get_timer id m = Dict.find id m.timers.map

-- The id of the new timer, none for a null pointer; outside, none for a search without end.
unfoldable pub create_timer : ℕ → ℕ → ℕ → ℕ → TimerManager → Option (Option ℕ × TimerManager)
create_timer fuel now milli_second timer_type m =
    if Manager.full m.timers
    then some (none, m)
    else elim (next_id fuel (λ k. Manager.exist k m.timers) m.cur_max_id) [
      | none ↦ none
      | some (id, cur') ↦
          let due = add64 now milli_second in
          let timer : Timer = record {
            timer_id = id;
            timer_milli_seconds = due;
            timer_type = timer_type;
            is_delete = false;
            session_id = 0;
          } in
          some (
            some id,
            record {
              timers = Manager.put id timer m.timers;
              timer_heap = push (due, id) m.timer_heap;
              cur_max_id = cur';
            },
          )
    ]

-- Sets the flag of a timer that is there.
unfoldable pub set_deleted : ℕ → Option Timer → TimerManager → TimerManager
set_deleted id none m = m
set_deleted id (some timer) m = record m {
  timers = Manager.put id (record timer { is_delete = true }) m.timers;
}

unfoldable pub release_timer : ℕ → TimerManager → TimerManager
release_timer id m = set_deleted id (get_timer id m) m

-- The timer goes to its handler: it exists, is not released and its type is registered.
unfoldable pub to_trigger : (ℕ → Bool) → Option Timer → List Timer → List Timer
to_trigger registered none ts = ts
to_trigger registered (some timer) ts =
    if timer.is_delete then ts else if registered timer.timer_type then timer ∷ ts else ts

-- The loop of `OnTick`: what is triggered, the heap and the timers that are left.
unfoldable pub tick_loop :
    (ℕ → Bool) → ℕ → List (ℕ × ℕ) → Manager Timer → List Timer × List (ℕ × ℕ) × Manager Timer
tick_loop registered now [] timers = ([], [], timers)
tick_loop registered now ((due, id) ∷ heap) timers =
    let rest = tick_loop registered now heap (Manager.erase id timers) in
    if ltb now due
    then ([], (due, id) ∷ heap, timers)
    else (to_trigger registered (Dict.find id timers.map) rest.0, rest.1, rest.2)

-- The timers that are handed to the handlers, in order, and the manager after the tick.
unfoldable pub on_tick : (ℕ → Bool) → ℕ → TimerManager → List Timer × TimerManager
on_tick registered now m =
    let (triggered, heap, timers) = tick_loop registered now m.timer_heap m.timers in
    (triggered, record m { timer_heap = heap; timers = timers })

-- When the manager is not full and may hold at most 2^24 timers, `CreateTimer` ends, the new id
-- was not in use, the timer is found under it, due at the wrapped sum of the clock and the delay,
-- every other timer is as before, and the heap has the new pair pushed.
pub create_timer-fresh :
    (now ms type : ℕ) (m : TimerManager)
    → Manager.full m.timers ≡ false
    → m.timers.max_size ≤ id_count
    → (id : ℕ) × (m' : TimerManager) × (create_timer id_count now ms type m ≡ some (some id, m'))
      × (get_timer id m ≡ none)
      × (get_timer id m'
          ≡ some (record {
            timer_id = id;
            timer_milli_seconds = add64 now ms;
            timer_type = type;
            is_delete = false;
            session_id = 0;
          }))
      × ((k : ℕ) → k ≢ id → get_timer k m' ≡ get_timer k m)
      × (m'.timer_heap ≡ push (add64 now ms, id) m.timer_heap)
unfolding create_timer get_timer Manager.full Manager.exist Manager.put
create_timer-fresh now ms type m room small =
    let (id, cur', found, new, lt) = next_id-total m.timers.map m.cur_max_id (ground arith) in
    let timer : Timer = record {
      timer_id = id;
      timer_milli_seconds = add64 now ms;
      timer_type = type;
      is_delete = false;
      session_id = 0;
    } in
    let m' : TimerManager = record {
      timers = Manager.put id timer m.timers;
      timer_heap = push (add64 now ms, id) m.timer_heap;
      cur_max_id = cur';
    } in
    (
      id,
      m',
      rw (room, found) refl,
      Dict.exist-none id m.timers.map new,
      ground (arith, Dict.find-insert id id timer m.timers.map),
      λ k ne. ground (arith, Dict.find-insert id k timer m.timers.map),
      refl,
    )
