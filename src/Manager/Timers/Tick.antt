-- ===== src/Manager/Timers/Tick.antt =====
-- What one `TimerManager::OnTick` triggers and what it leaves.
use lsf.Prelude.{
  ℕ, ◌≤◌, ◌<◌, Bool, true, false, not, ◌&&◌, Option, none, some, List, [], ◌∷◌, ◌++◌, ◌==◌, ltb,
  leb, if◌then◌else◌, mem, map, arith, ◌≡◌, ◌≢◌, ◌⊎◌, subst, refl, Bool-cases, inl, inr, Distinct,
  ◌∙◌, ap, sym,
}
use lsf.Prelude.Dict.{Dict}
use lsf.Prelude.Dict
use lsf.Manager.{Manager}
use lsf.Manager
use lsf.Manager.Timers.{
  Timer, TimerManager, to_trigger, tick_loop, on_tick, get_timer, set_deleted, release_timer,
}

-- The due times go up along the heap.
abbrev pub Ordered : ℕ → List (ℕ × ℕ) → Type 0
Ordered low [] = Unit {0}
Ordered low ((due, id) ∷ heap) = (low ≤ due) × Ordered due heap

-- The ids whose time has come, and the pairs that wait.
abbrev pub due_ids : ℕ → List (ℕ × ℕ) → List ℕ
due_ids now [] = []
due_ids now ((due, id) ∷ heap) = if leb due now then id ∷ due_ids now heap else due_ids now heap

abbrev pub waiting : ℕ → List (ℕ × ℕ) → List (ℕ × ℕ)
waiting now [] = []
waiting now ((due, id) ∷ heap) =
    if leb due now then waiting now heap else (due, id) ∷ waiting now heap

-- A timer that is there, not released and registered.
abbrev pub live_timer : (ℕ → Bool) → Option Timer → List Timer
live_timer registered none = []
live_timer registered (some t) = if not t.is_delete && registered t.timer_type then t ∷ [] else []

-- Those of some ids, in order.
abbrev pub live : (ℕ → Bool) → (ℕ → Option Timer) → List ℕ → List Timer
live registered timers [] = []
live registered timers (id ∷ ids) = live_timer registered (timers id) ++ live registered timers ids

to_trigger-live_timer :
    (registered : ℕ → Bool) (o : Option Timer) (ts : List Timer)
    → to_trigger registered o ts ≡ live_timer registered o ++ ts
unfolding to_trigger
to_trigger-live_timer registered none ts = refl
to_trigger-live_timer registered (some t) ts = ground arith

due_ids-later :
    (now low : ℕ) (heap : List (ℕ × ℕ))
    → Ordered low heap
    → now < low
    → (due_ids now heap ≡ []) × (waiting now heap ≡ heap)
due_ids-later now low [] o h = (refl, refl)
due_ids-later now low ((due, id) ∷ heap) o h =
    ground (arith, due_ids-later now due heap o.1 (omega (arith, o.0)))

live-erase :
    (registered : ℕ → Bool) (id : ℕ) (d : Dict Timer) (ids : List ℕ)
    → mem id ids ≡ false
    → live registered (λ k. Dict.find k (Dict.erase id d)) ids
      ≡ live registered (λ k. Dict.find k d) ids
live-erase registered id d [] out = refl
live-erase registered id d (j ∷ ids) out =
    let same : Dict.find j (Dict.erase id d) ≡ Dict.find j d =
      ground (arith, Dict.find-erase id j d) in
    rw (same, live-erase registered id d ids (ground arith)) refl

mem-due_ids :
    (now id : ℕ) (heap : List (ℕ × ℕ))
    → mem id (map (λ p. p.1) heap) ≡ false
    → mem id (due_ids now heap) ≡ false
mem-due_ids now id [] out = refl
mem-due_ids now id ((due, j) ∷ heap) out = ground (arith, mem-due_ids now id heap)

tick_loop-due :
    (registered : ℕ → Bool) (now low : ℕ) (heap : List (ℕ × ℕ)) (timers : Manager Timer)
    → Ordered low heap
    → Distinct (map (λ p. p.1) heap)
    → ((tick_loop registered now heap timers).0
        ≡ live registered (λ k. Dict.find k timers.map) (due_ids now heap))
      × ((tick_loop registered now heap timers).1 ≡ waiting now heap)
      × ((k : ℕ)
          → Dict.find k (tick_loop registered now heap timers).2.map
            ≡ (if mem k (due_ids now heap) then none else Dict.find k timers.map))
unfolding tick_loop Manager.erase
tick_loop-due registered now low [] timers o d = (refl, refl, λ k. refl)
tick_loop-due registered now low ((due, id) ∷ heap) timers o d =
    let rest = tick_loop-due registered now due heap (Manager.erase id timers) o.1 d.1 in
    elim (Bool-cases (leb due now)) [
      | inl ready ↦
          let early : ltb now due ≡ false = ground arith in
          rw (ready, early)
            (
              ap (to_trigger registered (Dict.find id timers.map)) (
                    rest.0
                    ∙ live-erase registered id timers.map (due_ids now heap)
                        (mem-due_ids now id heap d.0))
                  ∙ to_trigger-live_timer registered (Dict.find id timers.map) _,
              rest.1,
              λ k. rest.2 k ∙ ground (arith, Dict.find-erase id k timers.map),
            )
      | inr wait ↦
          let late : ltb now due ≡ true = ground arith in
          let (none_due, all_wait) = due_ids-later now due heap o.1 (ground arith) in
          rw (wait, late, none_due, all_wait) (refl, refl, λ k. refl)
    ]

-- On a heap in the order of the due times whose ids are all different, `OnTick` triggers, in
-- order, the timers of the due ids that exist, are not released and have a handler; the pairs
-- that are not due are left; every due id is gone from the timers, and every other timer is as
-- before.
pub on_tick-due :
    (registered : ℕ → Bool) (now low : ℕ) (m : TimerManager)
    → Ordered low m.timer_heap
    → Distinct (map (λ p. p.1) m.timer_heap)
    → ((on_tick registered now m).0
        ≡ live registered (λ k. get_timer k m) (due_ids now m.timer_heap))
      × ((on_tick registered now m).1.timer_heap ≡ waiting now m.timer_heap)
      × ((k : ℕ)
          → get_timer k (on_tick registered now m).1
            ≡ (if mem k (due_ids now m.timer_heap) then none else get_timer k m))
unfolding on_tick get_timer
on_tick-due registered now low m o d = tick_loop-due registered now low m.timer_heap m.timers o d

-- Timers that are released or of another id are the only ones there.
abbrev Silenced : ℕ → (ℕ → Option Timer) → Type 0
Silenced id timers =
    (k : ℕ) (t : Timer) → timers k ≡ some t → (t.is_delete ≡ true) ⊎ (t.timer_id ≢ id)

live_timer-Silenced :
    (registered : ℕ → Bool) (id : ℕ) (o : Option Timer) (ts : List Timer)
    → ((t : Timer) → o ≡ some t → (t.is_delete ≡ true) ⊎ (t.timer_id ≢ id))
    → mem id (map (λ t. t.timer_id) ts) ≡ false
    → mem id (map (λ t. t.timer_id) (live_timer registered o ++ ts)) ≡ false
live_timer-Silenced registered id none ts s h = h
live_timer-Silenced registered id (some t) ts s h = ground (arith, s t refl)

live-Silenced :
    (registered : ℕ → Bool) (id : ℕ) (timers : ℕ → Option Timer) (ids : List ℕ)
    → Silenced id timers
    → mem id (map (λ t. t.timer_id) (live registered timers ids)) ≡ false
live-Silenced registered id timers [] s = refl
live-Silenced registered id timers (j ∷ ids) s =
    live_timer-Silenced registered id (timers j) _ (s j) (live-Silenced registered id timers ids s)

release_timer-none : (id : ℕ) (m : TimerManager) → get_timer id m ≡ none → release_timer id m ≡ m
unfolding release_timer set_deleted
release_timer-none id m e = ap (λ o. set_deleted id o m) e

release_timer-some :
    (id : ℕ) (m : TimerManager) (t : Timer)
    → get_timer id m ≡ some t
    → release_timer id m
      ≡ record m { timers = Manager.put id (record t { is_delete = true }) m.timers }
unfolding release_timer set_deleted
release_timer-some id m t e = ap (λ o. set_deleted id o m) e

present :
    (id : ℕ) (m : TimerManager)
    → ((k : ℕ) (t : Timer) → get_timer k m ≡ some t → t.timer_id ≡ k)
    → (k : ℕ) (u t : Timer)
    → get_timer k (record m { timers = Manager.put id (record u { is_delete = true }) m.timers })
      ≡ some t
    → (t.is_delete ≡ true) ⊎ (t.timer_id ≢ id)
unfolding get_timer Manager.put
present id m own k u t f = elim (Bool-cases (id == k)) [
  | inl same ↦
      inl (
        ground (arith, f, same, Dict.find-insert id k (record u { is_delete = true }) m.timers.map))
  | inr other ↦ inr (
      ground (
        arith,
        f,
        other,
        own k t,
        Dict.find-insert id k (record u { is_delete = true }) m.timers.map,
      ))
]

absent :
    (id : ℕ) (m : TimerManager)
    → ((k : ℕ) (t : Timer) → get_timer k m ≡ some t → t.timer_id ≡ k)
    → (k : ℕ) (t : Timer) → get_timer id m ≡ none
    → get_timer k m ≡ some t
    → t.timer_id ≢ id
absent id m own k t e f same =
    let here : get_timer id m ≡ some t = ap (λ j. get_timer j m) (sym same ∙ own k t f) ∙ f in
    ground (arith, here, e)

-- Releasing keeps the heap and silences the id.
release_timer-Silenced :
    (id : ℕ) (m : TimerManager)
    → ((k : ℕ) (t : Timer) → get_timer k m ≡ some t → t.timer_id ≡ k)
    → ((release_timer id m).timer_heap ≡ m.timer_heap)
      × Silenced id (λ k. get_timer k (release_timer id m))
release_timer-Silenced id m own = go (get_timer id m) refl
  where
    go :
        (o : Option Timer)
        → get_timer id m ≡ o
        → ((release_timer id m).timer_heap ≡ m.timer_heap)
          × Silenced id (λ k. get_timer k (release_timer id m))
    go none e = rw (release_timer-none id m e) (refl, λ k t f. inr (absent id m own k t e f))
    go (some u) e = rw (release_timer-some id m u e) (refl, λ k t f. present id m own k u t f)

-- On a heap in the order of the due times whose ids are all different, and with every timer
-- stored under its own id, a timer that is released before a tick is not among those that the
-- tick triggers.
pub on_tick-release_timer :
    (registered : ℕ → Bool) (now low id : ℕ) (m : TimerManager)
    → Ordered low m.timer_heap
    → Distinct (map (λ p. p.1) m.timer_heap)
    → ((k : ℕ) (t : Timer) → get_timer k m ≡ some t → t.timer_id ≡ k)
    → mem id (map (λ t. t.timer_id) (on_tick registered now (release_timer id m)).0) ≡ false
on_tick-release_timer registered now low id m o d own =
    let (heap, silent) = release_timer-Silenced id m own in
    let (fired, left, gone) =
      on_tick-due registered now low (release_timer id m) (subst (Ordered low) (sym heap) o)
        (subst (λ h. Distinct (map (λ p. p.1) h)) (sym heap) d) in
    ap (λ ts. mem id (map (λ t. t.timer_id) ts)) fired ∙ live-Silenced registered id _ _ silent
