-- ===== src/Manager/Ids.antt =====
-- The search for an unused id in `SessionManager::CreateSession` and `TimerManager::CreateTimer`.
use lsf.Prelude.{
  ℕ, zero, suc, ◌+◌, ◌-◌, ◌%◌, ◌^◌, ◌≤◌, ◌<◌, ◌≡◌, ◌≢◌, refl, ◌∙◌, ap, Bool, true, false, Option,
  none, some, List, [], ◌∷◌, arith, ◌==◌, if◌then◌else◌, length, mem, Bool-cases, inl, inr,
}
use lsf.Prelude.Dict.{Dict}
use lsf.Prelude.Dict

-- `do { id = ++cur & MAX_ID; } while (exist(id))` with a 32-bit counter, on fuel; the id and the
-- counter.
unfoldable pub next_id : ℕ → (ℕ → Bool) → ℕ → Option (ℕ × ℕ)
next_id zero exist cur = none
next_id (suc fuel) exist cur =
    let cur' = (cur + 1) % 2 ^ 32 in
    let id = cur' % 2 ^ 24 in
    let rest = next_id fuel exist cur' in if exist id then rest else some (id, cur')

-- Every number of rounds that the loop may need, one for each id.
abbrev pub id_count : ℕ
id_count = 2 ^ 24

unfoldable pub without : ℕ → List ℕ → List ℕ
without a [] = []
without a (x ∷ xs) = if a == x then without a xs else x ∷ without a xs

without-lt :
    (a : ℕ) (xs : List ℕ)
    → (length (without a xs) ≤ length xs) × (mem a xs ≡ true → length (without a xs) < length xs)
unfolding without
without-lt a [] = (omega arith, λ e. absurd (cc))
without-lt a (x ∷ xs) = ground (arith, without-lt a xs)

mem-without : (a b : ℕ) (xs : List ℕ) → b ≢ a → mem b xs ≡ mem b (without a xs)
unfolding without
mem-without a b [] ne = refl
mem-without a b (x ∷ xs) ne = ground (arith, mem-without a b xs ne)

-- Fewer keys than ids leave an id free.
free_id : (n : ℕ) (ks : List ℕ) → length ks < n → (x : ℕ) × (x < n) × (mem x ks ≡ false)
free_id zero ks h = absurd (omega arith)
free_id (suc n) ks h = elim (Bool-cases (mem n ks)) [
  | inr unused ↦ (n, omega arith, unused)
  | inl taken ↦
      let (x, lt, out) = free_id n (without n ks) (omega (arith, (without-lt n ks).1 taken)) in
      (x, omega arith, mem-without n x ks (omega arith) ∙ out)
]

next_id-reaches :
    (exist : ℕ → Bool) (k fuel cur : ℕ)
    → exist ((cur + suc k) % 2 ^ 24) ≡ false
    → k < fuel
    → (id : ℕ) × (cur' : ℕ) × (next_id fuel exist cur ≡ some (id, cur'))
      × (exist id ≡ false)
      × (id < 2 ^ 24)
unfolding next_id
next_id-reaches exist k zero cur e h = absurd (omega arith)
next_id-reaches exist zero (suc fuel) cur e h =
    let here : exist ((cur + 1) % 2 ^ 32 % 2 ^ 24) ≡ false = ap exist (omega arith) ∙ e in
    ((cur + 1) % 2 ^ 32 % 2 ^ 24, (cur + 1) % 2 ^ 32, rw here refl, here, omega arith)
next_id-reaches exist (suc k) (suc fuel) cur e h =
    elim (Bool-cases (exist ((cur + 1) % 2 ^ 32 % 2 ^ 24))) [
      | inr here ↦
          ((cur + 1) % 2 ^ 32 % 2 ^ 24, (cur + 1) % 2 ^ 32, rw here refl, here, omega arith)
      | inl taken ↦
          let (id, cur', found, new, small) =
            next_id-reaches exist k fuel ((cur + 1) % 2 ^ 32) (ap exist (omega arith) ∙ e)
              (omega arith) in
          (id, cur', rw taken found, new, small)
    ]

-- With fewer objects than ids the loop ends, and the id is in range and not in use.
pub next_id-total :
    {V : Type 0} (d : Dict V) (cur : ℕ)
    → length d < id_count
    → (id : ℕ) × (cur' : ℕ) × (next_id id_count (λ k. Dict.exist k d) cur ≡ some (id, cur'))
      × (Dict.exist id d ≡ false)
      × (id < id_count)
next_id-total d cur h =
    let (x, lt, out) = free_id id_count (Dict.keys d) (rw (Dict.length-keys d) h) in
    let k : ℕ = (x + 2 ^ 24 - (cur + 1) % 2 ^ 24) % 2 ^ 24 in
    next_id-reaches (λ k. Dict.exist k d) k id_count cur
      (ap (λ j. Dict.exist j d) (omega arith) ∙ Dict.exist-mem x d ∙ out) (omega arith)
