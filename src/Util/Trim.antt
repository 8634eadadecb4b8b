-- ===== src/Util/Trim.antt =====
-- `RemoveHeadWhitespace`, `RemoveTailWhitespace` and `RemoveHeadZero` of
-- dev/lsf/util/string_ext.hpp.
use lsf.Prelude.{
  ℕ, zero, suc, ◌+◌, ◌≡◌, ◌≢◌, refl, sym, ◌∙◌, ap, ap₂, Bool, true, false, ◌||◌, not, Option, none,
  some, List, [], ◌∷◌, ◌++◌, arith, ◌==◌, if◌then◌else◌, length, Bool-cases, Option-cases, eq_of_==,
  subst, inl, inr,
}
use lsf.Util.Bytes.{take, drop, find_index}

-- `" \r\n\f\t\v"`.
unfoldable pub is_space : ℕ → Bool
is_space c = c == 32 || (c == 13 || (c == 10 || (c == 12 || (c == 9 || c == 11))))

-- `find_last_not_of(WHITE_SPACES)`.
unfoldable pub last_not_space : List ℕ → Option ℕ
last_not_space [] = none
last_not_space (c ∷ s) = elim (last_not_space s) [
  | none ↦ if is_space c then none else some 0
  | some i ↦ some (suc i)
]

-- The first test of the source is `pos == 0`.
unfoldable pub remove_head_whitespace : List ℕ → List ℕ
remove_head_whitespace s = elim (find_index (λ c. not (is_space c)) s) [
  | none ↦ []
  | some pos ↦ if pos == 0 then s else drop pos s
]

-- On the empty string both sides of the first test are `npos`, and the string is returned.
unfoldable pub remove_tail_whitespace : List ℕ → List ℕ
remove_tail_whitespace s = elim (last_not_space s) [
  | none ↦ []
  | some pos ↦ if pos + 1 == length s then s else take (pos + 1) s
]

abbrev pub replicate : ℕ → ℕ → List ℕ
replicate zero c = []
replicate (suc k) c = c ∷ replicate k c

unfoldable pub remove_head_zero : List ℕ → List ℕ
remove_head_zero [] = []
remove_head_zero (c ∷ s) = if c == b'0' then remove_head_zero s else c ∷ s

abbrev pub AllSpace : List ℕ → Type 0
AllSpace [] = Unit {0}
AllSpace (c ∷ s) = (is_space c ≡ true) × AllSpace s

abbrev pub StartsClean : List ℕ → Type 0
StartsClean [] = Unit {0}
StartsClean (c ∷ s) = is_space c ≡ false

abbrev pub EndsClean : List ℕ → Type 0
EndsClean [] = Unit {0}
EndsClean (c ∷ []) = is_space c ≡ false
EndsClean (c ∷ d ∷ s) = EndsClean (d ∷ s)

head_clean : (c : ℕ) (s : List ℕ) → is_space c ≡ false → remove_head_whitespace (c ∷ s) ≡ c ∷ s
unfolding remove_head_whitespace find_index
head_clean c s e = ground (arith, e)

head_space :
    (c : ℕ) (s : List ℕ)
    → is_space c ≡ true
    → remove_head_whitespace (c ∷ s) ≡ remove_head_whitespace s
unfolding remove_head_whitespace find_index
head_space c s e = ground (arith, e)

-- `RemoveHeadWhitespace` takes away a prefix of whitespace only, and what is left does not start
-- with whitespace.
pub remove_head_whitespace-eq :
    (s : List ℕ)
    → (ws : List ℕ) × (s ≡ ws ++ remove_head_whitespace s)
      × AllSpace ws
      × StartsClean (remove_head_whitespace s)
remove_head_whitespace-eq [] = ([], sym nothing, tt, subst StartsClean (sym nothing) tt)
  where
    nothing : remove_head_whitespace [] ≡ []
    nothing = unfold remove_head_whitespace find_index in refl
remove_head_whitespace-eq (c ∷ s) = elim (Bool-cases (is_space c)) [
  | inl e ↦
      let (ws, parts, all, clean) = remove_head_whitespace-eq s in
      rw (head_space c s e) (c ∷ ws, ap (◌∷◌ c) parts, (e, all), clean)
  | inr e ↦ rw (head_clean c s e) ([], refl, tt, e)
]

all_space : (s : List ℕ) → last_not_space s ≡ none → AllSpace s
unfolding last_not_space
all_space [] e = tt
all_space (c ∷ s) e = ground (arith, e, all_space s)

some_text : (s : List ℕ) (i : ℕ) → last_not_space s ≡ some i → ¬ AllSpace s
unfolding last_not_space
some_text [] i e a = cc
some_text (c ∷ s) i e a = elim (Option-cases (last_not_space s)) [
  | inl none_left ↦ ground (arith, none_left)
  | inr (j, later) ↦ some_text s j later a.1
]

tail_space :
    (c : ℕ) (s : List ℕ)
    → last_not_space s ≡ none
    → is_space c ≡ true
    → remove_tail_whitespace (c ∷ s) ≡ []
unfolding remove_tail_whitespace last_not_space
tail_space c s e h = ground (arith, e, h)

tail_one :
    (c : ℕ) (s : List ℕ)
    → last_not_space s ≡ none
    → is_space c ≡ false
    → remove_tail_whitespace (c ∷ s) ≡ c ∷ []
unfolding remove_tail_whitespace last_not_space
tail_one c [] e h = ground (arith, e, h)
tail_one c (d ∷ s) e h = ground (arith, e, h)

tail_more :
    (c : ℕ) (s : List ℕ) (i : ℕ)
    → last_not_space s ≡ some i
    → remove_tail_whitespace (c ∷ s) ≡ c ∷ remove_tail_whitespace s
unfolding remove_tail_whitespace last_not_space
tail_more c s i e =
    let up : suc i + 1 ≡ suc (i + 1) = omega arith in
    let step : take (suc i + 1) (c ∷ s) ≡ c ∷ take (i + 1) s = ap (λ (k : ℕ). take k (c ∷ s)) up in
    ground (arith, e, step)

ends_clean : (c : ℕ) (r : List ℕ) → EndsClean r → r ≢ [] → EndsClean (c ∷ r)
ends_clean c [] h ne = absurd (ne refl)
ends_clean c (d ∷ r) h ne = h

-- `RemoveTailWhitespace` takes away a suffix of whitespace only, and what is left does not end
-- with whitespace.
pub remove_tail_whitespace-eq :
    (s : List ℕ)
    → (ws : List ℕ) × (s ≡ remove_tail_whitespace s ++ ws)
      × AllSpace ws
      × EndsClean (remove_tail_whitespace s)
remove_tail_whitespace-eq [] =
    ([], sym (ap (λ (r : List ℕ). r ++ []) nothing), tt, subst EndsClean (sym nothing) tt)
  where
    nothing : remove_tail_whitespace [] ≡ []
    nothing = unfold remove_tail_whitespace last_not_space in refl
remove_tail_whitespace-eq (c ∷ s) = elim (Option-cases (last_not_space s)) [
  | inl e ↦ elim (Bool-cases (is_space c)) [
    | inl h ↦ rw (tail_space c s e h) (c ∷ s, refl, (h, all_space s e), tt)
    | inr h ↦ rw (tail_one c s e h) (s, refl, all_space s e, h)
  ]
  | inr (i, e) ↦
      let (ws, parts, all, clean) = remove_tail_whitespace-eq s in
      rw (tail_more c s i e) (
        ws,
        ap (◌∷◌ c) parts,
        all,
        ends_clean c (remove_tail_whitespace s) clean (λ gone.
            some_text s i e (subst AllSpace (sym (parts ∙ ap (λ (r : List ℕ). r ++ ws) gone)) all)),
      )
]

-- The loop takes away exactly the leading zeros.
pub remove_head_zero-eq :
    (s : List ℕ)
    → (k : ℕ) × (s ≡ replicate k b'0' ++ remove_head_zero s)
      × (¬ ((r : List ℕ) × (remove_head_zero s ≡ b'0' ∷ r)))
unfolding remove_head_zero
remove_head_zero-eq [] = (0, refl, λ (r, e). cc)
remove_head_zero-eq (c ∷ s) = elim (Bool-cases (c == b'0')) [
  | inl h ↦
      let (k, parts, clean) = remove_head_zero-eq s in
      rw h (suc k, ap₂ (λ x xs. x ∷ xs) (eq_of_== c b'0' h) parts, clean)
  | inr h ↦ rw h (0, refl, λ (r, e). ground (arith, h))
]
