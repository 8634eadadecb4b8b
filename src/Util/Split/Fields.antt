-- ===== src/Util/Split/Fields.antt =====
-- The splitting loops against a splitting by recursion on the string.
use lsf.Prelude.{
  ℕ, zero, suc, ◌+◌, ◌-◌, ◌≤◌, ◌<◌, ◌≡◌, refl, sym, ◌∙◌, ap, ap₂, subst, Bool, false, none, some,
  List, [], ◌∷◌, ◌++◌, arith, ◌==◌, if◌then◌else◌, length, eq_of_==, Bool-cases, inl, inr, ◌||◌,
  ◌⊎◌,
}
use lsf.Util.Bytes.{take, drop, drop-drop, length-drop, find_index, find_first_of, substr}
use lsf.Util.Split.{split_get_loop, split_get, split_get_next, split_str_loop, split_str, drain}

abbrev pub cons_head : ℕ → List (List ℕ) → List (List ℕ)
cons_head c [] = (c ∷ []) ∷ []
cons_head c (f ∷ fs) = (c ∷ f) ∷ fs

-- The fields between delimiters.
unfoldable pub fields : (ℕ → Bool) → List ℕ → List (List ℕ)
fields p [] = [] ∷ []
fields p (c ∷ s) = if p c then [] ∷ fields p s else cons_head c (fields p s)

-- The text that the fields come from, for one delimiter.
unfoldable pub join : ℕ → List (List ℕ) → List ℕ
join d [] = []
join d (f ∷ []) = f
join d (f ∷ g ∷ fs) = f ++ d ∷ join d (g ∷ fs)

abbrev pub any : (ℕ → Bool) → List ℕ → Bool
any p [] = false
any p (c ∷ s) = p c || any p s

abbrev pub All {ℓ κ} : {A : Type ℓ} → (A → Type κ) → List A → Type κ
All Q [] = Unit
All Q (c ∷ s) = Q c × All Q s

-- A string without a delimiter is one field; otherwise the first field ends at the first one.
fields-cut :
    (p : ℕ → Bool) (s : List ℕ)
    → ((find_index p s ≡ none) × (fields p s ≡ s ∷ []))
      ⊎ ((i : ℕ) × (find_index p s ≡ some i)
          × (i < length s)
          × (fields p s ≡ take i s ∷ fields p (drop (suc i) s)))
unfolding fields find_index
fields-cut p [] = inl (refl, refl)
fields-cut p (c ∷ s) = elim (Bool-cases (p c)) [
  | inl hit ↦ inr (0, rw hit, omega arith, rw hit)
  | inr miss ↦ elim (fields-cut p s) [
    | inl (e, f) ↦ inl (ground (arith, miss, e), ground (arith, miss, f))
    | inr (i, e, lt, f) ↦ inr (suc i, ground (arith, miss, e), omega arith, ground (arith, miss, f))
  ]
]

-- The same from a position of the string on.
pub fields-step :
    (p : ℕ → Bool) (s : List ℕ) (begin : ℕ)
    → ((find_first_of p s begin ≡ none) × (fields p (drop begin s) ≡ drop begin s ∷ []))
      ⊎ ((end : ℕ) × (find_first_of p s begin ≡ some end)
          × (begin ≤ end)
          × (end < length s)
          × (fields p (drop begin s) ≡ substr s begin (end - begin) ∷ fields p (drop (end + 1) s)))
unfolding find_first_of
fields-step p s begin = elim (fields-cut p (drop begin s)) [
  | inl (e, f) ↦ inl (ground (arith, e), f)
  | inr (i, e, lt, f) ↦ inr (
    begin + i,
    ground (arith, e),
    omega arith,
    omega (arith, length-drop begin s),
    rw f (
        ap₂ (λ (n : ℕ) (r : List ℕ). take n (drop begin s) ∷ fields p r) (omega arith)
          (drop-drop (suc i) begin s ∙ ap (λ n. drop n s) (omega arith))),
  )
]

split_str_loop-fields :
    (p : ℕ → Bool) (s : List ℕ) (fuel begin : ℕ)
    → length s - begin < fuel
    → split_str_loop fuel false p s begin ≡ some (fields p (drop begin s))
unfolding split_str_loop
split_str_loop-fields p s zero begin h = absurd (omega arith)
split_str_loop-fields p s (suc fuel) begin h = elim (fields-step p s begin) [
  | inl (e, f) ↦ ground (arith, e, f)
  | inr (end, e, le, lt, f) ↦
      let rest = split_str_loop-fields p s fuel (end + 1) (omega arith) in
      ground (arith, e, f, rest)
]

-- `SplitStr`, empty fields kept, ends and gives the fields between the delimiters.
pub split_str-fields : (p : ℕ → Bool) (s : List ℕ) → split_str false p s ≡ some (fields p s)
unfolding split_str
split_str-fields p s = split_str_loop-fields p s (length s + 1) 0 (omega arith)

abbrev pub nth_field : List (List ℕ) → ℕ → List ℕ
nth_field [] i = []
nth_field (f ∷ fs) zero = f
nth_field (f ∷ fs) (suc i) = nth_field fs i

split_get_loop-fields :
    (p : ℕ → Bool) (s : List ℕ) (fuel rest count begin : ℕ)
    → length s - begin < fuel
    → split_get_loop fuel false p s (count + rest) count begin
      ≡ some (nth_field (fields p (drop begin s)) rest)
unfolding split_get_loop
split_get_loop-fields p s zero rest count begin h = absurd (omega arith)
split_get_loop-fields p s (suc fuel) zero count begin h = elim (fields-step p s begin) [
  | inl (e, f) ↦ ground (arith, e, f)
  | inr (end, e, le, lt, f) ↦ ground (arith, e, f)
]
split_get_loop-fields p s (suc fuel) (suc rest) count begin h = elim (fields-step p s begin) [
  | inl (e, f) ↦ ground (arith, e, f)
  | inr (end, e, le, lt, f) ↦
      let later = split_get_loop-fields p s fuel rest (count + 1) (end + 1) (omega arith) in
      let index : count + suc rest ≡ count + 1 + rest = omega arith in
      ground (arith, e, f, later, index)
]

-- `SplitGet`, empty fields kept, ends and gives the field with the index, or the empty string
-- behind the last one.
pub split_get-fields :
    (p : ℕ → Bool) (s : List ℕ) (index : ℕ)
    → split_get false p s index ≡ some (nth_field (fields p s) index)
unfolding split_get
split_get-fields p s index =
    subst (λ k. split_get_loop (length s + 1) false p s k 0 0 ≡ some (nth_field (fields p s) index))
      (omega arith) (split_get_loop-fields p s (length s + 1) index 0 0 (omega arith))

-- Calling `SplitGetNext` from offset 0 until `npos` gives the same fields.
drain-fields :
    (p : ℕ → Bool) (s : List ℕ) (fuel begin : ℕ)
    → length s - begin < fuel
    → drain fuel false p s (some begin) ≡ some (fields p (drop begin s))
unfolding drain split_get_next
drain-fields p s zero begin h = absurd (omega arith)
drain-fields p s (suc fuel) begin h = elim (fields-step p s begin) [
  | inl (e, f) ↦ ground (arith, e, f)
  | inr (end, e, le, lt, f) ↦
      let rest = drain-fields p s fuel (end + 1) (omega arith) in ground (arith, e, f, rest)
]

pub drain_all :
    (p : ℕ → Bool) (s : List ℕ) → drain (length s + 1) false p s (some 0) ≡ split_str false p s
drain_all p s = drain-fields p s (length s + 1) 0 (omega arith) ∙ sym (split_str-fields p s)

fields_clean : (p : ℕ → Bool) (s : List ℕ) → All (λ f. any p f ≡ false) (fields p s)
unfolding fields
fields_clean p [] = (refl, tt)
fields_clean p (c ∷ s) = elim (Bool-cases (p c)) [
  | inl hit ↦ rw hit (refl, fields_clean p s)
  | inr miss ↦ rw miss (clean_head miss (fields p s) (fields_clean p s))
]
  where
    clean_head :
        p c ≡ false
        → (fs : List (List ℕ)) → All (λ f. any p f ≡ false) fs
        → All (λ f. any p f ≡ false) (cons_head c fs)
    clean_head miss [] a = (ground arith, tt)
    clean_head miss (f ∷ fs) a = (ground arith, a.1)

join-cons_head :
    (d c : ℕ) (s : List ℕ) (fs : List (List ℕ)) → join d fs ≡ s → join d (cons_head c fs) ≡ c ∷ s
unfolding join
join-cons_head d c s [] e = ap (◌∷◌ c) e
join-cons_head d c s (f ∷ []) e = ap (◌∷◌ c) e
join-cons_head d c s (f ∷ g ∷ fs) e = ap (◌∷◌ c) e

join-nil_head :
    (d : ℕ) (p : ℕ → Bool) (s : List ℕ) → join d ([] ∷ fields p s) ≡ d ∷ join d (fields p s)
unfolding join fields
join-nil_head d p [] = refl
join-nil_head d p (c ∷ s) = elim (Bool-cases (p c)) [
  | inl hit ↦ rw hit refl
  | inr miss ↦ rw miss (two (fields p s))
]
  where
    two : (fs : List (List ℕ)) → join d ([] ∷ cons_head c fs) ≡ d ∷ join d (cons_head c fs)
    two [] = refl
    two (f ∷ fs) = refl

join-fields : (d : ℕ) (s : List ℕ) → join d (fields (λ c. c == d) s) ≡ s
unfolding fields join
join-fields d [] = refl
join-fields d (c ∷ s) = elim (Bool-cases (c == d)) [
  | inl hit ↦ rw hit (
      join-nil_head d (λ c. c == d) s
      ∙ ap₂ (λ a b. a ∷ b) (sym (eq_of_== c d hit)) (join-fields d s))
  | inr miss ↦ rw miss (join-cons_head d c s (fields (λ c. c == d) s) (join-fields d s))
]

-- `SplitStr` by one delimiter, empty fields kept, ends; the fields joined by the delimiter are
-- the string, and no field holds the delimiter.
pub split_str-lossless :
    (d : ℕ) (s : List ℕ)
    → (fs : List (List ℕ)) × (split_str false (λ c. c == d) s ≡ some fs)
      × (join d fs ≡ s)
      × All (λ f. any (λ c. c == d) f ≡ false) fs
split_str-lossless d s =
    (fields _ s, split_str-fields _ s, join-fields d s, fields_clean (λ c. c == d) s)
