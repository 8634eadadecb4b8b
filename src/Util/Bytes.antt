-- ===== src/Util/Bytes.antt =====
-- What string_ext.hpp uses of `std::string`: a string is a list of bytes, a position that may be
-- `npos` an option.
use lsf.Prelude.{
  ℕ, zero, suc, ◌+◌, ◌-◌, ◌≤◌, ◌≡◌, refl, sym, ◌∙◌, ap, Bool, not, Option, none, some, List, [],
  ◌∷◌, ◌++◌, arith, if◌then◌else◌, length,
}

zero-add : (n : ℕ) → 0 + n ≡ n
zero-add n = omega arith

suc-add : (n m : ℕ) → suc n + m ≡ suc (n + m)
suc-add n m = omega arith

module _ {A : Type 0} where
  abbrev pub take : ℕ → List A → List A
  take zero xs = []
  take (suc n) [] = []
  take (suc n) (x ∷ xs) = x ∷ take n xs

  abbrev pub drop : ℕ → List A → List A
  drop zero xs = xs
  drop (suc n) [] = []
  drop (suc n) (x ∷ xs) = drop n xs

  pub take-drop : (n : ℕ) (xs : List A) → take n xs ++ drop n xs ≡ xs
  take-drop zero xs = refl
  take-drop (suc n) [] = refl
  take-drop (suc n) (x ∷ xs) = ap (◌∷◌ x) (take-drop n xs)

  pub drop-nil : (n : ℕ) → drop n [] ≡ []
  drop-nil zero = refl
  drop-nil (suc n) = refl

  pub drop-drop : (m n : ℕ) (xs : List A) → drop m (drop n xs) ≡ drop (n + m) xs
  drop-drop m zero xs = ground arith
  drop-drop m (suc n) [] = drop-nil m ∙ sym (drop-nil (suc n + m))
  drop-drop m (suc n) (x ∷ xs) =
      drop-drop m n xs ∙ ap (λ (k : ℕ). drop k (x ∷ xs)) (sym (suc-add n m))

  pub length-drop : (n : ℕ) (xs : List A) → length (drop n xs) ≡ length xs - n
  length-drop zero xs = omega arith
  length-drop (suc n) [] = omega arith
  length-drop (suc n) (x ∷ xs) = omega (arith, length-drop n xs)

  pub length-take : (n : ℕ) (xs : List A) → n ≤ length xs → length (take n xs) ≡ n
  length-take zero xs h = refl
  length-take (suc n) [] h = elim h [ ]
  length-take (suc n) (x ∷ xs) h = omega (arith, length-take n xs (omega arith))

  pub drop-append : (front bs : List A) (k : ℕ) → drop (length front + k) (front ++ bs) ≡ drop k bs
  drop-append [] bs k = ap (λ (n : ℕ). drop n bs) (zero-add k)
  drop-append (a ∷ front) bs k =
      ap (λ (n : ℕ). drop n (a ∷ (front ++ bs))) (suc-add (length front) k) ∙ drop-append front bs k

  pub take-append :
      (front bs : List A) (k : ℕ) → take (length front + k) (front ++ bs) ≡ front ++ take k bs
  take-append [] bs k = ap (λ (n : ℕ). take n bs) (zero-add k)
  take-append (a ∷ front) bs k =
      ap (λ (n : ℕ). take n (a ∷ (front ++ bs))) (suc-add (length front) k)
      ∙ ap (◌∷◌ a) (take-append front bs k)

  -- The position of the first entry that passes the test.
  unfoldable pub find_index : (A → Bool) → List A → Option ℕ
  find_index p [] = none
  find_index p (x ∷ xs) =
      if p x then some 0 else elim (find_index p xs) [ none ↦ none | some i ↦ some (suc i) ]

-- `find_first_of(delimit, from)`; `p` tells the delimiters.
unfoldable pub find_first_of : (ℕ → Bool) → List ℕ → ℕ → Option ℕ
find_first_of p s from = elim (find_index p (drop from s)) [
  | none ↦ none
  | some i ↦ some (from + i)
]

unfoldable pub find_first_not_of : (ℕ → Bool) → List ℕ → ℕ → Option ℕ
find_first_not_of p s from = find_first_of (λ c. not (p c)) s from

-- `substr(pos, n)` and `substr(pos)`, for `pos` in the string or at its end.
abbrev pub substr : List ℕ → ℕ → ℕ → List ℕ
substr s pos n = take n (drop pos s)

abbrev pub substr_from : List ℕ → ℕ → List ℕ
substr_from s pos = drop pos s
