-- ===== src/Algorithm/Combination.antt =====
-- `next_combination` and `for_combination` of dev/lsf/algorithm/combination.hpp. The vector holds 1
-- for an element that is chosen and 0 for one that is not.
use lsf.Prelude.{
  ℕ, zero, suc, ◌+◌, ◌-◌, ◌≡◌, refl, Bool, true, false, ◌&&◌, Option, none, some, List, [], ◌∷◌,
  ◌++◌, ◌==◌, ltb, leb, if◌then◌else◌, arith, length, length-append, Bool-cases, inl, inr, subst,
}

-- `std::sort` with `std::greater`.
unfoldable pub put_down : ℕ → List ℕ → List ℕ
put_down x [] = x ∷ []
put_down x (y ∷ ys) = if leb y x then x ∷ y ∷ ys else y ∷ put_down x ys

unfoldable pub sort_down : List ℕ → List ℕ
sort_down [] = []
sort_down (x ∷ xs) = put_down x (sort_down xs)

-- The loop at `vec[i]`, with what stands before it; none for a vector that was the last one.
unfoldable pub next_loop : List ℕ → List ℕ → Option (List ℕ)
next_loop before [] = none
next_loop before (x ∷ []) = none
next_loop before (x ∷ y ∷ vec) =
    let rest = next_loop (before ++ x ∷ []) (y ∷ vec) in
    if (x == 1) && (y == 0) then some (sort_down before ++ y ∷ x ∷ vec) else rest

-- On the empty vector `count - 1` wraps around and the loop reads past the end; that is not modelled,
-- and the result is none there.
unfoldable pub next_combination : List ℕ → Option (List ℕ)
next_combination vec = next_loop [] vec

abbrev pub chosen : {A : Type 0} → List A → List ℕ → List A
chosen [] vec = []
chosen (a ∷ xs) [] = []
chosen (a ∷ xs) (b ∷ vec) = if b == 0 then chosen xs vec else a ∷ chosen xs vec

abbrev pub repeated : ℕ → ℕ → List ℕ
repeated zero b = []
repeated (suc k) b = b ∷ repeated k b

-- The chosen elements of each round, on fuel; none means that it ran out.
unfoldable pub rounds : {A : Type 0} → ℕ → List A → List ℕ → Option (List (List A))
rounds zero xs vec = none
rounds (suc fuel) xs vec = elim (next_combination vec) [
  | none ↦ some (chosen xs vec ∷ [])
  | some vec' ↦ elim (rounds fuel xs vec') [ none ↦ none | some rs ↦ some (chosen xs vec ∷ rs) ]
]

-- What the function is called with, and the result.
unfoldable pub for_combination : {A : Type 0} → ℕ → List A → ℕ → Option (Bool × List (List A))
for_combination fuel xs count =
    if ltb (length xs) count
    then some (false, [])
    else elim (rounds fuel xs (repeated count 1 ++ repeated (length xs - count) 0)) [
      | none ↦ none
      | some rs ↦ some (true, rs)
    ]

-- The number of elements that are chosen.
abbrev pub ones : List ℕ → ℕ
ones [] = 0
ones (b ∷ vec) = (if b == 1 then 1 else 0) + ones vec

ones-append : (u v : List ℕ) → ones (u ++ v) ≡ ones u + ones v
ones-append [] v = omega arith
ones-append (b ∷ u) v = omega (arith, ones-append u v)

put_down-keeps :
    (x : ℕ) (ys : List ℕ)
    → (length (put_down x ys) ≡ suc (length ys)) × (ones (put_down x ys) ≡ ones (x ∷ ys))
unfolding put_down
put_down-keeps x [] = (refl, refl)
put_down-keeps x (y ∷ ys) = ground (arith, put_down-keeps x ys)

sort_down-keeps :
    (xs : List ℕ) → (length (sort_down xs) ≡ length xs) × (ones (sort_down xs) ≡ ones xs)
unfolding sort_down
sort_down-keeps [] = (refl, refl)
sort_down-keeps (x ∷ xs) = ground (arith, sort_down-keeps xs, put_down-keeps x (sort_down xs))

next_loop-keeps :
    (before vec next : List ℕ)
    → next_loop before vec ≡ some next
    → (length next ≡ length before + length vec) × (ones next ≡ ones before + ones vec)
unfolding next_loop
next_loop-keeps before [] next e = ground (arith, e)
next_loop-keeps before (x ∷ []) next e = ground (arith, e)
next_loop-keeps before (x ∷ y ∷ vec) next e = elim (Bool-cases ((x == 1) && (y == 0))) [
  | inl here ↦
      let eq : sort_down before ++ y ∷ x ∷ vec ≡ next = ground (arith, e, here) in
      subst
        (λ r.
          (length r ≡ length before + length (x ∷ y ∷ vec))
          × (ones r ≡ ones before + ones (x ∷ y ∷ vec)))
        eq
        (
          ground (arith, length-append (sort_down before) (y ∷ x ∷ vec), sort_down-keeps before),
          ground (arith, ones-append (sort_down before) (y ∷ x ∷ vec), sort_down-keeps before),
        )
  | inr later ↦
      let (l, o) = next_loop-keeps (before ++ x ∷ []) (y ∷ vec) next (ground (arith, e, later)) in
      (
        ground (arith, l, length-append before (x ∷ [])),
        ground (arith, o, ones-append before (x ∷ [])),
      )
]

-- When `next_combination` gives a vector, it has as many entries as the one before, and as many
-- of them are 1.
pub next_combination-keeps :
    (vec next : List ℕ)
    → next_combination vec ≡ some next
    → (length next ≡ length vec) × (ones next ≡ ones vec)
unfolding next_combination
next_combination-keeps vec next e =
    let (l, o) = next_loop-keeps [] vec next e in (omega (arith, l), omega (arith, o))
