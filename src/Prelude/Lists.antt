-- ===== src/Prelude/Lists.antt =====
-- Lists over the native numbers: lengths, membership of numbers, distinctness, pointwise update.
use Prim.Native.Nat.{ℕ, zero, suc, ◌+◌, ◌<◌, ◌≤◌}
use mathlib.Core.Path.{◌≡◌, refl, sym, subst}
use mathlib.Core.Bool.{Bool, true, false, ◌||◌}
use mathlib.Core.Option.{Option, none, some}
use mathlib.Core.List.{List, [], ◌∷◌, ◌++◌, map}
use native.Mathlib.Omega.{arith}
use lsf.Prelude.Tests.{◌==◌, if◌then◌else◌}

module _ {ℓ} {A : Type ℓ} where
  abbrev pub length : List A → ℕ
  length [] = 0
  length (x ∷ xs) = suc (length xs)

  abbrev pub get_elem? : List A → ℕ → Option A
  get_elem? [] i = none
  get_elem? (x ∷ xs) zero = some x
  get_elem? (x ∷ xs) (suc i) = get_elem? xs i

  pub length-append : (xs ys : List A) → length (xs ++ ys) ≡ length xs + length ys
  length-append [] ys = omega arith
  length-append (x ∷ xs) ys = omega (arith, length-append xs ys)

  -- One entry of a function is written.
  abbrev pub update : (ℕ → A) → ℕ → A → ℕ → A
  update f a v x = if x == a then v else f x

pub length-map {ℓ κ} :
    {A : Type ℓ} {B : Type κ} (f : A → B) (xs : List A) → length (map f xs) ≡ length xs
length-map f [] = refl
length-map f (x ∷ xs) = omega (arith, length-map f xs)

abbrev pub mem : ℕ → List ℕ → Bool
mem a [] = false
mem a (x ∷ xs) = (a == x) || mem a xs

abbrev pub Distinct : List ℕ → Type 0
Distinct [] = Unit {0}
Distinct (x ∷ xs) = (mem x xs ≡ false) × Distinct xs

pub mem-append : (a : ℕ) (xs ys : List ℕ) → mem a (xs ++ ys) ≡ (mem a xs || mem a ys)
mem-append a [] ys = refl
mem-append a (x ∷ xs) ys = ground (arith, mem-append a xs ys)

-- Membership goes by the number, however it is computed.
pub mem_of_eq : (a b : ℕ) (xs : List ℕ) (t : Bool) → a ≡ b → mem b xs ≡ t → mem a xs ≡ t
mem_of_eq a b xs t e = subst (λ c. mem c xs ≡ t) (sym e)

-- Two parts of a list without repetition are without repetition and share nothing.
pub Distinct-append_left : (xs ys : List ℕ) → Distinct (xs ++ ys) → Distinct xs
Distinct-append_left [] ys d = tt
Distinct-append_left (x ∷ xs) ys d =
    ground (arith, mem-append x xs ys, Distinct-append_left xs ys d.1)

pub Distinct-append_right : (xs ys : List ℕ) → Distinct (xs ++ ys) → Distinct ys
Distinct-append_right [] ys d = d
Distinct-append_right (x ∷ xs) ys d = Distinct-append_right xs ys d.1

pub Distinct-apart :
    (a : ℕ) (xs ys : List ℕ) → Distinct (xs ++ ys) → mem a xs ≡ true → mem a ys ≡ false
Distinct-apart a [] ys d h = ground arith
Distinct-apart a (x ∷ xs) ys d h = ground (arith, mem-append x xs ys, Distinct-apart a xs ys d.1)

-- An entry in the middle is put in, or taken out.
pub Distinct-insert :
    (x : ℕ) (xs ys : List ℕ)
    → Distinct (xs ++ ys)
    → mem x (xs ++ ys) ≡ false
    → Distinct (xs ++ x ∷ ys)
Distinct-insert x [] ys d h = (h, d)
Distinct-insert x (y ∷ xs) ys d h =
    ground (arith, mem-append y xs ys, mem-append y xs (x ∷ ys), Distinct-insert x xs ys d.1)

pub Distinct-delete :
    (x : ℕ) (xs ys : List ℕ)
    → Distinct (xs ++ x ∷ ys)
    → Distinct (xs ++ ys) × (mem x (xs ++ ys) ≡ false)
Distinct-delete x [] ys d = (d.1, d.0)
Distinct-delete x (y ∷ xs) ys d =
    ground (arith, mem-append y xs ys, mem-append y xs (x ∷ ys), Distinct-delete x xs ys d.1)

-- The numbers from `a` on.
abbrev pub up_from : ℕ → ℕ → List ℕ
up_from a zero = []
up_from a (suc k) = a ∷ up_from (suc a) k

pub mem-up_from : (x a k : ℕ) → mem x (up_from a k) ≡ true → (a ≤ x) × (x < a + k)
mem-up_from x a zero h = ground arith
mem-up_from x a (suc k) h = ground (arith, mem-up_from x (suc a) k)

pub Distinct-up_from : (a k : ℕ) → Distinct (up_from a k)
Distinct-up_from a zero = tt
Distinct-up_from a (suc k) = ground (arith, mem-up_from a (suc a) k, Distinct-up_from (suc a) k)

pub length-up_from : (a k : ℕ) → length (up_from a k) ≡ k
length-up_from a zero = refl
length-up_from a (suc k) = omega (arith, length-up_from (suc a) k)

module _ {A : Type 0} where
  pub get_elem?-append_last :
      (xs : List A) (v : A) (i : ℕ)
      → get_elem? (xs ++ v ∷ []) i ≡ (if i == length xs then some v else get_elem? xs i)
  get_elem?-append_last [] v zero = refl
  get_elem?-append_last [] v (suc i) = ground arith
  get_elem?-append_last (x ∷ xs) v zero = ground arith
  get_elem?-append_last (x ∷ xs) v (suc i) = ground (arith, get_elem?-append_last xs v i)
