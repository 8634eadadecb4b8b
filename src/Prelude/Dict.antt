-- ===== src/Prelude/Dict.antt =====
-- Dictionaries from numbers, as association lists without repeated keys: `std::map` and
-- `std::unordered_map` where the order of the entries does not matter.
use Prim.Native.Nat.{ℕ, ◌+◌}
use mathlib.Core.Path.{◌≡◌, refl}
use mathlib.Core.Bool.{Bool, true, false, ◌||◌}
use mathlib.Core.Option.{Option, none, some}
use mathlib.Core.List.{List, [], ◌∷◌}
use native.Mathlib.Omega.{arith}
use lsf.Prelude.Tests.{◌==◌, if◌then◌else◌}
use lsf.Prelude.Lists.{length, mem}

abbrev pub Dict : Type 0 → Type 0
Dict V = List (ℕ × V)

module _ {V : Type 0} where
  unfoldable pub find : ℕ → Dict V → Option V
  find k [] = none
  find k ((j, v) ∷ d) = if j == k then some v else find k d

  unfoldable pub insert : ℕ → V → Dict V → Dict V
  insert k v [] = (k, v) ∷ []
  insert k v ((j, w) ∷ d) = if j == k then (k, v) ∷ d else (j, w) ∷ insert k v d

  unfoldable pub erase : ℕ → Dict V → Dict V
  erase k [] = []
  erase k ((j, v) ∷ d) = if j == k then erase k d else (j, v) ∷ erase k d

  unfoldable pub exist : ℕ → Dict V → Bool
  exist k [] = false
  exist k ((j, v) ∷ d) = (j == k) || exist k d

  abbrev pub keys : Dict V → List ℕ
  keys [] = []
  keys ((k, v) ∷ d) = k ∷ keys d

  pub find-insert :
      (k j : ℕ) (v : V) (d : Dict V) → find j (insert k v d) ≡ (if k == j then some v else find j d)
  unfolding find insert
  find-insert k j v [] = refl
  find-insert k j v ((i, w) ∷ d) = ground (arith, find-insert k j v d)

  pub find-erase : (k j : ℕ) (d : Dict V) → find j (erase k d) ≡ (if k == j then none else find j d)
  unfolding find erase
  find-erase k j [] = ground arith
  find-erase k j ((i, w) ∷ d) = ground (arith, find-erase k j d)

  pub exist-insert :
      (k j : ℕ) (v : V) (d : Dict V) → exist j (insert k v d) ≡ ((k == j) || exist j d)
  unfolding exist insert
  exist-insert k j v [] = refl
  exist-insert k j v ((i, w) ∷ d) = ground (arith, exist-insert k j v d)

  pub exist-erase :
      (k j : ℕ) (d : Dict V) → exist j (erase k d) ≡ (if k == j then false else exist j d)
  unfolding exist erase
  exist-erase k j [] = ground arith
  exist-erase k j ((i, w) ∷ d) = ground (arith, exist-erase k j d)

  pub exist-mem : (k : ℕ) (d : Dict V) → exist k d ≡ mem k (keys d)
  unfolding exist
  exist-mem k [] = refl
  exist-mem k ((j, v) ∷ d) = ground (arith, exist-mem k d)

  pub exist-none : (k : ℕ) (d : Dict V) → exist k d ≡ false → find k d ≡ none
  unfolding exist find
  exist-none k [] e = refl
  exist-none k ((j, v) ∷ d) e = ground (arith, exist-none k d)

  pub exist-some : (k : ℕ) (v : V) (d : Dict V) → find k d ≡ some v → exist k d ≡ true
  unfolding exist find
  exist-some k v [] e = ground arith
  exist-some k v ((j, w) ∷ d) e = ground (arith, exist-some k v d)

  pub length-insert :
      (k : ℕ) (v : V) (d : Dict V) → length (insert k v d) ≡ length d + (if exist k d then 0 else 1)
  unfolding exist insert
  length-insert k v [] = refl
  length-insert k v ((j, w) ∷ d) = ground (arith, length-insert k v d)

  pub length-keys : (d : Dict V) → length (keys d) ≡ length d
  length-keys [] = refl
  length-keys ((k, v) ∷ d) = omega (arith, length-keys d)
