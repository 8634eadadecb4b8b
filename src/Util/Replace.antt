-- ===== src/Util/Replace.antt =====
-- `Replace` and `ReplaceInplace` of dev/lsf/util/string_ext.hpp. The loops run on fuel; `none` means
-- that it ran out.
pub mod Total
use lsf.Prelude.{
  ℕ, zero, suc, ◌+◌, ◌-◌, ◌≤◌, ◌<◌, ◌≡◌, ◌≢◌, refl, sym, ◌∙◌, ap, ap₂, subst, Bool, true, false,
  ◌&&◌, Option, none, some, List, [], ◌∷◌, ◌++◌, arith, ◌==◌, leb, if◌then◌else◌, length,
  length-append, append_assoc, append-nil, inl, inr, Option-cases,
}
use lsf.Util.Bytes.{take, drop, drop-drop, length-drop, substr}

abbrev pub is_prefix : List ℕ → List ℕ → Bool
is_prefix [] s = true
is_prefix (p ∷ pat) [] = false
is_prefix (p ∷ pat) (c ∷ s) = (p == c) && is_prefix pat s

-- The position of the first occurrence.
unfoldable pub occurrence : List ℕ → List ℕ → Option ℕ
occurrence pat [] = if is_prefix pat [] then some 0 else none
occurrence pat (c ∷ s) =
    if is_prefix pat (c ∷ s)
    then some 0
    else elim (occurrence pat s) [ none ↦ none | some i ↦ some (suc i) ]

-- `find(to_replace, pos)`; behind the end nothing is found.
unfoldable pub find_from : List ℕ → List ℕ → ℕ → Option ℕ
find_from pat s pos =
    if leb pos (length s)
    then elim (occurrence pat (drop pos s)) [ none ↦ none | some i ↦ some (pos + i) ]
    else none

unfoldable pub replace_loop : ℕ → List ℕ → List ℕ → List ℕ → List ℕ → ℕ → Option (List ℕ)
replace_loop zero src pat replacement tmp last = none
replace_loop (suc fuel) src pat replacement tmp last = elim (find_from pat src last) [
  | none ↦ some (tmp ++ drop last src)
  | some pos ↦
      replace_loop fuel src pat replacement (tmp ++ (substr src last (pos - last) ++ replacement))
        (pos + length pat)
]

unfoldable pub replace : ℕ → List ℕ → List ℕ → List ℕ → Option (List ℕ)
replace fuel src pat replacement = replace_loop fuel src pat replacement [] 0

unfoldable pub inplace_loop : ℕ → List ℕ → List ℕ → List ℕ → ℕ → Option (List ℕ)
inplace_loop zero src pat replacement from = none
inplace_loop (suc fuel) src pat replacement from = elim (find_from pat src from) [
  | none ↦ some src
  | some pos ↦
      inplace_loop fuel (take pos src ++ (replacement ++ drop (pos + length pat) src)) pat
        replacement (pos + length replacement)
]

unfoldable pub replace_inplace : ℕ → List ℕ → List ℕ → List ℕ → Option (List ℕ)
replace_inplace fuel src pat replacement = inplace_loop fuel src pat replacement 0
