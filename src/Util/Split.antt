-- ===== src/Util/Split.antt =====
-- `SplitGet`, `SplitGetNext` and `SplitStr` of dev/lsf/util/string_ext.hpp. The loops run on fuel;
-- `length + 1` rounds are given.
pub mod Fields
use lsf.Prelude.{
  ℕ, zero, suc, ◌+◌, ◌-◌, Bool, true, false, Option, none, some, List, [], ◌∷◌, ◌==◌, if◌then◌else◌,
  length,
}
use lsf.Util.Bytes.{find_first_of, find_first_not_of, substr, substr_from}

-- Where the next field begins, after the delimiter at `end`.
abbrev pub next_begin : Bool → (ℕ → Bool) → List ℕ → ℕ → Option ℕ
next_begin ignore_repeated p input end =
    if ignore_repeated then find_first_not_of p input end else some (end + 1)

-- The loop of `SplitGet` from `begin` on; `none` is the end of the fuel.
unfoldable pub split_get_loop : ℕ → Bool → (ℕ → Bool) → List ℕ → ℕ → ℕ → ℕ → Option (List ℕ)
split_get_loop zero ignore p input index count begin = none
split_get_loop (suc fuel) ignore p input index count begin = elim (find_first_of p input begin) [
  | none ↦ some (if count == index then substr_from input begin else [])
  | some end ↦
      if count == index
      then some (substr input begin (end - begin))
      else elim (next_begin ignore p input end) [
        | none ↦ some []
        | some b ↦ split_get_loop fuel ignore p input index (count + 1) b
      ]
]

unfoldable pub split_get : Bool → (ℕ → Bool) → List ℕ → ℕ → Option (List ℕ)
split_get ignore p input index = split_get_loop (length input + 1) ignore p input index 0 0

-- The offset goes in and comes out; `none` is `npos`.
unfoldable pub split_get_next : Bool → (ℕ → Bool) → List ℕ → Option ℕ → List ℕ × Option ℕ
split_get_next ignore p input none = ([], none)
split_get_next ignore p input (some begin) = elim (find_first_of p input begin) [
  | none ↦ (substr_from input begin, none)
  | some end ↦ (substr input begin (end - begin), next_begin ignore p input end)
]

unfoldable pub split_str_loop : ℕ → Bool → (ℕ → Bool) → List ℕ → ℕ → Option (List (List ℕ))
split_str_loop zero ignore p input begin = none
split_str_loop (suc fuel) ignore p input begin = elim (find_first_of p input begin) [
  | none ↦ some (substr_from input begin ∷ [])
  | some end ↦ elim (next_begin ignore p input end) [
    | none ↦ some (substr input begin (end - begin) ∷ [])
    | some b ↦ elim (split_str_loop fuel ignore p input b) [
      | none ↦ none
      | some fields ↦ some (substr input begin (end - begin) ∷ fields)
    ]
  ]
]

unfoldable pub split_str : Bool → (ℕ → Bool) → List ℕ → Option (List (List ℕ))
split_str ignore p input = split_str_loop (length input + 1) ignore p input 0

-- The fields that repeated calls of `SplitGetNext` give, while the offset is not `npos`.
unfoldable pub drain : ℕ → Bool → (ℕ → Bool) → List ℕ → Option ℕ → Option (List (List ℕ))
drain zero ignore p input offset = none
drain (suc fuel) ignore p input offset =
    let (field, offset') = split_get_next ignore p input offset in
    elim offset' [
      | none ↦ some (field ∷ [])
      | some b ↦ elim (drain fuel ignore p input (some b)) [
        | none ↦ none
        | some fields ↦ some (field ∷ fields)
      ]
    ]
