-- ===== src/Examples/Text.antt =====
-- Short strings, as lists of bytes, and short vectors.
use lsf.Prelude.{ℕ, ◌≡◌, refl, Bool, List, [], ◌∷◌, arith, ◌==◌, some, none}
use lsf.Util.Hex.{bin_to_hex_string, hex_string_to_bin, hex_string_to_bin-bin_to_hex_string}
use lsf.Util.Replace.{replace, replace_inplace}
use lsf.Util.Replace.Total.{replaced, replace-total, replace-never_ends}
use lsf.Util.WordsFilter.{check_has_word, any_occurs, check_has_word-occurs}
use lsf.Algorithm.Combination.{next_combination, next_loop, sort_down, put_down}

-- "a,b,,c"
abbrev row : List ℕ
row = 97 ∷ 44 ∷ 98 ∷ 44 ∷ 44 ∷ 99 ∷ []

abbrev comma : ℕ → Bool
comma c = c == 44

hex_string_to_bin-bin_to_hex_string_example :
    hex_string_to_bin (bin_to_hex_string (0 ∷ 255 ∷ [])) ≡ 0 ∷ 255 ∷ []
hex_string_to_bin-bin_to_hex_string_example =
    hex_string_to_bin-bin_to_hex_string (0 ∷ 255 ∷ []) (omega arith, (omega arith, tt))

replace-total_example :
    (r : List ℕ) × (replaced (98 ∷ []) (100 ∷ []) 7 row ≡ some r)
    × (replace 7 row (98 ∷ []) (100 ∷ []) ≡ some r)
    × (replace_inplace 7 row (98 ∷ []) (100 ∷ []) ≡ some r)
replace-total_example = replace-total (98 ∷ []) (100 ∷ []) row (omega arith)

replace-never_ends_example :
    (replace 9 row [] (100 ∷ []) ≡ none) × (replace_inplace 9 row [] (100 ∷ []) ≡ none)
replace-never_ends_example = replace-never_ends 9 row (100 ∷ [])

check_has_word-occurs_example :
    check_has_word ((44 ∷ 99 ∷ []) ∷ (98 ∷ []) ∷ []) row
    ≡ any_occurs ((44 ∷ 99 ∷ []) ∷ (98 ∷ []) ∷ []) row
check_has_word-occurs_example =
    check_has_word-occurs ((44 ∷ 99 ∷ []) ∷ (98 ∷ []) ∷ []) row (omega arith, (omega arith, tt))

second_choice : next_combination (1 ∷ 1 ∷ 0 ∷ []) ≡ some (1 ∷ 0 ∷ 1 ∷ [])
unfolding next_combination next_loop sort_down put_down
second_choice = refl
