-- ===== src/Util/WordsFilter.antt =====
-- `WordsFilter` of dev/lsf/util/words_filter.hpp. The multimap from first characters to words is the
-- list of the words as they were added; the entries of a key are those with that first character.
use lsf.Prelude.{
  ℕ, zero, suc, ◌+◌, ◌-◌, ◌≡◌, ◌<◌, refl, Bool, true, false, ◌||◌, Option, none, some, List, [],
  ◌∷◌, ◌++◌, ◌==◌, ltb, if◌then◌else◌, arith, length,
}
use lsf.Util.Bytes.{take, drop}
use lsf.Util.Replace.{is_prefix}
use lsf.Util.Utf8.{utf8_length}

unfoldable pub add_word : List ℕ → List (List ℕ) → List (List ℕ)
add_word [] words = words
add_word (c ∷ w) words = words ++ (c ∷ w) ∷ []

unfoldable pub clear : List (List ℕ) → List (List ℕ)
clear words = []

unfoldable pub has_front : ℕ → List ℕ → Bool
has_front c [] = false
has_front c (d ∷ w) = d == c

-- `equal_range`.
unfoldable pub equal_range : ℕ → List (List ℕ) → List (List ℕ)
equal_range c [] = []
equal_range c (w ∷ words) = if has_front c w then w ∷ equal_range c words else equal_range c words

-- The inner loop of `CheckHasWord`, on what is left of the sentence.
unfoldable pub any_prefix : List (List ℕ) → List ℕ → Bool
any_prefix [] rest = false
any_prefix (w ∷ words) rest =
    if ltb (length rest) (length w)
    then any_prefix words rest
    else (if is_prefix w rest then true else any_prefix words rest)

unfoldable pub check_has_word : List (List ℕ) → List ℕ → Bool
check_has_word words [] = false
check_has_word words (c ∷ rest) =
    if any_prefix (equal_range c words) (c ∷ rest) then true else check_has_word words rest

abbrev pub replicate : ℕ → ℕ → List ℕ
replicate zero c = []
replicate (suc k) c = c ∷ replicate k c

-- The inner loop of `SubstitueInplace` at the position `i`; the words are those of the character
-- that stood there before the loop.
unfoldable pub substitute_words : ℕ → ℕ → List (List ℕ) → Bool × List ℕ → Bool × List ℕ
substitute_words i subchar [] st = st
substitute_words i subchar (w ∷ words) (found, s) = substitute_words i subchar words (
    if ltb (length s - i) (length w)
    then (found, s)
    else if is_prefix w (drop i s)
    then (true, take i s ++ (replicate (utf8_length w) subchar ++ drop (i + length w) s))
    else (found, s))

-- The outer loop, on fuel; the sentence never gets longer, so `length + 1` rounds are given.
unfoldable pub substitute_loop : ℕ → List (List ℕ) → ℕ → ℕ → Bool × List ℕ → Option (Bool × List ℕ)
substitute_loop zero words subchar i st = none
substitute_loop (suc fuel) words subchar i (found, s) = elim (drop i s) [
  | [] ↦ some (found, s)
  | c ∷ _ ↦
      substitute_loop fuel words subchar (suc i)
        (substitute_words i subchar (equal_range c words) (found, s))
]

unfoldable pub substitute_inplace : List (List ℕ) → ℕ → List ℕ → Option (Bool × List ℕ)
substitute_inplace words subchar s = substitute_loop (length s + 1) words subchar 0 (false, s)

-- A word stands somewhere in the sentence.
abbrev pub occurs : List ℕ → List ℕ → Bool
occurs w [] = false
occurs w (c ∷ rest) = is_prefix w (c ∷ rest) || occurs w rest

abbrev pub any_occurs : List (List ℕ) → List ℕ → Bool
any_occurs [] s = false
any_occurs (w ∷ words) s = occurs w s || any_occurs words s

-- No word is empty, as `AddWord` ensures.
abbrev pub Filled : List (List ℕ) → Type 0
Filled [] = Unit {0}
Filled (w ∷ words) = (0 < length w) × Filled words

prefix-short : (w s : List ℕ) → length s < length w → is_prefix w s ≡ false
prefix-short [] s h = absurd (omega arith)
prefix-short (c ∷ w) [] h = refl
prefix-short (c ∷ w) (d ∷ s) h = ground (arith, prefix-short w s)

prefix-front :
    (w : List ℕ) (c : ℕ) (rest : List ℕ)
    → 0 < length w
    → has_front c w ≡ false
    → is_prefix w (c ∷ rest) ≡ false
unfolding has_front
prefix-front [] c rest h f = absurd (omega arith)
prefix-front (d ∷ w) c rest h f = ground (arith, f)

any_prefix-step :
    (w : List ℕ) (words : List (List ℕ)) (s : List ℕ)
    → any_prefix (w ∷ words) s ≡ (is_prefix w s || any_prefix words s)
unfolding any_prefix
any_prefix-step w words s = ground (arith, prefix-short w s)

-- Some word starts the sentence.
abbrev pub starts : List (List ℕ) → List ℕ → Bool
starts [] s = false
starts (w ∷ words) s = is_prefix w s || starts words s

any_prefix-starts :
    (c : ℕ) (rest : List ℕ) (words : List (List ℕ))
    → Filled words
    → any_prefix (equal_range c words) (c ∷ rest) ≡ starts words (c ∷ rest)
unfolding equal_range any_prefix
any_prefix-starts c rest [] f = refl
any_prefix-starts c rest (w ∷ words) f = ground (
  arith,
  any_prefix-starts c rest words f.1,
  prefix-front w c rest f.0,
  prefix-short w (c ∷ rest),
)

any_occurs-nil : (words : List (List ℕ)) → any_occurs words [] ≡ false
any_occurs-nil [] = refl
any_occurs-nil (w ∷ words) = any_occurs-nil words

any_occurs-cons :
    (c : ℕ) (rest : List ℕ) (words : List (List ℕ))
    → any_occurs words (c ∷ rest) ≡ (starts words (c ∷ rest) || any_occurs words rest)
any_occurs-cons c rest [] = refl
any_occurs-cons c rest (w ∷ words) = ground (arith, any_occurs-cons c rest words)

-- For words that are not empty, `CheckHasWord` holds exactly if one of them stands somewhere in
-- the sentence.
pub check_has_word-occurs :
    (words : List (List ℕ)) (s : List ℕ)
    → Filled words
    → check_has_word words s ≡ any_occurs words s
unfolding check_has_word
check_has_word-occurs words [] f = ground (arith, any_occurs-nil words)
check_has_word-occurs words (c ∷ rest) f = ground (
  arith,
  check_has_word-occurs words rest f,
  any_prefix-starts c rest words f,
  any_occurs-cons c rest words,
)
