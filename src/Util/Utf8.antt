-- ===== src/Util/Utf8.antt =====
-- `Utf8Length` of dev/lsf/util/string_ext.hpp, against the encoding that it reads.
use lsf.Prelude.{
  ℕ, ◌+◌, ◌/◌, ◌%◌, ◌<◌, ◌≡◌, ◌≢◌, refl, ◌∙◌, ap, Bool, Bool-cases, inl, inr, not, List, [], ◌∷◌,
  ◌++◌, arith, ◌==◌, ltb, if◌then◌else◌, length,
}
use lsf.Util.Split.Fields.{All}

-- `(c & 0xc0) != 0x80`: the two high bits are not 10.
abbrev pub starts_char : ℕ → Bool
starts_char c = not ((c / 64) % 4 == 2)

-- `strlen` ends the string at its first zero byte.
unfoldable pub utf8_length : List ℕ → ℕ
utf8_length [] = 0
utf8_length (c ∷ s) =
    if c == 0 then 0 else (if starts_char c then 1 + utf8_length s else utf8_length s)

-- The encoding of a code point in one to four bytes.
unfoldable pub encode : ℕ → List ℕ
encode u =
    if ltb u 0x80
    then u ∷ []
    else (if ltb u 0x800
        then (0xc0 + u / 64) ∷ (0x80 + u % 64) ∷ []
        else (if ltb u 0x10000
            then (0xe0 + u / 4096) ∷ (0x80 + (u / 64) % 64) ∷ (0x80 + u % 64) ∷ []
            else (0xf0 + u / 262144)
              ∷ (0x80 + (u / 4096) % 64)
              ∷ (0x80 + (u / 64) % 64)
              ∷ (0x80 + u % 64)
              ∷ []))

unfoldable pub encode_all : List ℕ → List ℕ
encode_all [] = []
encode_all (u ∷ us) = encode u ++ encode_all us

skip : (c : ℕ) (s : List ℕ) → c < 64 → utf8_length ((0x80 + c) ∷ s) ≡ utf8_length s
unfolding utf8_length
skip c s h = ground arith

count : (c : ℕ) (s : List ℕ) → 0 < c → (c / 64) % 4 ≢ 2 → utf8_length (c ∷ s) ≡ 1 + utf8_length s
unfolding utf8_length
count c s h k = ground arith

utf8_length-encode :
    (u : ℕ) (s : List ℕ) → 0 < u → u < 0x110000 → utf8_length (encode u ++ s) ≡ 1 + utf8_length s
unfolding encode
utf8_length-encode u s h k = elim (Bool-cases (ltb u 0x80)) [
  | inl one ↦ rw one (count u s h (ground arith))
  | inr more ↦ rw more (elim (Bool-cases (ltb u 0x800)) [
    | inl two ↦ rw two (
        count (0xc0 + u / 64) _ (omega arith) (ground arith)
        ∙ ap suc_of (skip (u % 64) s (omega arith)))
    | inr more2 ↦ rw more2 (elim (Bool-cases (ltb u 0x10000)) [
      | inl three ↦ rw three (
          count (0xe0 + u / 4096) _ (omega arith) (ground arith)
          ∙ ap suc_of (skip ((u / 64) % 64) _ (omega arith) ∙ skip (u % 64) s (omega arith)))
      | inr four ↦ rw four (
          count (0xf0 + u / 262144) _ (omega arith) (omega arith)
          ∙ ap suc_of (
              skip ((u / 4096) % 64) _ (omega arith)
              ∙ skip ((u / 64) % 64) _ (omega arith)
              ∙ skip (u % 64) s (omega arith)))
    ])
  ])
]
  where
    suc_of : ℕ → ℕ
    suc_of n = 1 + n

-- On the encoding of code points from 1 to 0x10ffff, `Utf8Length` is the number of code points.
pub utf8_length-encode_all :
    (us : List ℕ) → All (λ u. (0 < u) × (u < 0x110000)) us → utf8_length (encode_all us) ≡ length us
unfolding encode_all
utf8_length-encode_all [] a = unfold utf8_length in refl
utf8_length-encode_all (u ∷ us) a =
    utf8_length-encode u (encode_all us) a.0.0 a.0.1 ∙ omega (arith, utf8_length-encode_all us a.1)
