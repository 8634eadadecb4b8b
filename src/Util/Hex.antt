-- ===== src/Util/Hex.antt =====
-- `BinToString`, `BinToHexString` and `HexStringToBin` of dev/lsf/util/string_ext.hpp. A byte is a
-- number below 256; `char` arithmetic wraps.
use lsf.Prelude.{
  ℕ, zero, suc, ◌+◌, ◌-◌, ◌*◌, ◌/◌, ◌%◌, ◌^◌, ◌≤◌, ◌<◌, ◌≡◌, refl, ◌∙◌, ap, ap₂, Bool, true, false,
  ◌&&◌, Option, Bool-cases, inl, inr, none, some, List, [], ◌∷◌, arith, ◌==◌, ltb, leb,
  if◌then◌else◌, length, eq_of_==,
}
use lsf.Util.Split.Fields.{All}

-- `CHAR_TABLE`.
unfoldable pub char_table : ℕ → ℕ
char_table d = if ltb d 10 then b'0' + d else b'a' + (d - 10)

unfoldable pub bin_to_string : List ℕ → List ℕ
bin_to_string [] = []
bin_to_string (c ∷ s) =
    (if ltb c 0x20 then b'.' else if ltb 0x7e c then b'.' else c) ∷ bin_to_string s

unfoldable pub bin_to_hex_string : List ℕ → List ℕ
unfolding char_table
bin_to_hex_string [] = []
bin_to_hex_string (c ∷ s) =
    char_table ((c / 2 ^ 4) % 16) ∷ char_table (c % 16) ∷ bin_to_hex_string s

-- The value of a digit, in either case; the switches do nothing for any other character.
unfoldable pub hex_digit : ℕ → Option ℕ
hex_digit c =
    if leb b'0' c && leb c b'9'
    then some (c - b'0')
    else (if leb b'a' c && leb c b'f'
        then some (c - b'a' + 10)
        else (if leb b'A' c && leb c b'F' then some (c - b'A' + 10) else none))

-- The two switches on one byte of the result, which holds a blank before.
unfoldable pub hex_byte : ℕ → ℕ → ℕ
unfolding hex_digit
hex_byte hi lo =
    let first : ℕ = elim (hex_digit hi) [ none ↦ b' ' | some d ↦ d * 16 % 256 ] in
    elim (hex_digit lo) [ none ↦ first | some d ↦ (first + d) % 256 ]

-- `inlen / 2` bytes: a last single character is left out.
unfoldable pub hex_string_to_bin : List ℕ → List ℕ
hex_string_to_bin [] = []
hex_string_to_bin (c ∷ []) = []
hex_string_to_bin (hi ∷ lo ∷ s) = hex_byte hi lo ∷ hex_string_to_bin s

-- The test holds of every byte up to `last`.
every_upto : (ℕ → Bool) → ℕ → Bool
every_upto test zero = test 0
every_upto test (suc last) = if test (suc last) then every_upto test last else false

test-every_upto :
    (test : ℕ → Bool) (last c : ℕ) → c ≤ last → every_upto test last ≡ true → test c ≡ true
unfolding every_upto
test-every_upto test zero c le e = ap test (omega arith) ∙ e
test-every_upto test (suc last) c le e = elim (Bool-cases (c == suc last)) [
  | inl same ↦ ground (arith, same, e)
  | inr other ↦ test-every_upto test last c (ground (arith, other)) (ground (arith, e))
]

byte_table :
    every_upto (λ c. hex_byte (char_table ((c / 2 ^ 4) % 16)) (char_table (c % 16)) == c) 255 ≡ true
unfolding every_upto hex_byte char_table
byte_table = refl

-- Bytes, numbers below 256, come back from their hexadecimal digits.
pub hex_string_to_bin-bin_to_hex_string :
    (s : List ℕ) → All (λ c. c < 256) s → hex_string_to_bin (bin_to_hex_string s) ≡ s
unfolding hex_string_to_bin bin_to_hex_string
hex_string_to_bin-bin_to_hex_string [] a = refl
hex_string_to_bin-bin_to_hex_string (c ∷ s) a =
    ap₂ (λ x xs. x ∷ xs) (eq_of_== _ c (test-every_upto _ 255 c (omega (arith, a.0)) byte_table))
      (hex_string_to_bin-bin_to_hex_string s a.1)

-- `BinToString` keeps the length, gives only characters from 0x20 to 0x7e, and keeps a string of
-- such characters as it is.
pub bin_to_string-printable :
    (s : List ℕ)
    → (length (bin_to_string s) ≡ length s)
      × All (λ c. (0x20 ≤ c) × (c ≤ 0x7e)) (bin_to_string s)
      × (All (λ c. (0x20 ≤ c) × (c ≤ 0x7e)) s → bin_to_string s ≡ s)
unfolding bin_to_string
bin_to_string-printable [] = (refl, tt, λ a. refl)
bin_to_string-printable (c ∷ s) =
    let (len, clean, same) = bin_to_string-printable s in
    (omega arith, (ground arith, clean), λ a. ap₂ (λ x xs. x ∷ xs) (ground arith) (same a.1))
