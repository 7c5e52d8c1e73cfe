-- ===== src/Volume/Fs/Utf8.antt =====
-- The test of `String::from_utf8`: the well-formed byte sequences of the Unicode standard.
use blindkey.Prelude.{
  ℕ, zero, suc, Bool, false, Option, none, some, List, [], ◌∷◌, ◌==◌, ◌&&◌, leb, ltb, if◌then◌else◌,
}

-- How many continuation bytes are due, and the bounds of the next.
pub record Due : Type 0 where
  pub count : ℕ
  pub low : ℕ
  pub high : ℕ

abbrev due : ℕ → ℕ → ℕ → Option Due
due count low high = some (record { count = count; low = low; high = high })

first_byte : ℕ → Option Due
first_byte b =
    if ltb b 0x80
    then due 0 0 0
    else if ltb b 0xC2
    then none
    else if ltb b 0xE0
    then due 1 0x80 0xBF
    else if b == 0xE0
    then due 2 0xA0 0xBF
    else if b == 0xED
    then due 2 0x80 0x9F
    else if ltb b 0xF0
    then due 2 0x80 0xBF
    else if b == 0xF0
    then due 3 0x90 0xBF
    else if ltb b 0xF4
    then due 3 0x80 0xBF
    else if b == 0xF4
    then due 3 0x80 0x8F
    else none

next_byte : Due → ℕ → Option Due
next_byte d b = elim d.count [
  | zero ↦ first_byte b
  | suc rest ↦ if leb d.low b && leb b d.high then due rest 0x80 0xBF else none
]

utf8_from : Due → List ℕ → Bool
utf8_from d [] = d.count == 0
utf8_from d (b ∷ bs) = elim (next_byte d b) [ none ↦ false | some d' ↦ utf8_from d' bs ]

unfoldable pub is_utf8 : List ℕ → Bool
unfolding first_byte next_byte utf8_from
is_utf8 bytes = utf8_from (record { count = 0; low = 0; high = 0 }) bytes
