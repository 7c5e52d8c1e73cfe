-- ===== src/Stanza/Tests.antt =====
-- Runs of the stanza codec, and the theorems at concrete inputs.
use blindkey.Prelude.{ℕ, ◌≡◌, refl, arith, some, List, [], ◌∷◌, ◌++◌, codes}
use blindkey.Result.{ok, err, header_corrupt}
use blindkey.Bytes.{le_bytes, from_le_bytes}
use blindkey.Cursor.{take, read_u8, read_le}
use blindkey.Stanza.{Stanza, parse, parse_times, parse_all, parse_sequence, serialize_into}
use blindkey.Stanza.Kind.{parse_kind_name, ascii_lower}
use blindkey.Stanza.RoundTrip.{serialize_all, parse_sequence-serialize_all}

abbrev two : List Stanza
two = record { stanza_type = 1; blob = 7 ∷ 8 ∷ [] } ∷ record { stanza_type = 3; blob = [] } ∷ []

too_many : parse_sequence (9 ∷ []) ≡ err header_corrupt
unfolding parse_sequence parse_all read_u8 take from_le_bytes
too_many = refl

upper_name : parse_kind_name (codes "PW_Keyfile") ≡ some 8
unfolding parse_kind_name ascii_lower
upper_name = refl

parse_sequence-serialize_all_example : parse_sequence (2 ∷ serialize_all two ++ 5 ∷ []) ≡ ok two
unfolding serialize_into le_bytes
parse_sequence-serialize_all_example =
    parse_sequence-serialize_all two (5 ∷ []) (omega arith) (omega arith) (omega arith)

abbrev two_bytes : List ℕ
two_bytes = 2 ∷ 1 ∷ 2 ∷ 0 ∷ 0 ∷ 0 ∷ 7 ∷ 8 ∷ 3 ∷ 0 ∷ 0 ∷ 0 ∷ 0 ∷ 5 ∷ []

parse_two : parse_sequence two_bytes ≡ ok two
unfolding parse_sequence parse_all parse_times parse read_u8 read_le take from_le_bytes
parse_two = refl
