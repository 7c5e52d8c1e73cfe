-- ===== src/Tlv/Tests.antt =====
-- Runs of the record codec, and the theorems at concrete inputs.
use blindkey.Prelude.{ℕ, ◌≡◌, refl, some, List, [], ◌∷◌, ◌++◌, codes}
use blindkey.Result.{ok, err, body_malformed}
use blindkey.Bytes.{le_bytes, from_le_bytes}
use blindkey.Cursor.{new, take, read_le}
use blindkey.Tlv.{
  write_record, read_record, read_framed, read_value, decode_u64, IncrementalTlv, feed,
  try_next_record,
}
use blindkey.Tlv.Incremental.{try_next_record-feed-some}

abbrev hello : List ℕ
hello = codes "hello"

abbrev hello_bytes : List ℕ
hello_bytes = 2 ∷ 0 ∷ 5 ∷ 0 ∷ 0 ∷ 0 ∷ hello

write_hello : write_record [] 2 hello ≡ hello_bytes
unfolding write_record le_bytes
write_hello = refl

-- A length above the cap is refused before any byte of the value is read.
oversized : read_record 64 (new (2 ∷ 0 ∷ 255 ∷ 255 ∷ 255 ∷ 255 ∷ [])) ≡ err body_malformed
unfolding read_record read_framed take from_le_bytes read_le
oversized = refl

read_hello :
    read_record 64 (new hello_bytes) ≡ ok (some (2, hello), record { buf = hello_bytes; pos = 11 })
unfolding read_record read_framed read_value take from_le_bytes read_le
read_hello = refl

abbrev waiting : IncrementalTlv
waiting = record { pending = hello_bytes ++ 1 ∷ []; max_len = 64 }

next_hello :
    try_next_record waiting ≡ ok (some (2, hello), record { pending = 1 ∷ []; max_len = 64 })
unfolding try_next_record from_le_bytes
next_hello = refl

try_next_record-feed-some_example :
    try_next_record (feed waiting (7 ∷ []))
    ≡ ok (some (2, hello), feed (record { pending = 1 ∷ []; max_len = 64 }) (7 ∷ []))
try_next_record-feed-some_example =
    try_next_record-feed-some waiting (7 ∷ []) (2, hello)
      (record { pending = 1 ∷ []; max_len = 64 }) next_hello

abbrev hostile : IncrementalTlv
hostile = record { pending = 2 ∷ 0 ∷ 255 ∷ 255 ∷ 255 ∷ 255 ∷ []; max_len = 64 }

next_hostile : try_next_record hostile ≡ err body_malformed
unfolding try_next_record from_le_bytes
next_hostile = refl

decode_nine : decode_u64 (9 ∷ 0 ∷ 0 ∷ 0 ∷ 0 ∷ 0 ∷ 0 ∷ 0 ∷ []) ≡ ok 9
unfolding decode_u64 from_le_bytes
decode_nine = refl
