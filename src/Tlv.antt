-- ===== src/Tlv.antt =====
-- crates/blindkey-core/src/format/tlv.rs and tlv_incremental.rs: records `tag u16 | len u32 |
-- value`, read from a whole buffer or from a buffer that grows.
pub mod Reader
pub mod Incremental
pub mod Loop
pub mod Oversize
pub mod Written
mod Tests
use blindkey.Prelude.{
  ℕ, ◌+◌, ◌-◌, ◌*◌, ◌^◌, ◌%◌, Bool, Option, none, some, List, [], ◌++◌, length, ltb, leb, ◌==◌,
  if◌then◌else◌, take as take_list, drop,
}
use blindkey.Result.{Result, ok, err, body_malformed}
use blindkey.Volume.Fs.Utf8.{is_utf8}
use blindkey.Bytes.{u32_mod, u64_mod, le_bytes, from_le_bytes}
use blindkey.Cursor.{
  Cursor, Read, ◌>>=◌, ◌>>◌, pure, refuse_if, relabel, remaining, read_u16_le, read_u32_le, take,
}

abbrev pub protected_bit : ℕ
protected_bit = 0x8000

abbrev pub max_field_len : ℕ
max_field_len = 1024 * 1024

abbrev pub max_entry_len : ℕ
max_entry_len = 16 * 1024 * 1024

-- `value.len() as u32` keeps the low 32 bits.
unfoldable pub write_record : List ℕ → ℕ → List ℕ → List ℕ
write_record out tag value =
    out ++ (le_bytes 2 tag ++ (le_bytes 4 (length value % u32_mod) ++ value))

abbrev pub Record : Type 0
Record = ℕ × List ℕ

abbrev pub header_len : ℕ
header_len = 6

-- The part of `read_record` behind its length check: an incomplete value is no record yet.
unfoldable pub read_value : ℕ → ℕ → Read (Option Record)
read_value tag len c =
    if ltb (remaining c) len
    then ok (none, c)
    else (do value ← relabel body_malformed (take len); pure (some (tag, value))) c

unfoldable pub read_framed : ℕ → Read (Option Record)
read_framed max_len = do
  tag ← relabel body_malformed read_u16_le
  len ← relabel body_malformed read_u32_le
  refuse_if (ltb max_len len) body_malformed
  read_value tag len

unfoldable pub read_record : ℕ → Read (Option Record)
read_record max_len c = if remaining c == 0 then ok (none, c) else read_framed max_len c

unfoldable pub decode_str : List ℕ → Result (List ℕ)
decode_str value = if is_utf8 value then ok value else err body_malformed

-- The number in two's complement is kept as the number that its bytes make.
unfoldable pub decode_i64 : List ℕ → Result ℕ
decode_i64 value = if length value == 8 then ok (from_le_bytes value) else err body_malformed

-- The conversion of a slice to `[u8; 8]` fails unless it has eight bytes.
unfoldable pub decode_u64 : List ℕ → Result ℕ
decode_u64 value = if length value == 8 then ok (from_le_bytes value) else err body_malformed

pub record IncrementalTlv : Type 0 where
  pub pending : List ℕ
  pub max_len : ℕ

abbrev pub new : ℕ → IncrementalTlv
new max_len = record { pending = []; max_len = max_len }

-- An empty chunk returns early, and appending it would change nothing.
unfoldable pub feed : IncrementalTlv → List ℕ → IncrementalTlv
feed p List.[] = p
feed p (List.◌∷◌ b chunk) = record p { pending = p.pending ++ List.◌∷◌ b chunk }

-- `HEADER_LEN.checked_add(len)` fails where the sum does not fit 64 bits.
unfoldable pub try_next_record : IncrementalTlv → Result (Option Record × IncrementalTlv)
try_next_record p =
    if ltb (length p.pending) header_len
    then ok (none, p)
    else let tag = from_le_bytes (take_list 2 p.pending) in
      let len = from_le_bytes (take_list 4 (drop 2 p.pending)) in
      let total = header_len + len in
      if ltb p.max_len len
      then err body_malformed
      else if leb u64_mod total
      then err body_malformed
      else if ltb (length p.pending) total
      then ok (none, p)
      else ok (
        some (tag, take_list len (drop header_len p.pending)),
        record p { pending = drop total p.pending },
      )

abbrev pub pending_len : IncrementalTlv → ℕ
pending_len p = length p.pending
