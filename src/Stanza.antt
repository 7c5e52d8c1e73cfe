-- ===== src/Stanza.antt =====
-- crates/blindkey-core/src/format/stanza.rs: the key-wrapping records of the header.
pub mod RoundTrip
pub mod Kind
mod Tests
use blindkey.Prelude.{ℕ, zero, suc, ◌+◌, ◌*◌, ◌%◌, List, [], ◌∷◌, ◌++◌, length, ltb}
use blindkey.Result.{Result, header_corrupt}
use blindkey.Bytes.{u32_mod, le_bytes}
use blindkey.Cursor.{Read, ◌>>=◌, ◌>>◌, pure, refuse_if, read_u8, read_u32_le, take, run}

-- `MAX_STANZAS` and `MAX_STANZA_DATA_LEN` of format/mod.rs.
abbrev pub max_stanzas : ℕ
max_stanzas = 8

abbrev pub max_stanza_data_len : ℕ
max_stanza_data_len = 4096

-- `blob` is the field `data`.
pub record Stanza : Type 0 where
  pub stanza_type : ℕ
  pub blob : List ℕ

unfoldable pub on_disk_len : Stanza → ℕ
on_disk_len s = 1 + 4 + length s.blob

unfoldable pub parse : Read Stanza
parse = do
  stanza_type ← read_u8
  len ← read_u32_le
  refuse_if (ltb max_stanza_data_len len) header_corrupt
  blob ← take len
  pure (record { stanza_type = stanza_type; blob = blob })

unfoldable pub serialize_into : List ℕ → Stanza → List ℕ
serialize_into out s =
    out ++ (s.stanza_type ∷ [] ++ (le_bytes 4 (length s.blob % u32_mod) ++ s.blob))

-- The loop of `parse_all`.
unfoldable pub parse_times : ℕ → Read (List Stanza)
parse_times zero = pure []
parse_times (suc n) = do s ← parse; rest ← parse_times n; pure (s ∷ rest)

unfoldable pub parse_all : ℕ → Read (List Stanza)
parse_all count = do refuse_if (ltb max_stanzas count) header_corrupt; parse_times count

unfoldable pub parse_sequence : List ℕ → Result (List Stanza)
parse_sequence bytes = run (do count ← read_u8; parse_all count) bytes
