-- ===== src/Payload/Streamed.antt =====
-- `Payload::parse_from_stream_ciphertext` of crates/blindkey-core/src/format/payload.rs: the open
-- path, which decrypts and parses chunk by chunk.
use blindkey.Prelude.{
  ℕ, zero, suc, Bool, true, false, not, Option, none, some, List, [], ◌∷◌, ◌++◌, length, ◌==◌,
  bytes_eq, if◌then◌else◌,
}
use blindkey.Result.{Result, ok, err, body_malformed, ◌>>=◌}
use blindkey.Primitives.{Hashes, Aead, ok_or}
use blindkey.Primitives.Cipher.{StreamCipher}
use blindkey.Tlv.{decode_u64, max_entry_len, IncrementalTlv, new, feed, try_next_record}
use blindkey.Stream.{decrypt_streaming}
use blindkey.Pad.Mode.{PadMode}
use blindkey.Frecency.{FrecencyStore, parse as parse_usage}
use blindkey.InnerStream.{SealKey, new_seal_key, inner_stream_key_len}
use blindkey.Entry.{Entry, Protected, plain, expose}
use blindkey.Entry.Parse.{parse as parse_entry}
use blindkey.Payload.{
  Payload, inner_stream_chacha20, tag_inner_algo, tag_inner_key, tag_pad_mode, tag_yubikey_strict,
  tag_vault_version, tag_entry, tag_usage, tag_end,
}
use blindkey.Payload.Parse.{first_mode, first_set}

-- The local variables but for the incremental parser.
pub record Progress : Type 0 where
  pub inner_key : Option Protected
  pub pad_mode : PadMode
  pub yubikey_strict : Bool
  pub version : Option ℕ
  pub entries : List Entry
  pub usage : FrecencyStore
  pub seal : Option SealKey
  pub stream_offset : ℕ
  pub saw_end : Bool

abbrev pub start : Progress
start = record {
  inner_key = none;
  pad_mode = PadMode.none;
  yubikey_strict = false;
  version = none;
  entries = [];
  usage = [];
  seal = none;
  stream_offset = 0;
  saw_end = false;
}

module _ (cipher : StreamCipher) where
  -- The `match` on the tag; the flag is the `break` at the end record.
  unfoldable pub take_record : Progress → ℕ → List ℕ → Result (Progress × Bool)
  take_record s t v =
      if t == tag_end
      then ok (record s { saw_end = true }, true)
      else if t == tag_inner_algo
      then if bytes_eq v (inner_stream_chacha20 ∷ []) then ok (s, false) else err body_malformed
      else if t == tag_inner_key
      then if length v == inner_stream_key_len
        then ok (
          record s {
            inner_key = some (plain v);
            seal = some (new_seal_key (expose cipher (plain v)));
          },
          false,
        )
        else err body_malformed
      else if t == tag_pad_mode
      then ok (record s { pad_mode = first_mode s.pad_mode v }, false)
      else if t == tag_yubikey_strict
      then ok (record s { yubikey_strict = first_set v }, false)
      else if t == tag_vault_version
      then (decode_u64 v >>= λ version. ok (record s { version = some version }, false))
      else if t == tag_entry
      then (ok_or body_malformed s.seal >>= λ key.
          parse_entry v key s.stream_offset >>= λ (e, offset).
          ok (record s { entries = s.entries ++ (e ∷ []); stream_offset = offset }, false))
      else if t == tag_usage
      then (parse_usage v >>= λ usage. ok (record s { usage = usage }, false))
      else ok (s, false)

  -- The loop of `ingest_records`, on fuel; a round takes six bytes at least out of the parser.
  unfoldable pub ingest_records : ℕ → IncrementalTlv → Progress → Result (IncrementalTlv × Progress)
  ingest_records zero tlv s = err body_malformed
  ingest_records (suc fuel) tlv s = try_next_record tlv >>= λ (found, tlv'). elim found [
    | none ↦ ok (tlv', s)
    | some (t, v) ↦ take_record s t v >>= λ (s', at_end). elim at_end [
      | true ↦ ok (tlv', s')
      | false ↦ ingest_records fuel tlv' s'
    ]
  ]

  unfoldable pub ingest_all : IncrementalTlv × Progress → Result (IncrementalTlv × Progress)
  ingest_all (tlv, s) = ingest_records (suc (length tlv.pending)) tlv s

  unfoldable pub on_chunk : List ℕ → IncrementalTlv × Progress → Result (IncrementalTlv × Progress)
  on_chunk chunk (tlv, s) = ingest_all (feed tlv chunk, s)

  -- Behind the loops.
  unfoldable pub assemble : Progress → Result Payload
  assemble s =
      if not s.saw_end
      then err body_malformed
      else (ok_or body_malformed s.inner_key >>= λ inner_key.
          ok_or body_malformed s.version >>= λ version. ok (record {
            inner_stream_key = inner_key;
            pad_mode = s.pad_mode;
            vault_version = version;
            yubikey_strict = s.yubikey_strict;
            entries = s.entries;
            usage = s.usage;
          }))

  unfoldable pub parse_from_stream_ciphertext :
      Aead → Hashes → List ℕ → List ℕ → List ℕ → Result Payload
  parse_from_stream_ciphertext aead hashes data_key nonce_prefix stream_ciphertext =
      decrypt_streaming aead hashes data_key nonce_prefix stream_ciphertext on_chunk
        (new max_entry_len, start)
      >>= λ streamed. ingest_all streamed >>= λ (tlv, s). assemble s
