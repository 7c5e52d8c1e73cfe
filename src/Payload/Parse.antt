-- ===== src/Payload/Parse.antt =====
-- `Payload::parse` of crates/blindkey-core/src/format/payload.rs.
use blindkey.Prelude.{
  ℕ, Bool, true, false, not, Option, none, some, List, [], ◌∷◌, ◌++◌, length, ◌==◌, bytes_eq,
  if◌then◌else◌,
}
use blindkey.Result.{Result, ok, err, body_malformed, ◌>>=◌}
use blindkey.Primitives.{ok_or}
use blindkey.Primitives.Cipher.{StreamCipher}
use blindkey.Tlv.{decode_u64, max_entry_len}
use blindkey.Tlv.Loop.{for_each_record}
use blindkey.Pad.Mode.{PadMode, from_byte}
use blindkey.Frecency.{FrecencyStore, parse as parse_usage}
use blindkey.InnerStream.{SealKey, new_seal_key, inner_stream_key_len}
use blindkey.Entry.{Entry, Protected, plain, expose}
use blindkey.Entry.Parse.{parse as parse_entry}
use blindkey.Payload.{
  Payload, inner_stream_chacha20, tag_inner_algo, tag_inner_key, tag_pad_mode, tag_yubikey_strict,
  tag_vault_version, tag_entry, tag_usage, tag_end,
}

-- The local variables of the loop.
pub record Found : Type 0 where
  pub inner_key : Option Protected
  pub pad_mode : PadMode
  pub yubikey_strict : Bool
  pub version : Option ℕ
  pub entry_blobs : List (List ℕ)
  pub usage : FrecencyStore

abbrev pub nothing_found : Found
nothing_found = record {
  inner_key = none;
  pad_mode = PadMode.none;
  yubikey_strict = false;
  version = none;
  entry_blobs = [];
  usage = [];
}

-- `if let Some(&b) = v.first()`
unfoldable pub first_mode : PadMode → List ℕ → PadMode
first_mode mode [] = mode
first_mode mode (b ∷ v) = from_byte b

-- `v.first().copied().unwrap_or(0) != 0`
unfoldable pub first_set : List ℕ → Bool
first_set [] = false
first_set (b ∷ v) = not (b == 0)

-- The `match` on the tag; the flag is the `break` at the end record.
unfoldable pub take_record : Found → ℕ → List ℕ → Result (Found × Bool)
take_record s t v =
    if t == tag_end
    then ok (s, true)
    else if t == tag_inner_algo
    then if bytes_eq v (inner_stream_chacha20 ∷ []) then ok (s, false) else err body_malformed
    else if t == tag_inner_key
    then if length v == inner_stream_key_len
      then ok (record s { inner_key = some (plain v) }, false)
      else err body_malformed
    else if t == tag_pad_mode
    then ok (record s { pad_mode = first_mode s.pad_mode v }, false)
    else if t == tag_yubikey_strict
    then ok (record s { yubikey_strict = first_set v }, false)
    else if t == tag_vault_version
    then (decode_u64 v >>= λ version. ok (record s { version = some version }, false))
    else if t == tag_entry
    then ok (record s { entry_blobs = s.entry_blobs ++ (v ∷ []) }, false)
    else if t == tag_usage
    then (parse_usage v >>= λ usage. ok (record s { usage = usage }, false))
    else ok (s, false)

-- One shared key and one running offset for all entries.
unfoldable pub parse_entries : SealKey → List (List ℕ) → ℕ → Result (List Entry)
parse_entries key [] offset = ok []
parse_entries key (blob ∷ blobs) offset = parse_entry blob key offset >>= λ (e, offset').
    parse_entries key blobs offset' >>= λ es. ok (e ∷ es)

module _ (cipher : StreamCipher) where
  unfoldable pub assemble : Found → Result Payload
  assemble s = ok_or body_malformed s.inner_key >>= λ inner_key.
      parse_entries (new_seal_key (expose cipher inner_key)) s.entry_blobs 0 >>= λ entries.
      ok_or body_malformed s.version >>= λ version. ok (record {
        inner_stream_key = inner_key;
        pad_mode = s.pad_mode;
        vault_version = version;
        yubikey_strict = s.yubikey_strict;
        entries = entries;
        usage = s.usage;
      })

  unfoldable pub parse : List ℕ → Result Payload
  parse bytes = for_each_record take_record max_entry_len nothing_found bytes >>= λ s. assemble s
