-- ===== src/Payload/RoundTrip.antt =====
-- `Payload::serialize` and `Payload::parse` of crates/blindkey-core/src/format/payload.rs together.
use blindkey.Prelude.{
  ℕ, ◌≤◌, ◌<◌, ◌≡◌, refl, arith, true, false, Bool-cases, inl, inr, some, List, [], ◌∷◌, ◌++◌,
  length, take-all, All, map, bytes_eq_refl, if◌then◌else◌, take,
}
use mathlib.Core.Path.{subst}
use blindkey.Result.{ok}
use blindkey.Bytes.{u64_mod, le_bytes, length-le_bytes, from_le_bytes-le_bytes}
use blindkey.Primitives.Cipher.{StreamCipher}
use blindkey.Tlv.{write_record, max_entry_len, decode_u64}
use blindkey.Tlv.Loop.{IsRecord}
use blindkey.Tlv.Written.{Written, nothing-Written, Written-write_record, Written-end}
use blindkey.Pad.Mode.{to_byte, from_byte-to_byte}
use blindkey.Frecency.{FrecencyStore, is_empty, serialize as serialize_usage}
use blindkey.Frecency.RoundTrip.{
  IsEntry as IsUsage, IsSorted, parse-serialize as parse-serialize_usage,
}
use blindkey.InnerStream.{new, new_seal_key, inner_stream_key_len}
use blindkey.Entry.{plain, expose}
use blindkey.Entry.Revealed.{SecretsSealed, revealed}
use blindkey.Payload.{
  Payload, serialize, inner_stream_chacha20, tag_inner_algo, tag_inner_key, tag_pad_mode,
  tag_yubikey_strict, tag_vault_version, tag_usage, tag_end,
}
use blindkey.Payload.Parse.{
  Found, nothing_found, take_record, first_mode, first_set, assemble, parse,
}
use blindkey.Payload.Entries.{
  parse_entries-forms, Written-write_entries, sealed_entries, revealed_entries, forms, AreEntries,
  resealed_entries,
}

-- A payload whose key has 64 bytes, with entries and usage that their own forms can hold.
pub record IsPayload (cipher : StreamCipher) (p : Payload) : Type 0 where
  pub key_length : length (expose cipher p.inner_stream_key) ≡ 64
  pub version_fits : p.vault_version < u64_mod
  pub entries :
      AreEntries cipher
        (new_seal_key (expose cipher p.inner_stream_key))
        p.entries
        (new (expose cipher p.inner_stream_key))
  pub usage : All IsUsage p.usage
  pub usage_order : IsSorted p.usage
  pub usage_short : length (serialize_usage p.usage) ≤ max_entry_len

end_ends : (s : Found) → take_record s tag_end [] ≡ ok (s, true)
unfolding take_record
end_ends s = refl

module _ (cipher : StreamCipher) (p : Payload) (h : IsPayload cipher p) where
  abbrev key : List ℕ
  key = expose cipher p.inner_stream_key

  abbrev Wrote : List ℕ → Found → Type 0
  Wrote out s = Written take_record max_entry_len nothing_found out s

  abbrev then_write :
      {out : List ℕ} {s : Found} (s' : Found) (tag : ℕ) (value : List ℕ)
      → IsRecord max_entry_len (tag, value)
      → take_record s tag value ≡ ok (s', false)
      → Wrote out s
      → Wrote (write_record out tag value) s'
  then_write s' tag value hr takes w =
      Written-write_record take_record max_entry_len nothing_found tag value hr takes w

  keyed : Found
  keyed = record nothing_found { inner_key = some (plain key); pad_mode = p.pad_mode }

  Written-head :
      Wrote
        (write_record
          (write_record
            (write_record [] tag_inner_algo (inner_stream_chacha20 ∷ []))
            tag_inner_key
            key)
          tag_pad_mode
          (to_byte p.pad_mode ∷ []))
        keyed
  unfolding take_record first_mode keyed
  Written-head =
      let k = h.key_length in
      then_write _ tag_pad_mode (to_byte p.pad_mode ∷ []) (omega arith, omega arith, omega arith)
        (rw (from_byte-to_byte p.pad_mode) refl)
        (then_write (record nothing_found { inner_key = some (plain key) }) tag_inner_key key
          (omega arith, omega (arith, k), omega (arith, k)) (rw k refl)
          (then_write nothing_found tag_inner_algo (inner_stream_chacha20 ∷ [])
            (omega arith, omega arith, omega arith) (rw (bytes_eq_refl (1 ∷ [])) refl)
            (nothing-Written take_record max_entry_len nothing_found)))

  strict : Found
  strict = record keyed { yubikey_strict = p.yubikey_strict }

  Written-strict :
      {out : List ℕ}
      → Wrote out keyed
      → Wrote
          (if p.yubikey_strict then write_record out tag_yubikey_strict (1 ∷ []) else out)
          strict
  unfolding take_record first_set strict keyed
  Written-strict {out} w = elim (Bool-cases p.yubikey_strict) [
    | inl on ↦
        simp on
          (then_write _ tag_yubikey_strict (1 ∷ []) (omega arith, omega arith, omega arith) refl w)
    | inr off ↦ simp off w
  ]

  versioned : Found
  versioned = record strict { version = some p.vault_version }

  Written-version :
      {out : List ℕ}
      → Wrote out strict
      → Wrote (write_record out tag_vault_version (le_bytes 8 p.vault_version)) versioned
  unfolding take_record decode_u64 versioned
  Written-version w =
      let size = length-le_bytes 8 p.vault_version in
      then_write _ tag_vault_version (le_bytes 8 p.vault_version)
        (omega arith, omega (arith, size), omega (arith, size))
        (rw (size, from_le_bytes-le_bytes 8 p.vault_version (omega (arith, h.version_fits))) refl) w

  Written-usage :
      {out : List ℕ} (s : Found) (usage : FrecencyStore)
      → All IsUsage usage
      → IsSorted usage
      → length (serialize_usage usage) ≤ max_entry_len
      → s.usage ≡ []
      → Wrote out s
      → Wrote
          (if is_empty usage then out else write_record out tag_usage (serialize_usage usage))
          (record s { usage = usage })
  unfolding take_record is_empty
  Written-usage {out} s [] valid sorted short fresh w =
      subst (λ u. Wrote out (record s { usage = u })) fresh w
  Written-usage {out} s (u ∷ us) valid sorted short fresh w =
      then_write _ tag_usage (serialize_usage (u ∷ us)) (omega arith, short, omega arith)
        (rw (parse-serialize_usage (u ∷ us) valid sorted) refl) w

  -- The payload as the parser keeps it.
  abbrev pub kept : Payload
  kept = record p {
    inner_stream_key = plain key;
    entries = resealed_entries cipher (new_seal_key key) p.entries (new key);
  }

  assemble-kept :
      assemble cipher (record {
        inner_key = some (plain key);
        pad_mode = p.pad_mode;
        yubikey_strict = p.yubikey_strict;
        version = some p.vault_version;
        entry_blobs = forms cipher (new_seal_key key) p.entries (new key);
        usage = p.usage;
      })
      ≡ ok kept
  unfolding assemble expose new
  assemble-kept =
      rw (parse_entries-forms cipher (new_seal_key key) p.entries (new key) h.entries) refl

  parse-serialize-kept :
      (padding : List ℕ)
      → length (serialize cipher p ++ padding) < u64_mod
      → parse cipher (serialize cipher p ++ padding) ≡ ok kept
  unfolding serialize parse versioned strict keyed
  parse-serialize-kept padding small =
      let written = Written-usage _ p.usage h.usage h.usage_order h.usage_short refl (
        Written-write_entries cipher (new_seal_key key) p.entries (new key) h.entries _ _
          (Written-version (Written-strict Written-head))) in
      let loop =
        Written-end take_record max_entry_len nothing_found tag_end [] padding
          (omega arith, omega arith, omega arith) (end_ends _) written small in
      rw loop assemble-kept

  -- A payload, of a key of 64 bytes and of entries and a usage store that their own forms can hold, is
  -- parsed back from its form, whatever padding follows the end record, if both have fewer than 2^64
  -- bytes: its key is the same, its entries hold the same fields and the same secrets, which are kept
  -- encrypted, and the rest is as it was.
  pub parse-serialize_padded :
      (padding : List ℕ)
      → length (serialize cipher p ++ padding) < u64_mod
      → (q : Payload) × (parse cipher (serialize cipher p ++ padding) ≡ ok q)
        × (q ≡ record p { inner_stream_key = plain key; entries = q.entries })
        × (map (revealed cipher) q.entries ≡ map (revealed cipher) p.entries)
        × All (SecretsSealed (new_seal_key key)) q.entries
  unfolding new new_seal_key
  parse-serialize_padded padding small =
      let whole : take inner_stream_key_len key ≡ key =
        take-all inner_stream_key_len key (omega (arith, h.key_length)) in
      (
        kept,
        parse-serialize-kept padding small,
        refl,
        revealed_entries cipher (new_seal_key key) p.entries (new key) h.entries whole,
        sealed_entries cipher (new_seal_key key) p.entries (new key),
      )
