-- ===== src/Payload/Entries.antt =====
-- The records for entries in a payload of crates/blindkey-core/src/format/payload.rs, written and
-- read.
use blindkey.Prelude.{
  ℕ, ◌≤◌, ◌≡◌, refl, sym, ap, ◌∙◌, arith, List, [], ◌∷◌, ◌++◌, length, All, append-nil,
  append_assoc, map,
}
use mathlib.Core.Path.{subst}
use blindkey.Result.{ok}
use blindkey.Primitives.Cipher.{StreamCipher}
use blindkey.Tlv.{write_record, max_entry_len}
use blindkey.Tlv.Written.{Written, Written-write_record}
use blindkey.InnerStream.{InnerStream, SealKey}
use blindkey.Entry.{Entry, serialize as serialize_entry}
use blindkey.Entry.Whole.{resealed_entry}
use blindkey.Entry.RoundTrip.{IsEntry, parse-serialize_resealed, behind-serialize}
use blindkey.Entry.Revealed.{
  SecretsSealed, resealed_entry-SecretsSealed, revealed, revealed-resealed_entry, key_behind_entry,
}
use blindkey.Payload.{write_entries, tag_entry}
use blindkey.Payload.Parse.{Found, nothing_found, take_record, parse_entries}

module _ (cipher : StreamCipher) (key : SealKey) where
  -- Each entry can be read back, and its form has at most 16 MiB.
  abbrev pub AreEntries : List Entry → InnerStream → Type 0
  AreEntries [] i = Unit {0}
  AreEntries (e ∷ es) i =
      IsEntry cipher e
      × (length (serialize_entry cipher e i).0 ≤ max_entry_len)
      × AreEntries es (serialize_entry cipher e i).1

  abbrev pub forms : List Entry → InnerStream → List (List ℕ)
  forms [] i = []
  forms (e ∷ es) i = (serialize_entry cipher e i).0 ∷ forms es (serialize_entry cipher e i).1

  abbrev pub resealed_entries : List Entry → InnerStream → List Entry
  resealed_entries [] i = []
  resealed_entries (e ∷ es) i =
      resealed_entry cipher key e i ∷ resealed_entries es (serialize_entry cipher e i).1

  pub parse_entries-forms :
      (es : List Entry) (i : InnerStream)
      → AreEntries es i
      → parse_entries key (forms es i) i.position ≡ ok (resealed_entries es i)
  unfolding parse_entries
  parse_entries-forms [] i h = refl
  parse_entries-forms (e ∷ es) i (he, size, hes) =
      let first = parse-serialize_resealed cipher key e i he (omega arith) in
      rw (first, parse_entries-forms es (serialize_entry cipher e i).1 hes) refl

  abbrev with_forms : Found → List (List ℕ) → Found
  with_forms s blobs = record s { entry_blobs = s.entry_blobs ++ blobs }

  pub Written-write_entries :
      (es : List Entry) (i : InnerStream)
      → AreEntries es i
      → (out : List ℕ) (s : Found) → Written take_record max_entry_len nothing_found out s
      → Written take_record max_entry_len nothing_found
          (write_entries cipher es (out, i)).0
          (with_forms s (forms es i))
  unfolding write_entries take_record
  Written-write_entries [] i h out s w =
      subst
        (λ b. Written take_record max_entry_len nothing_found out (record s { entry_blobs = b }))
        (sym (append-nil s.entry_blobs)) w
  Written-write_entries (e ∷ es) i (he, size, hes) out s w =
      subst
        (λ b.
          Written take_record max_entry_len nothing_found (write_entries cipher (e ∷ es) (out, i)).0
            (record s { entry_blobs = b }))
        (append_assoc s.entry_blobs (_ ∷ []) _)
        (Written-write_entries es _ hes (write_record out tag_entry (serialize_entry cipher e i).0)
          _
          (Written-write_record take_record max_entry_len nothing_found tag_entry
            (serialize_entry cipher e i).0 (omega arith, size, omega arith) refl w))

  pub sealed_entries :
      (es : List Entry) (i : InnerStream) → All (SecretsSealed key) (resealed_entries es i)
  sealed_entries [] i = tt
  sealed_entries (e ∷ es) i = (
    resealed_entry-SecretsSealed cipher key e i,
    sealed_entries es (serialize_entry cipher e i).1,
  )

  key-serialize :
      (e : Entry) (i : InnerStream) → IsEntry cipher e → (serialize_entry cipher e i).1.key ≡ i.key
  key-serialize e i h =
      ap (λ j. j.key) (behind-serialize cipher key e i h) ∙ key_behind_entry cipher key e i

  pub revealed_entries :
      (es : List Entry) (i : InnerStream)
      → AreEntries es i
      → key.key ≡ i.key
      → map (revealed cipher) (resealed_entries es i) ≡ map (revealed cipher) es
  revealed_entries [] i h same = refl
  revealed_entries (e ∷ es) i (he, size, hes) same =
      rw
        (
          revealed-resealed_entry cipher key e i same,
          revealed_entries es _ hes (same ∙ sym (key-serialize e i he)),
        )
        refl
