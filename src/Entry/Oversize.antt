-- ===== src/Entry/Oversize.antt =====
-- `Entry::serialize` and `Entry::parse` of crates/blindkey-core/src/format/entry.rs at notes longer
-- than the parser takes.
use blindkey.Prelude.{◌<◌, ◌≡◌, refl, ap, ◌∙◌, arith, [], ◌++◌, length, append_assoc}
use mathlib.Core.Path.{subst}
use blindkey.Result.{body_malformed, err}
use blindkey.Bytes.{u32_mod, u64_mod}
use blindkey.Tlv.{max_field_len}
use blindkey.Tlv.Loop.{write_all, for_each_record}
use blindkey.Primitives.Cipher.{StreamCipher}
use blindkey.InnerStream.{InnerStream, SealKey}
use blindkey.Entry.{Entry, serialize, write_entry, write_plain, tag_notes, write_entry}
use blindkey.Entry.Parse.{take_field, blank, parse}
use blindkey.Entry.Parts.{between}
use blindkey.Tlv.{write_record}
use blindkey.Tlv.Loop.{write_record-append}
use blindkey.Tlv.Oversize.{for_each_record_oversize}
use blindkey.Entry.RoundTrip.{IsEntry, tail_write, front-Part, tail-Part}

-- An entry whose notes are longer than a mebibyte, and shorter than 2^32 bytes, and which is otherwise
-- one that can be read back, is serialized to bytes, fewer than 2^64, that parsing refuses with any key.
pub parse-serialize_long_notes :
    (cipher : StreamCipher) (key : SealKey) (e : Entry) (i : InnerStream)
    → IsEntry cipher (record e { notes = [] })
    → max_field_len < length e.notes
    → length e.notes < u32_mod
    → length (serialize cipher e i).0 < u64_mod
    → parse (serialize cipher e i).0 key i.position ≡ err body_malformed
unfolding serialize parse
parse-serialize_long_notes cipher key e i h long fits small =
    let front = front-Part cipher key e i h.id_length h.title h.username h.password h.url in
    let tail =
      tail-Part cipher key e i h.tags h.otp_secret h.created_at h.modified_at h.expires_at
        h.custom_fields in
    let notes = write_record [] tag_notes e.notes in
    let bytes : (write_entry cipher e ([], i)).0
        ≡ write_all front.recs ++ (notes ++ write_all tail.recs) =
      ap (λ o. (tail_write cipher key e i (write_plain cipher tag_notes e.notes o)).0)
        (front.writes [])
      ∙ ap (λ o. o.0) (tail.writes (write_record (write_all front.recs) tag_notes e.notes))
      ∙ ap (λ b. b ++ write_all tail.recs)
          (write_record-append (write_all front.recs) tag_notes e.notes)
      ∙ append_assoc (write_all front.recs) notes (write_all tail.recs) in
    let loop : for_each_record (take_field key) max_field_len (between blank i.position)
          (write_all front.recs ++ (notes ++ write_all tail.recs))
        ≡ err body_malformed =
      for_each_record_oversize (take_field key) max_field_len front.recs tag_notes e.notes
        (write_all tail.recs) _ _ front.fits (omega arith) fits long
        (subst (λ b. length b < u64_mod) bytes small) (front.runs blank) in
    rw (bytes, loop) refl
