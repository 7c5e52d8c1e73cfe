-- ===== src/Entry/Tests.antt =====
-- An entry with notes of a mebibyte and one byte.
use blindkey.Prelude.{
  ℕ, ◌+◌, ◌≡◌, refl, arith, none, List, [], length, replicate, length-replicate, codes, ap,
  length-append,
}
use blindkey.Result.{err, body_malformed}
use blindkey.Bytes.{length-le_bytes}
use blindkey.Volume.Fs.Utf8.{is_utf8}
use blindkey.Tlv.{write_record, header_len}
use blindkey.Tlv.Reader.{length-write_record}
use blindkey.Tlv.Loop.{write_record-append}
use blindkey.Primitives.ToyStream.{toy_cipher}
use blindkey.InnerStream.{InnerStream, SealKey, new, new_seal_key, length-apply}
use blindkey.Entry.{
  Entry, plain, expose, serialize, write_protected, write_tags, write_otp, write_expiry,
  write_custom,
}
use blindkey.Entry.Parse.{parse}
use blindkey.Entry.RoundTrip.{IsEntry}
use blindkey.Entry.Oversize.{parse-serialize_long_notes}

abbrev noted : List ℕ → Entry
noted notes = record {
  id = replicate 16 1;
  title = codes "mail";
  username = codes "me";
  password = plain (codes "pw");
  url = [];
  notes = notes;
  tags = [];
  otp_secret = none;
  created_at = 7;
  modified_at = 8;
  expires_at = none;
  custom_fields = [];
}

bare-IsEntry : IsEntry toy_cipher (noted [])
unfolding expose is_utf8
bare-IsEntry = record {
  id_length = refl;
  title = (refl, omega arith);
  username = (refl, omega arith);
  password = omega arith;
  url = (refl, omega arith);
  notes = (refl, omega arith);
  tags = tt;
  otp_secret = tt;
  created_at = omega arith;
  modified_at = omega arith;
  expires_at = tt;
  custom_fields = tt;
}

length-written :
    (out : List ℕ) (tag : ℕ) (value : List ℕ)
    → length (write_record out tag value) ≡ length out + (header_len + length value)
length-written out tag value = omega (
  arith,
  ap length (write_record-append out tag value),
  length-append out (write_record [] tag value),
  length-write_record tag value,
)

noted_size :
    (notes : List ℕ) (i : InnerStream)
    → length (serialize toy_cipher (noted notes) i).0 ≡ length notes + 88
unfolding serialize write_protected write_tags write_otp write_expiry write_custom expose
noted_size notes i = simp (length-written, length-apply, length-le_bytes) (omega arith)

-- As many bytes, never written out.
unfoldable filler : ℕ → List ℕ
filler n = replicate n 0x61

length-filler : (n : ℕ) → length (filler n) ≡ n
unfolding filler
length-filler n = length-replicate n 0x61

abbrev long_notes : List ℕ
long_notes = filler 1048577

abbrev stream : InnerStream
unfolding new
stream = new (replicate 64 3)

abbrev seal_key : SealKey
unfolding new_seal_key
seal_key = new_seal_key (replicate 64 3)

parse-serialize_long_notes_example :
    parse (serialize toy_cipher (noted long_notes) stream).0 seal_key stream.position
    ≡ err body_malformed
parse-serialize_long_notes_example =
    parse-serialize_long_notes toy_cipher seal_key (noted long_notes) stream bare-IsEntry
      (omega (arith, length-filler 1048577)) (omega (arith, length-filler 1048577))
      (omega (arith, noted_size long_notes stream, length-filler 1048577))
