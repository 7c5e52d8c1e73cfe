-- ===== src/Volume/Inner/Tests.antt =====
-- An inner header under the toy cipher, and the theorems at it.
use blindkey.Prelude.{ℕ, ◌≡◌, refl, ◌∙◌, arith, List, [], ◌++◌, replicate, bytes_eq}
use blindkey.Result.{ok, err, volume_open_failed}
use blindkey.Primitives.Toy.{toy_aead}
use blindkey.Pad.Mode.{PadMode}
use blindkey.Volume.Inner.Fields.{InnerHeader}
use blindkey.Volume.Inner.{serialize_dual, parse_dual, unwrap_copy, inner_wrapped_len, aad}
use blindkey.Volume.Inner.RoundTrip.{IsValid}
use blindkey.Volume.Inner.Copies.{
  parse_dual-serialize_dual, parse_dual_backup, parse_dual-halves, wrapped, Wrapped,
}

abbrev sample : InnerHeader
sample = record {
  block_size_kib = 4;
  pad_mode = PadMode.padme;
  size_bytes = 1048576;
  max_bytes = 2097152;
  version = 3;
  block_count = 256;
  meta_block_count = 2;
  meta_len = 5000;
  kcom = replicate 32 1;
  merkle_root = replicate 32 2;
}

sample-IsValid : IsValid sample
sample-IsValid = record {
  kib_fits = omega arith;
  size_fits = omega arith;
  max_fits = omega arith;
  version_fits = omega arith;
  blocks_fit = omega arith;
  meta_blocks_fit = omega arith;
  meta_fits = omega arith;
  kcom_ok = refl;
  root_ok = refl;
}

abbrev key : List ℕ
key = replicate 32 9

abbrev id : List ℕ
id = replicate 16 4

abbrev nonce : List ℕ
nonce = replicate 24 8

abbrev zeros : List ℕ
zeros = replicate inner_wrapped_len 0

parse_dual-serialize_dual_example :
    (primary : List ℕ) × (backup : List ℕ) × (serialize_dual toy_aead key id nonce nonce sample
      ≡ ok (primary ++ backup))
    × (parse_dual toy_aead key id (primary ++ (backup ++ [])) ≡ ok sample)
    × (parse_dual toy_aead key id (primary ++ (zeros ++ [])) ≡ ok sample)
parse_dual-serialize_dual_example =
    parse_dual-serialize_dual toy_aead key id nonce nonce sample zeros [] sample-IsValid refl refl
      refl

zeros_refused : unwrap_copy toy_aead key id 0 zeros ≡ err volume_open_failed
unfolding unwrap_copy aad bytes_eq
zeros_refused = refl

parse_dual_backup_example :
    (primary : List ℕ) × (backup : List ℕ) × (serialize_dual toy_aead key id nonce nonce sample
      ≡ ok (primary ++ backup))
    × (parse_dual toy_aead key id (zeros ++ (backup ++ [])) ≡ ok sample)
parse_dual_backup_example =
    parse_dual_backup toy_aead key id nonce nonce sample zeros [] volume_open_failed sample-IsValid
      refl refl refl zeros_refused

abbrev copy_0 : Wrapped toy_aead key id 0 nonce sample
copy_0 = wrapped toy_aead key id 0 nonce sample sample-IsValid refl

abbrev copy_1 : Wrapped toy_aead key id 1 nonce sample
copy_1 = wrapped toy_aead key id 1 nonce sample sample-IsValid refl

parsed : parse_dual toy_aead key id (copy_0.bytes ++ (copy_1.bytes ++ [])) ≡ ok sample
parsed =
    parse_dual-halves toy_aead key id copy_0.bytes copy_1.bytes [] copy_0.size copy_1.size
    ∙ rw copy_0.unwraps refl
