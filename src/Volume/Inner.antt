-- ===== src/Volume/Inner.antt =====
-- crates/blindkey-core/src/volume/inner.rs: the inner header, in two sealed copies.
pub mod Fields
pub mod RoundTrip
pub mod Copies
mod Tests
use blindkey.Prelude.{
  ℕ, ◌+◌, ◌*◌, ◌%◌, Bool, List, [], ◌∷◌, ◌++◌, length, take as take_list, drop, ltb, not, ◌==◌,
  codes, if◌then◌else◌,
}
use blindkey.Result.{Result, ok, err, crypto_failed, volume_open_failed, ◌>>=◌}
use blindkey.Bytes.{le_bytes}
use blindkey.Primitives.{Aead, ok_or}
use blindkey.Volume.Block.{nonce_len, tag_len}
use blindkey.Volume.Inner.Fields.{InnerHeader, inner_pt_len, encode, decode}

abbrev pub aad_label : List ℕ
aad_label = codes "volume-inner"

abbrev pub inner_wrapped_len : ℕ
inner_wrapped_len = nonce_len + inner_pt_len + tag_len

unfoldable pub aad : List ℕ → ℕ → List ℕ
aad volume_id copy = volume_id ++ (aad_label ++ copy ∷ [])

module _ (aead : Aead) where
  -- `nonce` stands for what `getrandom` gives; the volume key has 32 bytes, so building the cipher
  -- does not fail.
  unfoldable pub wrap_copy : List ℕ → List ℕ → ℕ → List ℕ → List ℕ → Result (List ℕ)
  wrap_copy volume_key volume_id copy nonce pt = do
    ct ← ok_or crypto_failed (aead.seal volume_key nonce (aad volume_id copy) pt)
    ok (nonce ++ ct)

  unfoldable pub serialize_dual : List ℕ → List ℕ → List ℕ → List ℕ → InnerHeader → Result (List ℕ)
  serialize_dual volume_key volume_id nonce_0 nonce_1 inner = do
    let pt = encode inner
    out ← wrap_copy volume_key volume_id 0 nonce_0 pt
    backup ← wrap_copy volume_key volume_id 1 nonce_1 pt
    ok (out ++ backup)

  unfoldable pub unwrap_copy : List ℕ → List ℕ → ℕ → List ℕ → Result InnerHeader
  unwrap_copy volume_key volume_id copy on_disk =
      if ltb (length on_disk) inner_wrapped_len then err volume_open_failed else (do
        let nonce = take_list nonce_len on_disk
        let ct = drop nonce_len (take_list inner_wrapped_len on_disk)
        pt ← ok_or volume_open_failed (aead.unseal volume_key nonce (aad volume_id copy) ct)
        decode pt)

  unfoldable pub parse_dual : List ℕ → List ℕ → List ℕ → Result InnerHeader
  parse_dual volume_key volume_id region =
      if ltb (length region) (2 * inner_wrapped_len)
      then err volume_open_failed
      else elim (unwrap_copy volume_key volume_id 0 (take_list inner_wrapped_len region)) [
        | ok h ↦ ok h
        | err _ ↦
            unwrap_copy volume_key volume_id 1
              (drop inner_wrapped_len (take_list (2 * inner_wrapped_len) region))
      ]
