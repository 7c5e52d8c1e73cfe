-- ===== src/Volume/Inner/RoundTrip.antt =====
-- The fields of the inner header of crates/blindkey-core/src/volume/inner.rs, written and read.
use blindkey.Prelude.{
  ◌^◌, ◌<◌, ◌≡◌, refl, arith, false, [], ◌++◌, length, not, ◌==◌, append-nil, length-append,
}
use blindkey.Result.{ok}
use blindkey.Bytes.{u32_mod, u64_mod, length-le_bytes}
use blindkey.Cursor.Reads.{Reads, Reads-bind, Reads-pure, Reads-cast, Ahead, Ahead-new, run-ok}
use blindkey.Pad.Mode.{to_byte, from_byte-to_byte}
use blindkey.Volume.Reader.{Reads-take, Reads-u8, Reads-le}
use blindkey.Volume.Inner.Fields.{InnerHeader, inner_version, inner_pt_len, encode, fields, decode}

-- Every field fits its width.
pub record IsValid (h : InnerHeader) : Type 0 where
  pub kib_fits : h.block_size_kib < 2 ^ 16
  pub size_fits : h.size_bytes < u64_mod
  pub max_fits : h.max_bytes < u64_mod
  pub version_fits : h.version < u64_mod
  pub blocks_fit : h.block_count < u32_mod
  pub meta_blocks_fit : h.meta_block_count < u32_mod
  pub meta_fits : h.meta_len < u64_mod
  pub kcom_ok : length h.kcom ≡ 32
  pub root_ok : length h.merkle_root ≡ 32

Reads-fields : (h : InnerHeader) → IsValid h → Reads fields (encode h) h
unfolding fields encode
Reads-fields h v = Reads-bind _ (Reads-le 2 inner_version (omega arith)) (
    Reads-bind _ (Reads-le 2 h.block_size_kib (omega (arith, v.kib_fits))) (
      Reads-bind _ (Reads-u8 (to_byte h.pad_mode)) (
        Reads-bind _ (Reads-le 8 h.size_bytes (omega (arith, v.size_fits))) (
          Reads-bind _ (Reads-le 8 h.max_bytes (omega (arith, v.max_fits))) (
            Reads-bind _ (Reads-le 8 h.version (omega (arith, v.version_fits))) (
              Reads-bind _ (Reads-le 4 h.block_count (omega (arith, v.blocks_fit))) (
                Reads-bind _ (Reads-le 4 h.meta_block_count (omega (arith, v.meta_blocks_fit))) (
                  Reads-bind _ (Reads-le 8 h.meta_len (omega (arith, v.meta_fits))) (
                    Reads-bind _ (Reads-take 32 h.kcom v.kcom_ok) (
                      Reads-cast (append-nil h.merkle_root) (
                        Reads-bind _ (Reads-take 32 h.merkle_root v.root_ok)
                          (rw (from_byte-to_byte h.pad_mode) (Reads-pure h)))))))))))))

length-encode : (h : InnerHeader) → IsValid h → length (encode h) ≡ inner_pt_len
unfolding encode
length-encode h v = simp (length-append, length-le_bytes, v.kcom_ok, v.root_ok)

-- An inner header whose fields fit their widths is decoded from its encoding, of 109 bytes.
pub decode-encode :
    (h : InnerHeader) → IsValid h → (decode (encode h) ≡ ok h) × (length (encode h) ≡ 109)
unfolding decode
decode-encode h v =
    let size : length (encode h) ≡ inner_pt_len = length-encode h v in
    let fine : not (length (encode h) == inner_pt_len) ≡ false = rw size refl in
    let whole : encode h ++ [] ≡ encode h = append-nil (encode h) in
    let ahead : Ahead _ (encode h ++ []) = rw whole (Ahead-new (encode h) (omega (arith, size))) in
    (rw fine (run-ok fields (encode h) ((Reads-fields h v).at _ [] ahead)), size)
