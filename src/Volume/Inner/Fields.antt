-- ===== src/Volume/Inner/Fields.antt =====
-- crates/blindkey-core/src/volume/inner.rs: the fields of the inner header, at fixed widths.
use blindkey.Prelude.{ℕ, ◌+◌, List, [], ◌∷◌, ◌++◌, length, not, ◌==◌, if◌then◌else◌}
use blindkey.Result.{Result, err, volume_open_failed}
use blindkey.Bytes.{le_bytes}
use blindkey.Cursor.{Read, ◌>>=◌, pure, run}
use blindkey.Pad.Mode.{PadMode, to_byte, from_byte}
use blindkey.Volume.Reader.{take, u8, le}

abbrev pub inner_version : ℕ
inner_version = 1

abbrev pub inner_pt_len : ℕ
inner_pt_len = 2 + 2 + 1 + 8 + 8 + 8 + 4 + 4 + 8 + 32 + 32

pub record InnerHeader : Type 0 where
  pub block_size_kib : ℕ
  pub pad_mode : PadMode
  pub size_bytes : ℕ
  pub max_bytes : ℕ
  pub version : ℕ
  pub block_count : ℕ
  pub meta_block_count : ℕ
  pub meta_len : ℕ
  pub kcom : List ℕ
  pub merkle_root : List ℕ

unfoldable pub encode : InnerHeader → List ℕ
encode h =
    le_bytes 2 inner_version
    ++ (le_bytes 2 h.block_size_kib
        ++ (to_byte h.pad_mode ∷ []
            ++ (le_bytes 8 h.size_bytes
                ++ (le_bytes 8 h.max_bytes
                    ++ (le_bytes 8 h.version
                        ++ (le_bytes 4 h.block_count
                            ++ (le_bytes 4 h.meta_block_count
                                ++ (le_bytes 8 h.meta_len ++ (h.kcom ++ h.merkle_root)))))))))

-- What `decode` reads; `_inner_version` is read and not checked.
unfoldable pub fields : Read InnerHeader
fields = do
  _ ← le 2
  block_size_kib ← le 2
  pad ← u8
  size_bytes ← le 8
  max_bytes ← le 8
  version ← le 8
  block_count ← le 4
  meta_block_count ← le 4
  meta_len ← le 8
  kcom ← take 32
  merkle_root ← take 32
  pure (record {
    block_size_kib = block_size_kib;
    pad_mode = from_byte pad;
    size_bytes = size_bytes;
    max_bytes = max_bytes;
    version = version;
    block_count = block_count;
    meta_block_count = meta_block_count;
    meta_len = meta_len;
    kcom = kcom;
    merkle_root = merkle_root;
  })

unfoldable pub decode : List ℕ → Result InnerHeader
decode pt = if not (length pt == inner_pt_len) then err volume_open_failed else run fields pt
