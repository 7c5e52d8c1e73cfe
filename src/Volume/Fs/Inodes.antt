-- ===== src/Volume/Fs/Inodes.antt =====
-- crates/blindkey-core/src/volume/fs.rs: the table of the files of a volume, written and read.
use blindkey.Prelude.{
  ℕ, zero, suc, ◌%◌, ◌^◌, ◌<◌, ◌≡◌, refl, arith, Bool, true, false, not, List, [], ◌∷◌, ◌++◌,
  length, All, ◌==◌, append-nil, if◌then◌else◌,
}
use native.Mathlib.Nat.{mod-eq_of_lt}
use blindkey.Result.{Result, ok, volume_open_failed}
use blindkey.Bytes.{u32_mod, u64_mod, le_bytes}
use blindkey.Cursor.{Read, ◌>>=◌, ◌>>◌, pure, refuse_if, run}
use blindkey.Cursor.Reads.{
  Reads, Reads-bind, Reads-pure, Reads-cast, Reads-refuse_if, Ahead-new, run-ok,
}
use blindkey.Volume.Reader.{take, u8, le, Reads-take, Reads-u8, Reads-le}
use blindkey.Volume.Fs.Utf8.{is_utf8}

-- The path is the bytes of its text.
pub record Inode : Type 0 where
  pub path : List ℕ
  pub is_dir : Bool
  pub size : ℕ
  pub first_block : ℕ
  pub block_count : ℕ

unfoldable pub encode_inode : Inode → List ℕ
encode_inode e =
    le_bytes 2 (length e.path % 2 ^ 16)
    ++ (e.path
        ++ ((if e.is_dir then 1 else 0) ∷ []
            ++ (le_bytes 8 e.size ++ (le_bytes 8 e.first_block ++ le_bytes 8 e.block_count))))

-- The loop of `encode_inodes`.
unfoldable pub encode_each : List Inode → List ℕ
encode_each [] = []
encode_each (e ∷ inodes) = encode_inode e ++ encode_each inodes

unfoldable pub encode_inodes : List Inode → List ℕ
encode_inodes inodes = le_bytes 4 (length inodes % u32_mod) ++ encode_each inodes

-- One round of the loop of `decode_inodes`.
unfoldable pub decode_inode : Read Inode
decode_inode = do
  plen ← le 2
  path ← take plen
  refuse_if (not (is_utf8 path)) volume_open_failed
  dir ← u8
  size ← le 8
  first_block ← le 8
  block_count ← le 8
  pure (record {
    path = path;
    is_dir = not (dir == 0);
    size = size;
    first_block = first_block;
    block_count = block_count;
  })

unfoldable pub decode_each : ℕ → Read (List Inode)
decode_each zero = pure []
decode_each (suc n) = do e ← decode_inode; rest ← decode_each n; pure (e ∷ rest)

unfoldable pub decode_inodes : List ℕ → Result (List Inode)
decode_inodes buf = run (do count ← le 4; decode_each count) buf

-- The path is a text of less than 64 KiB, and the numbers fit 64 bits.
pub record IsValid (e : Inode) : Type 0 where
  pub text : is_utf8 e.path ≡ true
  pub short : length e.path < 2 ^ 16
  pub size_fits : e.size < u64_mod
  pub first_fits : e.first_block < u64_mod
  pub count_fits : e.block_count < u64_mod

dir_flag : (d : Bool) → not ((if d then 1 else 0) == 0) ≡ d
dir_flag true = refl
dir_flag false = refl

Reads-decode_inode : (e : Inode) → IsValid e → Reads decode_inode (encode_inode e) e
unfolding decode_inode encode_inode
Reads-decode_inode e v = rw (mod-eq_of_lt {m = 2 ^ 16} v.short) (
    Reads-bind _ (Reads-le 2 (length e.path) (omega (arith, v.short))) (
      Reads-bind _ (Reads-take (length e.path) e.path refl) (
        Reads-bind _ (Reads-refuse_if (not (is_utf8 e.path)) volume_open_failed (rw v.text refl)) (
          Reads-bind _ (Reads-u8 (if e.is_dir then 1 else 0)) (
            Reads-bind _ (Reads-le 8 e.size (omega (arith, v.size_fits))) (
              Reads-bind _ (Reads-le 8 e.first_block (omega (arith, v.first_fits))) (
                Reads-cast (append-nil (le_bytes 8 e.block_count)) (
                  Reads-bind _ (Reads-le 8 e.block_count (omega (arith, v.count_fits)))
                    (rw (dir_flag e.is_dir) (Reads-pure e))))))))))

Reads-decode_each :
    (inodes : List Inode)
    → All IsValid inodes
    → Reads (decode_each (length inodes)) (encode_each inodes) inodes
unfolding decode_each encode_each
Reads-decode_each [] h = Reads-pure []
Reads-decode_each (e ∷ inodes) (h, hs) = Reads-bind _ (Reads-decode_inode e h) (
    Reads-cast (append-nil (encode_each inodes))
      (Reads-bind _ (Reads-decode_each inodes hs) (Reads-pure _)))

Reads-table :
    (inodes : List Inode)
    → length inodes < u32_mod
    → All IsValid inodes
    → Reads (do count ← le 4; decode_each count) (encode_inodes inodes) inodes
unfolding encode_inodes
Reads-table inodes few h = rw (mod-eq_of_lt {m = u32_mod} few) (
    Reads-bind decode_each (Reads-le 4 (length inodes) (omega (arith, few)))
      (Reads-decode_each inodes h))

-- A table of fewer than 2^32 files and directories, whose paths are texts of less than 64 KiB and whose numbers fit
-- 64 bits, is decoded from its encoding, whatever follows, in fewer than 2^64 bytes.
pub decode_inodes-encode_inodes :
    (inodes : List Inode) (rest : List ℕ)
    → All IsValid inodes
    → length inodes < u32_mod
    → length (encode_inodes inodes ++ rest) < u64_mod
    → decode_inodes (encode_inodes inodes ++ rest) ≡ ok inodes
unfolding decode_inodes
decode_inodes-encode_inodes inodes rest h few small =
    run-ok (do count ← le 4; decode_each count) _
      ((Reads-table inodes few h).at _ rest (Ahead-new _ small))
