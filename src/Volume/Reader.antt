-- ===== src/Volume/Reader.antt =====
-- The reader of crates/blindkey-core/src/volume/inner.rs and fs.rs: the bounded reader of
-- format/cursor.rs with the error of the volume.
use blindkey.Prelude.{
  ℕ, ◌+◌, ◌^◌, ◌<◌, ◌≡◌, refl, ◌∙◌, arith, List, [], ◌∷◌, length, leb, ltb, if◌then◌else◌, drop,
  append-nil, take as take_list,
}
use blindkey.Result.{ok, err, volume_open_failed}
use blindkey.Bytes.{u64_mod, le_bytes, from_le_bytes, length-le_bytes, from_le_bytes-le_bytes}
use blindkey.Cursor.{Cursor, Read, ◌>>=◌, pure, relabel, head_or_zero, take as take_cursor}
use blindkey.Cursor.Reads.{Reads, Reads-bind, Reads-pure, Reads-take_at, Reads-relabel, Reads-cast}

unfoldable pub take : ℕ → Read (List ℕ)
take n c =
    let stop = c.pos + n in
    if leb u64_mod stop
    then err volume_open_failed
    else if ltb (length c.buf) stop
    then err volume_open_failed
    else ok (take_list n (drop c.pos c.buf), record c { pos = stop })

-- `take(1)?[0]`
unfoldable pub u8 : Read ℕ
unfolding head_or_zero
u8 = do bs ← take 1; pure (head_or_zero bs)

-- `u16`, `u32` and `u64`, at their widths in bytes.
unfoldable pub le : ℕ → Read ℕ
le w = do bs ← take w; pure (from_le_bytes bs)

take-eq : (n : ℕ) (c : Cursor) → take n c ≡ relabel volume_open_failed (take_cursor n) c
unfolding take take_cursor
take-eq n c = ground arith

pub Reads-take : (n : ℕ) (bs : List ℕ) → length bs ≡ n → Reads (take n) bs bs
Reads-take n bs e = record {
  at = λ c s h. take-eq n c ∙ (Reads-relabel volume_open_failed (Reads-take_at n bs e)).at c s h;
}

pub Reads-u8 : (b : ℕ) → Reads u8 (b ∷ []) b
unfolding u8 head_or_zero
Reads-u8 b = Reads-bind _ (Reads-take 1 (b ∷ []) refl) (Reads-pure b)

pub Reads-le : (w n : ℕ) → n < 256 ^ w → Reads (le w) (le_bytes w n) n
unfolding le
Reads-le w n h = Reads-cast (append-nil (le_bytes w n)) (
    Reads-bind _ (Reads-take w (le_bytes w n) (length-le_bytes w n))
      (rw (from_le_bytes-le_bytes w n h) (Reads-pure n)))
