-- ===== src/Tlv/Incremental.antt =====
-- The incremental parser of crates/blindkey-core/src/format/tlv_incremental.rs, against the records
-- of tlv.rs.
use blindkey.Prelude.{
  ℕ, ◌+◌, ◌^◌, ◌≤◌, ◌<◌, ◌≡◌, refl, sym, ap, ◌∙◌, arith, none, some, List, [], ◌∷◌, ◌++◌, length,
  drop, length-append, length-drop, append-nil, append_assoc, take as take_list, take-append_le,
  drop-append_le, take-append, drop-append, drop-drop, ◌≢◌, length-ne-nil, take-append_at,
  drop-append_at,
}
use blindkey.Result.{ok, err, Error}
use blindkey.Bytes.{u32_mod, le_bytes, length-le_bytes, from_le_bytes, from_le_bytes-le_bytes}
use blindkey.Tlv.{Record, write_record, IncrementalTlv, new, feed, try_next_record}
use blindkey.Tlv.Reader.{write_record-eq, length-write_record}

pub feed-pending :
    (p : IncrementalTlv) (chunk : List ℕ)
    → (feed p chunk) ≡ record p { pending = p.pending ++ chunk }
unfolding feed
feed-pending p [] = ap (λ (t : List ℕ). record p { pending = t }) (sym (append-nil p.pending))
feed-pending p (b ∷ chunk) = refl

module _ (p : IncrementalTlv) (chunk : List ℕ) where
  -- A record that is complete before a chunk is fed is the next record after it too, and the chunk
  -- joins the bytes behind it.
  pub try_next_record-feed-some :
      (r : Record) (p' : IncrementalTlv)
      → try_next_record p ≡ ok (some r, p')
      → try_next_record (feed p chunk) ≡ ok (some r, feed p' chunk)
  unfolding try_next_record
  try_next_record-feed-some r p' e =
      rw (feed-pending p chunk, feed-pending p' chunk)
        (ground (
          arith,
          length-append p.pending chunk,
          take-append_le 2 p.pending chunk,
          drop-append_le 2 p.pending chunk,
          length-drop 2 p.pending,
          take-append_le 4 (drop 2 p.pending) chunk,
          drop-append_le 6 p.pending chunk,
          length-drop 6 p.pending,
          take-append_le (from_le_bytes (take_list 4 (drop 2 p.pending))) (drop 6 p.pending) chunk,
          drop-append_le (6 + from_le_bytes (take_list 4 (drop 2 p.pending))) p.pending chunk,
        ))

  -- An error stays an error whatever is fed.
  pub try_next_record-feed_err :
      (e : Error) → try_next_record p ≡ err e → try_next_record (feed p chunk) ≡ err e
  unfolding try_next_record
  try_next_record-feed_err e h = rw (feed-pending p chunk) (
      ground (
        arith,
        length-append p.pending chunk,
        drop-append_le 2 p.pending chunk,
        length-drop 2 p.pending,
        take-append_le 4 (drop 2 p.pending) chunk,
      ))

-- The three fields of a written record, as `try_next_record` reads them.
module _ (tag : ℕ) (value rest : List ℕ) (tag_fits : tag < 2 ^ 16)
    (len_fits : length value < u32_mod) where
  abbrev framed : List ℕ
  framed = write_record [] tag value ++ rest

  framed-eq : framed ≡ le_bytes 2 tag ++ (le_bytes 4 (length value) ++ (value ++ rest))
  framed-eq = rw (write_record-eq [] tag value len_fits) (simp append_assoc)

  tag_read : from_le_bytes (take_list 2 framed) ≡ tag
  tag_read =
      rw (framed-eq, take-append_at 2 (le_bytes 2 tag) _ (length-le_bytes 2 tag))
        (from_le_bytes-le_bytes 2 tag tag_fits)

  drop_tag : drop 2 framed ≡ le_bytes 4 (length value) ++ (value ++ rest)
  drop_tag = rw framed-eq (drop-append_at 2 (le_bytes 2 tag) _ (length-le_bytes 2 tag))

  len_read : from_le_bytes (take_list 4 (drop 2 framed)) ≡ length value
  len_read =
      rw (drop_tag, take-append_at 4 (le_bytes 4 (length value)) _ (length-le_bytes 4 _))
        (from_le_bytes-le_bytes 4 (length value) len_fits)

  drop_header : drop 6 framed ≡ value ++ rest
  drop_header =
      sym (drop-drop 2 4 framed)
      ∙ ap (drop 4) drop_tag
      ∙ drop-append_at 4 (le_bytes 4 (length value)) _ (length-le_bytes 4 _)

  drop_record : drop (6 + length value) framed ≡ rest
  drop_record =
      sym (drop-drop 6 (length value) framed)
      ∙ ap (drop (length value)) drop_header
      ∙ drop-append value rest

  length-framed : length framed ≡ 6 + length value + length rest
  length-framed =
      omega (arith, length-append (write_record [] tag value) rest, length-write_record tag value)

  -- With a written record in front, the next record is that one, and the bytes behind it stay, if
  -- its tag fits 16 bits and the length of its value fits 32 bits and the maximum.
  pub try_next_record-write_record :
      (max_len : ℕ)
      → length value ≤ max_len
      → try_next_record (record { pending = write_record [] tag value ++ rest; max_len = max_len })
        ≡ ok (some (tag, value), record { pending = rest; max_len = max_len })
  unfolding try_next_record
  try_next_record-write_record max_len short =
      rw (tag_read, len_read, drop_header, drop_record, take-append) (ground (arith, length-framed))

-- A proper front of a written record is kept until more is fed.
front_waits :
    (max_len tag : ℕ) (value front back : List ℕ)
    → tag < 2 ^ 16
    → length value < u32_mod
    → length value ≤ max_len
    → write_record [] tag value ++ [] ≡ front ++ back
    → back ≢ []
    → try_next_record (record { pending = front; max_len = max_len })
      ≡ ok (none, record { pending = front; max_len = max_len })
unfolding try_next_record
front_waits max_len tag value front back ht hl hm e hb = ground (
  arith,
  length-ne-nil back hb,
  length-append front back,
  rw e at (length-framed tag value [] ht hl),
  rw e at (len_read tag value [] ht hl),
  drop-append_le 2 front back,
  length-drop 2 front,
  take-append_le 4 (drop 2 front) back,
)

-- Of a record that arrives in two parts, the second of which is not empty, there is no next record
-- after the first part, which is kept; after the second part the next record is the whole one and
-- nothing is left, if its tag fits 16 bits and the length of its value 32 bits and the maximum.
pub split_record :
    (max_len tag : ℕ) (value front back : List ℕ)
    → tag < 2 ^ 16
    → length value < u32_mod
    → length value ≤ max_len
    → write_record [] tag value ≡ front ++ back
    → back ≢ []
    → (try_next_record (feed (new max_len) front) ≡ ok (none, feed (new max_len) front))
      × (try_next_record (feed (feed (new max_len) front) back)
          ≡ ok (some (tag, value), new max_len))
split_record max_len tag value front back ht hl hm e hb =
    let e' : write_record [] tag value ++ [] ≡ front ++ back = append-nil _ ∙ e in
    (
      rw feed-pending (front_waits max_len tag value front back ht hl hm e' hb),
      rw (feed-pending, feed-pending, ← e')
          (try_next_record-write_record tag value [] ht hl max_len hm),
    )
