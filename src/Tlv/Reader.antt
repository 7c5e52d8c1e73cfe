-- ===== src/Tlv/Reader.antt =====
-- `write_record` and `read_record` of crates/blindkey-core/src/format/tlv.rs together.
use blindkey.Prelude.{
  ℕ, ◌+◌, ◌^◌, ◌%◌, ◌≤◌, ◌<◌, ◌≡◌, refl, sym, ap, arith, false, Option, none, some, List, [], ◌++◌,
  length, length-append, append-nil, ltb, ◌⊎◌, inl, inr, Bool-cases, ◌==◌, ◌==◌,
}
use native.Mathlib.Nat.{mod-eq_of_lt}
use blindkey.Result.{ok, body_malformed}
use blindkey.Bytes.{u32_mod, le_bytes, length-le_bytes}
use blindkey.Cursor.{Cursor, ◌>>=◌, pure, remaining, relabel, take}
use blindkey.Cursor.Reads.{
  Reads, Ahead, skip, Reads-bind, Reads-pure, Reads-take, Reads-read_le, Reads-refuse_if,
  Reads-relabel, Reads-cast, length-Ahead,
}
use blindkey.Cursor.Takes.{
  Takes, Fits, Moves, Takes-bind, Takes-pure, Takes-take, Takes-read_le, Takes-refuse_if,
  Takes-relabel, Takes-weaken,
}
use blindkey.Tlv.{Record, write_record, read_value, read_framed, read_record, header_len}

-- The bytes of a record as the tactics see them, lengths reduced.
pub write_record-eq :
    (out : List ℕ) (tag : ℕ) (value : List ℕ)
    → length value < u32_mod
    → write_record out tag value ≡ out ++ (le_bytes 2 tag ++ (le_bytes 4 (length value) ++ value))
unfolding write_record
write_record-eq out tag value h = rw (mod-eq_of_lt h) refl

pub length-write_record :
    (tag : ℕ) (value : List ℕ) → length (write_record [] tag value) ≡ header_len + length value
unfolding write_record
length-write_record tag value = omega (
  arith,
  length-append (le_bytes 2 tag) (le_bytes 4 (length value % u32_mod) ++ value),
  length-append (le_bytes 4 (length value % u32_mod)) value,
  length-le_bytes 2 tag,
  length-le_bytes 4 (length value % u32_mod),
)

-- The tail of `read_value`, once the value is known to be complete.
Reads-value :
    (tag : ℕ) (value : List ℕ)
    → Reads {A = Option Record}
        (do v ← relabel body_malformed (take (length value)); pure (some (tag, v)))
        value
        (some (tag, value))
Reads-value tag value =
    Reads-cast (append-nil value)
      (Reads-bind _ (Reads-relabel body_malformed (Reads-take value)) (Reads-pure _))

Reads-read_value :
    (tag : ℕ) (value : List ℕ) → Reads (read_value tag (length value)) value (some (tag, value))
unfolding read_value
Reads-read_value tag value = record {
  at = λ c s h.
      let enough : ltb (remaining c) (length value) ≡ false =
        ground (arith, length-Ahead h, length-append value s) in
      rw enough ((Reads-value tag value).at c s h);
}

module _ (max_len tag : ℕ) (value : List ℕ) (tag_fits : tag < 2 ^ 16)
    (short : length value ≤ max_len) (len_fits : length value < u32_mod) where
  Reads-read_framed : Reads (read_framed max_len) (write_record [] tag value) (some (tag, value))
  unfolding read_framed
  Reads-read_framed =
      let fine : ltb max_len (length value) ≡ false = ground arith in
      rw (write_record-eq [] tag value len_fits) (
        Reads-bind _ (Reads-relabel body_malformed (Reads-read_le 2 tag tag_fits)) (
          Reads-bind _ (Reads-relabel body_malformed (Reads-read_le 4 (length value) len_fits)) (
            Reads-bind (λ _. read_value tag (length value))
              (Reads-refuse_if (ltb max_len (length value)) body_malformed fine)
              (Reads-read_value tag value))))

  pub Reads-read_record :
      Reads (read_record max_len) (write_record [] tag value) (some (tag, value))
  unfolding read_record
  Reads-read_record = record {
    at = λ c s h.
        let some_left : 0 < remaining c = omega (
          arith,
          length-Ahead h,
          length-append (write_record [] tag value) s,
          length-write_record tag value,
        ) in
        ground (arith, Reads-read_framed.at c s h);
  }

  -- Where the unread bytes of a cursor begin with a record that `write_record` wrote, `read_record`
  -- returns that record and moves just behind it, whatever follows, if the tag fits 16 bits and
  -- the length of the value fits 32 bits and the maximum.
  pub read_record-write_record :
      (c : Cursor) (rest : List ℕ)
      → Ahead c (write_record [] tag value ++ rest)
      → read_record max_len c ≡ ok (some (tag, value), skip (length (write_record [] tag value)) c)
  read_record-write_record = Reads-read_record.at

-- What a successful `read_record` has moved over: a record; nothing; or the frame of a record
-- whose value is not complete.
abbrev pub Taken : ℕ → Option Record → List ℕ → Type 0
Taken max_len (some (tag, value)) bs =
    (bs ≡ write_record [] tag value) × (tag < 2 ^ 16) × (length value ≤ max_len)
Taken max_len none bs =
    (bs ≡ []) ⊎ ((tag : ℕ) × (len : ℕ) × (bs ≡ le_bytes 2 tag ++ le_bytes 4 len) × (len ≤ max_len))

abbrev ValueTaken : ℕ → ℕ → Option Record → List ℕ → Type 0
ValueTaken tag len (some (t, value)) bs = (t ≡ tag) × (value ≡ bs) × (length bs ≡ len)
ValueTaken tag len none bs = bs ≡ []

Takes-value :
    (tag len : ℕ)
    → Takes {A = Option Record}
        (do v ← relabel body_malformed (take len); pure (some (tag, v)))
        (ValueTaken tag len)
Takes-value tag len =
    Takes-bind _ (Takes-relabel body_malformed (Takes-take len))
      (λ v bs q hb. Takes-pure _ (rw append-nil (refl, sym q.0, q.1)))

Takes-read_value : (tag len : ℕ) → Takes (read_value tag len) (ValueTaken tag len)
unfolding read_value
Takes-read_value tag len = record {
  at = λ c r c' h e. elim (Bool-cases (ltb (remaining c) len)) [
    | inl short ↦ (Takes-pure {Q = ValueTaken tag len} none refl).at c r c' h (rw short at e)
    | inr whole ↦ (Takes-value tag len).at c r c' h (rw whole at e)
  ];
}

framed-Taken :
    (max_len tag len : ℕ) (r : Option Record) (bs : List ℕ)
    → tag < 2 ^ 16
    → len < u32_mod
    → len ≤ max_len
    → ValueTaken tag len r bs
    → Taken max_len r (le_bytes 2 tag ++ (le_bytes 4 len ++ bs))
framed-Taken max_len tag len none bs ht hl hm e = inr (tag, len, rw (e, append-nil) refl, hm)
framed-Taken max_len tag len (some (t, value)) bs ht hl hm (et, ev, el) = (
  rw (et, ev, write_record-eq [] tag bs (omega (arith, el, hl)), el) refl,
  omega (arith, et, ht),
  omega (arith, ap length ev, el, hm),
)

Takes-read_framed : (max_len : ℕ) → Takes (read_framed max_len) (Taken max_len)
unfolding read_framed
Takes-read_framed max_len =
    Takes-bind _ (Takes-relabel body_malformed (Takes-read_le 2)) (λ tag bs q hb.
      Takes-bind _ (Takes-relabel body_malformed (Takes-read_le 4)) (λ len bs' q' hb'.
        Takes-bind (λ _ (bs'' : List ℕ). (bs'' ≡ []) × (len ≤ max_len))
          (Takes-refuse_if _ body_malformed (λ t. (refl, ground arith)))
          (λ _ bs'' q'' hb''.
            Takes-weaken
              (λ r bs₃ hb₃ v.
                rw (q.0, q'.0, q''.0) (framed-Taken max_len tag len r bs₃ q.1 q'.1 q''.1 v))
              (Takes-read_value tag len))))

Takes-read_record : (max_len : ℕ) → Takes (read_record max_len) (Taken max_len)
unfolding read_record
Takes-read_record max_len = record {
  at = λ c r c' h e. elim (Bool-cases (remaining c == 0)) [
    | inl done ↦ (Takes-pure {Q = Taken max_len} none (inl refl)).at c r c' h (rw done at e)
    | inr more ↦ (Takes-read_framed max_len).at c r c' h (rw more at e)
  ];
}

-- Where `read_record` succeeds on a buffer of bytes, it has moved inside the buffer, over exactly
-- the bytes that `write_record` writes for the record that it returns, whose tag fits 16 bits and
-- whose value is no longer than the given maximum; if it returns no record, it has moved over
-- nothing, or over the tag and length, within the maximum, of a record.
pub read_record_sound :
    (max_len : ℕ) (c : Cursor) (r : Option Record) (c' : Cursor)
    → Fits c
    → read_record max_len c ≡ ok (r, c')
    → (bs : List ℕ) × Moves c bs c' × Taken max_len r bs
read_record_sound max_len = (Takes-read_record max_len).at
