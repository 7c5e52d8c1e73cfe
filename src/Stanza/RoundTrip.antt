-- ===== src/Stanza/RoundTrip.antt =====
-- `serialize_into`, `parse` and `parse_sequence` of crates/blindkey-core/src/format/stanza.rs
-- together.
use blindkey.Prelude.{
  ℕ, zero, suc, ◌+◌, ◌%◌, ◌≤◌, ◌<◌, ◌≡◌, refl, sym, ap, ◌∙◌, arith, List, [], ◌∷◌, ◌++◌, length,
  false, length-append, append-nil, ltb, All, drop,
}
use native.Mathlib.Nat.{mod-eq_of_lt}
use blindkey.Result.{ok, header_corrupt}
use blindkey.Bytes.{u32_mod, u64_mod, le_bytes, length-le_bytes, IsByte}
use blindkey.Cursor.{◌>>=◌, read_u8, new}
use blindkey.Cursor.Reads.{
  Reads, Reads-bind, Reads-pure, Reads-take, Reads-read_u8, Reads-read_le, Reads-refuse_if,
  Reads-cast, Ahead-new, run-ok, run-eq-ok,
}
use blindkey.Cursor.Takes.{
  Takes, Takes-bind, Takes-pure, Takes-take, Takes-read_u8, Takes-read_le, Takes-refuse_if,
  Takes-weaken, Fits-new,
}
use blindkey.Stanza.{
  Stanza, max_stanzas, max_stanza_data_len, on_disk_len, parse, serialize_into, parse_times,
  parse_all, parse_sequence,
}

pub record IsValid (s : Stanza) : Type 0 where
  pub type_fits : IsByte s.stanza_type
  pub bounded : length s.blob ≤ max_stanza_data_len

-- What the header writes for its stanzas, in order.
abbrev pub serialize_all : List Stanza → List ℕ
serialize_all [] = []
serialize_all (s ∷ ss) = serialize_into [] s ++ serialize_all ss

pub serialize_into-append :
    (out : List ℕ) (s : Stanza) → serialize_into out s ≡ out ++ serialize_into [] s
unfolding serialize_into
serialize_into-append out s = refl

pub serialize_into-eq :
    (s : Stanza)
    → length s.blob ≤ max_stanza_data_len
    → serialize_into [] s ≡ (s.stanza_type ∷ []) ++ (le_bytes 4 (length s.blob) ++ s.blob)
unfolding serialize_into
serialize_into-eq s h = rw (mod-eq_of_lt {n = length s.blob} {m = u32_mod} (omega arith)) refl

-- A stanza takes `on_disk_len` bytes on disk.
pub length-serialize_into :
    (out : List ℕ) (s : Stanza) → length (serialize_into out s) ≡ length out + on_disk_len s
unfolding serialize_into on_disk_len
length-serialize_into out s = omega (
  arith,
  length-append out (s.stanza_type ∷ [] ++ (le_bytes 4 (length s.blob % u32_mod) ++ s.blob)),
  length-append (le_bytes 4 (length s.blob % u32_mod)) s.blob,
  length-le_bytes 4 (length s.blob % u32_mod),
)

pub Reads-parse : (s : Stanza) → IsValid s → Reads parse (serialize_into [] s) s
unfolding parse
Reads-parse s h =
    let fine : ltb max_stanza_data_len (length s.blob) ≡ false = ground arith in
    rw (serialize_into-eq s h.bounded) (
      Reads-bind _ (Reads-read_u8 s.stanza_type) (
        Reads-bind _ (Reads-read_le 4 (length s.blob) (omega arith)) (
          Reads-bind _
            (Reads-refuse_if (ltb max_stanza_data_len (length s.blob)) header_corrupt fine)
            (Reads-cast (append-nil s.blob) (Reads-bind _ (Reads-take s.blob) (Reads-pure _))))))

pub Reads-parse_times :
    (ss : List Stanza) → All IsValid ss → Reads (parse_times (length ss)) (serialize_all ss) ss
unfolding parse_times
Reads-parse_times [] h = Reads-pure []
Reads-parse_times (s ∷ ss) (hs, hss) = Reads-bind _ (Reads-parse s hs) (
    Reads-cast (append-nil (serialize_all ss))
      (Reads-bind _ (Reads-parse_times ss hss) (Reads-pure _)))

pub Reads-parse_all :
    (ss : List Stanza)
    → length ss ≤ max_stanzas
    → All IsValid ss
    → Reads (parse_all (length ss)) (serialize_all ss) ss
unfolding parse_all
Reads-parse_all ss few h =
    let fine : ltb max_stanzas (length ss) ≡ false = ground arith in
    Reads-bind _ (Reads-refuse_if _ header_corrupt fine) (Reads-parse_times ss h)

stanza_bytes :
    (t len : ℕ) (blob : List ℕ)
    → length blob ≡ len
    → len ≤ max_stanza_data_len
    → (t ∷ []) ++ (le_bytes 4 len ++ blob)
      ≡ serialize_into [] (record { stanza_type = t; blob = blob })
stanza_bytes t len blob e h =
    rw (← e)
      (sym (serialize_into-eq (record { stanza_type = t; blob = blob }) (omega (arith, e, h))))

abbrev pub StanzaTaken : Stanza → List ℕ → Type 0
StanzaTaken s bs = (bs ≡ serialize_into [] s) × IsValid s

pub Takes-parse : Takes parse StanzaTaken
unfolding parse
Takes-parse = Takes-bind _ Takes-read_u8 (λ t b₁ q₁ h₁.
    Takes-bind _ (Takes-read_le 4) (λ len b₂ q₂ h₂.
      Takes-bind (λ _ (bs : List ℕ). (bs ≡ []) × (len ≤ max_stanza_data_len))
        (Takes-refuse_if (ltb max_stanza_data_len len) header_corrupt (λ f. (refl, ground arith)))
        (λ _ b₃ q₃ h₃. Takes-bind _ (Takes-take len) (λ blob b₄ q₄ h₄. Takes-pure _ (
          rw (append-nil, q₁, q₂.0, q₃.0, q₄.0) (stanza_bytes t len blob (rw q₄.0 at q₄.1) q₃.1),
          record {
            type_fits = (rw q₁ at h₁).0;
            bounded = omega (arith, ap length q₄.0, q₄.1, q₃.1);
          },
        )))))

abbrev pub StanzasTaken : ℕ → List Stanza → List ℕ → Type 0
StanzasTaken count ss bs = (bs ≡ serialize_all ss) × All IsValid ss × (length ss ≡ count)

pub Takes-parse_times : (n : ℕ) → Takes (parse_times n) (StanzasTaken n)
unfolding parse_times
Takes-parse_times zero = Takes-pure [] (refl, tt, refl)
Takes-parse_times (suc n) = Takes-bind _ Takes-parse (λ s b₁ q₁ h₁.
    Takes-bind _ (Takes-parse_times n) (λ ss b₂ q₂ h₂.
      Takes-pure _ (rw (append-nil, q₁.0, q₂.0) refl, (q₁.1, q₂.1), omega (arith, q₂.2))))

pub Takes-parse_all :
    (count : ℕ)
    → Takes (parse_all count) (λ ss bs. StanzasTaken count ss bs × (count ≤ max_stanzas))
unfolding parse_all
Takes-parse_all count =
    Takes-bind (λ _ (bs : List ℕ). (bs ≡ []) × (count ≤ max_stanzas))
      (Takes-refuse_if (ltb max_stanzas count) header_corrupt (λ f. (refl, ground arith)))
      (λ _ b₁ q₁ h₁. Takes-weaken (λ ss bs hb q. rw q₁.0 (q, q₁.1)) (Takes-parse_times count))

Takes-sequence :
    Takes
      (do count ← read_u8; parse_all count)
      (λ ss bs. (bs ≡ length ss ∷ serialize_all ss) × (length ss ≤ max_stanzas) × All IsValid ss)
Takes-sequence = Takes-bind _ Takes-read_u8 (λ count b₁ q₁ h₁.
    Takes-weaken (λ ss bs hb q. (rw (q₁, q.0.0, ← q.0.2) refl, omega (arith, q.0.2, q.1), q.0.1))
      (Takes-parse_all count))

Reads-sequence :
    (ss : List Stanza)
    → length ss ≤ max_stanzas
    → All IsValid ss
    → Reads (do count ← read_u8; parse_all count) (length ss ∷ serialize_all ss) ss
Reads-sequence ss few h =
    Reads-bind parse_all (Reads-read_u8 (length ss)) (Reads-parse_all ss few h)

-- At most eight valid stanzas, written after their number, are parsed back in order, whatever
-- follows, if the input has less than 2^64 bytes.
pub parse_sequence-serialize_all :
    (ss : List Stanza) (rest : List ℕ)
    → length ss ≤ max_stanzas
    → All IsValid ss
    → length (length ss ∷ serialize_all ss ++ rest) < u64_mod
    → parse_sequence (length ss ∷ serialize_all ss ++ rest) ≡ ok ss
unfolding parse_sequence
parse_sequence-serialize_all ss rest few h small =
    run-ok (do count ← read_u8; parse_all count) _
      ((Reads-sequence ss few h).at _ rest (Ahead-new _ small))

-- Stanzas that are parsed are at most eight, each with a type of one byte and at most 4096 bytes
-- of data, and the input is their number and their serializations in order, followed by a rest.
pub parse_sequence_sound :
    (bytes : List ℕ) (ss : List Stanza)
    → All IsByte bytes
    → length bytes < u64_mod
    → parse_sequence bytes ≡ ok ss
    → (rest : List ℕ) × (bytes ≡ length ss ∷ (serialize_all ss ++ rest))
      × (length ss ≤ max_stanzas)
      × All IsValid ss
unfolding parse_sequence
parse_sequence_sound bytes ss hb small e =
    let (c, e₀) = run-eq-ok (do count ← read_u8; parse_all count) bytes e in
    let (bs, m, q) = Takes-sequence.at (new bytes) ss c (Fits-new bytes hb small) e₀ in
    (drop c.pos c.buf, m.sight ∙ ap (λ t. t ++ drop c.pos c.buf) q.0, q.1, q.2)
