-- ===== src/Entry/Parts.antt =====
-- The form of an entry of crates/blindkey-core/src/format/entry.rs in parts: what a part writes,
-- and what the parser makes of it.
use blindkey.Prelude.{
  ℕ, ◌+◌, ◌^◌, ◌≤◌, ◌<◌, ◌≡◌, refl, ap, ◌∙◌, arith, false, none, List, [], ◌∷◌, ◌++◌, length, All,
  All-append, append-nil, append_assoc,
}
use blindkey.Result.{ok}
use blindkey.Tlv.{Record, write_record, max_field_len}
use blindkey.Tlv.Loop.{
  write_all, write_record-append, write_all-append, IsRecord, run_records, run_records-append,
  unless_ended,
}
use blindkey.Primitives.Cipher.{StreamCipher}
use blindkey.InnerStream.{InnerStream, SealKey, apply, length-apply}
use blindkey.Entry.{Protected, sealed, Entry, Output, expose, write_plain, write_protected}
use blindkey.Entry.Parse.{Progress, take_field}

-- The parser between two parts: no name waits for its value.
abbrev pub between : Entry → ℕ → Progress
between x position = record { entry = x; pending_name = none; offset = position }

-- From one position of the inner stream to another, `write` appends records that the parser takes
-- back, and that change the entry by `effect`.
pub record Part (key : SealKey) (write : Output → Output) (from to : InnerStream)
    (effect : Entry → Entry) : Type 0 where
  pub recs : List Record
  pub fits : All (IsRecord max_field_len) recs
  pub writes : (out : List ℕ) → write (out, from) ≡ (out ++ write_all recs, to)
  pub runs :
      (x : Entry)
      → run_records (take_field key) (between x from.position) recs
        ≡ ok (between (effect x) to.position, false)

pub Part-then :
    {key : SealKey} {f g : Output → Output} {i j k : InnerStream} {E F : Entry → Entry}
    → Part key f i j E
    → Part key g j k F
    → Part key (λ o. g (f o)) i k (λ x. F (E x))
Part-then {key} {f} {g} {i} {j} {k} {E} {F} p q = record {
  recs = p.recs ++ q.recs;
  fits = All-append (IsRecord max_field_len) p.recs q.recs p.fits q.fits;
  writes = λ out.
      ap g (p.writes out)
      ∙ q.writes (out ++ write_all p.recs)
      ∙ (rw (write_all-append p.recs q.recs, append_assoc out (write_all p.recs) (write_all q.recs))
          refl);
  runs = λ x.
      run_records-append (take_field key) (between x i.position) (between (E x) j.position) p.recs
        q.recs (p.runs x)
      ∙ q.runs (E x);
}

pub Part-none : {key : SealKey} (i : InnerStream) → Part key (λ o. o) i i (λ x. x)
unfolding write_all run_records
Part-none i = record { recs = []; fits = tt; writes = λ out. rw append-nil refl; runs = λ x. refl }

-- One record of up to a mebibyte, which the parser takes in one round.
one_record :
    {key : SealKey} {effect : Entry → Entry} (write : Output → Output) (i j : InnerStream) (tag : ℕ)
    (value : List ℕ)
    → tag < 2 ^ 16
    → length value ≤ max_field_len
    → ((out : List ℕ) → write (out, i) ≡ (write_record out tag value, j))
    → ((x : Entry)
        → take_field key (between x i.position) tag value
          ≡ ok (between (effect x) j.position, false))
    → Part key write i j effect
unfolding write_all run_records unless_ended
one_record write i j tag value ht hv writes takes = record {
  recs = (tag, value) ∷ [];
  fits = ((ht, hv, omega arith), tt);
  writes = λ out. writes out ∙ (rw (write_record-append out tag value, append-nil) refl);
  runs = λ x. rw (takes x) refl;
}

pub plain-Part :
    {key : SealKey} {effect : Entry → Entry} (cipher : StreamCipher) (i : InnerStream) (tag : ℕ)
    (value : List ℕ)
    → tag < 2 ^ 16
    → length value ≤ max_field_len
    → ((x : Entry) (p : ℕ)
        → take_field key (between x p) tag value ≡ ok (between (effect x) p, false))
    → Part key (write_plain cipher tag value) i i effect
plain-Part cipher i tag value ht hv takes =
    one_record (write_plain cipher tag value) i i tag value ht hv (λ out. refl)
      (λ x. takes x i.position)

-- The stream behind a secret.
abbrev pub behind : StreamCipher → Protected → InnerStream → InnerStream
behind cipher p i = (apply cipher i (expose cipher p)).1

-- The secret as the parser keeps it, encrypted at its place in the stream.
abbrev pub resealed : StreamCipher → SealKey → Protected → InnerStream → Protected
resealed cipher key p i = sealed (apply cipher i (expose cipher p)).0 key i.position

pub protected-Part :
    {key : SealKey} {effect : Entry → Entry} (cipher : StreamCipher) (i : InnerStream) (tag : ℕ)
    (p : Protected)
    → tag < 2 ^ 16
    → length (expose cipher p) ≤ max_field_len
    → ((x : Entry) (ct : List ℕ)
        → ct ≡ (apply cipher i (expose cipher p)).0
        → take_field key (between x i.position) tag ct
          ≡ ok (between (effect x) (i.position + length ct), false))
    → Part key (write_protected cipher tag (expose cipher p)) i (behind cipher p i) effect
unfolding write_protected apply
protected-Part {effect} cipher i tag p ht hv takes =
    let size : length (apply cipher i (expose cipher p)).0 ≡ length (expose cipher p) =
      length-apply cipher i (expose cipher p) in
    one_record _ i (behind cipher p i) tag (apply cipher i (expose cipher p)).0 ht
      (omega (arith, size)) (λ out. refl)
      (λ x. takes x _ refl ∙ ap (λ n. ok (between (effect x) (i.position + n), false)) size)
