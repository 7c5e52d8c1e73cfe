-- ===== src/Tlv/Loop.antt =====
-- The loop over the records of a buffer that the payload and its entries share: `while let
-- Some((tag, value)) = tlv::read_record(..)? { match tag { .. } }`.
use blindkey.Prelude.{
  ℕ, zero, suc, ◌*◌, ◌^◌, ◌≤◌, ◌<◌, ◌≡◌, ◌≢◌, refl, sym, ap, arith, Bool, true, false, List, [],
  ◌∷◌, ◌++◌, length, length-append, append_assoc, All, ◌⊎◌, inl, inr, none, some,
}
use blindkey.Result.{Error, Result, ok, err, body_malformed, ◌>>=◌}
use blindkey.Bytes.{u32_mod, u64_mod}
use blindkey.Cursor.{Cursor, new, remaining}
use blindkey.Cursor.Reads.{Ahead, Ahead-skip, Ahead-new, length-Ahead}
use blindkey.Tlv.{Record, write_record, read_record, header_len}
use blindkey.Tlv.Reader.{read_record-write_record, length-write_record}

-- The records one after the other, as `write_record` appends them.
unfoldable pub write_all : List Record → List ℕ
write_all [] = []
write_all (r ∷ rs) = write_record [] r.0 r.1 ++ write_all rs

pub write_record-append :
    (out : List ℕ) (tag : ℕ) (value : List ℕ)
    → write_record out tag value ≡ out ++ write_record [] tag value
unfolding write_record
write_record-append out tag value = refl

pub write_all-append : (rs ss : List Record) → write_all (rs ++ ss) ≡ write_all rs ++ write_all ss
unfolding write_all
write_all-append [] ss = refl
write_all-append (r ∷ rs) ss =
    rw
      (write_all-append rs ss, append_assoc (write_record [] r.0 r.1) (write_all rs) (write_all ss))
      refl

pub length-write_all : (rs : List Record) → header_len * length rs ≤ length (write_all rs)
unfolding write_all
length-write_all [] = omega arith
length-write_all (r ∷ rs) = omega (
  arith,
  length-append (write_record [] r.0 r.1) (write_all rs),
  length-write_record r.0 r.1,
  length-write_all rs,
)

-- The reader gives the record back where its tag fits 16 bits and its value the maximum and 32 bits.
abbrev pub IsRecord : ℕ → Record → Type 0
IsRecord max_len r = (r.0 < 2 ^ 16) × (length r.1 ≤ max_len) × (length r.1 < u32_mod)

read_record_nil :
    (max_len : ℕ) (c : Cursor) → remaining c ≡ 0 → read_record max_len c ≡ ok (none, c)
unfolding read_record
read_record_nil max_len c h = ground arith

flag : {State : Type 0} → Result (State × Bool) → Bool
flag (ok (s, b)) = b
flag (err e) = true

-- What a round of the loop leads to: its failure, the state at a `break`, or the next round.
unfoldable pub loop_on :
    {State : Type 0} → Result (State × Bool) → (State → Result State) → Result State
loop_on (err e) next = err e
loop_on (ok (s, true)) next = ok s
loop_on (ok (s, false)) next = next s

-- What a round leads to, unless it fails or breaks.
unfoldable pub unless_ended :
    {State : Type 0}
    → Result (State × Bool)
    → (State → Result (State × Bool))
    → Result (State × Bool)
unless_ended (err e) next = err e
unless_ended (ok (s, true)) next = ok (s, true)
unless_ended (ok (s, false)) next = next s

module _ {State : Type 0} (step : State → ℕ → List ℕ → Result (State × Bool)) where
  -- The loop on fuel; a round takes the six bytes of a record's header at least. The flag of `step`
  -- is a `break`.
  unfoldable pub each_record : ℕ → ℕ → State → Cursor → Result State
  each_record zero max_len s cur = err body_malformed
  each_record (suc fuel) max_len s cur = read_record max_len cur >>= λ (found, cur'). elim found [
    | none ↦ ok s
    | some (tag, value) ↦ loop_on (step s tag value) (λ s'. each_record fuel max_len s' cur')
  ]

  unfoldable pub for_each_record : ℕ → State → List ℕ → Result State
  for_each_record max_len s bytes = each_record (suc (length bytes)) max_len s (new bytes)

  -- The same on records instead of bytes, and whether it ended at a `break`.
  unfoldable pub run_records : State → List Record → Result (State × Bool)
  run_records s [] = ok (s, false)
  run_records s (r ∷ rs) = unless_ended (step s r.0 r.1) (λ s'. run_records s' rs)

ended_ne : {A : Type 0} {e : Error} {a : A} → err e ≢ ok a
ended_ne h = cc

abbrev ended_at : {State : Type 0} → State → Bool → Result (State × Bool)
ended_at s broke = ok (s, broke)

broken_ne : {State : Type 0} {s s' : State} → ended_at s true ≢ ended_at s' false
unfolding flag
broken_ne h = let t : true ≡ false = ap flag h in cc

unless_ended-eq :
    {State : Type 0} (called : Result (State × Bool)) (f g : State → Result (State × Bool))
    {s : State} {answer : Result (State × Bool)}
    → unless_ended called f ≡ ok (s, false)
    → ((s1 : State) → f s1 ≡ ok (s, false) → g s1 ≡ answer)
    → unless_ended called g ≡ answer
unfolding unless_ended
unless_ended-eq (err e) f g h k = absurd (ended_ne h)
unless_ended-eq (ok (s1, true)) f g h k = absurd (broken_ne h)
unless_ended-eq (ok (s1, false)) f g h k = k s1 h

loop_on-eq :
    {State : Type 0} (called : Result (State × Bool)) (f : State → Result (State × Bool))
    (g : State → Result State) {s : State} {broke : Bool}
    → unless_ended called f ≡ ok (s, broke)
    → ((s1 : State) → f s1 ≡ ok (s, broke) → g s1 ≡ ok s)
    → loop_on called g ≡ ok s
unfolding unless_ended loop_on
loop_on-eq (err e) f g h k = absurd (ended_ne h)
loop_on-eq (ok (s1, true)) f g h k = cc
loop_on-eq (ok (s1, false)) f g h k = k s1 h

pub loop_on_fails :
    {State : Type 0} (called : Result (State × Bool)) (f : State → Result (State × Bool))
    (g : State → Result State) {s : State} {e : Error}
    → unless_ended called f ≡ ok (s, false)
    → ((s1 : State) → f s1 ≡ ok (s, false) → g s1 ≡ err e)
    → loop_on called g ≡ err e
unfolding unless_ended loop_on
loop_on_fails (err e) f g h k = absurd (ended_ne h)
loop_on_fails (ok (s1, true)) f g h k = absurd (broken_ne h)
loop_on_fails (ok (s1, false)) f g h k = k s1 h

module _ {State : Type 0} (step : State → ℕ → List ℕ → Result (State × Bool)) where
  pub run_records-append :
      (s s' : State) (rs ss : List Record)
      → run_records step s rs ≡ ok (s', false)
      → run_records step s (rs ++ ss) ≡ run_records step s' ss
  unfolding run_records
  run_records-append s s' [] ss h = let same : s ≡ s' = cc in ap (λ x. run_records step x ss) same
  run_records-append s s' (r ∷ rs) ss h =
      unless_ended-eq (step s r.0 r.1) _ _ h (λ s1 h1. run_records-append s1 s' rs ss h1)

  -- Where the records can be read back and the run over them ends, by a break or at the end of the
  -- buffer, the loop gives what the run gives.
  pub each_record-write_all :
      (max_len fuel : ℕ) (rs : List Record) (tail : List ℕ) (s s' : State) (broke : Bool)
      (c : Cursor)
      → All (IsRecord max_len) rs
      → length rs < fuel
      → Ahead c (write_all rs ++ tail)
      → (broke ≡ true) ⊎ (tail ≡ [])
      → run_records step s rs ≡ ok (s', broke)
      → each_record step fuel max_len s c ≡ ok s'
  unfolding each_record run_records write_all
  each_record-write_all max_len zero rs tail s s' broke c hr hf ha he h = absurd (omega arith)
  each_record-write_all max_len (suc fuel) [] tail s s' broke c hr hf ha (inl e) h =
      let t : ended_at s false ≡ ended_at s' true = (rw e at h) in absurd (broken_ne (sym t))
  each_record-write_all max_len (suc fuel) [] tail s s' broke c hr hf ha (inr e) h =
      let at_stop : remaining c ≡ 0 = omega (arith, length-Ahead ha, ap length e) in
      let nothing : read_record max_len c ≡ ok (none, c) = read_record_nil max_len c at_stop in
      rw nothing (let t : ended_at s false ≡ ended_at s' broke = h in cc)
  each_record-write_all max_len (suc fuel) (r ∷ rs) tail s s' broke c (hr, hrs) hf ha he h =
      let ahead : Ahead c (write_record [] r.0 r.1 ++ (write_all rs ++ tail)) =
        rw append_assoc at ha in
      let first =
        read_record-write_record max_len r.0 r.1 hr.0 hr.1 hr.2 c (write_all rs ++ tail) ahead in
      rw first (
        loop_on-eq (step s r.0 r.1) _ _ h λ s1 h1.
          each_record-write_all max_len fuel rs tail s1 s' broke _ hrs (omega arith)
            (Ahead-skip (write_record [] r.0 r.1) ahead) he h1)

  -- The same for a whole buffer of fewer than 2^64 bytes.
  pub for_each_record-write_all :
      (max_len : ℕ) (rs : List Record) (tail : List ℕ) (s s' : State) (broke : Bool)
      → All (IsRecord max_len) rs
      → length (write_all rs ++ tail) < u64_mod
      → (broke ≡ true) ⊎ (tail ≡ [])
      → run_records step s rs ≡ ok (s', broke)
      → for_each_record step max_len s (write_all rs ++ tail) ≡ ok s'
  unfolding for_each_record
  for_each_record-write_all max_len rs tail s s' broke hr small he h =
      each_record-write_all max_len _ rs tail s s' broke _ hr
        (omega (arith, length-append (write_all rs) tail, length-write_all rs)) (Ahead-new _ small)
        he h
