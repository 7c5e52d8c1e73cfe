-- ===== src/Tlv/Oversize.antt =====
-- `read_record` of crates/blindkey-core/src/format/tlv.rs at a value longer than its maximum.
use blindkey.Prelude.{
  ℕ, zero, suc, ◌^◌, ◌<◌, ◌≡◌, refl, ap, ◌∙◌, arith, true, false, List, [], ◌∷◌, ◌++◌, length,
  length-append, append_assoc, All, ltb, Option, ◌==◌, Bool,
}
use mathlib.Core.Path.{subst}
use blindkey.Result.{Result, ok, err, body_malformed}
use blindkey.Bytes.{u32_mod, u64_mod, le_bytes}
use blindkey.Cursor.{Cursor, Read, ◌>>=◌, remaining, relabel, refuse_if, read_u16_le, read_u32_le}
use blindkey.Cursor.Reads.{
  Ahead, skip, Ahead-skip, Ahead-new, length-Ahead, Reads-read_le, Reads-relabel,
}
use blindkey.Tlv.{Record, write_record, read_framed, read_record, read_value}
use blindkey.Tlv.Reader.{write_record-eq, length-write_record, read_record-write_record}
use blindkey.Tlv.Loop.{
  write_all, IsRecord, each_record, for_each_record, run_records, loop_on_fails, length-write_all,
}

bind_ok :
    {A B : Type 0} (m : Read A) (f : A → Read B) (c : Cursor) {a : A} {c' : Cursor}
    → m c ≡ ok (a, c')
    → (m >>= f) c ≡ f a c'
bind_ok m f c e = rw (e, ◌>>=◌) refl

abbrev behind_len : ℕ → ℕ → ℕ → Read (Option Record)
behind_len max_len tag len = refuse_if (ltb max_len len) body_malformed >>= λ u. read_value tag len

abbrev behind_tag : ℕ → ℕ → Read (Option Record)
behind_tag max_len tag = relabel body_malformed read_u32_le >>= λ len. behind_len max_len tag len

behind_len_long :
    (max_len tag len : ℕ) (c : Cursor)
    → ltb max_len len ≡ true
    → behind_len max_len tag len c ≡ err body_malformed
behind_len_long max_len tag len c h = rw h refl

pub read_record_oversize :
    (max_len tag : ℕ) (value rest : List ℕ) (c : Cursor)
    → tag < 2 ^ 16
    → length value < u32_mod
    → max_len < length value
    → Ahead c (write_record [] tag value ++ rest)
    → read_record max_len c ≡ err body_malformed
unfolding read_record read_framed
read_record_oversize max_len tag value rest c ht hl long ahead =
    let some_left : (remaining c == 0) ≡ false = ground (
      arith,
      length-Ahead ahead,
      length-append (write_record [] tag value) rest,
      length-write_record tag value,
    ) in
    let bytes : write_record [] tag value ++ rest
        ≡ le_bytes 2 tag ++ (le_bytes 4 (length value) ++ (value ++ rest)) =
      ap (λ b. b ++ rest) (write_record-eq [] tag value hl)
      ∙ append_assoc (le_bytes 2 tag) (le_bytes 4 (length value) ++ value) rest
      ∙ ap (λ b. le_bytes 2 tag ++ b) (append_assoc (le_bytes 4 (length value)) value rest) in
    let at = subst (λ b. Ahead c b) bytes ahead in
    let tag_read = (Reads-relabel body_malformed (Reads-read_le 2 tag ht)).at c _ at in
    let len_read =
      (Reads-relabel body_malformed (Reads-read_le 4 (length value) hl)).at _ _
        (Ahead-skip (le_bytes 2 tag) at) in
    let refused : ltb max_len (length value) ≡ true = ground arith in
    rw some_left (
      bind_ok (relabel body_malformed read_u16_le) (behind_tag max_len) c tag_read
      ∙ bind_ok (relabel body_malformed read_u32_le) (behind_len max_len tag)
          (skip (length (le_bytes 2 tag)) c) len_read
      ∙ behind_len_long max_len tag (length value) _ refused)

module _ {State : Type 0} (step : State → ℕ → List ℕ → Result (State × Bool)) where
  -- Where a record that is too long follows others that the loop gets over, the loop fails.
  pub each_record_oversize :
      (max_len fuel : ℕ) (rs : List Record) (tag : ℕ) (value rest : List ℕ) (s s' : State)
      (c : Cursor)
      → All (IsRecord max_len) rs
      → length rs < fuel
      → tag < 2 ^ 16
      → length value < u32_mod
      → max_len < length value
      → Ahead c (write_all rs ++ (write_record [] tag value ++ rest))
      → run_records step s rs ≡ ok (s', false)
      → each_record step fuel max_len s c ≡ err body_malformed
  unfolding each_record run_records write_all
  each_record_oversize max_len zero rs tag value rest s s' c hr hf ht hl long ahead h =
      absurd (omega arith)
  each_record_oversize max_len (suc fuel) [] tag value rest s s' c hr hf ht hl long ahead h =
      rw (read_record_oversize max_len tag value rest c ht hl long ahead) refl
  each_record_oversize max_len (suc fuel) (r ∷ rs) tag value rest s s' c (hr, hrs) hf ht hl long
        ahead h =
      let next : Ahead c
          (write_record [] r.0 r.1 ++ (write_all rs ++ (write_record [] tag value ++ rest))) =
        subst (λ b. Ahead c b)
          (append_assoc (write_record [] r.0 r.1) (write_all rs)
            (write_record [] tag value ++ rest))
          ahead in
      let first = read_record-write_record max_len r.0 r.1 hr.0 hr.1 hr.2 c _ next in
      rw first (
        loop_on_fails (step s r.0 r.1) _ _ h λ s1 h1.
          each_record_oversize max_len fuel rs tag value rest s1 s' _ hrs (omega arith) ht hl long
            (Ahead-skip (write_record [] r.0 r.1) next) h1)

  pub for_each_record_oversize :
      (max_len : ℕ) (rs : List Record) (tag : ℕ) (value rest : List ℕ) (s s' : State)
      → All (IsRecord max_len) rs
      → tag < 2 ^ 16
      → length value < u32_mod
      → max_len < length value
      → length (write_all rs ++ (write_record [] tag value ++ rest)) < u64_mod
      → run_records step s rs ≡ ok (s', false)
      → for_each_record step max_len s (write_all rs ++ (write_record [] tag value ++ rest))
        ≡ err body_malformed
  unfolding for_each_record
  for_each_record_oversize max_len rs tag value rest s s' hr ht hl long small h =
      each_record_oversize max_len _ rs tag value rest s s' _ hr
        (omega (
          arith,
          length-append (write_all rs) (write_record [] tag value ++ rest),
          length-write_all rs,
        ))
        ht hl long (Ahead-new _ small) h
