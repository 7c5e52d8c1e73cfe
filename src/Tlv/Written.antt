-- ===== src/Tlv/Written.antt =====
-- `write_record` of crates/blindkey-core/src/format/tlv.rs, called several times on one output, and
-- the loop over its records.
use blindkey.Prelude.{
  ℕ, ◌<◌, ◌≡◌, refl, sym, ap, ◌∙◌, Bool, true, false, List, [], ◌∷◌, ◌++◌, length, All, All-append,
  append-nil, inl,
}
use mathlib.Core.Path.{subst}
use blindkey.Result.{Result, ok}
use blindkey.Bytes.{u64_mod}
use blindkey.Tlv.{Record, write_record}
use blindkey.Tlv.Loop.{
  write_all, write_record-append, write_all-append, IsRecord, run_records, run_records-append,
  unless_ended, for_each_record, for_each_record-write_all,
}

module _ {State : Type 0} (step : State → ℕ → List ℕ → Result (State × Bool)) (max_len : ℕ)
    (start : State) where
  pub record Written (out : List ℕ) (s : State) : Type 0 where
    pub recs : List Record
    pub fits : All (IsRecord max_len) recs
    pub bytes : out ≡ write_all recs
    pub runs : run_records step start recs ≡ ok (s, false)

  pub nothing-Written : Written [] start
  unfolding write_all run_records
  nothing-Written = record { recs = []; fits = tt; bytes = refl; runs = refl }

  run_one :
      (s s' : State) (tag : ℕ) (value : List ℕ) (broke : Bool)
      → step s tag value ≡ ok (s', broke)
      → run_records step s ((tag, value) ∷ []) ≡ ok (s', broke)
  unfolding run_records unless_ended
  run_one s s' tag value true takes = rw takes refl
  run_one s s' tag value false takes = rw takes refl

  write_all_last :
      (out : List ℕ) (rs : List Record) (tag : ℕ) (value : List ℕ)
      → out ≡ write_all rs
      → write_record out tag value ≡ write_all (rs ++ ((tag, value) ∷ []))
  unfolding write_all
  write_all_last out rs tag value e =
      write_record-append out tag value
      ∙ ap (λ o. o ++ write_record [] tag value) e
      ∙ ap (λ o. write_all rs ++ o) (sym (append-nil (write_record [] tag value)))
      ∙ sym (write_all-append rs ((tag, value) ∷ []))

  pub Written-write_record :
      {out : List ℕ} {s s' : State} (tag : ℕ) (value : List ℕ)
      → IsRecord max_len (tag, value)
      → step s tag value ≡ ok (s', false)
      → Written out s
      → Written (write_record out tag value) s'
  Written-write_record {out} {s} {s'} tag value hr takes w = record {
    recs = w.recs ++ ((tag, value) ∷ []);
    fits = All-append (IsRecord max_len) w.recs ((tag, value) ∷ []) w.fits (hr, tt);
    bytes = write_all_last out w.recs tag value w.bytes;
    runs =
        run_records-append step start s w.recs ((tag, value) ∷ []) w.runs
        ∙ run_one s s' tag value false takes;
  }

  -- A record that breaks the loop ends it, whatever follows.
  pub Written-end :
      {out : List ℕ} {s s' : State} (tag : ℕ) (value tail : List ℕ)
      → IsRecord max_len (tag, value)
      → step s tag value ≡ ok (s', true)
      → Written out s
      → length (write_record out tag value ++ tail) < u64_mod
      → for_each_record step max_len start (write_record out tag value ++ tail) ≡ ok s'
  Written-end {out} {s} {s'} tag value tail hr takes w small =
      let rs : List Record = w.recs ++ ((tag, value) ∷ []) in
      let bytes : write_record out tag value ≡ write_all rs =
        write_all_last out w.recs tag value w.bytes in
      let runs : run_records step start rs ≡ ok (s', true) =
        run_records-append step start s w.recs ((tag, value) ∷ []) w.runs
        ∙ run_one s s' tag value true takes in
      ap (λ b. for_each_record step max_len start (b ++ tail)) bytes
      ∙ for_each_record-write_all step max_len rs tail start s' true
          (All-append (IsRecord max_len) w.recs ((tag, value) ∷ []) w.fits (hr, tt))
          (subst (λ b. length (b ++ tail) < u64_mod) bytes small) (inl refl) runs
