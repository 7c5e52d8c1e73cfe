-- ===== src/FileArchive/Complete.antt =====
-- `parse_all` of crates/blindkey-core/src/format/file_archive.rs: the files that it returns.
use blindkey.Prelude.{
  ℕ, zero, suc, ◌+◌, ◌≡◌, arith, Bool, true, false, Bool-cases, inl, inr, Option, none, some, List,
  [], ◌∷◌, ◌++◌, length, ltb, ◌==◌, All, All-append,
}
use blindkey.Result.{ok, err, body_malformed, ◌>>=◌, >>=-eq-ok}
use blindkey.Cursor.{Cursor, new}
use blindkey.Tlv.{read_record}
use blindkey.FileArchive.Meta.{decode_hdr}
use blindkey.FileArchive.{
  ArchivedFile, Progress, close, start_file, add_part, take_record, finished, parse_records,
  parse_all, max_part_len, tag_end, tag_file_hdr, tag_file_part,
}

-- The body has the declared size.
abbrev pub IsComplete : ArchivedFile → Type 0
IsComplete f = length f.1 ≡ f.0.size

abbrev AllComplete : Progress → Type 0
AllComplete s = All IsComplete s.out

close-IsComplete :
    (c : Option ArchivedFile) (out : List ArchivedFile) (s : Progress)
    → All IsComplete out
    → close (record { current = c; out = out }) ≡ ok s
    → AllComplete s
unfolding close
close-IsComplete none out s h e =
    let t : record { current = none; out = out } ≡ s = cc in rw (← t) h
close-IsComplete (some f) out s h e = elim (Bool-cases (length f.1 == f.0.size)) [
  | inr other ↦ let t : err body_malformed ≡ ok s = (rw other at e) in cc
  | inl same ↦
      let t : ok (record { current = none; out = out ++ f ∷ [] }) ≡ ok s = (rw same at e) in
      let next : record { current = none; out = out ++ f ∷ [] } ≡ s = cc in
      let size : IsComplete f = ground (arith, same) in
      rw (← next) (All-append IsComplete out (f ∷ []) h (size, tt))
]

add_part-IsComplete :
    (c : Option ArchivedFile) (out : List ArchivedFile) (value : List ℕ) (s : Progress)
    → All IsComplete out
    → add_part (record { current = c; out = out }) value ≡ ok s
    → AllComplete s
unfolding add_part
add_part-IsComplete none out value s h e = cc
add_part-IsComplete (some f) out value s h e =
    elim (Bool-cases (ltb f.0.size (length f.1 + length value))) [
      | inl over ↦ let t : err body_malformed ≡ ok s = (rw over at e) in cc
      | inr fits ↦
          let s' : Progress = record { current = some (f.0, f.1 ++ value); out = out } in
          let t : ok s' ≡ ok s = (rw fits at e) in let next : s' ≡ s = cc in rw (← next) h
    ]

start_file-IsComplete :
    (s : Progress) (value : List ℕ) (s' : Progress)
    → AllComplete s
    → start_file s value ≡ ok s'
    → AllComplete s'
unfolding start_file
start_file-IsComplete s value s' h e =
    let (s₁, e₁, e₂) = >>=-eq-ok (close s) _ e in
    let (meta, e₃, e₄) = >>=-eq-ok (decode_hdr value) _ e₂ in
    let next : record s₁ { current = some (meta, []) } ≡ s' = cc in
    rw (← next) (close-IsComplete s.current s.out s₁ h e₁)

take_record-IsComplete :
    (s : Progress) (tag : ℕ) (value : List ℕ) (s' : Progress) (at_end : Bool)
    → AllComplete s
    → take_record s tag value ≡ ok (s', at_end)
    → AllComplete s'
unfolding take_record
take_record-IsComplete s tag value s' at_end h e = elim (Bool-cases (tag == tag_end)) [
  | inl is_end ↦
      let (s₁, e₁, e₂) = >>=-eq-ok (close s) _ (rw is_end at e) in
      let next : s₁ ≡ s' = cc in rw (← next) (close-IsComplete s.current s.out s₁ h e₁)
  | inr not_end ↦ elim (Bool-cases (tag == tag_file_hdr)) [
    | inl is_hdr ↦
        let (s₁, e₁, e₂) = >>=-eq-ok (start_file s value) _ (rw (not_end, is_hdr) at e) in
        let next : s₁ ≡ s' = cc in rw (← next) (start_file-IsComplete s value s₁ h e₁)
    | inr not_hdr ↦ elim (Bool-cases (tag == tag_file_part)) [
      | inl is_part ↦
          let (s₁, e₁, e₂) = >>=-eq-ok (add_part s value) _ (rw (not_end, not_hdr, is_part) at e) in
          let next : s₁ ≡ s' = cc in rw (← next) (add_part-IsComplete s.current s.out value s₁ h e₁)
      | inr unknown ↦
          let t : err body_malformed ≡ ok (s', at_end) = (rw (not_end, not_hdr, unknown) at e) in cc
    ]
  ]
]

finished-IsComplete :
    (c : Option ArchivedFile) (out files : List ArchivedFile)
    → All IsComplete out
    → finished (record { current = c; out = out }) ≡ ok files
    → All IsComplete files
unfolding finished
finished-IsComplete none out files h e = let t : out ≡ files = cc in rw (← t) h
finished-IsComplete (some f) out files h e = cc

-- What a round of the loop does with the record that was read.
round-IsComplete :
    (fuel : ℕ) (s : Progress) (cur : Cursor) (found : Option (ℕ × List ℕ))
    (files : List ArchivedFile)
    → ((s' : Progress)
        → AllComplete s'
        → parse_records fuel s' cur ≡ ok files
        → All IsComplete files)
    → AllComplete s
    → elim found [
      | none ↦ finished s
      | some (tag, value) ↦ take_record s tag value >>= λ (s', at_end). elim at_end [
        | true ↦ finished s'
        | false ↦ parse_records fuel s' cur
      ]
    ]
      ≡ ok files
    → All IsComplete files
round-IsComplete fuel s cur none files rest h e = finished-IsComplete s.current s.out files h e
round-IsComplete fuel s cur (some (tag, value)) files rest h e =
    let (next, e₁, e₂) = >>=-eq-ok (take_record s tag value) _ e in
    after next.0 next.1 (take_record-IsComplete s tag value next.0 next.1 h e₁) e₂
  where
    after :
        (s' : Progress) (at_end : Bool)
        → AllComplete s'
        → elim at_end [ true ↦ finished s' | false ↦ parse_records fuel s' cur ] ≡ ok files
        → All IsComplete files
    after s' true h' e' = finished-IsComplete s'.current s'.out files h' e'
    after s' false h' e' = rest s' h' e'

parse_records-IsComplete :
    (fuel : ℕ) (s : Progress) (cur : Cursor) (files : List ArchivedFile)
    → AllComplete s
    → parse_records fuel s cur ≡ ok files
    → All IsComplete files
unfolding parse_records
parse_records-IsComplete zero s cur files h e = cc
parse_records-IsComplete (suc fuel) s cur files h e =
    let (step, e₁, e₂) = >>=-eq-ok (read_record (max_part_len + 128) cur) _ e in
    round-IsComplete fuel s step.1 step.0 files
      (λ s' h' e'. parse_records-IsComplete fuel s' step.1 files h' e') h e₂

-- Every file that `parse_all` returns has a body of exactly the size that its header declares.
pub parse_all_sound :
    (bytes : List ℕ) (files : List ArchivedFile) → parse_all bytes ≡ ok files → All IsComplete files
unfolding parse_all
parse_all_sound bytes files e =
    parse_records-IsComplete (suc (length bytes)) (record { current = none; out = [] }) (new bytes)
      files tt e
