-- ===== src/Agent/Store/Saves.antt =====
-- The file of the handles of crates/blindkey-agent/src/store.rs after a write.
use blindkey.Prelude.{
  ℕ, ◌≡◌, refl, sym, ◌∙◌, Bool-cases, ◌⊎◌, inl, inr, Option-cases, none, some, List,
}
use mathlib.Core.Path.{subst}
use blindkey.Files.{File, Outcomes, no_failure}
use blindkey.Agent.Text.{is_blank}
use blindkey.Agent.Handle.{HandleStore}
use blindkey.Agent.Store.{Json, failed, read_failed, done, read_json, write_json, load, save}

-- The handles a program that can read the file finds there.
abbrev pub Stored : Json → File → HandleStore → Type 0
Stored json file store = read_json json no_failure file ≡ done store

pub load-Stored :
    (json : Json) (outcomes : Outcomes) (file : File) (store : HandleStore)
    → load json outcomes file ≡ done store
    → Stored json file store
unfolding read_json
load-Stored json outcomes none store h = h
load-Stored json outcomes (some text) store h = elim (Bool-cases outcomes.read_allowed) [
  | inl allowed ↦ simp allowed at h
  | inr denied ↦ let t : failed read_failed ≡ done store = (simp denied at h) in cc
]

-- A write leaves the file as it was or puts the printed handles in it.
pub write_json-cases :
    (json : Json) (outcomes : Outcomes) (file : File) (store : HandleStore)
    → ((write_json json outcomes file store).0 ≡ file)
      ⊎ ((body : List ℕ) × (json.to_string_pretty store ≡ some body)
          × ((write_json json outcomes file store).0 ≡ some body))
unfolding write_json
write_json-cases json outcomes file store = elim (Bool-cases outcomes.dir_made) [
  | inr no_dir ↦ inl (simp no_dir refl)
  | inl dir ↦ elim (Option-cases (json.to_string_pretty store)) [
    | inl unprinted ↦ inl (simp (dir, unprinted) refl)
    | inr (body, printed) ↦ elim (Bool-cases outcomes.temporary_written) [
      | inr unwritten ↦ inl (simp (dir, printed, unwritten) refl)
      | inl written ↦ elim (Bool-cases outcomes.renamed) [
        | inr kept ↦ inl (simp (dir, printed, written, kept) refl)
        | inl renamed ↦ inr (body, printed, simp (dir, printed, written, renamed) refl)
      ]
    ]
  ]
]

-- What is printed is not blank, so it is read back.
pub printed-Stored :
    (json : Json) (store : HandleStore) (body : List ℕ)
    → json.to_string_pretty store ≡ some body
    → Stored json (some body) store
unfolding read_json
printed-Stored json store body printed =
    let reads : json.from_str body ≡ some store =
      json.from_str-to_string_pretty store body printed in
    elim (Bool-cases (is_blank body)) [
      | inl blank ↦
          let none_read : none ≡ some store = sym (json.from_str-is_blank body blank) ∙ reads in cc
      | inr full ↦ simp (full, reads) refl
    ]

pub saved-Stored :
    (json : Json) (outcomes : Outcomes) (file : File) (old new : HandleStore)
    → Stored json file old
    → Stored json (save json outcomes file new).0 old
      ⊎ Stored json (save json outcomes file new).0 new
saved-Stored json outcomes file old new h = elim (write_json-cases json outcomes file new) [
  | inl kept ↦ inl (subst (λ f. Stored json f old) (sym kept) h)
  | inr (body, printed, written) ↦
      inr (subst (λ f. Stored json f new) (sym written) (printed-Stored json new body printed))
]

pub done_inj : {x y : HandleStore} → done x ≡ done y → x ≡ y
done_inj h = cc

pub one_store :
    (json : Json) (outcomes : Outcomes) (file : File) (store loaded : HandleStore)
    → Stored json file store
    → load json outcomes file ≡ done loaded
    → loaded ≡ store
one_store json outcomes file store loaded h loads =
    done_inj (sym (load-Stored json outcomes file loaded loads) ∙ h)
