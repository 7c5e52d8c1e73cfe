-- ===== src/Vault/Removal.antt =====
-- `remove` and `get` of crates/blindkey-core/src/vault.rs together.
use blindkey.Prelude.{
  ℕ, ◌≤◌, ◌<◌, ◌≡◌, ◌≢◌, ◌↔◌, refl, arith, true, Bool-cases, inl, inr, none, some, List, [], ◌∷◌,
  length, bytes_eq→eq,
}
use blindkey.Entry.{Entry}
use blindkey.Vault.{Vault}
use blindkey.Vault.Entries.{matches, find_entry, get, retain_others, remove}

some_ne {ℓ} : {A : Type ℓ} {a : A} → some a ≢ none
some_ne e = cc

module _ (to_lowercase : List ℕ → List ℕ) where
  find_entry-retain_others :
      (t : List ℕ) (es : List Entry)
      → find_entry to_lowercase (retain_others to_lowercase t es) t ≡ none
  unfolding find_entry retain_others
  find_entry-retain_others t [] = refl
  find_entry-retain_others t (e ∷ es) = elim (Bool-cases (matches to_lowercase t e)) [
    | inl same ↦ rw same (find_entry-retain_others t es)
    | inr other ↦ rw (other, find_entry, other) (find_entry-retain_others t es)
  ]

  find_entry-retain_rest :
      (t u : List ℕ) (es : List Entry)
      → u ≢ t
      → find_entry to_lowercase (retain_others to_lowercase t es) u ≡ find_entry to_lowercase es u
  unfolding find_entry retain_others
  find_entry-retain_rest t u [] ne = refl
  find_entry-retain_rest t u (e ∷ es) ne = elim (Bool-cases (matches to_lowercase t e)) [
    | inl same ↦
        let is : to_lowercase e.title ≡ t = bytes_eq→eq (to_lowercase e.title) t same in
        elim (Bool-cases (matches to_lowercase u e)) [
          | inl both ↦
              let is_u : to_lowercase e.title ≡ u = bytes_eq→eq (to_lowercase e.title) u both in
              let equal : u ≡ t = cc in absurd (ne equal)
          | inr rest ↦ rw (same, rest) (find_entry-retain_rest t u es ne)
        ]
    | inr other ↦ elim (Bool-cases (matches to_lowercase u e)) [
      | inl is_u ↦ rw (other, find_entry, is_u) refl
      | inr rest ↦ rw (other, find_entry, rest) (find_entry-retain_rest t u es ne)
    ]
  ]

  length-retain_others :
      (t : List ℕ) (es : List Entry) → length (retain_others to_lowercase t es) ≤ length es
  unfolding retain_others
  length-retain_others t [] = omega arith
  length-retain_others t (e ∷ es) = elim (Bool-cases (matches to_lowercase t e)) [
    | inl same ↦ rw same (omega (arith, length-retain_others t es))
    | inr other ↦ rw other (omega (arith, length-retain_others t es))
  ]

  found_shrinks :
      (t : List ℕ) (es : List Entry)
      → find_entry to_lowercase es t ≢ none
      → length (retain_others to_lowercase t es) < length es
  unfolding find_entry retain_others
  found_shrinks t [] found = absurd (found refl)
  found_shrinks t (e ∷ es) found = elim (Bool-cases (matches to_lowercase t e)) [
    | inl same ↦ rw same (omega (arith, length-retain_others t es))
    | inr other ↦
        let later : find_entry to_lowercase es t ≢ none = λ n. found (rw other n) in
        rw other (omega (arith, found_shrinks t es later))
  ]

  missing_keeps :
      (t : List ℕ) (es : List Entry)
      → find_entry to_lowercase es t ≡ none
      → retain_others to_lowercase t es ≡ es
  unfolding find_entry retain_others
  missing_keeps t [] missing = refl
  missing_keeps t (e ∷ es) missing = elim (Bool-cases (matches to_lowercase t e)) [
    | inl same ↦ let none_is : some e ≡ none = (rw same at missing) in absurd (some_ne none_is)
    | inr other ↦
        let later : find_entry to_lowercase es t ≡ none = (rw other at missing) in
        rw (other, missing_keeps t es later) refl
  ]

  -- After the entries of a title are removed, the title finds no entry; every title that differs from it
  -- in lower case finds what it found before; and the call says that it removed something exactly if
  -- the title found an entry.
  pub remove-get :
      (v : Vault) (title : List ℕ)
      → (get to_lowercase (remove to_lowercase v title).0 title ≡ none)
        × ((other : List ℕ)
            → to_lowercase other ≢ to_lowercase title
            → get to_lowercase (remove to_lowercase v title).0 other ≡ get to_lowercase v other)
        × (((remove to_lowercase v title).1 ≡ true) ↔ (get to_lowercase v title ≢ none))
  unfolding get remove
  remove-get v title =
      let t = to_lowercase title in
      let es = v.payload.entries in
      (
        find_entry-retain_others t es,
        λ other ne. find_entry-retain_rest t (to_lowercase other) es ne,
        (
          λ removed missing.
              let same : length (retain_others to_lowercase t es) ≡ length es =
                rw (missing_keeps t es missing) refl in
              ground (arith, same, removed),
          λ found.
              let fewer : length (retain_others to_lowercase t es) < length es =
                found_shrinks t es found in
              ground (arith, fewer),
        ),
      )
