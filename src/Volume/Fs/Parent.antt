-- ===== src/Volume/Fs/Parent.antt =====
-- `parent_of` and `base_of` of crates/blindkey-core/src/volume/fs.rs together.
use blindkey.Prelude.{
  ℕ, suc, ◌+◌, ◌≡◌, ◌⊎◌, refl, ap, arith, Bool-cases, inl, inr, Option, none, some, Option-cases,
  List, [], ◌∷◌, ◌++◌, take, drop, ◌==◌,
}
use blindkey.Volume.Fs.{slash, contains, rfind, parent_of, base_of}
use blindkey.Volume.Fs.Names.{Lacks}

rfind-none : (c : ℕ) (path : List ℕ) → rfind c path ≡ none → Lacks c path
unfolding rfind contains
rfind-none c [] e = refl
rfind-none c (b ∷ bs) e = elim (Option-cases (rfind c bs)) [
  | inr (i, found) ↦ let t : some (suc i) ≡ none = (rw found at e) in cc
  | inl absent ↦ elim (Bool-cases (b == c)) [
    | inl here ↦ let t : ◌≡◌ {A = Option ℕ} (some 0) none = (rw (absent, here) at e) in cc
    | inr other ↦ rw (other, rfind-none c bs absent) refl
  ]
]

-- The path around the last `c`, at position `i`.
abbrev Around : ℕ → List ℕ → ℕ → Type 0
Around c path i = (path ≡ take i path ++ c ∷ drop (i + 1) path) × Lacks c (drop (i + 1) path)

rfind-some : (c : ℕ) (path : List ℕ) (i : ℕ) → rfind c path ≡ some i → Around c path i
unfolding rfind
rfind-some c [] i e = cc
rfind-some c (b ∷ bs) i e = elim (Option-cases (rfind c bs)) [
  | inr (j, found) ↦
      let t : some (suc j) ≡ some i = (rw found at e) in
      let next : suc j ≡ i = cc in
      let (around, clean) = rfind-some c bs j found in
      let up : suc j + 1 ≡ suc (j + 1) = omega arith in
      rw (← next, up) (ap (λ r. b ∷ r) around, clean)
  | inl absent ↦ elim (Bool-cases (b == c)) [
    | inr other ↦ let t : none ≡ some i = (rw (absent, other) at e) in cc
    | inl here ↦
        let t : some 0 ≡ some i = (rw (absent, here) at e) in
        let start : 0 ≡ i = cc in
        let same : b ≡ c = ground (arith, here) in
        rw (← start) (ap (λ r. r ∷ bs) same, rfind-none c bs absent)
  ]
]

-- A path with a slash is its parent, a slash and its base name; the base name of any path has no slash, and a
-- path without one is its own base name, with the root as its parent.
pub parent_of-base_of :
    (path : List ℕ)
    → Lacks slash (base_of path)
      × ((path ≡ parent_of path ++ slash ∷ base_of path)
          ⊎ ((path ≡ base_of path) × (parent_of path ≡ []) × Lacks slash path))
unfolding parent_of base_of
parent_of-base_of path = elim (Option-cases (rfind slash path)) [
  | inl absent ↦
      let clean = rfind-none slash path absent in
      rw (parent_of, base_of, absent) (clean, inr (refl, refl, clean))
  | inr (i, found) ↦
      let (around, clean) = rfind-some slash path i found in
      rw (parent_of, base_of, found) (clean, inl around)
]
