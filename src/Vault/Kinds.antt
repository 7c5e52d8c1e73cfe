-- ===== src/Vault/Kinds.antt =====
-- The kinds of the stanzas in a list that an operation of crates/blindkey-core/src/vault.rs
-- changes.
use blindkey.Prelude.{
  ℕ, ◌≡◌, ◌≢◌, refl, sym, ap, ◌∙◌, arith, true, false, Bool-cases, inl, inr, some, List, [], ◌∷◌,
  ◌++◌, ◌==◌,
}
use blindkey.Stanza.{Stanza}
use blindkey.Vault.{find_stanza, has_stanza}
use blindkey.Vault.Stanzas.{replace_first, retain_others}

pub has_stanza-append_left :
    (k : ℕ) (ss ts : List Stanza) → has_stanza k ss ≡ true → has_stanza k (ss ++ ts) ≡ true
unfolding has_stanza
has_stanza-append_left k [] ts h = cc
has_stanza-append_left k (s ∷ ss) ts h = elim (Bool-cases (s.stanza_type == k)) [
  | inl same ↦ rw same refl
  | inr other ↦
      let later : has_stanza k ss ≡ true = (rw other at h) in
      rw other (has_stanza-append_left k ss ts later)
]

-- A stanza of another kind that takes the place of one leaves the rest.
pub has_stanza-replace_other :
    (k j : ℕ) (new : Stanza) (ss : List Stanza)
    → k ≢ j
    → has_stanza k ss ≡ true
    → has_stanza k (replace_first j new ss) ≡ true
unfolding has_stanza replace_first
has_stanza-replace_other k j new [] ne h = cc
has_stanza-replace_other k j new (s ∷ ss) ne h = elim (Bool-cases (s.stanza_type == j)) [
  | inl same ↦
      let not_k : (s.stanza_type == k) ≡ false = ground (arith, ne) in
      let later : has_stanza k ss ≡ true = (rw not_k at h) in
      elim (Bool-cases (new.stanza_type == k)) [
        | inl is ↦ rw (same, has_stanza, is) refl
        | inr isnt ↦ rw (same, has_stanza, isnt) later
      ]
  | inr other ↦ elim (Bool-cases (s.stanza_type == k)) [
    | inl is ↦ rw (other, has_stanza, is) refl
    | inr isnt ↦
        let later : has_stanza k ss ≡ true = (rw isnt at h) in
        rw (other, has_stanza, isnt) (has_stanza-replace_other k j new ss ne later)
  ]
]

pub has_stanza-replace_same :
    (k : ℕ) (new : Stanza) (ss : List Stanza)
    → new.stanza_type ≡ k
    → has_stanza k ss ≡ true
    → has_stanza k (replace_first k new ss) ≡ true
unfolding has_stanza replace_first
has_stanza-replace_same k new [] e h = cc
has_stanza-replace_same k new (s ∷ ss) e h = elim (Bool-cases (s.stanza_type == k)) [
  | inl same ↦
      let is : (new.stanza_type == k) ≡ true = ground arith in rw (same, has_stanza, is) refl
  | inr other ↦
      let later : has_stanza k ss ≡ true = (rw other at h) in
      rw (other, has_stanza, other) (has_stanza-replace_same k new ss e later)
]

pub has_stanza-retain_others :
    (k j : ℕ) (ss : List Stanza)
    → k ≢ j
    → has_stanza k ss ≡ true
    → has_stanza k (retain_others j ss) ≡ true
unfolding has_stanza retain_others
has_stanza-retain_others k j [] ne h = cc
has_stanza-retain_others k j (s ∷ ss) ne h = elim (Bool-cases (s.stanza_type == j)) [
  | inl same ↦
      let not_k : (s.stanza_type == k) ≡ false = ground (arith, ne) in
      let later : has_stanza k ss ≡ true = (rw not_k at h) in
      rw same (has_stanza-retain_others k j ss ne later)
  | inr other ↦ elim (Bool-cases (s.stanza_type == k)) [
    | inl is ↦ rw (other, has_stanza, is) refl
    | inr isnt ↦
        let later : has_stanza k ss ≡ true = (rw isnt at h) in
        rw (other, has_stanza, isnt) (has_stanza-retain_others k j ss ne later)
  ]
]

pub find_stanza-type :
    (k : ℕ) (ss : List Stanza) (s : Stanza) → find_stanza k ss ≡ some s → s.stanza_type ≡ k
unfolding find_stanza
find_stanza-type k [] s h = cc
find_stanza-type k (t ∷ ss) s h = elim (Bool-cases (t.stanza_type == k)) [
  | inl same ↦
      let is : some t ≡ some s = (rw same at h) in
      let t_is : t ≡ s = cc in
      let kind : t.stanza_type ≡ k = ground arith in ap (λ x. x.stanza_type) (sym t_is) ∙ kind
  | inr other ↦
      let later : find_stanza k ss ≡ some s = (rw other at h) in find_stanza-type k ss s later
]
