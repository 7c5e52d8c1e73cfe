-- ===== src/Frecency/Use.antt =====
-- `record`, `get` and `score` of crates/blindkey-core/src/frecency.rs together.
use blindkey.Prelude.{
  ℕ, ◌+◌, ◌-◌, ◌*◌, ◌≡◌, ◌≢◌, refl, arith, min, false, Bool-cases, inl, inr, none, some, List, [],
  ◌∷◌, bytes_eq, bytes_eq_refl, bytes_eq→eq,
}
use blindkey.Bytes.{u32_mod}
use blindkey.Frecency.{Usage, FrecencyStore, key_lt, get, insert, record_use, score, recency_factor}

get-insert_same : (s : FrecencyStore) (id : List ℕ) (u : Usage) → get (insert s id u) id ≡ some u
unfolding get insert
get-insert_same [] id u = rw (bytes_eq_refl id) refl
get-insert_same (e ∷ s) id u = elim (Bool-cases (bytes_eq e.0 id)) [
  | inl same ↦ rw (same, get, bytes_eq_refl id) refl
  | inr other ↦ elim (Bool-cases (key_lt id e.0)) [
    | inl before ↦ rw (other, before, get, bytes_eq_refl id) refl
    | inr after ↦ rw (other, after, get, other) (get-insert_same s id u)
  ]
]

differ : (id other : List ℕ) → id ≢ other → bytes_eq id other ≡ false
differ id other ne = elim (Bool-cases (bytes_eq id other)) [
  | inl same ↦ absurd (ne (bytes_eq→eq id other same))
  | inr apart ↦ apart
]

get-insert_other :
    (s : FrecencyStore) (id other : List ℕ) (u : Usage)
    → id ≢ other
    → get (insert s id u) other ≡ get s other
unfolding get insert
get-insert_other [] id other u ne = rw (differ id other ne) refl
get-insert_other (e ∷ s) id other u ne = elim (Bool-cases (bytes_eq e.0 id)) [
  | inl same ↦
      let key : bytes_eq e.0 other ≡ false = rw (bytes_eq→eq e.0 id same) (differ id other ne) in
      rw (same, get, key, differ id other ne) refl
  | inr apart ↦ elim (Bool-cases (key_lt id e.0)) [
    | inl before ↦ rw (apart, before, get, differ id other ne) refl
    | inr after ↦ rw (apart, after, get, get-insert_other s id other u ne) refl
  ]
]

-- The uses of an entry, none if it is unseen.
abbrev pub uses_of : FrecencyStore → List ℕ → ℕ
uses_of s id = elim (get s id) [ none ↦ 0 | some u ↦ u.uses ]

-- After a use of an entry at a time, its count is one more, up to 2^32 - 1, its time is this time, its score at
-- this time is four times its count, in quarters sixteen times, and every other entry is as it was.
pub get-record_use :
    (s : FrecencyStore) (id other : List ℕ) (now : ℕ)
    → id ≢ other
    → (get (record_use s id now) id
        ≡ some (record { uses = min (uses_of s id + 1) (u32_mod - 1); last_used = now }))
      × (score (record_use s id now) id now ≡ 16 * min (uses_of s id + 1) (u32_mod - 1))
      × (get (record_use s id now) other ≡ get s other)
unfolding record_use score recency_factor
get-record_use s id other now ne =
    let u : Usage = record { uses = min (uses_of s id + 1) (u32_mod - 1); last_used = now } in
    let found : get (insert s id u) id ≡ some u = get-insert_same s id u in
    let age : now - now ≡ 0 = omega arith in
    (found, rw (score, found, age) (omega arith), get-insert_other s id other u ne)
