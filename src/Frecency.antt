-- ===== src/Frecency.antt =====
-- crates/blindkey-core/src/frecency.rs: how often and how recently each entry was used. The
-- `BTreeMap` is an association list in the order of its keys; scores are counted in quarters.
pub mod Use
pub mod RoundTrip
mod Tests
use blindkey.Prelude.{
  ℕ, zero, suc, ◌+◌, ◌-◌, ◌*◌, ◌%◌, ◌^◌, min, Bool, true, false, not, Option, none, some, List, [],
  ◌∷◌, ◌++◌, length, take, drop, ltb, ◌==◌, ◌&&◌, ◌||◌, bytes_eq, if◌then◌else◌,
}
use blindkey.Result.{Result, ok, err, body_malformed}
use blindkey.Bytes.{u32_mod, le_bytes, from_le_bytes}

abbrev pub hour : ℕ
hour = 3600

abbrev pub day : ℕ
day = 86400

abbrev pub week : ℕ
week = 604800

pub record Usage : Type 0 where
  pub uses : ℕ
  pub last_used : ℕ

-- The factor in quarters: 4.0, 2.0, 0.5 and 0.25.
unfoldable pub recency_factor : ℕ → ℕ
recency_factor age_secs =
    if ltb age_secs hour
    then 16
    else if ltb age_secs day
    then 8
    else if ltb age_secs week
    then 2
    else 1

abbrev pub record_len : ℕ
record_len = 16 + 4 + 8

abbrev pub FrecencyStore : Type 0
FrecencyStore = List (List ℕ × Usage)

-- The order of byte arrays.
unfoldable pub key_lt : List ℕ → List ℕ → Bool
key_lt [] [] = false
key_lt [] (y ∷ ys) = true
key_lt (x ∷ xs) [] = false
key_lt (x ∷ xs) (y ∷ ys) = ltb x y || (x == y && key_lt xs ys)

unfoldable pub get : FrecencyStore → List ℕ → Option Usage
get [] id = none
get (e ∷ s) id = if bytes_eq e.0 id then some e.1 else get s id

-- `BTreeMap::insert`
unfoldable pub insert : FrecencyStore → List ℕ → Usage → FrecencyStore
insert [] id u = (id, u) ∷ []
insert (e ∷ s) id u =
    let rest = insert s id u in
    if bytes_eq e.0 id then (id, u) ∷ s else if key_lt id e.0 then (id, u) ∷ e ∷ s else e ∷ rest

unfoldable pub is_empty : FrecencyStore → Bool
is_empty [] = true
is_empty (e ∷ s) = false

-- The entry of `id`, made with no uses if it is missing, is bumped; the sum stops at 2^32 - 1.
unfoldable pub record_use : FrecencyStore → List ℕ → ℕ → FrecencyStore
record_use s id now =
    let uses : ℕ = elim (get s id) [ none ↦ 0 | some u ↦ u.uses ] in
    insert s id (record { uses = min (uses + 1) (u32_mod - 1); last_used = now })

unfoldable pub forget : FrecencyStore → List ℕ → FrecencyStore
forget [] id = []
forget (e ∷ s) id = let rest = forget s id in if bytes_eq e.0 id then s else e ∷ rest

unfoldable pub score : FrecencyStore → List ℕ → ℕ → ℕ
score s id now = elim (get s id) [ none ↦ 0 | some u ↦ u.uses * recency_factor (now - u.last_used) ]

unfoldable pub serialize_entry : List ℕ × Usage → List ℕ
serialize_entry e = e.0 ++ (le_bytes 4 e.1.uses ++ le_bytes 8 e.1.last_used)

unfoldable pub serialize : FrecencyStore → List ℕ
serialize [] = []
serialize (e ∷ s) = serialize_entry e ++ serialize s

-- The loop of `parse`, on fuel; a round takes a record.
unfoldable pub parse_chunks : ℕ → List ℕ → FrecencyStore → FrecencyStore
parse_chunks zero bytes map = map
parse_chunks (suc fuel) bytes map =
    if ltb (length bytes) record_len
    then map
    else (let chunk = take record_len bytes in
        let usage : Usage = record {
          uses = from_le_bytes (take 4 (drop 16 chunk));
          last_used = from_le_bytes (take 8 (drop 20 chunk));
        } in
        parse_chunks fuel (drop record_len bytes) (insert map (take 16 chunk) usage))

unfoldable pub parse : List ℕ → Result FrecencyStore
parse bytes =
    if not (length bytes % record_len == 0)
    then err body_malformed
    else ok (parse_chunks (suc (length bytes)) bytes [])
