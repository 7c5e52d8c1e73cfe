-- ===== src/Volume/Merkle.antt =====
-- crates/blindkey-core/src/volume/merkle.rs: the keyed tree over the tags of a volume's blocks.
-- An index out of range, at which the source would panic, is `none`.
pub mod Total
pub mod Binding
mod Tests
use blindkey.Prelude.{
  ℕ, zero, suc, ◌+◌, ◌-◌, ◌*◌, max, Option, none, some, List, [], ◌∷◌, ◌++◌, length, ltb,
  if◌then◌else◌,
}
use blindkey.Bytes.{le_bytes}
use blindkey.Primitives.{Hashes}

-- The first loop of `root`: the width is doubled until the leaves fit.
unfoldable pub widen : ℕ → ℕ → ℕ → ℕ
widen zero width n = width
widen (suc fuel) width n =
    let rest = widen fuel (2 * width) n in if ltb width (max n 1) then rest else width

-- `n` rounds are enough, since the width grows in each.
unfoldable pub width_for : ℕ → ℕ
width_for n = widen n 1 n

module _ (hashes : Hashes) (mac_key : List ℕ) where
  -- The parts of the message go into the mac one after the other.
  abbrev pub leaf_message : ℕ → ℕ → List ℕ → List ℕ
  leaf_message block_id version tag = le_bytes 8 block_id ++ (le_bytes 8 version ++ tag)

  unfoldable pub leaf : ℕ → ℕ → List ℕ → List ℕ
  leaf block_id version tag = hashes.hmac_sha256 mac_key (leaf_message block_id version tag)

  unfoldable pub empty_leaf : ℕ → List ℕ
  empty_leaf idx = hashes.hmac_sha256 mac_key (le_bytes 8 idx ++ 0 ∷ [])

  unfoldable pub node : List ℕ → List ℕ → List ℕ
  node left right = hashes.hmac_sha256 mac_key (left ++ right)

  unfoldable pub leaves : ℕ → ℕ → List (List ℕ) → List (List ℕ)
  leaves version i [] = []
  leaves version i (t ∷ tags) = leaf i version t ∷ leaves version (suc i) tags

  -- The empty leaves `idx`, `idx + 1`, ..., in the number given.
  unfoldable pub empty_leaves : ℕ → ℕ → List (List ℕ)
  empty_leaves zero idx = []
  empty_leaves (suc count) idx = empty_leaf idx ∷ empty_leaves count (suc idx)

  -- The body of the last loop; a pair of one is out of range at `pair[1]`.
  unfoldable pub next_level : List (List ℕ) → Option (List (List ℕ))
  next_level [] = some []
  next_level (x ∷ []) = none
  next_level (x ∷ y ∷ level) = elim (next_level level) [
    | none ↦ none
    | some next ↦ some (node x y ∷ next)
  ]

  first : List (List ℕ) → Option (List ℕ)
  first [] = none
  first (x ∷ level) = some x

  -- The last loop, on fuel; a round makes the level shorter.
  unfoldable pub climb : ℕ → List (List ℕ) → Option (List ℕ)
  unfolding first
  climb zero level = none
  climb (suc fuel) level =
      if ltb 1 (length level)
      then elim (next_level level) [ none ↦ none | some next ↦ climb fuel next ]
      else first level

  unfoldable pub root : ℕ → List (List ℕ) → Option (List ℕ)
  root version tags =
      let n = length tags in
      let width = width_for n in
      let level = leaves version 0 tags ++ empty_leaves (width - n) n in
      climb (suc (length level)) level
