-- ===== src/Volume/Merkle/Total.antt =====
-- The levels of the tree of crates/blindkey-core/src/volume/merkle.rs and their widths.
use blindkey.Prelude.{
  ℕ, zero, suc, ◌+◌, ◌-◌, ◌*◌, ◌^◌, ◌≤◌, ◌<◌, ◌≡◌, refl, ap, ◌∙◌, arith, max, true, false,
  Bool-cases, inl, inr, some, List, [], ◌∷◌, ◌++◌, length, length-append, ltb, All, All-append,
}
use blindkey.Primitives.{Hashes}
use blindkey.Volume.Merkle.{
  leaf, empty_leaf, node, widen, width_for, leaves, empty_leaves, next_level, first, climb, root,
}

abbrev pub IsMac : List ℕ → Type 0
IsMac m = length m ≡ 32

exponent_lt : (k : ℕ) → k < 2 ^ k
exponent_lt zero = omega arith
exponent_lt (suc k) = omega (arith, exponent_lt k)

-- From 2^k on, doubling ends at a power of two that is at least `n`, if the fuel makes up for what is
-- missing.
widen-power :
    (fuel k n : ℕ) → n ≤ 2 ^ k + fuel → (m : ℕ) × (widen fuel (2 ^ k) n ≡ 2 ^ m) × (n ≤ 2 ^ m)
unfolding widen
widen-power zero k n h = (k, refl, omega arith)
widen-power (suc fuel) k n h =
    let double : 2 * 2 ^ k ≡ 2 ^ suc k = omega arith in
    let pos : 0 < 2 ^ k = omega (arith, exponent_lt k) in
    elim (Bool-cases (ltb (2 ^ k) (max n 1))) [
      | inl small ↦
          let (m, e, fits) = widen-power fuel (suc k) n (omega (arith, double, pos)) in
          (m, rw (small, double) e, fits)
      | inr wide ↦ (k, rw wide refl, ground (arith, pos))
    ]

module _ (hashes : Hashes) (mac_key : List ℕ) where
  pub length-leaves :
      (version i : ℕ) (tags : List (List ℕ))
      → length (leaves hashes mac_key version i tags) ≡ length tags
  unfolding leaves
  length-leaves version i [] = refl
  length-leaves version i (t ∷ tags) = ap suc (length-leaves version (suc i) tags)

  pub length-empty_leaves : (count idx : ℕ) → length (empty_leaves hashes mac_key count idx) ≡ count
  unfolding empty_leaves
  length-empty_leaves zero idx = refl
  length-empty_leaves (suc count) idx = ap suc (length-empty_leaves count (suc idx))

  leaves-IsMac :
      (version i : ℕ) (tags : List (List ℕ)) → All IsMac (leaves hashes mac_key version i tags)
  unfolding leaves leaf
  leaves-IsMac version i [] = tt
  leaves-IsMac version i (t ∷ tags) =
      (hashes.length-hmac_sha256 mac_key _, leaves-IsMac version (suc i) tags)

  empty_leaves-IsMac : (count idx : ℕ) → All IsMac (empty_leaves hashes mac_key count idx)
  unfolding empty_leaves empty_leaf
  empty_leaves-IsMac zero idx = tt
  empty_leaves-IsMac (suc count) idx =
      (hashes.length-hmac_sha256 mac_key _, empty_leaves-IsMac count (suc idx))

  -- The first level: as wide as a power of two, and all macs.
  pub record IsLevel (k : ℕ) (level : List (List ℕ)) : Type 0 where
    pub width : length level ≡ 2 ^ k
    pub macs : All IsMac level

  abbrev pub first_level : ℕ → List (List ℕ) → List (List ℕ)
  first_level version tags =
      leaves hashes mac_key version 0 tags
      ++ empty_leaves hashes mac_key (width_for (length tags) - length tags) (length tags)

  pub length-first_level :
      (version : ℕ) (tags : List (List ℕ))
      → length (first_level version tags) ≡ length tags + (width_for (length tags) - length tags)
  length-first_level version tags =
      let n : ℕ = length tags in
      omega (
        arith,
        length-append (leaves hashes mac_key version 0 tags)
            (empty_leaves hashes mac_key (width_for n - n) n),
        length-leaves version 0 tags,
        length-empty_leaves (width_for n - n) n,
      )

  pub first_level-IsLevel :
      (version : ℕ) (tags : List (List ℕ)) → (k : ℕ) × IsLevel k (first_level version tags)
  unfolding width_for
  first_level-IsLevel version tags =
      let n : ℕ = length tags in
      let (k, e, fits) = widen-power n 0 n (omega arith) in
      let front : List (List ℕ) = leaves hashes mac_key version 0 tags in
      let back : List (List ℕ) = empty_leaves hashes mac_key (widen n 1 n - n) n in
      (
        k,
        record {
          width = omega (
            arith,
            length-append front back,
            length-leaves version 0 tags,
            length-empty_leaves (widen n 1 n - n) n,
            e,
            fits,
          );
          macs = All-append IsMac front back (leaves-IsMac version 0 tags) (empty_leaves-IsMac _ n);
        },
      )

  next_level-ok :
      (m : ℕ) (level : List (List ℕ))
      → length level ≡ 2 * m
      → (next : List (List ℕ)) × (next_level hashes mac_key level ≡ some next)
        × (length next ≡ m)
        × All IsMac next
  unfolding next_level node
  next_level-ok m [] h = ([], refl, omega arith, tt)
  next_level-ok m (x ∷ []) h = absurd (omega arith)
  next_level-ok zero (x ∷ y ∷ level) h = absurd (omega arith)
  next_level-ok (suc m) (x ∷ y ∷ level) h =
      let (next, e, size, macs) = next_level-ok m level (omega arith) in
      (
        node hashes mac_key x y ∷ next,
        rw e refl,
        omega (arith, size),
        (hashes.length-hmac_sha256 mac_key (x ++ y), macs),
      )

  first-ok :
      (level : List (List ℕ))
      → length level ≡ 1
      → All IsMac level
      → (r : List ℕ) × (first hashes mac_key level ≡ some r) × IsMac r
  unfolding first
  first-ok [] h macs = absurd (omega arith)
  first-ok (x ∷ level) h (hx, hs) = (x, refl, hx)

  climb-ok :
      (k fuel : ℕ) (level : List (List ℕ))
      → k < fuel
      → IsLevel k level
      → (r : List ℕ) × (climb hashes mac_key fuel level ≡ some r) × IsMac r
  unfolding climb
  climb-ok k zero level h v = absurd (omega arith)
  climb-ok zero (suc fuel) level h v =
      let size : length level ≡ 1 = omega (arith, v.width) in
      let alone : ltb 1 (length level) ≡ false = ground (arith, size) in
      let (r, e, mac) = first-ok level size v.macs in (r, rw alone e, mac)
  climb-ok (suc k) (suc fuel) level h v =
      let pos : 0 < 2 ^ k = omega (arith, exponent_lt k) in
      let double : 2 ^ suc k ≡ 2 * 2 ^ k = omega arith in
      let size : length level ≡ 2 * 2 ^ k = v.width ∙ double in
      let many : ltb 1 (length level) ≡ true = ground (arith, size, pos) in
      let (next, e, half, macs) = next_level-ok (2 ^ k) level size in
      let (r, e', mac) =
        climb-ok k fuel next (omega arith) (record { width = half; macs = macs }) in
      (r, rw (many, e) e', mac)

  -- The root of any number of tags is computed without an index out of range, and has 32 bytes.
  pub root_total :
      (version : ℕ) (tags : List (List ℕ))
      → (r : List ℕ) × (root hashes mac_key version tags ≡ some r) × (length r ≡ 32)
  unfolding root
  root_total version tags =
      let (k, v) = first_level-IsLevel version tags in
      climb-ok k (suc (length (first_level version tags))) (first_level version tags)
        (omega (arith, v.width, exponent_lt k)) v
