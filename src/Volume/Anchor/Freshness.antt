-- ===== src/Volume/Anchor/Freshness.antt =====
-- `write` and `verify_fresh` of crates/blindkey-core/src/volume/anchor.rs together.
use blindkey.Prelude.{
  ℕ, ◌<◌, ◌≡◌, ◌↔◌, ◌⊎◌, refl, arith, true, false, Bool-cases, inl, inr, not, none, some, List,
  ◌++◌, length, take, drop, take-all, take-append_at, drop-append_at, length-append, leb, ltb, ◌==◌,
  ◌&&◌, ◌||◌, if◌then◌else◌, bytes_eq, bytes_eq_refl, bytes_eq→eq,
}
use blindkey.Result.{Result, ok, err, io, IoKind, volume_anchor_mismatch}
use blindkey.Bytes.{u64_mod, le_bytes, length-le_bytes, from_le_bytes-le_bytes}
use blindkey.Files.{File, Outcomes, contents, replace}
use blindkey.Volume.Anchor.{anchor_len, from_contents, read, write, verify_fresh}

pub read-written :
    (outcomes : Outcomes) (root : List ℕ) (version : ℕ)
    → outcomes.read_allowed ≡ true
    → length root ≡ 32
    → version < u64_mod
    → read outcomes (some (root ++ le_bytes 8 version))
      ≡ some (record { root = root; version = version })
unfolding read contents from_contents
read-written outcomes root version hr h hv =
    let w : List ℕ = le_bytes 8 version in
    let size : length w ≡ 8 = length-le_bytes 8 version in
    let long : leb anchor_len (length (root ++ w)) ≡ true =
      ground (arith, length-append root w, h, size) in
    let front : take 32 (root ++ w) ≡ root = take-append_at 32 root w h in
    let back : drop 32 (root ++ w) ≡ w = drop-append_at 32 root w h in
    let all : take 8 w ≡ w = take-all 8 w (omega (arith, size)) in
    rw (hr, long, front, back, all, from_le_bytes-le_bytes 8 version (omega (arith, hv))) refl

-- What `verify_fresh` answers where there is an anchor.
abbrev verdict : List ℕ → List ℕ → ℕ → ℕ → Result (Unit {0})
verdict disk_root root disk_version version =
    if ltb disk_version version || (disk_version == version && not (bytes_eq disk_root root))
    then err volume_anchor_mismatch
    else ok tt

verdict_iff :
    (disk_root root : List ℕ) (disk_version version : ℕ)
    → (verdict disk_root root disk_version version ≡ ok tt)
      ↔ ((version < disk_version) ⊎ ((version ≡ disk_version) × (disk_root ≡ root)))
verdict_iff disk_root root disk_version version = elim (Bool-cases (bytes_eq disk_root root)) [
  | inl same ↦
      let e : disk_root ≡ root = bytes_eq→eq disk_root root same in rw same (ground (arith, e))
  | inr other ↦
      let ne : disk_root ≡ root → ⊥ =
        λ h. (let t : bytes_eq disk_root root ≡ true = rw h (bytes_eq_refl root) in cc) in
      rw other (ground (arith, ne))
]

write-done :
    (outcomes : Outcomes) (file : File) (root : List ℕ) (version : ℕ)
    → (write outcomes file root version).1 ≡ ok tt
    → (write outcomes file root version).0 ≡ some (root ++ le_bytes 8 version)
unfolding write replace
write-done outcomes file root version h = elim (Bool-cases outcomes.dir_made) [
  | inr failed ↦ let t : err (io IoKind.other_kind) ≡ ok tt = (rw failed at h) in cc
  | inl made ↦ elim (Bool-cases outcomes.temporary_written) [
    | inr failed ↦ let t : err (io IoKind.other_kind) ≡ ok tt = (rw (made, failed) at h) in cc
    | inl written ↦ elim (Bool-cases outcomes.renamed) [
      | inr failed ↦
          let t : err (io IoKind.other_kind) ≡ ok tt = (rw (made, written, failed) at h) in cc
      | inl renamed ↦ rw (made, written, renamed) refl
    ]
  ]
]

-- After a successful write of a root of 32 bytes and a version of 64 bits, a root on disk and its version are fresh
-- exactly if the version is later, or the same with the same root, if the anchor can be read.
pub verify_fresh-write :
    (writing reading : Outcomes) (file : File) (root disk_root : List ℕ) (version disk_version : ℕ)
    → reading.read_allowed ≡ true
    → length root ≡ 32
    → version < u64_mod
    → (write writing file root version).1 ≡ ok tt
    → (verify_fresh reading (write writing file root version).0 disk_root disk_version ≡ ok tt)
      ↔ ((version < disk_version) ⊎ ((version ≡ disk_version) × (disk_root ≡ root)))
unfolding verify_fresh
verify_fresh-write writing reading file root disk_root version disk_version hr h hv done =
    let written : (write writing file root version).0 ≡ some (root ++ le_bytes 8 version) =
      write-done writing file root version done in
    rw (written, verify_fresh, read-written reading root version hr h hv)
      (verdict_iff disk_root root disk_version version)

-- Without an anchor that can be read, everything is fresh.
pub verify_fresh_first :
    (outcomes : Outcomes) (file : File) (disk_root : List ℕ) (disk_version : ℕ)
    → (outcomes.read_allowed ≡ false) ⊎ (file ≡ none)
    → verify_fresh outcomes file disk_root disk_version ≡ ok tt
unfolding verify_fresh read contents from_contents
verify_fresh_first outcomes file disk_root disk_version (inl h) = rw h refl
verify_fresh_first outcomes file disk_root disk_version (inr h) =
    elim (Bool-cases outcomes.read_allowed) [
      | inl allowed ↦ rw (h, allowed) refl
      | inr refused ↦ rw refused refl
    ]
