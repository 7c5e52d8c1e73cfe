-- ===== src/Volume/Anchor.antt =====
-- crates/blindkey-core/src/volume/anchor.rs: the root and the version of a volume that were last
-- trusted, in the one file that `anchor_path` names for it.
pub mod Freshness
mod Tests
use blindkey.Prelude.{
  ℕ, ◌+◌, Bool, true, false, Option, none, some, List, [], ◌∷◌, ◌++◌, length, take, drop, leb, ltb,
  ◌==◌, ◌&&◌, ◌||◌, not, bytes_eq, if◌then◌else◌,
}
use blindkey.Result.{Result, ok, err, io, IoKind, volume_anchor_mismatch}
use blindkey.Bytes.{le_bytes, from_le_bytes}
use blindkey.Files.{File, Outcomes, contents, replace}

abbrev pub anchor_len : ℕ
anchor_len = 32 + 8

pub record Anchor : Type 0 where
  pub root : List ℕ
  pub version : ℕ

from_contents : Option (List ℕ) → Option Anchor
from_contents none = none
from_contents (some b) =
    if leb anchor_len (length b)
    then some (record { root = take 32 b; version = from_le_bytes (take 8 (drop 32 b)) })
    else none

-- Apart from the error of `anchor_path`, which is a parameter of none of the operations here, the
-- source's `read` always succeeds.
unfoldable pub read : Outcomes → File → Option Anchor
unfolding from_contents
read outcomes file = from_contents (contents outcomes file)

unfoldable pub write : Outcomes → File → List ℕ → ℕ → File × Result (Unit {0})
write outcomes file root version =
    if outcomes.dir_made
    then replace outcomes file (root ++ le_bytes 8 version)
    else (file, err (io IoKind.other_kind))

unfoldable pub verify_fresh : Outcomes → File → List ℕ → ℕ → Result (Unit {0})
verify_fresh outcomes file disk_root disk_version = elim (read outcomes file) [
  | none ↦ ok tt
  | some a ↦
      if ltb disk_version a.version
        || (disk_version == a.version && not (bytes_eq disk_root a.root))
      then err volume_anchor_mismatch
      else ok tt
]
