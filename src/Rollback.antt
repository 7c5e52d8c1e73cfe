-- ===== src/Rollback.antt =====
-- crates/blindkey-core/src/rollback/mod.rs: the anchor of the last version that was seen. The body
-- that runs under the advisory lock is one step; the lock itself is not modelled.
pub mod Detection
mod Tests
use blindkey.Prelude.{
  ℕ, ◌+◌, Bool, true, false, Option, none, some, List, length, take, leb, ltb, ◌==◌, ◌&&◌, max,
  if◌then◌else◌, [], ◌∷◌,
}
use blindkey.Result.{Result, ok, err, io, IoKind}
use blindkey.Bytes.{le_bytes, from_le_bytes}
use blindkey.Files.{File, Outcomes, contents, exists, replace}

pub data RollbackCheck : Type 0 where
  fresh : RollbackCheck
  regressed : (expected got : ℕ) → RollbackCheck

unfoldable pub check : ℕ → ℕ → RollbackCheck
check payload_version last_seen =
    if leb last_seen payload_version
    then RollbackCheck.fresh
    else RollbackCheck.regressed last_seen payload_version

from_contents : Option (List ℕ) → ℕ
from_contents none = 0
from_contents (some b) = if leb 8 (length b) then from_le_bytes (take 8 b) else 0

unfoldable pub read_anchor : Outcomes → File → ℕ
unfolding from_contents
read_anchor outcomes file = from_contents (contents outcomes file)

unfoldable pub write_u64_atomic : Outcomes → File → ℕ → File × Result (Unit {0})
write_u64_atomic outcomes file value = replace outcomes file (le_bytes 8 value)

unfoldable pub advance_anchor : Outcomes → File → ℕ → File × Result (Unit {0})
advance_anchor outcomes file seen =
    if outcomes.dir_made
    then (let current = read_anchor outcomes file in
        let next = max current seen in
        if next == current && exists file
        then (file, ok tt)
        else write_u64_atomic outcomes file next)
    else (file, err (io IoKind.other_kind))

-- One advance after the other, each with the outcomes of its calls.
unfoldable pub advance_all : File → List (Outcomes × ℕ) → File
advance_all file [] = file
advance_all file (step ∷ steps) = advance_all (advance_anchor step.0 file step.1).0 steps
