-- ===== src/Files.antt =====
-- One small file that is replaced as a whole, the way rollback/mod.rs and volume/anchor.rs of
-- crates/blindkey-core/src do it: the new contents go into a temporary file that is renamed over it.
use blindkey.Prelude.{ℕ, Bool, true, false, Option, none, some, List, if◌then◌else◌}
use blindkey.Result.{Result, ok, err, io, IoKind}

-- The contents of the file, if it exists.
abbrev pub File : Type 0
File = Option (List ℕ)

-- What the operating system answers to the calls of one operation.
pub record Outcomes : Type 0 where
  pub dir_made : Bool
  pub read_allowed : Bool
  pub temporary_written : Bool
  pub renamed : Bool

abbrev pub no_failure : Outcomes
no_failure = record {
  dir_made = true;
  read_allowed = true;
  temporary_written = true;
  renamed = true;
}

-- `std::fs::read`, of which only success matters to the callers.
unfoldable pub contents : Outcomes → File → Option (List ℕ)
contents outcomes file = if outcomes.read_allowed then file else none

-- `path.exists()`
unfoldable pub exists : File → Bool
exists none = false
exists (some bytes) = true

-- The file after the call, and the result: a failure leaves it as it was.
unfoldable pub replace : Outcomes → File → List ℕ → File × Result (Unit {0})
replace outcomes file bytes =
    if outcomes.temporary_written
    then (if outcomes.renamed then (some bytes, ok tt) else (file, err (io IoKind.other_kind)))
    else (file, err (io IoKind.other_kind))
