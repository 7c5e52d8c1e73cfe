-- ===== src/Rollback/Tests.antt =====
-- An anchor at version 5 and a payload of version 4, and the theorems at them.
use blindkey.Prelude.{ℕ, ◌≡◌, ◌≤◌, refl, arith, false, none, some, List, [], ◌∷◌}
use blindkey.Files.{File, Outcomes, no_failure}
use blindkey.Rollback.{RollbackCheck, check, advance_anchor, advance_all}
use blindkey.Rollback.Detection.{anchored, rollback_detected, advance_unreadable, succeeds}

-- A later advance whose rename fails.
abbrev later : List (Outcomes × ℕ)
later = (record no_failure { renamed = false }, 9) ∷ []

rollback_detected_example :
    (expected : ℕ) × (check 4 (anchored (advance_all (advance_anchor no_failure none 5).0 later))
      ≡ RollbackCheck.regressed expected 4)
    × (5 ≤ expected)
rollback_detected_example =
    rollback_detected none no_failure 5 4 later tt refl (omega arith) (succeeds none 5)
      ((refl, omega arith), tt) (omega arith)

abbrev failed_rename : Outcomes
failed_rename = record no_failure { renamed = false }

abbrev unreadable_file : Outcomes
unreadable_file = record no_failure { read_allowed = false }

abbrev at_nine : File
at_nine = some (9 ∷ 0 ∷ 0 ∷ 0 ∷ 0 ∷ 0 ∷ 0 ∷ 0 ∷ [])

advance_unreadable_example : anchored (advance_anchor unreadable_file at_nine 3).0 ≡ 3
advance_unreadable_example =
    advance_unreadable unreadable_file at_nine 3 refl refl refl refl (omega arith) (omega arith)
