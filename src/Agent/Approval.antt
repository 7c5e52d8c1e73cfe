-- ===== src/Agent/Approval.antt =====
-- crates/blindkey-agent/src/approval.rs: the prompt for one use, on the broker's terminal.
use blindkey.Prelude.{ℕ, Bool, Option, none, some, List, codes, bytes_eq, ◌||◌, if◌then◌else◌}
use blindkey.Agent.Text.{trim, to_lowercase}

pub data ApprovalOutcome : Type 0 where
  approved denied : ApprovalOutcome

-- The environment variable for tests, the terminal, and the line that is read from it, if one can
-- be read. What the prompt prints has no part in the outcome.
pub record Prompt : Type 0 where
  pub auto_approve : Bool
  pub is_terminal : Bool
  pub line : Option (List ℕ)

answer : List ℕ → ApprovalOutcome
answer line =
    let word = to_lowercase (trim line) in
    if bytes_eq word (codes "y") || bytes_eq word (codes "yes")
    then ApprovalOutcome.approved
    else ApprovalOutcome.denied

unfoldable pub prompt_use : Prompt → ApprovalOutcome
unfolding answer
prompt_use p =
    if p.auto_approve
    then ApprovalOutcome.approved
    else if p.is_terminal
    then elim p.line [ none ↦ ApprovalOutcome.denied | some line ↦ answer line ]
    else ApprovalOutcome.denied
