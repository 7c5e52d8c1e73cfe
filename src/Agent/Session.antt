-- ===== src/Agent/Session.antt =====
-- The messages of crates/blindkey-agent/src/protocol.rs, the log of audit.rs, the started commands
-- of inject.rs and what one request meets, for the broker.
use blindkey.Prelude.{ℕ, Bool, Option, none, some, List, [], ◌∷◌, ◌++◌, if◌then◌else◌}
use blindkey.Files.{File, Outcomes}
use blindkey.Volume.Fs.Utf8.{is_utf8}
use blindkey.Agent.Approval.{Prompt}
use blindkey.Agent.Store.{Fault, Answer, failed, done, not_utf8, spawn_failed}

pub record UseRequest : Type 0 where
  pub op : List ℕ
  pub handle : List ℕ
  pub dest : List ℕ

pub data UseStatus : Type 0 where
  ok_status denied_status expired_status locked_status not_found_status error_status : UseStatus

-- The text of a message, or the failure whose message is meant.
pub data Detail : Type 0 where
  text : List ℕ → Detail
  of_fault : Fault → Detail

pub record UseResponse : Type 0 where
  pub status : UseStatus
  pub detail : Option Detail

abbrev pub ok_response : UseResponse
ok_response = record { status = UseStatus.ok_status; detail = none }

abbrev pub with_status : UseStatus → Detail → UseResponse
with_status status detail = record { status = status; detail = some detail }

pub record AuditEntry : Type 0 where
  pub ts : ℕ
  pub handle : List ℕ
  pub destination : List ℕ
  pub outcome : List ℕ

-- A command that was started with a variable in its environment.
pub record Injection : Type 0 where
  pub command : List ℕ
  pub env_var : List ℕ
  pub value : List ℕ

-- The file of the handles, the audit log and the commands started so far.
pub record World : Type 0 where
  pub file : File
  pub log : List AuditEntry
  pub spawned : List Injection

-- What one request meets: the clock, the prompt, the calls that may fail.
pub record Moment : Type 0 where
  pub now : ℕ
  pub prompt : Prompt
  pub loading : Outcomes
  pub saving : Outcomes
  pub command_starts : Bool
  pub log_written : Bool
  pub logged_at : ℕ

-- `let _ = log(..)`: a log that cannot be written is passed over.
unfoldable pub log_use : Moment → List ℕ → List ℕ → List ℕ → World → World
log_use moment handle destination outcome w =
    if moment.log_written
    then record w {
      log =
          w.log
          ++ (record {
            ts = moment.logged_at;
            handle = handle;
            destination = destination;
            outcome = outcome;
          }
              ∷ []);
    }
    else w

unfoldable pub spawn_with_env : Moment → Injection → World → World × Answer (Unit {0})
spawn_with_env moment injection w =
    if is_utf8 injection.value
    then if moment.command_starts
      then (record w { spawned = w.spawned ++ (injection ∷ []) }, done tt)
      else (w, failed spawn_failed)
    else (w, failed not_utf8)
