-- ===== src/Agent/Broker.antt =====
-- `BrokerSession::handle_use` of crates/blindkey-agent/src/broker/unix.rs: one request of an agent.
-- It runs in a thread of its own, so it is cut in two where it waits for the started command.
pub mod Admits
mod Refuses
pub mod Serves
pub mod Consumes
pub mod Budget
pub mod Races
mod Tests
use Prim.Native.String.{String}
use blindkey.Prelude.{
  ℕ, Bool, true, false, not, Option, none, some, List, [], ◌∷◌, ◌++◌, codes, bytes_eq,
  if◌then◌else◌,
}
use blindkey.Files.{File}
use blindkey.Agent.Handle.{
  AgentHandle, HandleStore, is_expired, destination, get_mut, change_handle, consume_use,
}
use blindkey.Agent.Approval.{ApprovalOutcome, approved, denied, prompt_use}
use blindkey.Agent.Store.{Json, Answer, failed, done, load, save}
use blindkey.Agent.Session.{
  UseRequest, UseStatus, error_status, not_found_status, expired_status, denied_status, Detail,
  text, of_fault, UseResponse, ok_response, with_status, Injection, World, Moment, log_use,
  spawn_with_env,
}

-- The unlocked vault, of which a request needs the password of the entry with a title.
abbrev pub Passwords : Type 0
Passwords = List ℕ → Option (List ℕ)

-- A return before the command is started, with the outcome for the audit log, or the next step.
pub data Step {ℓ} (Value : Type ℓ) : Type ℓ where
  stop : List ℕ → UseResponse → Step Value
  go : Value → Step Value

infixl 5 ◌>>=◌
unfoldable pub ◌>>=◌ {ℓ κ} : {A : Type ℓ} {B : Type κ} → Step A → (A → Step B) → Step B
stop outcome response >>= next = stop outcome response
go value >>= next = next value

-- The value of a search, or a return with an outcome, a status and a message.
unfoldable pub missing {ℓ} : {A : Type ℓ} → String → UseStatus → String → Option A → Step A
missing outcome kind message none = stop (codes outcome) (with_status kind (text (codes message)))
missing outcome kind message (some value) = go value

unfoldable pub refuse_expired : ℕ → AgentHandle → Step (Unit {0})
refuse_expired now handle =
    if is_expired now handle
    then stop (codes "expired") (with_status expired_status (text (codes "handle expired")))
    else go tt

unfoldable pub refuse_denied : ApprovalOutcome → Step (Unit {0})
refuse_denied denied =
    stop (codes "denied") (with_status denied_status (text (codes "user denied")))
refuse_denied approved = go tt

unfoldable pub secret_of : List ℕ → List ℕ → Step (List ℕ)
secret_of field password =
    if bytes_eq field (codes "password")
    then go password
    else stop (codes "bad_field")
        (with_status error_status (text (codes "unsupported field " ++ field)))

-- From the search of the handle to the secret.
unfoldable pub admit : Passwords → Moment → UseRequest → HandleStore → Step Injection
admit passwords moment req store =
    missing "not_found" not_found_status "unknown handle" (get_mut store req.handle) >>= λ handle.
    refuse_expired moment.now handle >>= λ fresh.
    missing "bad_dest" denied_status "destination not registered" (destination handle req.dest)
    >>= λ dest. refuse_denied (prompt_use moment.prompt) >>= λ asked.
        missing "missing_entry" error_status "entry missing" (passwords handle.entry_title)
        >>= λ password. secret_of handle.field password >>= λ secret.
            go (record { command = dest.command; env_var = dest.env_var; value = secret })

-- What the first part leaves to do: nothing, or to count the use in the handles it has loaded.
pub data Phase : Type 0 where
  answered : UseResponse → Phase
  injected : HandleStore → Phase

unfoldable pub spawned_use :
    Moment → UseRequest → HandleStore → World × Answer (Unit {0}) → Phase × World
spawned_use moment req store (w, failed fault) = (
  answered (with_status error_status (of_fault fault)),
  log_use moment req.handle req.dest (codes "spawn_error") w,
)
spawned_use moment req store (w, done started) = (injected store, w)

unfoldable pub admitted_use :
    Moment → UseRequest → HandleStore → World → Step Injection → Phase × World
admitted_use moment req store w (stop outcome response) =
    (answered response, log_use moment req.handle req.dest outcome w)
admitted_use moment req store w (go injection) =
    spawned_use moment req store (spawn_with_env moment injection w)

unfoldable pub loaded_use :
    Passwords → Moment → UseRequest → World → Answer HandleStore → Phase × World
loaded_use passwords moment req w (failed fault) =
    (answered (with_status error_status (of_fault fault)), w)
loaded_use passwords moment req w (done store) =
    admitted_use moment req store w (admit passwords moment req store)

unfoldable pub begin_use : Json → Passwords → Moment → UseRequest → World → Phase × World
begin_use json passwords moment req w =
    if bytes_eq req.op (codes "use")
    then loaded_use passwords moment req w (load json moment.loading w.file)
    else (answered (with_status error_status (text (codes "unknown op"))), w)

-- The handles after `consume_use`, whose answer is passed over.
unfoldable pub count_use : List ℕ → HandleStore → HandleStore
count_use id store = record { handles = change_handle (λ h. (consume_use h).1) id store.handles }

unfoldable pub finish_use : Json → Moment → UseRequest → HandleStore → World → UseResponse × World
finish_use json moment req store w =
    let file : File = elim (get_mut store req.handle) [
      | none ↦ w.file
      | some h ↦ (save json moment.saving w.file (count_use req.handle store)).0
    ] in
    (ok_response, log_use moment req.handle req.dest (codes "ok") (record w { file = file }))

unfoldable pub finished : Json → Moment → UseRequest → Phase × World → UseResponse × World
finished json moment req (answered response, w) = (response, w)
finished json moment req (injected store, w) = finish_use json moment req store w

-- The request, where `others` is what other processes make of the file between the two parts.
unfoldable pub interrupted_use :
    (File → File) → Json → Passwords → Moment → UseRequest → World → UseResponse × World
interrupted_use others json passwords moment req w =
    let begun = begin_use json passwords moment req w in
    finished json moment req (begun.0, record begun.1 { file = others begun.1.file })

unfoldable pub handle_use : Json → Passwords → Moment → UseRequest → World → UseResponse × World
handle_use json passwords moment req w = interrupted_use (λ file. file) json passwords moment req w

-- The requests of an agent, one after the other.
unfoldable pub handle_all : Json → Passwords → List (Moment × UseRequest) → World → World
handle_all json passwords [] w = w
handle_all json passwords (step ∷ steps) w =
    handle_all json passwords steps (handle_use json passwords step.0 step.1 w).1
