-- ===== src/Agent/Store.antt =====
-- crates/blindkey-agent/src/store.rs and the parts of handle.rs that call it: the list of handles
-- in its file, and its change by the command line (crates/blindkey-cli/src/agent.rs). The JSON of
-- the crate `serde_json` is a parameter.
pub mod Saves
use blindkey.Prelude.{
  ℕ, ◌≡◌, Bool, true, false, not, Option, none, some, List, [], ◌∷◌, ◌++◌, length, ◌==◌,
  if◌then◌else◌,
}
use blindkey.Files.{File, Outcomes}
use blindkey.Agent.Text.{is_blank}
use blindkey.Agent.Handle.{HandleStore, AgentHandle, empty, retain_others}

-- What `serde_json` documents of the type's derived forms: a text that is printed is read back, and
-- a blank text is an error.
pub record Json : Type 0 where
  pub to_string_pretty : HandleStore → Option (List ℕ)
  pub from_str : List ℕ → Option HandleStore
  pub from_str-to_string_pretty :
      (store : HandleStore) (text : List ℕ)
      → to_string_pretty store ≡ some text
      → from_str text ≡ some store
  pub from_str-is_blank : (text : List ℕ) → is_blank text ≡ true → from_str text ≡ none

-- The failures whose messages the code makes of a path and of what another crate reports.
pub data Fault : Type 0 where
  read_failed parse_failed mkdir_failed print_failed write_failed rename_failed : Fault
  not_utf8 spawn_failed : Fault

pub data Answer {ℓ} (Value : Type ℓ) : Type ℓ where
  failed : Fault → Answer Value
  done : Value → Answer Value

parsed : Option HandleStore → Answer HandleStore
parsed none = failed parse_failed
parsed (some store) = done store

unfoldable pub read_json : Json → Outcomes → File → Answer HandleStore
unfolding parsed
read_json json outcomes none = done empty
read_json json outcomes (some text) =
    if not outcomes.read_allowed
    then failed read_failed
    else if is_blank text
    then done empty
    else parsed (json.from_str text)

-- The file after the call, and what it returns.
write_body : Outcomes → File → Option (List ℕ) → File × Answer (Unit {0})
write_body outcomes file none = (file, failed print_failed)
write_body outcomes file (some body) =
    if not outcomes.temporary_written
    then (file, failed write_failed)
    else if not outcomes.renamed
    then (file, failed rename_failed)
    else (some body, done tt)

unfoldable pub write_json : Json → Outcomes → File → HandleStore → File × Answer (Unit {0})
unfolding write_body
write_json json outcomes file store =
    if not outcomes.dir_made
    then (file, failed mkdir_failed)
    else write_body outcomes file (json.to_string_pretty store)

abbrev pub load : Json → Outcomes → File → Answer HandleStore
load json outcomes file = read_json json outcomes file

abbrev pub save : Json → Outcomes → File → HandleStore → File × Answer (Unit {0})
save json outcomes file store = write_json json outcomes file store

answer_with {ℓ} : {A : Type ℓ} → A → Answer (Unit {0}) → Answer A
answer_with value (failed fault) = failed fault
answer_with value (done u) = done value

-- The list, the file and the answer after `add` and after `remove`.
unfoldable pub add :
    Json → Outcomes → File → HandleStore → AgentHandle → HandleStore × File × Answer (List ℕ)
unfolding answer_with
add json outcomes file store handle =
    let grown : HandleStore = record { handles = store.handles ++ (handle ∷ []) } in
    let saved = save json outcomes file grown in (grown, saved.0, answer_with handle.id saved.1)

unfoldable pub remove :
    Json → Outcomes → File → HandleStore → List ℕ → HandleStore × File × Answer Bool
unfolding answer_with
remove json outcomes file store id =
    let kept : HandleStore = record { handles = retain_others id store.handles } in
    let saved = save json outcomes file kept in
    if length kept.handles == length store.handles
    then (kept, file, done false)
    else (kept, saved.0, answer_with true saved.1)

-- A process of its own that loads the handles and removes one: the file, and the answer of `remove`.
unfoldable pub revoke : Json → Outcomes → File → List ℕ → File × Answer Bool
revoke json outcomes file id = elim (load json outcomes file) [
  | failed fault ↦ (file, failed fault)
  | done store ↦
      let (kept, written, answer) = remove json outcomes file store id in (written, answer)
]
