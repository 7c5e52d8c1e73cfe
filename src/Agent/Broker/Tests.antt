-- ===== src/Agent/Broker/Tests.antt =====
-- The broker on a vault with one password and a file with one handle.
use blindkey.Prelude.{
  ℕ, Bool, ◌≡◌, ◌⊎◌, ◌++◌, refl, arith, true, false, none, some, List, [], ◌∷◌, codes, bytes_eq,
  if◌then◌else◌,
}
use blindkey.Files.{File, no_failure}
use blindkey.Agent.Approval.{Prompt, prompt_use}
use blindkey.Agent.Handle.{
  AgentHandle, HandleStore, Destination, new, get_mut, find_handle, find_destination, is_expired,
  retain_others,
}
use blindkey.Agent.Store.{Answer, done, revoke}
use blindkey.Agent.Toy.{toy_json, print_store}
use blindkey.Agent.Store.Saves.{Stored, printed-Stored}
use blindkey.Agent.Text.{trim, to_lowercase, is_whitespace}
use blindkey.Volume.Fs.Utf8.{is_utf8}
use blindkey.Agent.Broker.Serves.{Serving, Served, Refused, handle_use-Served, handle_use-cases}
use blindkey.Agent.Broker.Consumes.{Consumed, handle_all-Consumed}
use blindkey.Agent.Broker.Budget.{handle_use-counts, exhausted_served}
use blindkey.Agent.Broker.Races.{revoked_restored}
use blindkey.Agent.Session.{UseRequest, Injection, World, Moment, ok_response}
use blindkey.Agent.Broker.{Passwords, handle_use, handle_all, begin_use, interrupted_use, count_use}

abbrev deploy : Destination
deploy = record {
  id = codes "env:GH:/bin/deploy";
  env_var = codes "GH";
  command = codes "/bin/deploy";
}

abbrev handle : AgentHandle
unfolding new
handle = new (codes "a1") 1000 (codes "github") (codes "password") deploy

abbrev one_handle : HandleStore
one_handle = record { handles = handle ∷ [] }

abbrev passwords : Passwords
passwords title = if bytes_eq title (codes "github") then some (codes "hunter2") else none

abbrev prompt : Prompt
prompt = record { auto_approve = false; is_terminal = true; line = some (codes " Yes ") }

abbrev moment : Moment
moment = record {
  now = 2000;
  prompt = prompt;
  loading = no_failure;
  saving = no_failure;
  command_starts = true;
  log_written = true;
  logged_at = 2001;
}

abbrev request : UseRequest
request = record { op = codes "use"; handle = codes "a1"; dest = codes "env:GH:/bin/deploy" }

abbrev world : World
world = record { file = some (print_store one_handle); log = []; spawned = [] }

abbrev injection : Injection
injection = record { command = codes "/bin/deploy"; env_var = codes "GH"; value = codes "hunter2" }

stored : Stored toy_json (some (print_store one_handle)) one_handle
unfolding toy_json
stored = printed-Stored toy_json one_handle (print_store one_handle) refl

serving : Serving toy_json passwords moment request world injection
unfolding is_expired find_handle find_destination prompt_use trim to_lowercase is_whitespace is_utf8
    bytes_eq handle
serving = (
  refl,
  one_handle,
  stored,
  (handle, deploy, refl, omega arith, refl, refl, refl, refl, refl),
  refl,
  refl,
)

handle_use-Served_example :
    Served toy_json passwords moment request world injection
      (handle_use toy_json passwords moment request world)
handle_use-Served_example =
    handle_use-Served toy_json passwords moment request world injection serving

handle_all-Consumed_example :
    (after : HandleStore) × Stored toy_json
      (handle_all toy_json passwords ((moment, request) ∷ (moment, request) ∷ []) world).file
      after
    × Consumed one_handle.handles after.handles
handle_all-Consumed_example =
    handle_all-Consumed toy_json passwords ((moment, request) ∷ (moment, request) ∷ []) world
      one_handle stored

handle_use-cases_example :
    ((i : Injection) × Serving toy_json passwords moment request world i
      × Served toy_json passwords moment request world i
          (handle_use toy_json passwords moment request world))
    ⊎ Refused world (handle_use toy_json passwords moment request world)
handle_use-cases_example = handle_use-cases toy_json passwords moment request world

counted_body : List ℕ
counted_body = print_store (count_use (codes "a1") one_handle)

handle_use-counts_example :
    (after : HandleStore) × Stored toy_json
      (handle_use toy_json passwords moment request world).1.file
      after
    × (get_mut after (codes "a1") ≡ some (record handle { uses_remaining = 9 }))
unfolding handle toy_json find_handle bytes_eq counted_body retain_others
handle_use-counts_example =
    handle_use-counts toy_json passwords moment request world injection one_handle handle
      counted_body serving stored refl refl refl

revoked_restored_example :
    let revoked : File → File × Answer Bool =
      λ file. revoke toy_json no_failure file (codes "a1") in
    let begun = (begin_use toy_json passwords moment request world).1.file in
    let after =
      interrupted_use (λ file. (revoked file).0) toy_json passwords moment request world in
    ((revoked begun).1 ≡ done true)
    × ((left : HandleStore) × Stored toy_json (revoked begun).0 left
        × (get_mut left (codes "a1") ≡ none))
    × (after.0 ≡ ok_response)
    × ((restored : HandleStore) × Stored toy_json after.1.file restored
        × (get_mut restored (codes "a1") ≡ some (record handle { uses_remaining = 9 })))
unfolding handle toy_json find_handle bytes_eq counted_body retain_others
revoked_restored_example =
    revoked_restored toy_json passwords moment request world injection one_handle handle
      (print_store (record { handles = [] })) counted_body serving stored refl refl refl refl

used_up : AgentHandle
used_up = record handle { uses_remaining = 0 }

none_left : World
none_left = record {
  file = some (print_store (record { handles = used_up ∷ [] }));
  log = [];
  spawned = [];
}

Stored-used_up : Stored toy_json none_left.file (record { handles = used_up ∷ [] })
unfolding toy_json none_left
Stored-used_up =
    printed-Stored toy_json (record { handles = used_up ∷ [] })
      (print_store (record { handles = used_up ∷ [] })) refl

serving_used_up : Serving toy_json passwords moment request none_left injection
unfolding is_expired find_handle find_destination prompt_use trim to_lowercase is_whitespace is_utf8
    bytes_eq handle used_up none_left
serving_used_up = (
  refl,
  record { handles = used_up ∷ [] },
  Stored-used_up,
  (used_up, deploy, refl, omega arith, refl, refl, refl, refl, refl),
  refl,
  refl,
)

exhausted_served_example :
    ((handle_use toy_json passwords moment request none_left).0 ≡ ok_response)
    × ((handle_use toy_json passwords moment request none_left).1.spawned
        ≡ none_left.spawned ++ (injection ∷ []))
    × Stored toy_json
        (handle_use toy_json passwords moment request none_left).1.file
        (record { handles = used_up ∷ [] })
unfolding find_handle bytes_eq used_up handle
exhausted_served_example =
    exhausted_served toy_json passwords moment request none_left injection
      (record { handles = used_up ∷ [] }) used_up serving_used_up Stored-used_up refl refl
