-- ===== src/Agent/Broker/Races.antt =====
-- `handle_use` of crates/blindkey-agent/src/broker/unix.rs beside a revocation by the command line.
use blindkey.Prelude.{
  ℕ, length, ◌==◌, ◌<◌, codes, ◌-◌, ◌≡◌, refl, sym, ap, ◌∙◌, arith, Bool, true, false, [], ◌∷◌,
  ◌++◌, none, some, List,
}
use blindkey.Files.{File, no_failure}
use blindkey.Agent.Handle.{AgentHandle, HandleStore, get_mut, retain_others}
use blindkey.Agent.Handle.Lookup.{find_handle-retain_others, length-retain_others_found}
use blindkey.Agent.Store.{Json, Answer, done, load, save, revoke, remove, write_json}
use blindkey.Agent.Store.Saves.{Stored, printed-Stored, load-Stored, done_inj}
use blindkey.Agent.Session.{UseRequest, World, Moment, Injection, ok_response}
use blindkey.Agent.Broker.{Passwords, count_use, begin_use, finish_use, interrupted_use, finished}
use blindkey.Agent.Broker.Serves.{Serving, begin_use-Serving, log_use-rest}
use blindkey.Agent.Broker.Budget.{get_mut-count_use, saved_body}

-- A revocation of a handle that is stored, by calls that succeed.
revoke-writes :
    (json : Json) (file : File) (store : HandleStore) (id : List ℕ) (handle : AgentHandle)
    (body : List ℕ)
    → Stored json file store
    → get_mut store id ≡ some handle
    → json.to_string_pretty (record { handles = retain_others id store.handles }) ≡ some body
    → revoke json no_failure file id ≡ (some body, done true)
unfolding revoke remove write_json
revoke-writes json file store id handle body stored found prints =
    let shorter : length (retain_others id store.handles) < length store.handles =
      length-retain_others_found id store.handles handle found in
    let differs : (length (retain_others id store.handles) == length store.handles) ≡ false =
      ground arith in
    rw (revoke, stored, differs) (simp prints refl)

finish_use_ok :
    (json : Json) (moment : Moment) (req : UseRequest) (store : HandleStore) (w : World)
    → (finish_use json moment req store w).0 ≡ ok_response
unfolding finish_use
finish_use_ok json moment req store w = refl

finish_use-writes :
    (json : Json) (moment : Moment) (req : UseRequest) (store : HandleStore) (w : World)
    (handle : AgentHandle) (body : List ℕ)
    → get_mut store req.handle ≡ some handle
    → json.to_string_pretty (count_use req.handle store) ≡ some body
    → moment.saving ≡ no_failure
    → (finish_use json moment req store w).1.file ≡ some body
unfolding finish_use
finish_use-writes json moment req store w handle body found prints saves =
    (log_use-rest moment req.handle req.dest (codes "ok") _).1
    ∙ simp found (
        ap (λ o. (save json o w.file (count_use req.handle store)).0) saves
        ∙ saved_body json w.file (count_use req.handle store) body prints)

-- A handle that is revoked while the command of its request runs comes back: the revocation succeeds
-- and leaves a file that does not hold the handle; then the request answers ok, and the file holds the
-- handle again, with one use less, where it had any. The request is one that names a permitted use,
-- with a command that starts, and the calls that load and write the file succeed.
pub revoked_restored :
    (json : Json) (passwords : Passwords) (moment : Moment) (req : UseRequest) (w : World)
    (injection : Injection) (store : HandleStore) (handle : AgentHandle)
    (kept_body counted_body : List ℕ)
    → Serving json passwords moment req w injection
    → load json moment.loading w.file ≡ done store
    → get_mut store req.handle ≡ some handle
    → json.to_string_pretty (record { handles = retain_others req.handle store.handles })
      ≡ some kept_body
    → json.to_string_pretty (count_use req.handle store) ≡ some counted_body
    → moment.saving ≡ no_failure
    → let revoked : File → File × Answer Bool = λ file. revoke json no_failure file req.handle in
      let begun = (begin_use json passwords moment req w).1.file in
      let after = interrupted_use (λ file. (revoked file).0) json passwords moment req w in
      ((revoked begun).1 ≡ done true)
      × ((left : HandleStore) × Stored json (revoked begun).0 left
          × (get_mut left req.handle ≡ none))
      × (after.0 ≡ ok_response)
      × ((restored : HandleStore) × Stored json after.1.file restored
          × (get_mut restored req.handle
              ≡ some (record handle { uses_remaining = handle.uses_remaining - 1 })))
unfolding interrupted_use finished
revoked_restored json passwords moment req w injection store handle kept_body counted_body serving
      loads found kept counted saves =
    let (loaded, loads', same, found', begun) =
      begin_use-Serving json passwords moment req w injection serving in
    let store_is : loaded ≡ store = done_inj (sym loads' ∙ loads) in
    let stored : Stored json w.file store = load-Stored json moment.loading w.file store loads in
    let revoked : revoke json no_failure w.file req.handle ≡ (some kept_body, done true) =
      revoke-writes json w.file store req.handle handle kept_body stored found kept in
    let file : (finish_use json moment req store
          (record w { spawned = w.spawned ++ (injection ∷ []); file = some kept_body })).1.file
        ≡ some counted_body =
      finish_use-writes json moment req store _ handle counted_body found counted saves in
    rw (begun, store_is, revoked, file)
      (
        refl,
        (
          record { handles = retain_others req.handle store.handles },
          printed-Stored json (record { handles = retain_others req.handle store.handles })
              kept_body kept,
          find_handle-retain_others req.handle store.handles,
        ),
        finish_use_ok json moment req store _,
        (
          count_use req.handle store,
          printed-Stored json (count_use req.handle store) counted_body counted,
          get_mut-count_use store req.handle handle found,
        ),
      )
