-- ===== src/Agent/Broker/Budget.antt =====
-- `handle_use` of crates/blindkey-agent/src/broker/unix.rs and the uses a handle has left.
use blindkey.Prelude.{ℕ, ◌-◌, ◌≡◌, refl, sym, ap, ◌∙◌, inl, inr, some, List, [], ◌∷◌, ◌++◌}
use mathlib.Core.Path.{subst}
use blindkey.Files.{File, no_failure}
use blindkey.Agent.Handle.{AgentHandle, HandleStore, get_mut, consume_use}
use blindkey.Agent.Handle.Lookup.{find_handle-change_handle, change_handle-same}
use blindkey.Agent.Store.{Json, done, load, save, write_json}
use blindkey.Agent.Store.Saves.{Stored, load-Stored, saved-Stored, done_inj, printed-Stored}
use blindkey.Agent.Session.{UseRequest, ok_response, Injection, World, Moment}
use blindkey.Agent.Broker.{Passwords, count_use, handle_use}
use blindkey.Agent.Broker.Serves.{Serving, counted_file, handle_use-Served}
use blindkey.Agent.Broker.Consumes.{consume_use-lowers}

pub get_mut-count_use :
    (store : HandleStore) (id : List ℕ) (handle : AgentHandle)
    → get_mut store id ≡ some handle
    → get_mut (count_use id store) id
      ≡ some (record handle { uses_remaining = handle.uses_remaining - 1 })
unfolding count_use
get_mut-count_use store id handle found =
    find_handle-change_handle (λ h. (consume_use h).1) id store.handles handle
      (λ k. ap {A = AgentHandle} (λ h. h.id) (consume_use-lowers k)) found
    ∙ ap {A = AgentHandle} (λ h. some h) (consume_use-lowers handle)

count_use-exhausted :
    (store : HandleStore) (id : List ℕ) (handle : AgentHandle)
    → get_mut store id ≡ some handle
    → handle.uses_remaining ≡ 0
    → count_use id store ≡ store
unfolding count_use consume_use
count_use-exhausted store id handle found exhausted =
    let fixed : (consume_use handle).1 ≡ handle = simp exhausted refl in
    ap {A = List AgentHandle} {B = HandleStore} (λ hs. record { handles = hs })
      (change_handle-same (λ h. (consume_use h).1) id store.handles handle found fixed)

pub saved_body :
    (json : Json) (file : File) (store : HandleStore) (body : List ℕ)
    → json.to_string_pretty store ≡ some body
    → (save json no_failure file store).0 ≡ some body
unfolding write_json
saved_body json file store body printed = simp printed refl

served_file :
    (json : Json) (passwords : Passwords) (moment : Moment) (req : UseRequest) (w : World)
    (injection : Injection) (store : HandleStore)
    → Serving json passwords moment req w injection
    → load json moment.loading w.file ≡ done store
    → (handle_use json passwords moment req w).1.file ≡ counted_file json moment req store w.file
served_file json passwords moment req w injection store serving loads =
    let (loaded, loads', response, spawned, file) =
      handle_use-Served json passwords moment req w injection serving in
    file ∙ ap (λ s. counted_file json moment req s w.file) (done_inj (sym loads' ∙ loads))

-- A use that is served, where the handles are written in full, is counted in the file: its handle has
-- one use less there, where it had any, and is otherwise the same.
pub handle_use-counts :
    (json : Json) (passwords : Passwords) (moment : Moment) (req : UseRequest) (w : World)
    (injection : Injection) (store : HandleStore) (handle : AgentHandle) (body : List ℕ)
    → Serving json passwords moment req w injection
    → load json moment.loading w.file ≡ done store
    → get_mut store req.handle ≡ some handle
    → moment.saving ≡ no_failure
    → json.to_string_pretty (count_use req.handle store) ≡ some body
    → (after : HandleStore) × Stored json (handle_use json passwords moment req w).1.file after
      × (get_mut after req.handle
          ≡ some (record handle { uses_remaining = handle.uses_remaining - 1 }))
handle_use-counts json passwords moment req w injection store handle body serving loads found saves
      prints =
    let written : counted_file json moment req store w.file ≡ some body =
      ap (λ o. (save json o w.file (count_use req.handle store)).0) saves
      ∙ saved_body json w.file (count_use req.handle store) body prints in
    let file : (handle_use json passwords moment req w).1.file ≡ some body =
      served_file json passwords moment req w injection store serving loads ∙ written in
    (
      count_use req.handle store,
      subst (λ f. Stored json f (count_use req.handle store)) (sym file)
          (printed-Stored json (count_use req.handle store) body prints),
      get_mut-count_use store req.handle handle found,
    )

-- A handle with no use left is served like any other: the answer is ok, its command is started with
-- the password, and the file holds the same handles as before.
pub exhausted_served :
    (json : Json) (passwords : Passwords) (moment : Moment) (req : UseRequest) (w : World)
    (injection : Injection) (store : HandleStore) (handle : AgentHandle)
    → Serving json passwords moment req w injection
    → load json moment.loading w.file ≡ done store
    → get_mut store req.handle ≡ some handle
    → handle.uses_remaining ≡ 0
    → ((handle_use json passwords moment req w).0 ≡ ok_response)
      × ((handle_use json passwords moment req w).1.spawned ≡ w.spawned ++ (injection ∷ []))
      × Stored json (handle_use json passwords moment req w).1.file store
exhausted_served json passwords moment req w injection store handle serving loads found none_left =
    let (loaded, loads', response, spawned, file) =
      handle_use-Served json passwords moment req w injection serving in
    let same : count_use req.handle store ≡ store =
      count_use-exhausted store req.handle handle found none_left in
    let before : Stored json w.file store = load-Stored json moment.loading w.file store loads in
    let after : Stored json (save json moment.saving w.file store).0 store =
      elim (saved-Stored json moment.saving w.file store store before) [ inl e ↦ e | inr e ↦ e ] in
    let at : (handle_use json passwords moment req w).1.file
        ≡ (save json moment.saving w.file store).0 =
      served_file json passwords moment req w injection store serving loads
      ∙ ap (λ s. (save json moment.saving w.file s).0) same in
    (response, spawned, subst (λ f. Stored json f store) (sym at) after)
