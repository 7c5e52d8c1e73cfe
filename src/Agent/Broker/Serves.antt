-- ===== src/Agent/Broker/Serves.antt =====
-- One request to `handle_use` of crates/blindkey-agent/src/broker/unix.rs: served or refused.
use blindkey.Prelude.{
  ℕ, ◌≡◌, ◌≢◌, refl, sym, ap, ◌∙◌, true, false, Bool-cases, ◌⊎◌, inl, inr, some, List, [], ◌∷◌,
  ◌++◌, codes, bytes_eq, bytes_eq→eq, bytes_eq_refl,
}
use mathlib.Core.Path.{subst}
use blindkey.Files.{File}
use blindkey.Volume.Fs.Utf8.{is_utf8}
use blindkey.Agent.Handle.{AgentHandle, HandleStore, get_mut}
use blindkey.Agent.Store.{Json, Answer, failed, done, load, save}
use blindkey.Agent.Session.{
  UseRequest, UseResponse, ok_status, error_status, ok_response, Injection, World, Moment, log_use,
  spawn_with_env,
}
use blindkey.Agent.Broker.{
  Passwords, Step, stop, go, admit, injected, spawned_use, admitted_use, loaded_use, begin_use,
  count_use, finish_use, finished, handle_use, interrupted_use,
}
use blindkey.Agent.Broker.Refuses.{Refuses, admit-Refuses}
use blindkey.Agent.Broker.Admits.{Permitted, admit→Permitted, Permitted→admit}

-- The request names a use that the handles in the file permit, and the command can be started.
abbrev pub Serving : Json → Passwords → Moment → UseRequest → World → Injection → Type 0
Serving json passwords moment req w injection =
    (req.op ≡ codes "use")
    × (store : HandleStore) × (load json moment.loading w.file ≡ done store)
    × Permitted passwords moment req store injection
    × (is_utf8 injection.value ≡ true)
    × (moment.command_starts ≡ true)

pub log_use-rest :
    (moment : Moment) (handle dest outcome : List ℕ) (w : World)
    → ((log_use moment handle dest outcome w).spawned ≡ w.spawned)
      × ((log_use moment handle dest outcome w).file ≡ w.file)
unfolding log_use
log_use-rest moment handle dest outcome w = elim (Bool-cases moment.log_written) [
  | inl written ↦ rw written (refl, refl)
  | inr lost ↦ rw lost (refl, refl)
]

-- The handles in the file once a use of the request's handle is counted and saved.
abbrev pub counted_file : Json → Moment → UseRequest → HandleStore → File → File
counted_file json moment req store file =
    (save json moment.saving file (count_use req.handle store)).0

-- What a request that is served leaves.
abbrev pub Served :
    Json → Passwords → Moment → UseRequest → World → Injection → UseResponse × World → Type 0
Served json passwords moment req w injection after =
    (store : HandleStore) × (load json moment.loading w.file ≡ done store)
    × (after.0 ≡ ok_response)
    × (after.1.spawned ≡ w.spawned ++ (injection ∷ []))
    × (after.1.file ≡ counted_file json moment req store w.file)

finish_use-Served :
    (json : Json) (passwords : Passwords) (moment : Moment) (req : UseRequest) (store : HandleStore)
    (w : World) (handle : AgentHandle) (injection : Injection)
    → load json moment.loading w.file ≡ done store
    → get_mut store req.handle ≡ some handle
    → Served json passwords moment req w injection
        (finish_use json moment req store (record w { spawned = w.spawned ++ (injection ∷ []) }))
unfolding finish_use
finish_use-Served json passwords moment req store w handle injection loads found =
    let rest = log_use-rest moment req.handle req.dest (codes "ok") _ in
    (store, loads, refl, rest.0, rest.1 ∙ (rw found refl))

begin_use-loads :
    (json : Json) (passwords : Passwords) (moment : Moment) (req : UseRequest) (w : World)
    (answer : Answer HandleStore)
    → req.op ≡ codes "use"
    → load json moment.loading w.file ≡ answer
    → begin_use json passwords moment req w ≡ loaded_use passwords moment req w answer
unfolding begin_use
begin_use-loads json passwords moment req w answer op loads =
    simp (op, bytes_eq_refl (codes "use")) (ap (λ a. loaded_use passwords moment req w a) loads)

spawn_with_env-starts :
    (moment : Moment) (injection : Injection) (w : World)
    → is_utf8 injection.value ≡ true
    → moment.command_starts ≡ true
    → spawn_with_env moment injection w
      ≡ (record w { spawned = w.spawned ++ (injection ∷ []) }, done tt)
unfolding spawn_with_env
spawn_with_env-starts moment injection w valid starts = simp (valid, starts) refl

-- The first part of a request that names a permitted use starts the command.
pub begin_use-Serving :
    (json : Json) (passwords : Passwords) (moment : Moment) (req : UseRequest) (w : World)
    (injection : Injection)
    → Serving json passwords moment req w injection
    → (store : HandleStore) × (load json moment.loading w.file ≡ done store)
      × (handle : AgentHandle) × (get_mut store req.handle ≡ some handle)
      × (begin_use json passwords moment req w
          ≡ (injected store, record w { spawned = w.spawned ++ (injection ∷ []) }))
unfolding loaded_use admitted_use spawned_use
begin_use-Serving json passwords moment req w injection (op, store, loads, permit, valid, starts) =
    let admitted : admit passwords moment req store ≡ go injection =
      Permitted→admit passwords moment req store injection permit in
    let phase : begin_use json passwords moment req w
        ≡ spawned_use moment req store (spawn_with_env moment injection w) =
      begin_use-loads json passwords moment req w (done store) op loads
      ∙ ap (λ step. admitted_use moment req store w step) admitted in
    (
      store,
      loads,
      permit.0,
      permit.2,
      phase
          ∙ ap (λ r. spawned_use moment req store r)
              (spawn_with_env-starts moment injection w valid starts),
    )

-- A request that names a permitted use, with a command that starts, is served: the answer is ok, the
-- command is the one command started, with the password in its variable, and the file holds the
-- handles with this use counted, if they can be saved.
pub handle_use-Served :
    (json : Json) (passwords : Passwords) (moment : Moment) (req : UseRequest) (w : World)
    (injection : Injection)
    → Serving json passwords moment req w injection
    → Served json passwords moment req w injection (handle_use json passwords moment req w)
unfolding handle_use interrupted_use finished
handle_use-Served json passwords moment req w injection serving =
    let (store, loads, handle, found, begun) =
      begin_use-Serving json passwords moment req w injection serving in
    subst (λ p. Served json passwords moment req w injection (finished json moment req p))
      (sym begun) (finish_use-Served json passwords moment req store w handle injection loads found)

-- What a request that is refused leaves: no answer of success, and no change but in the log.
abbrev pub Refused : World → UseResponse × World → Type 0
Refused w after =
    (after.0.status ≢ ok_status) × (after.1.spawned ≡ w.spawned) × (after.1.file ≡ w.file)

error_ne : error_status ≢ ok_status
error_ne e = cc

stopped :
    (json : Json) (moment : Moment) (req : UseRequest) (store : HandleStore) (w : World)
    (step : Step Injection)
    → Refuses step
    → ((injection : Injection) → step ≢ go injection)
    → Refused w (finished json moment req (admitted_use moment req store w step))
unfolding Refuses admitted_use finished
stopped json moment req store w (stop outcome response) h other =
    let rest = log_use-rest moment req.handle req.dest outcome w in (h, rest.0, rest.1)
stopped json moment req store w (go injection) h other = absurd (other injection refl)

not_started :
    (json : Json) (passwords : Passwords) (moment : Moment) (req : UseRequest) (store : HandleStore)
    (w : World) (injection : Injection)
    → ((is_utf8 injection.value ≡ true) × (moment.command_starts ≡ true))
      ⊎ Refused w (finished json moment req (admitted_use moment req store w (go injection)))
unfolding admitted_use spawn_with_env spawned_use finished
not_started json passwords moment req store w injection =
    let rest = log_use-rest moment req.handle req.dest (codes "spawn_error") w in
    elim (Bool-cases (is_utf8 injection.value)) [
      | inr broken ↦ inr (rw broken (error_ne, rest.0, rest.1))
      | inl valid ↦ elim (Bool-cases moment.command_starts) [
        | inl starts ↦ inl (valid, starts)
        | inr fails ↦ inr (simp (valid, fails) (error_ne, rest.0, rest.1))
      ]
    ]

admitted :
    (json : Json) (passwords : Passwords) (moment : Moment) (req : UseRequest) (w : World)
    (store : HandleStore) (step : Step Injection)
    → admit passwords moment req store ≡ step
    → req.op ≡ codes "use"
    → load json moment.loading w.file ≡ done store
    → ((injection : Injection) × Serving json passwords moment req w injection)
      ⊎ Refused w (finished json moment req (admitted_use moment req store w step))
admitted json passwords moment req w store (stop outcome response) e op loads = inr (
    stopped json moment req store w (stop outcome response)
      (subst Refuses e (admit-Refuses passwords moment req store))
      (λ injection s. let t : stop outcome response ≡ go injection = s in cc))
admitted json passwords moment req w store (go injection) e op loads =
    elim (not_started json passwords moment req store w injection) [
      | inl (valid, starts) ↦ inl (
        injection,
        (op, store, loads, admit→Permitted passwords moment req store injection e, valid, starts),
      )
      | inr refused ↦ inr refused
    ]

refused_op :
    (json : Json) (passwords : Passwords) (moment : Moment) (req : UseRequest) (w : World)
    → bytes_eq req.op (codes "use") ≡ false
    → Refused w (handle_use json passwords moment req w)
unfolding handle_use interrupted_use begin_use finished
refused_op json passwords moment req w other = simp other (error_ne, refl, refl)

loaded :
    (json : Json) (passwords : Passwords) (moment : Moment) (req : UseRequest) (w : World)
    (answer : Answer HandleStore)
    → load json moment.loading w.file ≡ answer
    → req.op ≡ codes "use"
    → ((injection : Injection) × Serving json passwords moment req w injection)
      ⊎ Refused w (finished json moment req (loaded_use passwords moment req w answer))
unfolding loaded_use finished
loaded json passwords moment req w (failed fault) e op = inr (error_ne, refl, refl)
loaded json passwords moment req w (done store) e op =
    admitted json passwords moment req w store (admit passwords moment req store) refl op e

-- Each request is served, and then it names a permitted use with a command that starts, or it is
-- refused: the answer is not ok, no command was started and the file of the handles is as it was.
pub handle_use-cases :
    (json : Json) (passwords : Passwords) (moment : Moment) (req : UseRequest) (w : World)
    → ((injection : Injection) × Serving json passwords moment req w injection
        × Served json passwords moment req w injection (handle_use json passwords moment req w))
      ⊎ Refused w (handle_use json passwords moment req w)
unfolding handle_use interrupted_use
handle_use-cases json passwords moment req w = elim (Bool-cases (bytes_eq req.op (codes "use"))) [
  | inr other ↦ inr (refused_op json passwords moment req w other)
  | inl same ↦
      let op : req.op ≡ codes "use" = bytes_eq→eq req.op (codes "use") same in
      let answer : Answer HandleStore = load json moment.loading w.file in
      elim (loaded json passwords moment req w answer refl op) [
        | inl (injection, serving) ↦
            inl
              (injection, serving, handle_use-Served json passwords moment req w injection serving)
        | inr refused ↦ inr (
            subst (λ p. Refused w (finished json moment req p))
              (sym (begin_use-loads json passwords moment req w answer op refl)) refused)
      ]
]
