-- ===== src/Agent/Broker/Consumes.antt =====
-- The registered handles over sequences of requests to `handle_use` of
-- crates/blindkey-agent/src/broker/unix.rs.
use blindkey.Prelude.{
  ℕ, ◌-◌, ◌≤◌, ◌≡◌, refl, sym, ap, ◌∙◌, arith, ◌==◌, Bool-cases, inl, inr, List, [], ◌∷◌, bytes_eq,
}
use mathlib.Core.Path.{subst}
use blindkey.Agent.Handle.{AgentHandle, HandleStore, change_handle, consume_use}
use blindkey.Agent.Store.{Json}
use blindkey.Agent.Store.Saves.{Stored, saved-Stored, one_store}
use blindkey.Agent.Session.{UseRequest, World, Moment}
use blindkey.Agent.Broker.{Passwords, count_use, handle_use, handle_all}
use blindkey.Agent.Broker.Serves.{counted_file, handle_use-cases}

-- The same handles in the same order, with at most as many uses left.
abbrev pub Consumed : List AgentHandle → List AgentHandle → Type 0
Consumed [] [] = Unit {0}
Consumed (h ∷ hs) (k ∷ ks) =
    (k ≡ record h { uses_remaining = k.uses_remaining })
    × (k.uses_remaining ≤ h.uses_remaining)
    × Consumed hs ks
Consumed _ _ = ⊥

pub Consumed-refl : (hs : List AgentHandle) → Consumed hs hs
Consumed-refl [] = tt
Consumed-refl (h ∷ hs) = (refl, omega arith, Consumed-refl hs)

pub Consumed-trans :
    (hs ks ls : List AgentHandle) → Consumed hs ks → Consumed ks ls → Consumed hs ls
Consumed-trans [] [] [] a b = tt
Consumed-trans [] [] (l ∷ ls) a b = b
Consumed-trans [] (k ∷ ks) ls a b = absurd a
Consumed-trans (h ∷ hs) [] ls a b = absurd a
Consumed-trans (h ∷ hs) (k ∷ ks) [] a b = b
Consumed-trans (h ∷ hs) (k ∷ ks) (l ∷ ls) (same, le, rest) (same', le', rest') = (
  same'
      ∙ ap {A = AgentHandle} {B = AgentHandle} (λ x. record x { uses_remaining = l.uses_remaining })
          same,
  omega arith,
  Consumed-trans hs ks ls rest rest',
)

pub consume_use-lowers :
    (h : AgentHandle) → (consume_use h).1 ≡ record h { uses_remaining = h.uses_remaining - 1 }
unfolding consume_use
consume_use-lowers h = elim (Bool-cases (h.uses_remaining == 0)) [
  | inl none_left ↦
      let e : h.uses_remaining ≡ h.uses_remaining - 1 = ground arith in
      simp none_left (ap {A = ℕ} {B = AgentHandle} (λ n. record h { uses_remaining = n }) e)
  | inr some_left ↦ simp some_left refl
]

change_handle-Consumed :
    (id : List ℕ) (hs : List AgentHandle)
    → Consumed hs (change_handle (λ h. (consume_use h).1) id hs)
unfolding change_handle
change_handle-Consumed id [] = tt
change_handle-Consumed id (h ∷ hs) = elim (Bool-cases (bytes_eq h.id id)) [
  | inr other ↦ simp other (refl, omega arith, change_handle-Consumed id hs)
  | inl same ↦ simp (same, consume_use-lowers h) (refl, omega arith, Consumed-refl hs)
]

handle_use-Consumed :
    (json : Json) (passwords : Passwords) (moment : Moment) (req : UseRequest) (w : World)
    (store : HandleStore)
    → Stored json w.file store
    → (after : HandleStore) × Stored json (handle_use json passwords moment req w).1.file after
      × Consumed store.handles after.handles
unfolding count_use
handle_use-Consumed json passwords moment req w store h =
    elim (handle_use-cases json passwords moment req w) [
      | inr (status, spawned, file) ↦
          (store, subst (λ f. Stored json f store) (sym file) h, Consumed-refl store.handles)
      | inl (injection, serving, (loaded, loads, response, spawned, file)) ↦
          let same : loaded ≡ store = one_store json moment.loading w.file store loaded h loads in
          let at : (handle_use json passwords moment req w).1.file
              ≡ counted_file json moment req store w.file =
            file ∙ ap (λ s. counted_file json moment req s w.file) same in
          elim (saved-Stored json moment.saving w.file store (count_use req.handle store) h) [
            | inl kept ↦
                (store, subst (λ f. Stored json f store) (sym at) kept, Consumed-refl store.handles)
            | inr counted ↦ (
              count_use req.handle store,
              subst (λ f. Stored json f (count_use req.handle store)) (sym at) counted,
              change_handle-Consumed req.handle store.handles,
            )
          ]
    ]

-- After any requests, in any order and whatever their calls meet, the file holds the handles it held
-- before, each with its entry, field, destinations and expiry unchanged and at most as many uses left.
pub handle_all-Consumed :
    (json : Json) (passwords : Passwords) (steps : List (Moment × UseRequest)) (w : World)
    (store : HandleStore)
    → Stored json w.file store
    → (after : HandleStore) × Stored json (handle_all json passwords steps w).file after
      × Consumed store.handles after.handles
unfolding handle_all
handle_all-Consumed json passwords [] w store h = (store, h, Consumed-refl store.handles)
handle_all-Consumed json passwords (step ∷ steps) w store h =
    let (middle, kept, fewer) = handle_use-Consumed json passwords step.0 step.1 w store h in
    let (after, kept', fewer') = handle_all-Consumed json passwords steps _ middle kept in
    (after, kept', Consumed-trans store.handles middle.handles after.handles fewer fewer')
