-- ===== src/Agent/Handle/Lookup.antt =====
-- The search of a handle of crates/blindkey-agent/src/handle.rs after a change of the list.
use blindkey.Prelude.{
  ℕ, ◌≤◌, ◌<◌, arith, length, ◌≡◌, ◌≢◌, refl, ap, true, Bool-cases, inl, inr, none, some, List, [],
  ◌∷◌, bytes_eq,
}
use blindkey.Agent.Handle.{AgentHandle, find_handle, change_handle, retain_others}

-- A change that keeps the id is found in the place of the old handle.
pub find_handle-change_handle :
    (change : AgentHandle → AgentHandle) (id : List ℕ) (hs : List AgentHandle) (h : AgentHandle)
    → ((k : AgentHandle) → (change k).id ≡ k.id)
    → find_handle hs id ≡ some h
    → find_handle (change_handle change id hs) id ≡ some (change h)
unfolding find_handle change_handle
find_handle-change_handle change id [] h keeps e = cc
find_handle-change_handle change id (k ∷ hs) h keeps e = elim (Bool-cases (bytes_eq k.id id)) [
  | inl same ↦
      let is : some k ≡ some h = (simp same at e) in
      let k_is : k ≡ h = cc in
      let kept : bytes_eq (change k).id id ≡ true = rw (keeps k) same in
      rw (same, find_handle, kept) (ap (λ x. some (change x)) k_is)
  | inr other ↦
      let later : find_handle hs id ≡ some h = (simp other at e) in
      rw (other, find_handle, other) (find_handle-change_handle change id hs h keeps later)
]

pub change_handle-same :
    (change : AgentHandle → AgentHandle) (id : List ℕ) (hs : List AgentHandle) (h : AgentHandle)
    → find_handle hs id ≡ some h
    → change h ≡ h
    → change_handle change id hs ≡ hs
unfolding find_handle change_handle
change_handle-same change id [] h e fixed = refl
change_handle-same change id (k ∷ hs) h e fixed = elim (Bool-cases (bytes_eq k.id id)) [
  | inl same ↦
      let is : some k ≡ some h = (simp same at e) in
      let k_is : h ≡ k = cc in
      let k_fixed : change k ≡ k = rw (← k_is) fixed in rw (same, k_fixed) refl
  | inr other ↦
      let later : find_handle hs id ≡ some h = (simp other at e) in
      rw (other, change_handle-same change id hs h later fixed) refl
]

pub find_handle-retain_others :
    (id : List ℕ) (hs : List AgentHandle) → find_handle (retain_others id hs) id ≡ none
unfolding find_handle retain_others
find_handle-retain_others id [] = refl
find_handle-retain_others id (k ∷ hs) = elim (Bool-cases (bytes_eq k.id id)) [
  | inl same ↦ rw same (find_handle-retain_others id hs)
  | inr other ↦ rw (other, find_handle, other) (find_handle-retain_others id hs)
]

none_ne : {h : AgentHandle} → none ≢ some h
none_ne e = cc

length-retain_others :
    (id : List ℕ) (hs : List AgentHandle) → length (retain_others id hs) ≤ length hs
unfolding retain_others
length-retain_others id [] = omega arith
length-retain_others id (k ∷ hs) = elim (Bool-cases (bytes_eq k.id id)) [
  | inl same ↦ simp same (omega (arith, length-retain_others id hs))
  | inr other ↦ simp other (omega (arith, length-retain_others id hs))
]

pub length-retain_others_found :
    (id : List ℕ) (hs : List AgentHandle) (h : AgentHandle)
    → find_handle hs id ≡ some h
    → length (retain_others id hs) < length hs
unfolding find_handle retain_others
length-retain_others_found id [] h e = let t : none ≡ some h = e in absurd (none_ne t)
length-retain_others_found id (k ∷ hs) h e = elim (Bool-cases (bytes_eq k.id id)) [
  | inl same ↦ simp same (omega (arith, length-retain_others id hs))
  | inr other ↦
      let later : find_handle hs id ≡ some h = (simp other at e) in
      simp other (omega (arith, length-retain_others_found id hs h later))
]
