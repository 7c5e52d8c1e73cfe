-- ===== src/Agent/Handle.antt =====
-- crates/blindkey-agent/src/handle.rs: the handles a user registers, and the list of them.
pub mod Lookup
use blindkey.Prelude.{
  ℕ, zero, suc, ◌+◌, ◌-◌, Bool, true, false, not, Option, none, some, List, [], ◌∷◌, ◌++◌, leb,
  length, ◌==◌, bytes_eq, if◌then◌else◌,
}

pub record Destination : Type 0 where
  pub id : List ℕ
  pub env_var : List ℕ
  pub command : List ℕ

pub record AgentHandle : Type 0 where
  pub id : List ℕ
  pub entry_title : List ℕ
  pub field : List ℕ
  pub destinations : List Destination
  pub created_at : ℕ
  pub expires_at : ℕ
  pub uses_remaining : ℕ

-- The random id and the clock's reading are arguments.
unfoldable pub new : List ℕ → ℕ → List ℕ → List ℕ → Destination → AgentHandle
new random_id now entry_title field destination = record {
  id = random_id;
  entry_title = entry_title;
  field = field;
  destinations = destination ∷ [];
  created_at = now;
  expires_at = now + 3600;
  uses_remaining = 10;
}

unfoldable pub find_destination : List Destination → List ℕ → Option Destination
find_destination [] dest_id = none
find_destination (d ∷ ds) dest_id =
    let later = find_destination ds dest_id in if bytes_eq d.id dest_id then some d else later

abbrev pub destination : AgentHandle → List ℕ → Option Destination
destination h dest_id = find_destination h.destinations dest_id

unfoldable pub is_expired : ℕ → AgentHandle → Bool
is_expired now h = leb h.expires_at now

-- What the call returns, and the handle it leaves.
unfoldable pub consume_use : AgentHandle → Bool × AgentHandle
consume_use h =
    if h.uses_remaining == 0
    then (false, h)
    else (true, record h { uses_remaining = h.uses_remaining - 1 })

pub record HandleStore : Type 0 where
  pub handles : List AgentHandle

abbrev pub empty : HandleStore
empty = record { handles = [] }

unfoldable pub find_handle : List AgentHandle → List ℕ → Option AgentHandle
find_handle [] id = none
find_handle (h ∷ hs) id =
    let later = find_handle hs id in if bytes_eq h.id id then some h else later

-- `get_mut` lends the first handle of that id; a caller that only reads it sees this value.
abbrev pub get_mut : HandleStore → List ℕ → Option AgentHandle
get_mut store id = find_handle store.handles id

-- A caller that changes the handle `get_mut` lends changes it in the list.
unfoldable pub change_handle :
    (AgentHandle → AgentHandle) → List ℕ → List AgentHandle → List AgentHandle
change_handle change id [] = []
change_handle change id (h ∷ hs) =
    let later = change_handle change id hs in if bytes_eq h.id id then change h ∷ hs else h ∷ later

unfoldable pub retain_others : List ℕ → List AgentHandle → List AgentHandle
retain_others id [] = []
retain_others id (h ∷ hs) =
    let later = retain_others id hs in if bytes_eq h.id id then later else h ∷ later
