-- ===== src/Agent/Broker/Refuses.antt =====
-- The returns of `handle_use` of crates/blindkey-agent/src/broker/unix.rs before the command is
-- started.
use Prim.Native.String.{String}
use blindkey.Prelude.{ℕ, ◌≡◌, ◌≢◌, Bool-cases, inl, inr, Option, none, some, List, codes, bytes_eq}
use blindkey.Agent.Handle.{AgentHandle, HandleStore, is_expired}
use blindkey.Agent.Approval.{ApprovalOutcome, approved, denied, prompt_use}
use blindkey.Agent.Session.{
  UseRequest, UseStatus, ok_status, denied_status, expired_status, not_found_status, error_status,
  Moment,
}
use blindkey.Agent.Broker.{
  Passwords, Step, stop, go, ◌>>=◌, missing, refuse_expired, refuse_denied, secret_of, admit,
}

-- A step that stops does not answer that the use was made.
unfoldable pub Refuses {ℓ} : {A : Type ℓ} → Step A → Type 0
Refuses (stop outcome response) = response.status ≢ ok_status
Refuses (go value) = Unit {0}

Refuses->>= {ℓ κ} :
    {A : Type ℓ} {B : Type κ} (call : Step A) (next : A → Step B)
    → Refuses call
    → ((value : A) → Refuses (next value))
    → Refuses (call >>= next)
unfolding ◌>>=◌ Refuses
Refuses->>= (stop outcome response) next h rest = h
Refuses->>= (go value) next h rest = rest value

missing-Refuses {ℓ} :
    {A : Type ℓ} (outcome : String) (kind : UseStatus) (message : String) (o : Option A)
    → kind ≢ ok_status
    → Refuses (missing outcome kind message o)
unfolding missing Refuses
missing-Refuses outcome kind message none h = h
missing-Refuses outcome kind message (some value) h = tt

refuse_expired-Refuses : (now : ℕ) (handle : AgentHandle) → Refuses (refuse_expired now handle)
unfolding refuse_expired Refuses
refuse_expired-Refuses now handle = elim (Bool-cases (is_expired now handle)) [
  | inl late ↦ rw late (λ e. let t : expired_status ≡ ok_status = e in cc)
  | inr fresh ↦ rw fresh tt
]

refuse_denied-Refuses : (outcome : ApprovalOutcome) → Refuses (refuse_denied outcome)
unfolding refuse_denied Refuses
refuse_denied-Refuses approved = tt
refuse_denied-Refuses denied = λ e. let t : denied_status ≡ ok_status = e in cc

secret_of-Refuses : (field password : List ℕ) → Refuses (secret_of field password)
unfolding secret_of Refuses
secret_of-Refuses field password = elim (Bool-cases (bytes_eq field (codes "password"))) [
  | inl same ↦ rw same tt
  | inr other ↦ rw other (λ e. let t : error_status ≡ ok_status = e in cc)
]

pub admit-Refuses :
    (passwords : Passwords) (moment : Moment) (req : UseRequest) (store : HandleStore)
    → Refuses (admit passwords moment req store)
unfolding admit Refuses
admit-Refuses passwords moment req store =
    Refuses->>= _ _ (missing-Refuses _ not_found_status _ _ (λ e. cc)) λ handle.
      Refuses->>= _ _ (refuse_expired-Refuses moment.now handle) λ fresh.
        Refuses->>= _ _ (missing-Refuses _ denied_status _ _ (λ e. cc)) λ dest.
          Refuses->>= _ _ (refuse_denied-Refuses (prompt_use moment.prompt)) λ asked.
            Refuses->>= _ _ (missing-Refuses _ error_status _ _ (λ e. cc))
              λ password. Refuses->>= _ _ (secret_of-Refuses handle.field password) λ secret. tt
