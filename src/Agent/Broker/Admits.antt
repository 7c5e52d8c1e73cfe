-- ===== src/Agent/Broker/Admits.antt =====
-- The chain of checks of `handle_use` of crates/blindkey-agent/src/broker/unix.rs, and its
-- conditions written out.
use blindkey.Prelude.{
  ℕ, ◌<◌, ◌≡◌, ◌≢◌, ◌↔◌, refl, arith, Bool-cases, inl, inr, Option, none, some, codes, List, ap,
  ◌∙◌, bytes_eq, bytes_eq_refl, bytes_eq→eq,
}
use blindkey.Agent.Handle.{AgentHandle, HandleStore, Destination, is_expired, destination, get_mut}
use blindkey.Agent.Approval.{ApprovalOutcome, approved, denied, prompt_use}
use blindkey.Agent.Session.{UseRequest, Injection, Moment, UseStatus, UseResponse}
use blindkey.Agent.Broker.{
  Passwords, Step, stop, go, ◌>>=◌, missing, refuse_expired, refuse_denied, secret_of, admit,
}
use Prim.Native.String.{String}

-- The handle is registered and fresh, the destination is one of its own, the user approves, and
-- what is injected there is the password of the handle's entry.
abbrev pub Permitted : Passwords → Moment → UseRequest → HandleStore → Injection → Type 0
Permitted passwords moment req store injection =
    (handle : AgentHandle) × (dest : Destination) × (get_mut store req.handle ≡ some handle)
    × (moment.now < handle.expires_at)
    × (destination handle req.dest ≡ some dest)
    × (prompt_use moment.prompt ≡ approved)
    × (passwords handle.entry_title ≡ some injection.value)
    × (handle.field ≡ codes "password")
    × (injection
        ≡ record { command = dest.command; env_var = dest.env_var; value = injection.value })

go_ne {ℓ} :
    {A : Type ℓ} {outcome : List ℕ} {response : UseResponse} {value : A}
    → stop outcome response ≢ go value
go_ne h = cc

-- A chain that goes through went through its first step.
passed {ℓ κ μ} :
    {A : Type ℓ} {B : Type κ} {Goal : Type μ} (call : Step A) (next : A → Step B) {answer : B}
    → (call >>= next) ≡ go answer
    → ((value : A) → call ≡ go value → next value ≡ go answer → Goal)
    → Goal
unfolding ◌>>=◌
passed (stop outcome response) next h use_it = absurd (go_ne h)
passed (go value) next h use_it = use_it value refl h

go_inj {ℓ} : {A : Type ℓ} {x y : A} → go x ≡ go y → x ≡ y
go_inj h = cc

missing-eq-go {ℓ} :
    {A : Type ℓ} (outcome : String) (kind : UseStatus) (message : String) (o : Option A) {value : A}
    → missing outcome kind message o ≡ go value
    → o ≡ some value
unfolding missing
missing-eq-go outcome kind message none h = cc
missing-eq-go outcome kind message (some x) h = cc

refuse_expired-eq-go :
    (now : ℕ) (handle : AgentHandle)
    → (refuse_expired now handle ≡ go tt) ↔ (now < handle.expires_at)
unfolding refuse_expired is_expired
refuse_expired-eq-go now handle = ground arith

refuse_denied-eq-go :
    (outcome : ApprovalOutcome) → refuse_denied outcome ≡ go tt → outcome ≡ approved
unfolding refuse_denied
refuse_denied-eq-go approved h = refl
refuse_denied-eq-go denied h = cc

secret_of-eq-go :
    (field password : List ℕ) {secret : List ℕ}
    → secret_of field password ≡ go secret
    → (field ≡ codes "password") × (password ≡ secret)
unfolding secret_of
secret_of-eq-go field password h = elim (Bool-cases (bytes_eq field (codes "password"))) [
  | inl same ↦
      let t : go password ≡ go _ = (rw same at h) in (bytes_eq→eq field (codes "password") same, cc)
  | inr other ↦ let t : stop _ _ ≡ go _ = (rw other at h) in cc
]

pub admit→Permitted :
    (passwords : Passwords) (moment : Moment) (req : UseRequest) (store : HandleStore)
    (injection : Injection)
    → admit passwords moment req store ≡ go injection
    → Permitted passwords moment req store injection
unfolding admit
admit→Permitted passwords moment req store injection h = passed _ _ h λ handle e1 h1.
    passed _ _ h1 λ fresh e2 h2. passed _ _ h2 λ dest e3 h3. passed _ _ h3 λ asked e4 h4.
      passed _ _ h4 λ password e5 h5. passed _ _ h5 λ secret e6 h6.
        let same : record { command = dest.command; env_var = dest.env_var; value = secret }
            ≡ injection =
          go_inj h6 in
        let value : password ≡ injection.value =
          (secret_of-eq-go _ _ e6).1 ∙ ap (λ i. i.value) same in
        (
          handle,
          dest,
          missing-eq-go _ _ _ _ e1,
          (refuse_expired-eq-go moment.now handle).0 e2,
          missing-eq-go _ _ _ _ e3,
          refuse_denied-eq-go _ e4,
          rw (← value) (missing-eq-go _ _ _ _ e5),
          (secret_of-eq-go handle.field password e6).0,
          rw (← same) refl,
        )

pub Permitted→admit :
    (passwords : Passwords) (moment : Moment) (req : UseRequest) (store : HandleStore)
    (injection : Injection)
    → Permitted passwords moment req store injection
    → admit passwords moment req store ≡ go injection
unfolding admit ◌>>=◌ missing secret_of refuse_denied
Permitted→admit passwords moment req store injection (handle, dest, e1, e2, e3, e4, e5, e6, e7) =
    rw
      (
        e1,
        (refuse_expired-eq-go moment.now handle).1 e2,
        e3,
        e4,
        e5,
        e6,
        bytes_eq_refl (codes "password"),
        e7,
      )
      refl
