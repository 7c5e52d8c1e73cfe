-- ===== src/Result.antt =====
-- The error type and result alias of crates/blindkey-core/src/error.rs.
use blindkey.Prelude.{ℕ, ◌≡◌, refl, List, ◌⊎◌, inl, inr}

-- `Error::Io` wraps a value of the standard library, of which the model keeps only its kind.
pub data IoKind : Type 0 where
  not_found other_kind : IoKind

pub data Error : Type 0 where
  not_a_vault wrong_container_kind sealed_open_failed volume_open_failed : Error
  volume_anchor_mismatch working_copy_failed working_copy_hydration : Error
  working_copy_work_sync_root working_copy_remote_changed working_copy_rename_failed : Error
  working_copy_unresolved_conflicts working_copy_still_mounted : Error
  newer_version header_corrupt header_auth unsupported_kdf header_tampered : Error
  kdf_params_out_of_range kdf_below_floor crypto_failed body_auth body_malformed : Error
  rollback : Error
  hardware : List ℕ → Error
  yubi_key_strict_save : Error
  io : IoKind → Error

-- `crate::Result`
pub data Result {ℓ} (Value : Type ℓ) : Type ℓ where
  err : Error → Result Value
  ok : Value → Result Value

-- `.map_err(|_| e)`
abbrev pub map_err {ℓ} : {Value : Type ℓ} → Error → Result Value → Result Value
map_err e (err _) = err e
map_err e (ok value) = ok value

-- The operator `?` on a call, whose value goes to what follows.
infixl 5 ◌>>=◌
abbrev pub ◌>>=◌ {ℓ κ} :
    {Value : Type ℓ} {Next : Type κ} → Result Value → (Value → Result Next) → Result Next
err failure >>= next = err failure
ok value >>= next = next value

infixl 5 ◌>>◌
abbrev pub ◌>>◌ {ℓ} : {Next : Type ℓ} → Result (Unit {0}) → Result Next → Result Next
check >> next = check >>= λ done. next

-- Where a chain succeeds, its first call did.
pub >>=-eq-ok {ℓ κ} :
    {Value : Type ℓ} {Next : Type κ} (call : Result Value) (next : Value → Result Next)
    {answer : Next}
    → (call >>= next) ≡ ok answer
    → (value : Value) × (call ≡ ok value) × (next value ≡ ok answer)
>>=-eq-ok (err failure) next h = cc
>>=-eq-ok (ok value) next h = (value, refl, h)

pub map_err-eq-ok {ℓ} :
    {A : Type ℓ} (e : Error) (m : Result A) {a : A} → map_err e m ≡ ok a → m ≡ ok a
map_err-eq-ok e (ok a) h = h
map_err-eq-ok e (err x) h = cc

pub Result-cases {ℓ} :
    {A : Type ℓ} (r : Result A) → ((a : A) × (r ≡ ok a)) ⊎ ((e : Error) × (r ≡ err e))
Result-cases (ok a) = inl (a, refl)
Result-cases (err e) = inr (e, refl)
