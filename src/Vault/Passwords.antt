-- ===== src/Vault/Passwords.antt =====
-- The password stanzas that the operations of crates/blindkey-core/src/vault.rs make.
use blindkey.Prelude.{
  ℕ, ◌+◌, ◌≡◌, ◌≢◌, refl, sym, ap, arith, Bool, true, false, Bool-cases, inl, inr, Option, List, [],
  ◌∷◌, ◌==◌,
}
use mathlib.Core.Path.{subst}
use blindkey.Result.{Result, Error, ok, err, >>=-eq-ok}
use blindkey.Stanza.{Stanza}
use blindkey.Stanza.Kind.{password as password_kind}
use blindkey.Envelope.{Salts, wrap_password_stanza, wrap_with, password_wrapping_key}
use blindkey.Vault.{Suite, Vault, has_stanza}
use blindkey.Vault.Stanzas.{
  RotateOptions, rewrap_one, rewrap_each, refuse_if, password_secret, rewrap_password,
}

abbrev pub HasPassword : List Stanza → Type 0
HasPassword ss = has_stanza password_kind ss ≡ true

pub vault_inj : {v w : Vault} → ok v ≡ ok w → v ≡ w
vault_inj h = cc

stanzas_inj : {s t : List Stanza} → ok s ≡ ok t → s ≡ t
stanzas_inj h = cc

pub stanza_inj : {s t : Stanza} → ok s ≡ ok t → s ≡ t
stanza_inj h = cc

pub wrap_password_stanza-type :
    (suite : Suite) (random : Option (List ℕ)) (data_key password : List ℕ) (s : Salts)
    (stanza : Stanza)
    → wrap_password_stanza suite.wrap_aead suite.hashes suite.argon random data_key password s
      ≡ ok stanza
    → stanza.stanza_type ≡ password_kind
unfolding wrap_password_stanza
wrap_password_stanza-type suite random data_key password s stanza h =
    let (key, derived, rest) =
      >>=-eq-ok (password_wrapping_key suite.wrap_aead suite.hashes suite.argon password s) _ h in
    let (blob, wraps, is) =
      >>=-eq-ok (wrap_with suite.wrap_aead suite.hashes suite.argon key random data_key) _ rest in
    ap (λ x. x.stanza_type) (stanza_inj (sym is))

pub pair-HasPassword :
    (first second : Stanza) → second.stanza_type ≡ password_kind → HasPassword (first ∷ second ∷ [])
unfolding has_stanza
pair-HasPassword first second e =
    let is : (second.stanza_type == password_kind) ≡ true = ground arith in
    elim (Bool-cases (first.stanza_type == password_kind)) [
      | inl same ↦ rw same refl
      | inr other ↦ rw (other, is) refl
    ]

pub failed_ne : {A : Type 0} {e : Error} {a : A} → err e ≢ ok a
failed_ne h = cc

pub differs : {k : ℕ} → password_kind ≡ k → (k == password_kind) ≢ false
differs e h = let t : (1 == 1) ≡ false = (rw (← e) at h) in cc

pub guard :
    (test : Bool) (e : Error) (next : Result Vault) {v : Vault}
    → refuse_if test e next ≡ ok v
    → (test ≡ false) × (next ≡ ok v)
unfolding refuse_if
guard true e next h = absurd (failed_ne h)
guard false e next h = (refl, h)

rewrap_one-password :
    (suite : Suite) (index : ℕ) (two_factor : Bool) (o : RotateOptions) (new_dk : List ℕ)
    (s : Salts) (seen : ℕ) (stanza wrapped : Stanza)
    → (stanza.stanza_type == password_kind) ≡ true
    → rewrap_one suite index two_factor o new_dk s seen stanza ≡ ok wrapped
    → wrapped.stanza_type ≡ password_kind
unfolding rewrap_one rewrap_password
rewrap_one-password suite index two_factor o new_dk s seen stanza wrapped is e =
    let (secret, chosen, wraps) = >>=-eq-ok (password_secret two_factor o seen) _ (rw is at e) in
    wrap_password_stanza-type suite (o.random index) new_dk secret s wrapped wraps

pub rewrap_each-HasPassword :
    (suite : Suite) (two_factor : Bool) (o : RotateOptions) (new_dk : List ℕ) (s : Salts)
    (index seen : ℕ) (ss out : List Stanza)
    → rewrap_each suite two_factor o new_dk s index seen ss ≡ ok out
    → HasPassword ss
    → HasPassword out
unfolding rewrap_each has_stanza
rewrap_each-HasPassword suite two_factor o new_dk s index seen [] out e h = cc
rewrap_each-HasPassword suite two_factor o new_dk s index seen (stanza ∷ ss) out e h =
    let (wrapped, first, rest) =
      >>=-eq-ok (rewrap_one suite index two_factor o new_dk s seen stanza) _ e in
    let (tail, others, is) =
      >>=-eq-ok (rewrap_each suite two_factor o new_dk s (index + 1) _ ss) _ rest in
    subst HasPassword (stanzas_inj is) (elim (Bool-cases (stanza.stanza_type == password_kind)) [
      | inl password ↦
          let kind =
            rewrap_one-password suite index two_factor o new_dk s seen stanza wrapped password
              first in
          let same : (wrapped.stanza_type == password_kind) ≡ true = ground (arith, kind) in
          rw (has_stanza, same) refl
      | inr other ↦
          let later : HasPassword ss = (rw other at h) in
          elim (Bool-cases (wrapped.stanza_type == password_kind)) [
            | inl same ↦ rw (has_stanza, same) refl
            | inr not_it ↦
                rw (has_stanza, not_it)
                  (rewrap_each-HasPassword suite two_factor o new_dk s (index + 1) _ ss tail others
                    later)
          ]
    ])
