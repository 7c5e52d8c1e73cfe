-- ===== src/Vault/Unlocks.antt =====
-- Sequences of the operations of crates/blindkey-core/src/vault.rs on the stanzas of an opened
-- vault.
use blindkey.Prelude.{ℕ, ◌≡◌, inl, inr, Option, List, [], ◌∷◌}
use blindkey.Result.{Result, ok, err, Result-cases}
use blindkey.Stanza.{Stanza}
use blindkey.Vault.{Suite, Vault}
use blindkey.Vault.Stanzas.{
  RotateOptions, rotate_data_key, remove_stanza_type, set_tpm_stanza, add_fido2_stanza,
  add_recovery_stanza, enroll_yubikey_2fa, enroll_keyfile_2fa, change_kdf,
}
use blindkey.Vault.Save.{Randoms, refresh_yubikey_2fa_stanza}
use blindkey.Vault.Passwords.{HasPassword}
use blindkey.Vault.Keeps.{
  add_recovery-keeps, enroll_yubikey-keeps, enroll_keyfile-keeps, add_fido2-keeps, set_tpm-keeps,
  upgrade_kdf-keeps, rotate-keeps, remove_kind-keeps, refresh-keeps,
}

-- What is done to the stanzas of an opened vault, with the random bytes and the answers of others.
pub data Operation : Type 0 where
  add_recovery : (random : Option (List ℕ)) (recovery_code : List ℕ) → Operation
  enroll_yubikey :
      (random random2 : Option (List ℕ)) (password hw_response challenge recovery_code : List ℕ)
      → Operation
  enroll_keyfile :
      (random random2 : Option (List ℕ)) (password keyfile recovery_code : List ℕ) → Operation
  add_fido2 : Result Stanza → Operation
  set_tpm : Result Stanza → Operation
  upgrade_kdf :
      (random : Option (List ℕ)) (password : List ℕ) (m_cost t_cost p_cost : ℕ) → Operation
  rotate : (random : Option (List ℕ)) → RotateOptions → Operation
  remove_kind : ℕ → Operation
  refresh : Randoms → (password hw_response challenge : List ℕ) → Operation

unfoldable pub perform : Suite → Vault → Operation → Result Vault
perform suite v (add_recovery random code) = add_recovery_stanza suite random v code
perform suite v (enroll_yubikey random random2 password hw challenge code) =
    enroll_yubikey_2fa suite random random2 v password hw challenge code
perform suite v (enroll_keyfile random random2 password keyfile code) =
    enroll_keyfile_2fa suite random random2 v password keyfile code
perform suite v (add_fido2 wrapped) = add_fido2_stanza suite v wrapped
perform suite v (set_tpm wrapped) = set_tpm_stanza suite v wrapped
perform suite v (upgrade_kdf random password m t p) = change_kdf suite random v password m t p
perform suite v (rotate random o) = rotate_data_key suite random v o
perform suite v (remove_kind k) = remove_stanza_type suite v k
perform suite v (refresh r password hw challenge) =
    refresh_yubikey_2fa_stanza suite r v password hw challenge

-- One after the other; an operation that fails changes nothing.
unfoldable pub perform_all : Suite → Vault → List Operation → Vault
perform_all suite v [] = v
perform_all suite v (o ∷ os) = elim (perform suite v o) [
  | ok v' ↦ perform_all suite v' os
  | err e ↦ perform_all suite v os
]

perform-HasPassword :
    (suite : Suite) (v v' : Vault) (o : Operation)
    → HasPassword v.header.stanzas
    → perform suite v o ≡ ok v'
    → HasPassword v'.header.stanzas
unfolding perform
perform-HasPassword suite v v' (add_recovery random code) h e =
    add_recovery-keeps suite v v' h random code e
perform-HasPassword suite v v' (enroll_yubikey random random2 password hw challenge code) h e =
    enroll_yubikey-keeps suite v v' h random random2 password hw challenge code e
perform-HasPassword suite v v' (enroll_keyfile random random2 password keyfile code) h e =
    enroll_keyfile-keeps suite v v' h random random2 password keyfile code e
perform-HasPassword suite v v' (add_fido2 wrapped) h e = add_fido2-keeps suite v v' h wrapped e
perform-HasPassword suite v v' (set_tpm wrapped) h e = set_tpm-keeps suite v v' h wrapped e
perform-HasPassword suite v v' (upgrade_kdf random password m t p) h e =
    upgrade_kdf-keeps suite v v' h random password m t p e
perform-HasPassword suite v v' (rotate random o) h e = rotate-keeps suite v v' h random o e
perform-HasPassword suite v v' (remove_kind k) h e = remove_kind-keeps suite v v' h k e
perform-HasPassword suite v v' (refresh r password hw challenge) h e =
    refresh-keeps suite v v' h r password hw challenge e

-- Operations on the stanzas, however many and in whatever order, leave a vault that has a password
-- stanza with a password stanza.
pub perform_all-HasPassword :
    (suite : Suite) (v : Vault) (os : List Operation)
    → HasPassword v.header.stanzas
    → HasPassword (perform_all suite v os).header.stanzas
unfolding perform_all
perform_all-HasPassword suite v [] h = h
perform_all-HasPassword suite v (o ∷ os) h = elim (Result-cases (perform suite v o)) [
  | inl (v', done) ↦
      rw (perform_all, done)
        (perform_all-HasPassword suite v' os (perform-HasPassword suite v v' o h done))
  | inr (e, failed) ↦ rw (perform_all, failed) (perform_all-HasPassword suite v os h)
]
