-- ===== src/Vault/Bypass.antt =====
-- `change_kdf` and the refreshing save of crates/blindkey-core/src/vault.rs on a vault with other
-- stanzas.
use blindkey.Prelude.{
  ℕ, ◌≡◌, refl, sym, ap, arith, true, false, Bool-cases, inl, inr, Option, none, some, Option-cases,
  List, [], ◌∷◌, length, ◌==◌,
}
use mathlib.Core.Path.{subst}
use blindkey.Result.{Error, ok, err, header_auth, >>=-eq-ok}
use blindkey.Stanza.{Stanza}
use blindkey.Stanza.Kind.{password as password_kind, pw_yubikey, fido2, tpm}
use blindkey.Kdf.{reject_kdf_below_floor}
use blindkey.Envelope.{
  Salts, wrap_password_stanza, wrap_yubikey_2fa_stanza, wrap_with, composite_wrapping_key,
}
use blindkey.Vault.{Suite, Vault, salts, find_stanza, has_stanza}
use blindkey.Vault.Stanzas.{replace_first, change_kdf}
use blindkey.Vault.Save.{Randoms, refresh_yubikey_2fa_stanza}
use blindkey.Vault.Kinds.{find_stanza-type}
use blindkey.Vault.{try_passwords, unwrap_data_key, with_keyfile}
use blindkey.Envelope.{unwrap_password_stanza}
use blindkey.Envelope.Unwraps.{unwrap_password_stanza-wrap_password_stanza}
use blindkey.Vault.Passwords.{
  HasPassword, vault_inj, stanza_inj, failed_ne, wrap_password_stanza-type,
}

try_passwords-replace_first :
    (suite : Suite) (ss : List Stanza) (new : Stanza) (password : List ℕ) (s : Salts) (last : Error)
    (dk : List ℕ)
    → HasPassword ss
    → new.stanza_type ≡ password_kind
    → unwrap_password_stanza suite.wrap_aead suite.hashes suite.argon new password s ≡ ok dk
    → try_passwords suite (replace_first password_kind new ss) password s last ≡ ok dk
unfolding try_passwords replace_first has_stanza
try_passwords-replace_first suite [] new password s last dk h kind opens = cc
try_passwords-replace_first suite (t ∷ ss) new password s last dk h kind opens =
    elim (Bool-cases (t.stanza_type == password_kind)) [
      | inl same ↦
          let is : (new.stanza_type == password_kind) ≡ true = ground (arith, kind) in
          rw (same, try_passwords, is, opens) refl
      | inr other ↦
          let later : HasPassword ss = (rw other at h) in
          rw (other, try_passwords, other)
            (try_passwords-replace_first suite ss new password s last dk later kind opens)
    ]

-- After the costs of a vault, which has a password stanza and a data key of 32 bytes, are changed with
-- a password and a nonce of 24 bytes, the password alone, with no YubiKey and no keyfile, unwraps the
-- vault's data key, whatever other stanzas the vault has.
pub change_kdf-password_alone :
    (suite : Suite) (nonce : List ℕ) (v v' : Vault) (password : List ℕ) (m t p : ℕ)
    → HasPassword v.header.stanzas
    → length nonce ≡ 24
    → length v.data_key ≡ 32
    → change_kdf suite (some nonce) v password m t p ≡ ok v'
    → unwrap_data_key suite v'.header password none none ≡ ok v.data_key
unfolding change_kdf unwrap_data_key with_keyfile
change_kdf-password_alone suite nonce v v' password m t p h nonce_size key_size e =
    let (strength, floor_ok, rest) = >>=-eq-ok (reject_kdf_below_floor m t p) _ e in
    let new_salts : Salts = record (salts v.header) { m_cost = m; t_cost = t; p_cost = p } in
    let (stanza, wraps, is) =
      >>=-eq-ok
        (wrap_password_stanza suite.wrap_aead suite.hashes suite.argon (some nonce) v.data_key
          password new_salts)
        _ rest in
    let opens =
      unwrap_password_stanza-wrap_password_stanza suite.wrap_aead suite.hashes suite.argon nonce
        v.data_key nonce_size key_size password new_salts stanza wraps in
    subst (λ w. unwrap_data_key suite w.header password none none ≡ ok v.data_key) (vault_inj is)
      (try_passwords-replace_first suite v.header.stanzas stanza password new_salts header_auth
        v.data_key h
        (wrap_password_stanza-type suite (some nonce) v.data_key password new_salts stanza wraps)
        opens)

wrap_yubikey-type :
    (suite : Suite) (random : Option (List ℕ)) (data_key password hw challenge : List ℕ) (s : Salts)
    (stanza : Stanza)
    → wrap_yubikey_2fa_stanza suite.wrap_aead suite.hashes suite.argon random data_key password hw
        challenge s
      ≡ ok stanza
    → stanza.stanza_type ≡ pw_yubikey
unfolding wrap_yubikey_2fa_stanza
wrap_yubikey-type suite random data_key password hw challenge s stanza h =
    let (key, derived, rest) =
      >>=-eq-ok (composite_wrapping_key suite.wrap_aead suite.hashes suite.argon password hw s _) _
        h in
    let (blob, wraps, is) =
      >>=-eq-ok (wrap_with suite.wrap_aead suite.hashes suite.argon key random data_key) _ rest in
    ap (λ x. x.stanza_type) (stanza_inj (sym is))

-- Refreshing the stanza of the YubiKey leaves two stanzas, one of them the YubiKey's, and none of a
-- FIDO2 key or of a TPM.
pub refresh-forgets :
    (suite : Suite) (r : Randoms) (v v' : Vault) (password hw challenge : List ℕ)
    → refresh_yubikey_2fa_stanza suite r v password hw challenge ≡ ok v'
    → (length v'.header.stanzas ≡ 2)
      × (has_stanza pw_yubikey v'.header.stanzas ≡ true)
      × (has_stanza fido2 v'.header.stanzas ≡ false)
      × (has_stanza tpm v'.header.stanzas ≡ false)
unfolding refresh_yubikey_2fa_stanza has_stanza
refresh-forgets suite r v v' password hw challenge e =
    elim (Option-cases (find_stanza password_kind v.header.stanzas)) [
      | inl missing ↦
          let t : err header_auth ≡ ok v' = (rw (refresh_yubikey_2fa_stanza, missing) at e) in
          absurd (failed_ne t)
      | inr (recovery, found) ↦
          let (yubikey, wraps, is) =
            >>=-eq-ok
              (wrap_yubikey_2fa_stanza suite.wrap_aead suite.hashes suite.argon r.wrap_nonce
                v.data_key password hw challenge (salts v.header))
              _ (rw (refresh_yubikey_2fa_stanza, found) at e) in
          let first =
            wrap_yubikey-type suite r.wrap_nonce v.data_key password hw challenge (salts v.header)
              yubikey wraps in
          let second = find_stanza-type password_kind v.header.stanzas recovery found in
          rw (← vault_inj is, first, second) (refl, refl, refl, refl)
    ]
