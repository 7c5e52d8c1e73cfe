-- ===== src/Vault/Keeps.antt =====
-- The operations of crates/blindkey-core/src/vault.rs on stanzas, one by one, and the password
-- stanzas they leave.
use blindkey.Prelude.{
  ℕ, ◌≡◌, refl, arith, true, Bool-cases, inl, inr, Option, Option-cases, List, [], ◌∷◌, ◌++◌, ◌==◌,
}
use mathlib.Core.Path.{subst}
use blindkey.Result.{Result, ok, err, header_auth, ◌>>=◌, >>=-eq-ok}
use blindkey.Stanza.{Stanza}
use blindkey.Stanza.Kind.{password as password_kind, tpm}
use blindkey.Kdf.{reject_kdf_below_floor}
use blindkey.Envelope.{wrap_password_stanza, wrap_yubikey_2fa_stanza, generate_data_key}
use blindkey.Vault.{Suite, Vault, salts, find_stanza, has_stanza}
use blindkey.Vault.Stanzas.{
  RotateOptions, with_stanzas, replace_first, rewrap_each, rewrap_stanzas, rotate_data_key,
  remove_stanza_type, set_tpm_stanza, add_fido2_stanza, add_recovery_stanza, enroll_yubikey_2fa,
  enroll_keyfile_2fa, change_kdf, is_2fa,
}
use blindkey.Vault.Save.{Randoms, refresh_yubikey_2fa_stanza}
use blindkey.Vault.Kinds.{
  has_stanza-append_left, has_stanza-replace_other, has_stanza-replace_same,
  has_stanza-retain_others, find_stanza-type,
}
use blindkey.Vault.Passwords.{
  HasPassword, vault_inj, wrap_password_stanza-type, pair-HasPassword, failed_ne, differs, guard,
  rewrap_each-HasPassword,
}

module _ (suite : Suite) (v v' : Vault) (h : HasPassword v.header.stanzas) where
  appended :
      (wrapped : Result Stanza)
      → (wrapped >>= λ stanza. ok (with_stanzas v (v.header.stanzas ++ (stanza ∷ [])))) ≡ ok v'
      → HasPassword v'.header.stanzas
  appended wrapped e =
      let (stanza, wraps, is) = >>=-eq-ok wrapped _ e in
      subst (λ w. HasPassword w.header.stanzas) (vault_inj is)
        (has_stanza-append_left password_kind v.header.stanzas (stanza ∷ []) h)

  pub add_recovery-keeps :
      (random : Option (List ℕ)) (code : List ℕ)
      → add_recovery_stanza suite random v code ≡ ok v'
      → HasPassword v'.header.stanzas
  unfolding add_recovery_stanza
  add_recovery-keeps random code e = appended _ (guard _ _ _ (guard _ _ _ e).1).1

  pub add_fido2-keeps :
      (wrapped : Result Stanza)
      → add_fido2_stanza suite v wrapped ≡ ok v'
      → HasPassword v'.header.stanzas
  unfolding add_fido2_stanza
  add_fido2-keeps wrapped e = appended wrapped (guard _ _ _ (guard _ _ _ e).1).1

  -- The second of two stanzas that come from a chain is a password stanza.
  paired :
      (made : Result Stanza) (random : Option (List ℕ)) (secret : List ℕ) (more : Vault → Vault)
      → ((w : Vault) → (more w).header ≡ w.header)
      → (made >>= λ first.
          wrap_password_stanza suite.wrap_aead suite.hashes suite.argon random v.data_key secret
            (salts v.header)
          >>= λ second. ok (more (with_stanzas v (first ∷ second ∷ []))))
        ≡ ok v'
      → HasPassword v'.header.stanzas
  paired made random secret more same e =
      let (first, made_ok, rest) = >>=-eq-ok made _ e in
      let (second, wraps, is) =
        >>=-eq-ok
          (wrap_password_stanza suite.wrap_aead suite.hashes suite.argon random v.data_key secret
            (salts v.header))
          _ rest in
      subst (λ w. HasPassword w.header.stanzas) (vault_inj is)
        (rw (same (with_stanzas v (first ∷ second ∷ []))) (
          pair-HasPassword first second (
            wrap_password_stanza-type suite random v.data_key secret (salts v.header) second
              wraps)))

  pub enroll_yubikey-keeps :
      (random random2 : Option (List ℕ)) (password hw challenge code : List ℕ)
      → enroll_yubikey_2fa suite random random2 v password hw challenge code ≡ ok v'
      → HasPassword v'.header.stanzas
  unfolding enroll_yubikey_2fa
  enroll_yubikey-keeps random random2 password hw challenge code e =
      paired _ random2 code (λ w. record w { payload = record v.payload { yubikey_strict = true } })
        (λ w. refl) e

  pub enroll_keyfile-keeps :
      (random random2 : Option (List ℕ)) (password keyfile code : List ℕ)
      → enroll_keyfile_2fa suite random random2 v password keyfile code ≡ ok v'
      → HasPassword v'.header.stanzas
  unfolding enroll_keyfile_2fa
  enroll_keyfile-keeps random random2 password keyfile code e =
      paired _ random2 code (λ w. w) (λ w. refl) e

  pub set_tpm-keeps :
      (wrapped : Result Stanza)
      → set_tpm_stanza suite v wrapped ≡ ok v'
      → HasPassword v'.header.stanzas
  unfolding set_tpm_stanza
  set_tpm-keeps wrapped e =
      let (stanza, wraps, rest) = >>=-eq-ok wrapped _ e in
      elim (Bool-cases (has_stanza tpm v.header.stanzas)) [
        | inl old ↦
            let is : ok (with_stanzas v (replace_first tpm stanza v.header.stanzas)) ≡ ok v' =
              (rw old at rest) in
            subst (λ w. HasPassword w.header.stanzas) (vault_inj is)
              (has_stanza-replace_other password_kind tpm stanza v.header.stanzas
                (λ n. omega (arith, n)) h)
        | inr none_yet ↦ appended (ok stanza) (guard _ _ _ (rw none_yet at rest)).1
      ]

  pub upgrade_kdf-keeps :
      (random : Option (List ℕ)) (password : List ℕ) (m t p : ℕ)
      → change_kdf suite random v password m t p ≡ ok v'
      → HasPassword v'.header.stanzas
  unfolding change_kdf
  upgrade_kdf-keeps random password m t p e =
      let (strength, floor_ok, rest) = >>=-eq-ok (reject_kdf_below_floor m t p) _ e in
      let (stanza, wraps, is) =
        >>=-eq-ok
          (wrap_password_stanza suite.wrap_aead suite.hashes suite.argon random v.data_key password
            (record (salts v.header) { m_cost = m; t_cost = t; p_cost = p }))
          _ rest in
      subst (λ w. HasPassword w.header.stanzas) (vault_inj is)
        (has_stanza-replace_same password_kind stanza v.header.stanzas
          (wrap_password_stanza-type suite random v.data_key password _ stanza wraps) h)

  pub remove_kind-keeps :
      (k : ℕ) → remove_stanza_type suite v k ≡ ok v' → HasPassword v'.header.stanzas
  unfolding remove_stanza_type
  remove_kind-keeps k e =
      let (other, rest) = guard (k == password_kind) _ _ e in
      let (shorter, is) = guard _ _ _ rest in
      subst (λ w. HasPassword w.header.stanzas) (vault_inj is)
        (has_stanza-retain_others password_kind k v.header.stanzas (λ n. differs n other) h)

  pub refresh-keeps :
      (r : Randoms) (password hw challenge : List ℕ)
      → refresh_yubikey_2fa_stanza suite r v password hw challenge ≡ ok v'
      → HasPassword v'.header.stanzas
  unfolding refresh_yubikey_2fa_stanza
  refresh-keeps r password hw challenge e =
      elim (Option-cases (find_stanza password_kind v.header.stanzas)) [
        | inl missing ↦
            let t : err header_auth ≡ ok v' = (rw (refresh_yubikey_2fa_stanza, missing) at e) in
            absurd (failed_ne t)
        | inr (recovery, found) ↦
            let (yubikey, wraps, is) =
              >>=-eq-ok
                (wrap_yubikey_2fa_stanza suite.wrap_aead suite.hashes suite.argon r.wrap_nonce
                  v.data_key password hw challenge (salts v.header))
                _ (rw (refresh_yubikey_2fa_stanza, found) at e) in
            subst (λ w. HasPassword w.header.stanzas) (vault_inj is)
              (pair-HasPassword yubikey recovery
                (find_stanza-type password_kind v.header.stanzas recovery found))
      ]

  pub rotate-keeps :
      (random : Option (List ℕ)) (o : RotateOptions)
      → rotate_data_key suite random v o ≡ ok v'
      → HasPassword v'.header.stanzas
  unfolding rotate_data_key rewrap_stanzas
  rotate-keeps random o e =
      let (new_dk, fresh, rest) = >>=-eq-ok (generate_data_key random) _ e in
      let (w, rewrapped, is) = >>=-eq-ok (rewrap_stanzas suite v new_dk o) _ rest in
      let (code_given, each) = guard _ _ _ rewrapped in
      let (out, wraps, is_w) =
        >>=-eq-ok (rewrap_each suite (is_2fa v) o new_dk (salts v.header) 0 0 v.header.stanzas) _
          each in
      subst (λ u. HasPassword u.header.stanzas) (vault_inj is)
        (subst (λ u. HasPassword u.header.stanzas) (vault_inj is_w)
          (rewrap_each-HasPassword suite (is_2fa v) o new_dk (salts v.header) 0 0 v.header.stanzas
            out wraps h))
