-- ===== src/Vault/Stanzas.antt =====
-- The operations of crates/blindkey-core/src/vault.rs on the stanzas of an opened vault.
use blindkey.Prelude.{
  ℕ, suc, ◌+◌, Bool, true, false, Option, none, some, List, [], ◌∷◌, ◌++◌, length, ltb, leb, ◌==◌,
  ◌||◌, ◌&&◌, codes, if◌then◌else◌,
}
use blindkey.Result.{
  Result, Error, ok, err, crypto_failed, hardware, yubi_key_strict_save, ◌>>=◌, ◌>>◌,
}
use blindkey.Kdf.{reject_kdf_below_floor}
use blindkey.Stanza.{Stanza, max_stanzas}
use blindkey.Stanza.Kind.{password as password_kind, pw_yubikey, pw_keyfile, fido2, tpm, kind_name}
use blindkey.Envelope.{
  Salts, wrap_password_stanza, wrap_yubikey_2fa_stanza, wrap_keyfile_2fa_stanza, generate_data_key,
}
use blindkey.Vault.{Suite, Vault, Responder, salts, has_stanza}

unfoldable pub count_stanzas : ℕ → List Stanza → ℕ
count_stanzas k [] = 0
count_stanzas k (s ∷ ss) =
    let rest = count_stanzas k ss in if s.stanza_type == k then suc rest else rest

abbrev pub with_stanzas : Vault → List Stanza → Vault
with_stanzas v ss = record v {
  header = record v.header { span = record v.header.span { stanzas = ss } };
}

unfoldable pub is_2fa : Vault → Bool
is_2fa v = has_stanza pw_yubikey v.header.stanzas || has_stanza pw_keyfile v.header.stanzas

unfoldable pub has_recovery_stanza : Vault → Bool
has_recovery_stanza v =
    let n = count_stanzas password_kind v.header.stanzas in ltb 1 n || (is_2fa v && n == 1)

-- The first stanza of the kind, replaced.
unfoldable pub replace_first : ℕ → Stanza → List Stanza → List Stanza
replace_first k new [] = []
replace_first k new (s ∷ ss) =
    let rest = replace_first k new ss in if s.stanza_type == k then new ∷ ss else s ∷ rest

unfoldable pub retain_others : ℕ → List Stanza → List Stanza
retain_others k [] = []
retain_others k (s ∷ ss) =
    let rest = retain_others k ss in if s.stanza_type == k then rest else s ∷ rest

-- The mark that the `{:?}` of a text puts around it.
abbrev quote : ℕ
quote = 0x22

-- The secrets of a rotation, and the random bytes and challenges of its calls, stanza by stanza.
pub record RotateOptions : Type 0 where
  pub password : List ℕ
  pub recovery_code : Option (List ℕ)
  pub keyfile : Option (List ℕ)
  pub yubikey_respond : Option Responder
  pub random : ℕ → Option (List ℕ)
  pub challenge : ℕ → Option (List ℕ)

abbrev pub or_error {ℓ} : {A : Type ℓ} → Error → Option A → Result A
or_error e none = err e
or_error e (some a) = ok a

-- The secret of a password stanza: the recovery code, but for the first one without a second factor.
unfoldable pub password_secret : Bool → RotateOptions → ℕ → Result (List ℕ)
password_secret two_factor o passwords_seen =
    if two_factor || ltb 0 passwords_seen
    then or_error (hardware (codes "missing recovery code for recovery stanza")) o.recovery_code
    else ok o.password

-- `if test { return Err(e) }`, and what follows.
unfoldable pub refuse_if : Bool → Error → Result Vault → Result Vault
refuse_if true e next = err e
refuse_if false e next = next

module _ (suite : Suite) where
  unfoldable pub add_recovery_stanza : Option (List ℕ) → Vault → List ℕ → Result Vault
  add_recovery_stanza random v recovery_code =
      refuse_if (is_2fa v)
        (hardware (codes "2FA vaults already have a recovery stanza from enrollment"))
        (refuse_if (leb 2 (count_stanzas password_kind v.header.stanzas))
          (hardware (codes "recovery stanza already present"))
          (wrap_password_stanza suite.wrap_aead suite.hashes suite.argon random v.data_key
              recovery_code (salts v.header)
            >>= λ stanza. ok (with_stanzas v (v.header.stanzas ++ (stanza ∷ [])))))

  unfoldable pub enroll_yubikey_2fa :
      (random random' : Option (List ℕ))
      → Vault
      → (password hw_response challenge recovery_code : List ℕ) → Result Vault
  enroll_yubikey_2fa random random' v password hw_response challenge recovery_code =
      wrap_yubikey_2fa_stanza suite.wrap_aead suite.hashes suite.argon random v.data_key password
        hw_response challenge (salts v.header)
      >>= λ yubikey.
          wrap_password_stanza suite.wrap_aead suite.hashes suite.argon random' v.data_key
            recovery_code (salts v.header)
          >>= λ recovery. ok (record (with_stanzas v (yubikey ∷ recovery ∷ [])) {
            payload = record v.payload { yubikey_strict = true };
          })

  unfoldable pub enroll_keyfile_2fa :
      (random random' : Option (List ℕ))
      → Vault
      → (password keyfile recovery_code : List ℕ) → Result Vault
  enroll_keyfile_2fa random random' v password keyfile recovery_code =
      wrap_keyfile_2fa_stanza suite.wrap_aead suite.hashes suite.argon random v.data_key password
        keyfile (salts v.header)
      >>= λ kf.
          wrap_password_stanza suite.wrap_aead suite.hashes suite.argon random' v.data_key
            recovery_code (salts v.header)
          >>= λ recovery. ok (with_stanzas v (kf ∷ recovery ∷ []))

  -- The stanza, or the failure to make it, comes from fido2.rs.
  unfoldable pub add_fido2_stanza : Vault → Result Stanza → Result Vault
  add_fido2_stanza v wrapped =
      refuse_if (leb max_stanzas (length v.header.stanzas))
        (hardware (codes "stanza limit reached (max 8)"))
        (refuse_if (has_stanza fido2 v.header.stanzas)
          (hardware (codes "FIDO2 stanza already enrolled"))
          (wrapped >>= λ stanza. ok (with_stanzas v (v.header.stanzas ++ (stanza ∷ [])))))

  -- The stanza, or the failure to make it, comes from tpm.rs.
  unfoldable pub set_tpm_stanza : Vault → Result Stanza → Result Vault
  set_tpm_stanza v wrapped = wrapped >>= λ stanza.
      if has_stanza tpm v.header.stanzas
      then ok (with_stanzas v (replace_first tpm stanza v.header.stanzas))
      else refuse_if (leb max_stanzas (length v.header.stanzas))
          (hardware (codes "stanza limit reached (max 8)"))
          (ok (with_stanzas v (v.header.stanzas ++ (stanza ∷ []))))

  -- The stanza is wrapped under the new costs, and the header's salt and id.
  unfoldable pub change_kdf :
      Option (List ℕ) → Vault → List ℕ → (m_cost t_cost p_cost : ℕ) → Result Vault
  change_kdf random v password m_cost t_cost p_cost =
      reject_kdf_below_floor m_cost t_cost p_cost
      >> (wrap_password_stanza suite.wrap_aead suite.hashes suite.argon random v.data_key password
            (record (salts v.header) { m_cost = m_cost; t_cost = t_cost; p_cost = p_cost })
          >>= λ new_stanza.
              let changed =
                with_stanzas v (replace_first password_kind new_stanza v.header.stanzas) in
              ok (record changed {
                header = record changed.header {
                  span = record changed.header.span {
                    kdf = record v.header.kdf { m_cost = m_cost; t_cost = t_cost; p_cost = p_cost };
                  };
                };
              }))

  unfoldable pub rewrap_password : ℕ → Bool → RotateOptions → List ℕ → Salts → ℕ → Result Stanza
  rewrap_password index two_factor o new_dk s passwords_seen =
      password_secret two_factor o passwords_seen >>= λ secret.
      wrap_password_stanza suite.wrap_aead suite.hashes suite.argon (o.random index) new_dk secret s

  rewrap_yubikey : ℕ → RotateOptions → List ℕ → Salts → Result Stanza
  rewrap_yubikey index o new_dk s = or_error yubi_key_strict_save o.yubikey_respond >>= λ respond.
      or_error crypto_failed (o.challenge index) >>= λ challenge. respond challenge >>= λ hw.
      wrap_yubikey_2fa_stanza suite.wrap_aead suite.hashes suite.argon (o.random index) new_dk
        o.password hw challenge s

  rewrap_keyfile : ℕ → RotateOptions → List ℕ → Salts → Result Stanza
  rewrap_keyfile index o new_dk s =
      or_error (hardware (codes "keyfile required for pw-keyfile vault rotation")) o.keyfile
      >>= λ kf.
          wrap_keyfile_2fa_stanza suite.wrap_aead suite.hashes suite.argon (o.random index) new_dk
            o.password kf s

  unsupported : ℕ → Result Stanza
  unsupported k = err (
      hardware
        (codes "rotate-data-key does not support `" ++ (kind_name k ++ codes "` stanzas yet")))

  -- One round of the loop of `rewrap_stanzas`, at an index.
  unfoldable pub rewrap_one : ℕ → Bool → RotateOptions → List ℕ → Salts → ℕ → Stanza → Result Stanza
  unfolding rewrap_yubikey rewrap_keyfile unsupported
  rewrap_one index two_factor o new_dk s passwords_seen stanza =
      if stanza.stanza_type == password_kind
      then rewrap_password index two_factor o new_dk s passwords_seen
      else if stanza.stanza_type == pw_yubikey
      then rewrap_yubikey index o new_dk s
      else if stanza.stanza_type == pw_keyfile
      then rewrap_keyfile index o new_dk s
      else unsupported stanza.stanza_type

  unfoldable pub rewrap_each :
      Bool → RotateOptions → List ℕ → Salts → ℕ → ℕ → List Stanza → Result (List Stanza)
  rewrap_each two_factor o new_dk s index passwords_seen [] = ok []
  rewrap_each two_factor o new_dk s index passwords_seen (stanza ∷ stanzas) =
      rewrap_one index two_factor o new_dk s passwords_seen stanza >>= λ wrapped.
      rewrap_each two_factor o new_dk s (index + 1)
        (if stanza.stanza_type == password_kind then passwords_seen + 1 else passwords_seen) stanzas
      >>= λ rest. ok (wrapped ∷ rest)

  unfoldable pub rewrap_stanzas : Vault → List ℕ → RotateOptions → Result Vault
  rewrap_stanzas v new_dk o =
      let no_code : Bool = elim o.recovery_code [ none ↦ true | some code ↦ false ] in
      refuse_if (has_recovery_stanza v && no_code)
        (hardware (
          codes
            "recovery code required to re-seal the anti-lockout stanza during data-key rotation"))
        (rewrap_each (is_2fa v) o new_dk (salts v.header) 0 0 v.header.stanzas >>= λ out.
          ok (with_stanzas v out))

  unfoldable pub rotate_data_key : Option (List ℕ) → Vault → RotateOptions → Result Vault
  rotate_data_key random v o = generate_data_key random >>= λ new_dk.
      rewrap_stanzas v new_dk o >>= λ v'. ok (record v' { data_key = new_dk })

  unfoldable pub remove_stanza_type : Vault → ℕ → Result Vault
  remove_stanza_type v k =
      let kept = retain_others k v.header.stanzas in
      refuse_if (k == password_kind)
        (hardware (codes "password stanza cannot be removed (constraint C5)"))
        (refuse_if (length kept == length v.header.stanzas)
          (hardware (codes "no " ++ (quote ∷ kind_name k ++ (quote ∷ codes " stanza enrolled"))))
          (ok (with_stanzas v kept)))
