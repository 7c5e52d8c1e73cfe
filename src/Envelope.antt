-- ===== src/Envelope.antt =====
-- crates/blindkey-core/src/envelope/mod.rs: the data key wrapped in stanzas, each under a key of
-- its own. `Aead` stands for XChaCha20-Poly1305, with nonces of 24 bytes; the random bytes of a
-- call are an argument, which is missing where the system gives none.
pub mod Unwraps
mod Tests
use blindkey.Prelude.{
  ℕ, ◌+◌, not, Option, none, some, List, [], ◌∷◌, ◌++◌, length, take, drop, ltb, ◌==◌, bytes_eq,
  codes, if◌then◌else◌,
}
use blindkey.Result.{Result, ok, err, crypto_failed, header_auth, ◌>>=◌, ◌>>◌}
use blindkey.Primitives.{Hashes, Aead, ok_or}
use blindkey.Kdf.Argon.{Argon, argon2id}
use blindkey.Stanza.{Stanza}
use blindkey.Stanza.Kind.{password as password_kind, pw_yubikey, pw_keyfile}

abbrev pub wrap_nonce_len : ℕ
wrap_nonce_len = 24

abbrev pub wrapped_key_len : ℕ
wrapped_key_len = 48

abbrev pub challenge_len : ℕ
challenge_len = 32

-- The header's values that a wrapping key depends on.
pub record Salts : Type 0 where
  pub salt : List ℕ
  pub vault_id : List ℕ
  pub m_cost : ℕ
  pub t_cost : ℕ
  pub p_cost : ℕ

unfoldable pub generate_data_key : Option (List ℕ) → Result (List ℕ)
generate_data_key random = ok_or crypto_failed random

module _ (aead : Aead) (hashes : Hashes) (argon : Argon) where
  unfoldable pub password_wrapping_key : List ℕ → Salts → Result (List ℕ)
  password_wrapping_key password s =
      argon2id argon password s.salt s.m_cost s.t_cost s.p_cost >>= λ ikm.
      ok (hashes.hkdf_sha256 ikm s.vault_id (codes "vault-pw-wrap-v1"))

  unfoldable pub password_key_commitment : List ℕ → Salts → Result (List ℕ)
  password_key_commitment password s = password_wrapping_key password s >>= λ key.
      ok (hashes.hkdf_sha256 key s.vault_id (codes "volume-kcom-v1"))

  -- The code from the cipher on, which all wrapping functions share: random nonce and wrapped key.
  unfoldable pub wrap_with : List ℕ → Option (List ℕ) → List ℕ → Result (List ℕ)
  wrap_with key random data_key = ok_or crypto_failed random >>= λ nonce.
      ok_or crypto_failed (aead.seal key nonce [] data_key) >>= λ wrapped. ok (nonce ++ wrapped)

  unfoldable pub unwrap_with : List ℕ → List ℕ → List ℕ → Result (List ℕ)
  unwrap_with key nonce wrapped =
      ok_or header_auth (aead.unseal key nonce [] wrapped) >>= λ plaintext.
      if length plaintext == 32 then ok plaintext else err header_auth

  unfoldable pub wrap_password_stanza : Option (List ℕ) → List ℕ → List ℕ → Salts → Result Stanza
  wrap_password_stanza random data_key password s = password_wrapping_key password s >>= λ key.
      wrap_with key random data_key >>= λ blob.
      ok (record { stanza_type = password_kind; blob = blob })

  unfoldable pub unwrap_password_stanza : Stanza → List ℕ → Salts → Result (List ℕ)
  unwrap_password_stanza stanza password s =
      if not (stanza.stanza_type == password_kind)
      then err crypto_failed
      else if ltb (length stanza.blob) (wrap_nonce_len + wrapped_key_len)
      then err header_auth
      else (password_wrapping_key password s >>= λ key.
          unwrap_with key (take wrap_nonce_len stanza.blob)
            (take wrapped_key_len (drop wrap_nonce_len stanza.blob)))

  -- The second factor is bound to the password's key.
  unfoldable pub composite_wrapping_key : List ℕ → List ℕ → Salts → List ℕ → Result (List ℕ)
  composite_wrapping_key password factor s info =
      argon2id argon password s.salt s.m_cost s.t_cost s.p_cost >>= λ pw_ikm.
      ok (hashes.hkdf_sha256 (pw_ikm ++ factor) s.vault_id info)

  unfoldable pub wrap_yubikey_2fa_stanza :
      Option (List ℕ) → List ℕ → List ℕ → List ℕ → List ℕ → Salts → Result Stanza
  wrap_yubikey_2fa_stanza random data_key password hw_response challenge s =
      composite_wrapping_key password hw_response s (codes "vault-2fa-wrap-v1") >>= λ key.
      wrap_with key random data_key >>= λ blob.
      ok (record { stanza_type = pw_yubikey; blob = challenge ++ blob })

  unfoldable pub yubikey_challenge : Stanza → Result (List ℕ)
  yubikey_challenge stanza =
      if not (stanza.stanza_type == pw_yubikey)
      then err header_auth
      else if ltb (length stanza.blob) challenge_len
      then err header_auth
      else ok (take challenge_len stanza.blob)

  unfoldable pub unwrap_yubikey_2fa_stanza : Stanza → List ℕ → List ℕ → Salts → Result (List ℕ)
  unwrap_yubikey_2fa_stanza stanza password hw_response s =
      if not (stanza.stanza_type == pw_yubikey)
      then err crypto_failed
      else if ltb (length stanza.blob) (challenge_len + wrap_nonce_len + wrapped_key_len)
      then err header_auth
      else (composite_wrapping_key password hw_response s (codes "vault-2fa-wrap-v1") >>= λ key.
          unwrap_with key (take wrap_nonce_len (drop challenge_len stanza.blob))
            (take wrapped_key_len (drop (challenge_len + wrap_nonce_len) stanza.blob)))

  abbrev pub keyfile_factor : List ℕ → List ℕ
  keyfile_factor keyfile = hashes.sha256 keyfile

  unfoldable pub wrap_keyfile_2fa_stanza :
      Option (List ℕ) → List ℕ → List ℕ → List ℕ → Salts → Result Stanza
  wrap_keyfile_2fa_stanza random data_key password keyfile s =
      composite_wrapping_key password (keyfile_factor keyfile) s (codes "vault-keyfile-wrap-v1")
      >>= λ key. wrap_with key random data_key >>= λ blob.
          ok (record { stanza_type = pw_keyfile; blob = blob })

  unfoldable pub unwrap_keyfile_2fa_stanza : Stanza → List ℕ → List ℕ → Salts → Result (List ℕ)
  unwrap_keyfile_2fa_stanza stanza password keyfile s =
      if not (stanza.stanza_type == pw_keyfile)
      then err crypto_failed
      else if ltb (length stanza.blob) (wrap_nonce_len + wrapped_key_len)
      then err header_auth
      else (composite_wrapping_key password (keyfile_factor keyfile) s
            (codes "vault-keyfile-wrap-v1")
          >>= λ key.
              unwrap_with key (take wrap_nonce_len stanza.blob)
                (take wrapped_key_len (drop wrap_nonce_len stanza.blob)))
