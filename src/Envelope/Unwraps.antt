-- ===== src/Envelope/Unwraps.antt =====
-- The wrapping and the unwrapping functions of crates/blindkey-core/src/envelope/mod.rs together.
use blindkey.Prelude.{
  ℕ, ◌+◌, ◌≡◌, refl, sym, ap, ◌∙◌, arith, some, List, [], ◌++◌, length, length-append, take, drop,
  take-all, take-append_at, drop-append_at, drop-drop, codes,
}
use blindkey.Result.{ok, crypto_failed, >>=-eq-ok}
use blindkey.Primitives.{Hashes, Aead, ok_or}
use blindkey.Volume.Block.Binding.{ok_or-eq-ok}
use blindkey.Kdf.Argon.{Argon}
use blindkey.Stanza.{Stanza}
use blindkey.Stanza.Kind.{password as password_kind, pw_yubikey, pw_keyfile}
use blindkey.Envelope.{
  Salts, password_wrapping_key, composite_wrapping_key, wrap_with, unwrap_with,
  wrap_password_stanza, unwrap_password_stanza, wrap_yubikey_2fa_stanza, unwrap_yubikey_2fa_stanza,
  yubikey_challenge, wrap_keyfile_2fa_stanza, unwrap_keyfile_2fa_stanza, keyfile_factor,
}

stanza_inj : {s t : Stanza} → ok s ≡ ok t → s ≡ t
stanza_inj h = cc

module _ (aead : Aead) (hashes : Hashes) (argon : Argon) (nonce data_key : List ℕ)
    (nonce_size : length nonce ≡ 24) (key_size : length data_key ≡ 32) where
  -- The wrapped key, and that it is opened.
  wrapped :
      (key blob : List ℕ)
      → wrap_with aead hashes argon key (some nonce) data_key ≡ ok blob
      → (ct : List ℕ) × (blob ≡ nonce ++ ct)
        × (length ct ≡ 48)
        × (unwrap_with aead hashes argon key nonce ct ≡ ok data_key)
  unfolding wrap_with unwrap_with
  wrapped key blob h =
      let (ct, sealed, is) =
        >>=-eq-ok (ok_or crypto_failed (aead.seal key nonce [] data_key)) _ h in
      let seals : aead.seal key nonce [] data_key ≡ some ct = ok_or-eq-ok _ _ sealed in
      let blob_is : blob ≡ nonce ++ ct = cc in
      (
        ct,
        blob_is,
        aead.length-seal key nonce [] data_key ct seals ∙ ap (λ n. n + 16) key_size,
        rw (aead.unseal-seal key nonce [] data_key ct seals, key_size) refl,
      )

  -- The front of a stanza of nonce and wrapped key, and its parts.
  parts :
      (ct : List ℕ)
      → length ct ≡ 48
      → (take 24 (nonce ++ ct) ≡ nonce)
        × (take 48 (drop 24 (nonce ++ ct)) ≡ ct)
        × (length (nonce ++ ct) ≡ 72)
  parts ct size = (
    take-append_at 24 nonce ct nonce_size,
    rw (drop-append_at 24 nonce ct nonce_size) (take-all 48 ct (omega (arith, size))),
    omega (arith, length-append nonce ct, nonce_size, size),
  )

  -- A data key of 32 bytes that is wrapped in a password stanza, with a nonce of 24 bytes, is unwrapped
  -- with the same password under the same header values.
  pub unwrap_password_stanza-wrap_password_stanza :
      (password : List ℕ) (s : Salts) (stanza : Stanza)
      → wrap_password_stanza aead hashes argon (some nonce) data_key password s ≡ ok stanza
      → unwrap_password_stanza aead hashes argon stanza password s ≡ ok data_key
  unfolding wrap_password_stanza unwrap_password_stanza
  unwrap_password_stanza-wrap_password_stanza password s stanza h =
      let (key, derived, rest) =
        >>=-eq-ok (password_wrapping_key aead hashes argon password s) _ h in
      let (blob, wraps, is) =
        >>=-eq-ok (wrap_with aead hashes argon key (some nonce) data_key) _ rest in
      let (ct, blob_is, size, opens) = wrapped key blob wraps in
      let (front, back, total) = parts ct size in
      let stanza_is : stanza ≡ record { stanza_type = password_kind; blob = blob } =
        stanza_inj (sym is) in
      rw (stanza_is, blob_is, total, derived, front, back) opens

  -- The same for a stanza of a password and a keyfile, with the same password and keyfile.
  pub unwrap_keyfile_2fa_stanza-wrap_keyfile_2fa_stanza :
      (password keyfile : List ℕ) (s : Salts) (stanza : Stanza)
      → wrap_keyfile_2fa_stanza aead hashes argon (some nonce) data_key password keyfile s
        ≡ ok stanza
      → unwrap_keyfile_2fa_stanza aead hashes argon stanza password keyfile s ≡ ok data_key
  unfolding wrap_keyfile_2fa_stanza unwrap_keyfile_2fa_stanza
  unwrap_keyfile_2fa_stanza-wrap_keyfile_2fa_stanza password keyfile s stanza h =
      let (key, derived, rest) =
        >>=-eq-ok
          (composite_wrapping_key aead hashes argon password
            (keyfile_factor aead hashes argon keyfile) s (codes "vault-keyfile-wrap-v1"))
          _ h in
      let (blob, wraps, is) =
        >>=-eq-ok (wrap_with aead hashes argon key (some nonce) data_key) _ rest in
      let (ct, blob_is, size, opens) = wrapped key blob wraps in
      let (front, back, total) = parts ct size in
      let stanza_is : stanza ≡ record { stanza_type = pw_keyfile; blob = blob } =
        stanza_inj (sym is) in
      rw (stanza_is, blob_is, total, derived, front, back) opens

  -- A data key of 32 bytes that is wrapped, with a nonce of 24 bytes, in a stanza of a password and a
  -- YubiKey's response to a challenge of 32 bytes is unwrapped with the same password and response under
  -- the same header values, and the challenge is read back from the stanza.
  pub unwrap_yubikey_2fa_stanza-wrap_yubikey_2fa_stanza :
      (password hw_response challenge : List ℕ) (s : Salts) (stanza : Stanza)
      → length challenge ≡ 32
      → wrap_yubikey_2fa_stanza aead hashes argon
          (some nonce)
          data_key
          password
          hw_response
          challenge
          s
        ≡ ok stanza
      → (yubikey_challenge aead hashes argon stanza ≡ ok challenge)
        × (unwrap_yubikey_2fa_stanza aead hashes argon stanza password hw_response s ≡ ok data_key)
  unfolding wrap_yubikey_2fa_stanza unwrap_yubikey_2fa_stanza yubikey_challenge
  unwrap_yubikey_2fa_stanza-wrap_yubikey_2fa_stanza password hw_response challenge s stanza hc h =
      let (key, derived, rest) =
        >>=-eq-ok
          (composite_wrapping_key aead hashes argon password hw_response s
            (codes "vault-2fa-wrap-v1"))
          _ h in
      let (blob, wraps, is) =
        >>=-eq-ok (wrap_with aead hashes argon key (some nonce) data_key) _ rest in
      let (ct, blob_is, size, opens) = wrapped key blob wraps in
      let (front, back, total) = parts ct size in
      let stanza_is : stanza ≡ record { stanza_type = pw_yubikey; blob = challenge ++ blob } =
        stanza_inj (sym is) in
      let whole : length (challenge ++ (nonce ++ ct)) ≡ 104 =
        omega (arith, length-append challenge (nonce ++ ct), hc, total) in
      let behind : drop 32 (challenge ++ (nonce ++ ct)) ≡ nonce ++ ct =
        drop-append_at 32 challenge (nonce ++ ct) hc in
      let last : drop 56 (challenge ++ (nonce ++ ct)) ≡ drop 24 (nonce ++ ct) =
        sym (drop-drop 32 24 (challenge ++ (nonce ++ ct))) ∙ ap (drop 24) behind in
      (
        rw (stanza_is, blob_is, whole, take-append_at 32 challenge (nonce ++ ct) hc) refl,
        rw (stanza_is, blob_is, whole, derived, behind, last, front, back) opens,
      )
