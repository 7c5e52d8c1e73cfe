-- ===== src/Envelope/Tests.antt =====
-- A data key wrapped under a password, and under a password and a YubiKey's response.
use blindkey.Prelude.{ℕ, ◌≡◌, refl, some, List, [], ◌++◌, replicate, codes}
use blindkey.Result.{ok}
use blindkey.Primitives.Toy.{toy_aead, toy_hashes, tag, mix}
use blindkey.Volume.Fs.Utf8.{is_utf8}
use blindkey.Kdf.Argon.{argon2id}
use blindkey.Kdf.Toy.{toy_argon}
use blindkey.Stanza.{Stanza}
use blindkey.Stanza.Kind.{password as password_kind, pw_yubikey}
use blindkey.Envelope.{
  Salts, password_wrapping_key, composite_wrapping_key, wrap_with, wrap_password_stanza,
  unwrap_password_stanza, wrap_yubikey_2fa_stanza, unwrap_yubikey_2fa_stanza, yubikey_challenge,
}
use blindkey.Envelope.Unwraps.{
  unwrap_password_stanza-wrap_password_stanza, unwrap_yubikey_2fa_stanza-wrap_yubikey_2fa_stanza,
}

abbrev salts : Salts
salts = record {
  salt = replicate 32 0x22;
  vault_id = replicate 16 0x11;
  m_cost = 65536;
  t_cost = 3;
  p_cost = 4;
}

abbrev nonce : List ℕ
nonce = replicate 24 5

abbrev data_key : List ℕ
data_key = replicate 32 9

abbrev challenge : List ℕ
challenge = replicate 32 6

-- The wrapping key of the password and a factor, for a use.
abbrev wrapping_key : List ℕ → List ℕ → List ℕ
wrapping_key factor info =
    toy_hashes.hkdf_sha256 (replicate 32 (mix (codes "pass" ++ salts.salt)) ++ factor)
      salts.vault_id info

abbrev stanza : Stanza
stanza = record {
  stanza_type = password_kind;
  blob = nonce ++ (data_key ++ tag (wrapping_key [] (codes "vault-pw-wrap-v1")) nonce [] data_key);
}

stanza-wrap :
    wrap_password_stanza toy_aead toy_hashes toy_argon (some nonce) data_key (codes "pass") salts
    ≡ ok stanza
unfolding wrap_password_stanza password_wrapping_key wrap_with argon2id is_utf8
stanza-wrap = refl

unwrap_password_stanza-wrap_password_stanza_example :
    unwrap_password_stanza toy_aead toy_hashes toy_argon stanza (codes "pass") salts ≡ ok data_key
unwrap_password_stanza-wrap_password_stanza_example =
    unwrap_password_stanza-wrap_password_stanza toy_aead toy_hashes toy_argon nonce data_key refl
      refl (codes "pass") salts stanza stanza-wrap

abbrev response : List ℕ
response = replicate 20 3

abbrev yubikey_stanza : Stanza
yubikey_stanza = record {
  stanza_type = pw_yubikey;
  blob =
      challenge
      ++ (nonce
          ++ (data_key
              ++ tag (wrapping_key response (codes "vault-2fa-wrap-v1")) nonce [] data_key));
}

yubikey_stanza-wrap :
    wrap_yubikey_2fa_stanza toy_aead toy_hashes toy_argon
      (some nonce)
      data_key
      (codes "pass")
      response
      challenge
      salts
    ≡ ok yubikey_stanza
unfolding wrap_yubikey_2fa_stanza composite_wrapping_key wrap_with argon2id is_utf8
yubikey_stanza-wrap = refl

unwrap_yubikey_2fa_stanza-wrap_yubikey_2fa_stanza_example :
    (yubikey_challenge toy_aead toy_hashes toy_argon yubikey_stanza ≡ ok challenge)
    × (unwrap_yubikey_2fa_stanza toy_aead toy_hashes toy_argon yubikey_stanza
          (codes "pass")
          response
          salts
        ≡ ok data_key)
unwrap_yubikey_2fa_stanza-wrap_yubikey_2fa_stanza_example =
    unwrap_yubikey_2fa_stanza-wrap_yubikey_2fa_stanza toy_aead toy_hashes toy_argon nonce data_key
      refl refl (codes "pass") response challenge salts yubikey_stanza refl yubikey_stanza-wrap
