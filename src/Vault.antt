-- ===== src/Vault.antt =====
-- crates/blindkey-core/src/vault.rs: the opened vault. The calls of the random generator and of the
-- YubiKey are arguments; a missing argument is a call that fails or a key that is not there.
pub mod Stanzas
pub mod Save
pub mod Entries
pub mod Kinds
pub mod Passwords
pub mod Keeps
pub mod Unlocks
pub mod Bypass
pub mod Removal
mod Tests
use blindkey.Prelude.{
  ℕ, Bool, true, false, not, Option, none, some, List, [], ◌∷◌, ◌++◌, length, drop, ◌==◌, ◌||◌,
  if◌then◌else◌,
}
use blindkey.Result.{Result, Error, ok, err, header_auth, wrong_container_kind, ◌>>=◌, ◌>>◌}
use blindkey.Primitives.{Hashes, Aead}
use blindkey.Primitives.Cipher.{StreamCipher}
use blindkey.Kdf.Argon.{Argon}
use blindkey.Container.{ContainerKind, kind_eq}
use blindkey.Stanza.{Stanza}
use blindkey.Stanza.Kind.{password as password_kind, pw_yubikey, pw_keyfile}
use blindkey.Header.{Header, parse, kind, on_disk_len, verify_hmac}
use blindkey.BlockStream
use blindkey.Envelope.{
  Salts, yubikey_challenge, unwrap_password_stanza, unwrap_yubikey_2fa_stanza,
  unwrap_keyfile_2fa_stanza,
}
use blindkey.Payload.{Payload}
use blindkey.Payload.Streamed.{parse_from_stream_ciphertext}

-- The cryptography of other crates: the payload's cipher, the envelope's, the hash functions, the
-- password hash and the inner stream's cipher.
pub record Suite : Type 0 where
  pub aead : Aead
  pub wrap_aead : Aead
  pub hashes : Hashes
  pub argon : Argon
  pub cipher : StreamCipher

pub record Vault : Type 0 where
  pub header : Header
  pub data_key : List ℕ
  pub payload : Payload

-- What a YubiKey answers to a challenge.
abbrev pub Responder : Type 0
Responder = List ℕ → Result (List ℕ)

abbrev pub salts : Header → Salts
salts h = record {
  salt = h.kdf.salt;
  vault_id = h.vault_id;
  m_cost = h.kdf.m_cost;
  t_cost = h.kdf.t_cost;
  p_cost = h.kdf.p_cost;
}

-- `stanzas.iter().find(|s| s.stanza_type == kind)`
unfoldable pub find_stanza : ℕ → List Stanza → Option Stanza
find_stanza k [] = none
find_stanza k (s ∷ ss) =
    let later = find_stanza k ss in if s.stanza_type == k then some s else later

unfoldable pub has_stanza : ℕ → List Stanza → Bool
has_stanza k [] = false
has_stanza k (s ∷ ss) = s.stanza_type == k || has_stanza k ss

module _ (suite : Suite) where
  -- The loop over the password stanzas, with the last failure.
  unfoldable pub try_passwords : List Stanza → List ℕ → Salts → Error → Result (List ℕ)
  try_passwords [] password s last = err last
  try_passwords (stanza ∷ stanzas) password s last =
      let later = λ (e : Error). try_passwords stanzas password s e in
      if stanza.stanza_type == password_kind
      then elim (unwrap_password_stanza suite.wrap_aead suite.hashes suite.argon stanza password
          s) [ ok dk ↦ ok dk | err e ↦ later e ]
      else later last

  unwrap_yubikey : Header → Stanza → List ℕ → Responder → Result (List ℕ)
  unwrap_yubikey h s password respond =
      yubikey_challenge suite.wrap_aead suite.hashes suite.argon s >>= λ challenge.
      respond challenge >>= λ response.
      unwrap_yubikey_2fa_stanza suite.wrap_aead suite.hashes suite.argon s password response
        (salts h)

  -- The choice by the factors at hand; without a stanza for them, the password stanzas.
  with_keyfile : Header → List ℕ → Option (List ℕ) → Result (List ℕ)
  with_keyfile h password none = try_passwords h.stanzas password (salts h) header_auth
  with_keyfile h password (some keyfile) = elim (find_stanza pw_keyfile h.stanzas) [
    | none ↦ try_passwords h.stanzas password (salts h) header_auth
    | some s ↦
        unwrap_keyfile_2fa_stanza suite.wrap_aead suite.hashes suite.argon s password keyfile
          (salts h)
  ]

  unfoldable pub unwrap_data_key :
      Header → List ℕ → Option Responder → Option (List ℕ) → Result (List ℕ)
  unfolding unwrap_yubikey with_keyfile
  unwrap_data_key h password none keyfile = with_keyfile h password keyfile
  unwrap_data_key h password (some respond) keyfile = elim (find_stanza pw_yubikey h.stanzas) [
    | none ↦ with_keyfile h password keyfile
    | some s ↦ unwrap_yubikey h s password respond
  ]

  -- Behind the unwrapping: the header's tag, the blocks, the stream and the payload.
  unfoldable pub open_body : List ℕ → Header → List ℕ → Result Vault
  open_body bytes h data_key =
      verify_hmac suite.hashes h data_key
      >> (BlockStream.read suite.hashes data_key h.master_seed (drop (on_disk_len h) bytes)
          >>= λ stream_ct.
              parse_from_stream_ciphertext suite.cipher suite.aead suite.hashes data_key
                h.nonce_prefix stream_ct
              >>= λ payload. ok (record { header = h; data_key = data_key; payload = payload }))

  unfoldable pub open_inner : List ℕ → List ℕ → Option Responder → Option (List ℕ) → Result Vault
  open_inner bytes password hw keyfile = parse suite.hashes bytes >>= λ h.
      if not (kind_eq (kind h) ContainerKind.vault)
      then err wrong_container_kind
      else (unwrap_data_key h password hw keyfile >>= λ data_key. open_body bytes h data_key)

  abbrev pub open_vault : List ℕ → List ℕ → Result Vault
  open_vault bytes password = open_inner bytes password none none

  abbrev pub open_2fa : List ℕ → List ℕ → Responder → Result Vault
  open_2fa bytes password respond = open_inner bytes password (some respond) none

  abbrev pub open_keyfile : List ℕ → List ℕ → List ℕ → Result Vault
  open_keyfile bytes password keyfile = open_inner bytes password none (some keyfile)

  -- `requires_yubikey`, `requires_keyfile`, `has_fido2_stanza` and `has_tpm_stanza`, by the kind.
  unfoldable pub requires : ℕ → List ℕ → Bool
  requires k bytes = elim (parse suite.hashes bytes) [
    | ok h ↦ has_stanza k h.stanzas
    | err e ↦ false
  ]
