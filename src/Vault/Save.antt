-- ===== src/Vault/Save.antt =====
-- A body-writing save of crates/blindkey-core/src/vault.rs. A call that fails leaves the vault as far
-- changed as the code has got, so each function returns the vault beside its result.
use blindkey.Prelude.{
  ℕ, ◌+◌, ◌-◌, ◌%◌, Bool, true, false, not, Option, none, some, List, [], ◌∷◌, ◌++◌, length, take,
  replicate, if◌then◌else◌,
}
use blindkey.Result.{Result, ok, err, crypto_failed, header_auth, yubi_key_strict_save, ◌>>=◌}
use blindkey.Bytes.{u64_mod}
use blindkey.Stanza.Kind.{password as password_kind, pw_yubikey}
use blindkey.Header.{seal, serialize as serialize_header}
use blindkey.BlockStream
use blindkey.Stream.{encrypt}
use blindkey.Pad.Mode.{padded_len}
use blindkey.Envelope.{wrap_yubikey_2fa_stanza}
use blindkey.Entry.{plain}
use blindkey.Payload.{Payload, serialize as serialize_payload}
use blindkey.Vault.{Suite, Vault, Responder, salts, find_stanza, has_stanza}
use blindkey.Vault.Stanzas.{with_stanzas}

pub record SaveOptions : Type 0 where
  pub password : Option (List ℕ)
  pub yubikey_strict : Option Bool
  pub yubikey_respond : Option Responder

abbrev pub default_options : SaveOptions
default_options = record { password = none; yubikey_strict = none; yubikey_respond = none }

pub record SaveReport : Type 0 where
  pub bytes : List ℕ
  pub yubikey_stale : Bool

-- The random bytes of one save.
pub record Randoms : Type 0 where
  pub challenge : Option (List ℕ)
  pub wrap_nonce : Option (List ℕ)
  pub master_seed : Option (List ℕ)
  pub nonce_prefix : Option (List ℕ)
  pub inner_key : Option (List ℕ)

-- `Vec::resize` with zeros.
unfoldable pub resize : ℕ → List ℕ → List ℕ
resize n xs = take n xs ++ replicate (n - length xs) 0

module _ (suite : Suite) where
  unfoldable pub refresh_yubikey_2fa_stanza :
      Randoms → Vault → (password hw_response challenge : List ℕ) → Result Vault
  refresh_yubikey_2fa_stanza r v password hw_response challenge =
      elim (find_stanza password_kind v.header.stanzas) [
        | none ↦ err header_auth
        | some recovery ↦
            wrap_yubikey_2fa_stanza suite.wrap_aead suite.hashes suite.argon r.wrap_nonce v.data_key
              password hw_response challenge (salts v.header)
            >>= λ yubikey. ok (with_stanzas v (yubikey ∷ recovery ∷ []))
      ]

  refreshed : Vault → Result Vault → Vault × Result Bool
  refreshed v (ok v') = (v', ok false)
  refreshed v (err e) = (v, err e)

  -- The YubiKey is asked with a new challenge.
  answered : Randoms → Vault → Bool → List ℕ → List ℕ → Result (List ℕ) → Vault × Result Bool
  unfolding refreshed
  answered r v strict password challenge (ok hw) =
      refreshed v (refresh_yubikey_2fa_stanza r v password hw challenge)
  answered r v strict password challenge (err e) =
      if strict then (v, err yubi_key_strict_save) else (v, ok true)

  asked : Randoms → Vault → Bool → List ℕ → Option Responder → Vault × Result Bool
  unfolding answered
  asked r v strict password none = if strict then (v, err yubi_key_strict_save) else (v, ok true)
  asked r v strict password (some respond) = elim r.challenge [
    | none ↦ (v, err crypto_failed)
    | some challenge ↦ answered r v strict password challenge (respond challenge)
  ]

  with_password : Randoms → Vault → Bool → SaveOptions → Option (List ℕ) → Vault × Result Bool
  unfolding asked
  with_password r v strict opts none =
      if strict then (v, err yubi_key_strict_save) else (v, ok true)
  with_password r v strict opts (some password) = asked r v strict password opts.yubikey_respond

  -- The result says that the stanza of the YubiKey is stale.
  unfoldable pub prepare_yubikey_save : Randoms → Vault → SaveOptions → Vault × Result Bool
  unfolding with_password
  prepare_yubikey_save r v opts =
      let strict : Bool = elim opts.yubikey_strict [
        | none ↦ v.payload.yubikey_strict
        | some b ↦ b
      ] in
      if not (has_stanza pw_yubikey v.header.stanzas)
      then (v, ok false)
      else with_password r v strict opts opts.password

  with_span : Vault → List ℕ → List ℕ → Vault
  with_span v master_seed nonce_prefix = record v {
    header = record v.header {
      span = record v.header.span { master_seed = master_seed; nonce_prefix = nonce_prefix };
    };
  }

  -- The payload with a new inner key and the next version, which wraps at 2^64.
  unfoldable pub next_payload : Payload → List ℕ → Payload
  next_payload p inner = record p {
    inner_stream_key = plain inner;
    vault_version = (p.vault_version + 1) % u64_mod;
  }

  -- The plaintext in its size bucket.
  unfoldable pub padded : Payload → List ℕ
  padded p =
      let plaintext = serialize_payload suite.cipher p in
      resize (padded_len p.pad_mode (length plaintext)) plaintext

  written : Vault → Result (List ℕ) → Vault × Result (List ℕ)
  written v (err e) = (v, err e)
  written v (ok stream_ct) =
      let body = BlockStream.frame suite.hashes v.data_key v.header.master_seed stream_ct in
      let sealed = seal suite.hashes v.header v.data_key in
      (record v { header = sealed }, ok (serialize_header sealed ++ body))

  -- From the serialization on.
  unfoldable pub write_body : Vault → Vault × Result (List ℕ)
  unfolding written
  write_body v =
      written v
        (encrypt suite.aead suite.hashes v.data_key v.header.nonce_prefix (padded v.payload))

  unfoldable pub save_body : Randoms → Vault → Vault × Result (List ℕ)
  unfolding with_span
  save_body r v = elim r.master_seed [
    | none ↦ (v, err crypto_failed)
    | some seed ↦ elim r.nonce_prefix [
      | none ↦ (with_span v seed v.header.nonce_prefix, err crypto_failed)
      | some prefix ↦ elim r.inner_key [
        | none ↦ (with_span v seed prefix, err crypto_failed)
        | some inner ↦
            write_body (record (with_span v seed prefix) { payload = next_payload v.payload inner })
      ]
    ]
  ]

  reported : Bool → Vault × Result (List ℕ) → Vault × Result SaveReport
  reported stale (v, ok bytes) = (v, ok (record { bytes = bytes; yubikey_stale = stale }))
  reported stale (v, err e) = (v, err e)

  prepared : Randoms → Vault × Result Bool → Vault × Result SaveReport
  unfolding reported
  prepared r (v, ok stale) = reported stale (save_body r v)
  prepared r (v, err e) = (v, err e)

  unfoldable pub save_with : Randoms → Vault → SaveOptions → Vault × Result SaveReport
  unfolding prepared
  save_with r v opts = prepared r (prepare_yubikey_save r v opts)
