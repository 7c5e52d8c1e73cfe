-- ===== src/Vault/Tests.antt =====
-- A vault with a YubiKey, a recovery code and a FIDO2 key, and the operations at it.
use blindkey.Prelude.{
  ℕ, ◌≡◌, ◌≢◌, ◌↔◌, refl, true, false, none, some, List, [], ◌∷◌, ◌++◌, length, replicate, codes,
}
use blindkey.Result.{ok}
use blindkey.Volume.Fs.Utf8.{is_utf8}
use blindkey.Agent.Text.{to_lowercase}
use blindkey.Container.{magic_vlt}
use blindkey.Header.{Header}
use blindkey.Pad.Mode.{PadMode}
use blindkey.Primitives.Toy.{toy_aead, toy_hashes, tag, mix}
use blindkey.Primitives.ToyStream.{toy_cipher}
use blindkey.Kdf.{reject_kdf_below_floor, validate_kdf_params}
use blindkey.Kdf.Argon.{argon2id}
use blindkey.Kdf.Toy.{toy_argon}
use blindkey.Stanza.{Stanza}
use blindkey.Stanza.Kind.{password as password_kind, pw_yubikey, fido2, tpm}
use blindkey.Entry.{Entry, plain}
use blindkey.Envelope.{
  wrap_password_stanza, password_wrapping_key, wrap_with, wrap_yubikey_2fa_stanza,
  composite_wrapping_key,
}
use blindkey.Vault.{Suite, Vault, has_stanza, find_stanza, unwrap_data_key}
use blindkey.Vault.Stanzas.{replace_first, change_kdf}
use blindkey.Vault.Save.{Randoms, refresh_yubikey_2fa_stanza}
use blindkey.Vault.Passwords.{HasPassword}
use blindkey.Vault.Unlocks.{
  Operation, perform_all, refresh, remove_kind, upgrade_kdf, perform_all-HasPassword,
}
use blindkey.Vault.Entries.{get, remove}
use blindkey.Vault.Removal.{remove-get}
use blindkey.Vault.Bypass.{change_kdf-password_alone, refresh-forgets}

abbrev suite : Suite
suite = record {
  aead = toy_aead;
  wrap_aead = toy_aead;
  hashes = toy_hashes;
  argon = toy_argon;
  cipher = toy_cipher;
}

abbrev stanzas : List Stanza
stanzas =
    record { stanza_type = pw_yubikey; blob = replicate 104 1 }
    ∷ record { stanza_type = password_kind; blob = replicate 72 2 }
    ∷ record { stanza_type = fido2; blob = replicate 80 3 }
    ∷ []

abbrev header : Header
header = record {
  span = record {
    magic = magic_vlt;
    format_version = 1;
    vault_id = replicate 16 0x11;
    kdf = record {
      algorithm = 1;
      m_cost = 65536;
      t_cost = 3;
      p_cost = 4;
      salt = replicate 32 0x22;
    };
    master_seed = replicate 32 0x33;
    nonce_prefix = replicate 16 0x44;
    stanzas = stanzas;
  };
  header_hash = [];
  header_hmac = [];
}

abbrev vault : Vault
vault = record {
  header = header;
  data_key = replicate 32 9;
  payload = record {
    inner_stream_key = plain (replicate 64 3);
    pad_mode = PadMode.padme;
    vault_version = 5;
    yubikey_strict = true;
    entries = [];
    usage = [];
  };
}

abbrev randoms : Randoms
randoms = record {
  challenge = some (replicate 32 6);
  wrap_nonce = some (replicate 24 5);
  master_seed = none;
  nonce_prefix = none;
  inner_key = none;
}

vault-HasPassword : HasPassword vault.header.stanzas
unfolding has_stanza
vault-HasPassword = refl

abbrev operations : List Operation
operations =
    upgrade_kdf (some (replicate 24 5)) (codes "pass") 131072 3 4
    ∷ refresh randoms (codes "pass") (replicate 20 3) (replicate 32 6)
    ∷ remove_kind password_kind
    ∷ remove_kind pw_yubikey
    ∷ []

perform_all-HasPassword_example : HasPassword (perform_all suite vault operations).header.stanzas
perform_all-HasPassword_example = perform_all-HasPassword suite vault operations vault-HasPassword

abbrev wrapped_key : List ℕ → List ℕ → List ℕ
wrapped_key factor info =
    let ikm = replicate 32 (mix (codes "pass" ++ replicate 32 0x22)) ++ factor in
    let key = toy_hashes.hkdf_sha256 ikm (replicate 16 0x11) info in
    replicate 24 5 ++ (replicate 32 9 ++ tag key (replicate 24 5) [] (replicate 32 9))

abbrev upgraded : Vault
upgraded = record vault {
  header = record header {
    span = record header.span {
      kdf = record header.kdf { m_cost = 131072; t_cost = 3; p_cost = 4 };
      stanzas =
          record { stanza_type = pw_yubikey; blob = replicate 104 1 }
          ∷ record { stanza_type = password_kind; blob = wrapped_key [] (codes "vault-pw-wrap-v1") }
          ∷ record { stanza_type = fido2; blob = replicate 80 3 }
          ∷ [];
    };
  };
}

change_kdf-upgraded :
    change_kdf suite (some (replicate 24 5)) vault (codes "pass") 131072 3 4 ≡ ok upgraded
unfolding change_kdf reject_kdf_below_floor validate_kdf_params wrap_password_stanza
    password_wrapping_key wrap_with argon2id is_utf8 replace_first
change_kdf-upgraded = refl

change_kdf-password_alone_example :
    unwrap_data_key suite upgraded.header (codes "pass") none none ≡ ok (replicate 32 9)
change_kdf-password_alone_example =
    change_kdf-password_alone suite (replicate 24 5) vault upgraded (codes "pass") 131072 3 4
      vault-HasPassword refl refl change_kdf-upgraded

abbrev refreshed : Vault
refreshed = record vault {
  header = record header {
    span = record header.span {
      stanzas =
          record {
            stanza_type = pw_yubikey;
            blob = replicate 32 6 ++ wrapped_key (replicate 20 3) (codes "vault-2fa-wrap-v1");
          }
          ∷ record { stanza_type = password_kind; blob = replicate 72 2 }
          ∷ [];
    };
  };
}

refresh-refreshed :
    refresh_yubikey_2fa_stanza suite randoms vault (codes "pass") (replicate 20 3) (replicate 32 6)
    ≡ ok refreshed
unfolding refresh_yubikey_2fa_stanza find_stanza wrap_yubikey_2fa_stanza composite_wrapping_key
    wrap_with argon2id is_utf8
refresh-refreshed = refl

refresh-forgets_example :
    (length refreshed.header.stanzas ≡ 2)
    × (has_stanza pw_yubikey refreshed.header.stanzas ≡ true)
    × (has_stanza fido2 refreshed.header.stanzas ≡ false)
    × (has_stanza tpm refreshed.header.stanzas ≡ false)
refresh-forgets_example =
    refresh-forgets suite randoms vault refreshed (codes "pass") (replicate 20 3) (replicate 32 6)
      refresh-refreshed

abbrev titled : List ℕ → Entry
titled title = record {
  id = replicate 16 1;
  title = title;
  username = codes "me";
  password = plain (codes "pw");
  url = [];
  notes = [];
  tags = [];
  otp_secret = none;
  created_at = 7;
  modified_at = 8;
  expires_at = none;
  custom_fields = [];
}

abbrev filled : Vault
filled = record vault {
  payload = record vault.payload {
    entries = titled (codes "mail") ∷ titled (codes "bank") ∷ titled (codes "Mail") ∷ [];
  };
}

remove-get_example :
    (get to_lowercase (remove to_lowercase filled (codes "MAIL")).0 (codes "MAIL") ≡ none)
    × ((other : List ℕ)
        → to_lowercase other ≢ to_lowercase (codes "MAIL")
        → get to_lowercase (remove to_lowercase filled (codes "MAIL")).0 other
          ≡ get to_lowercase filled other)
    × (((remove to_lowercase filled (codes "MAIL")).1 ≡ true)
        ↔ (get to_lowercase filled (codes "MAIL") ≢ none))
remove-get_example = remove-get to_lowercase filled (codes "MAIL")
