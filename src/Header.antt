-- ===== src/Header.antt =====
-- crates/blindkey-core/src/format/header.rs: the plaintext header of a container. The hash
-- functions are those of `Primitives`.
pub mod Layout
pub mod RoundTrip
mod Tests
use mathlib.Core.List.{foldl}
use blindkey.Prelude.{
  ℕ, ◌+◌, ◌%◌, Bool, Option, none, some, List, [], ◌∷◌, ◌++◌, length, ltb, ◌==◌, not, bytes_eq,
  codes, if◌then◌else◌,
}
use blindkey.Result.{
  Result, ok, err, not_a_vault, wrong_container_kind, newer_version, unsupported_kdf,
  header_corrupt, header_tampered,
}
use blindkey.Bytes.{le_bytes}
use blindkey.Cursor.{
  Cursor, Read, ◌>>=◌, ◌>>◌, pure, fail, lift, refuse_if, get_consumed, run, take_array, read_u8,
  read_u16_le, read_u32_le,
}
use blindkey.Stanza
use blindkey.Stanza.{Stanza}
use blindkey.Kdf.{validate_kdf_params}
use blindkey.Container.{ContainerKind, format_version, from_magic, kind_eq}
use blindkey.Primitives.{Hashes}

abbrev pub kdf_algorithm_argon2id : ℕ
kdf_algorithm_argon2id = 1

abbrev pub hash_len : ℕ
hash_len = 32

abbrev pub hmac_len : ℕ
hmac_len = 32

pub record KdfParams : Type 0 where
  pub algorithm : ℕ
  pub m_cost : ℕ
  pub t_cost : ℕ
  pub p_cost : ℕ
  pub salt : List ℕ

-- The fields before the integrity tags.
pub record Span : Type 0 where
  pub magic : List ℕ
  pub format_version : ℕ
  pub vault_id : List ℕ
  pub kdf : KdfParams
  pub master_seed : List ℕ
  pub nonce_prefix : List ℕ
  pub stanzas : List Stanza

-- The struct's first seven fields are grouped in `span`.
pub record Header : Type 0 where
  pub span : Span
  pub open span use *
  pub header_hash : List ℕ
  pub header_hmac : List ℕ

unfoldable pub kind : Header → ContainerKind
kind h = elim (from_magic h.magic) [ some k ↦ k | none ↦ ContainerKind.vault ]

fixed_part : Span → List ℕ
fixed_part h =
    h.magic
    ++ (le_bytes 2 h.format_version
        ++ (h.vault_id
            ++ (h.kdf.algorithm ∷ []
                ++ (le_bytes 4 h.kdf.m_cost
                    ++ (le_bytes 4 h.kdf.t_cost
                        ++ (le_bytes 4 h.kdf.p_cost
                            ++ (h.kdf.salt
                                ++ (h.master_seed
                                    ++ (h.nonce_prefix ++ (length h.stanzas % 256 ∷ []))))))))))

unfoldable pub auth_span : Span → List ℕ
unfolding fixed_part
auth_span h = foldl Stanza.serialize_into (fixed_part h) h.stanzas

unfoldable pub serialize : Header → List ℕ
serialize h = auth_span h.span ++ (h.header_hash ++ h.header_hmac)

unfoldable pub on_disk_len : Header → ℕ
on_disk_len h = length (auth_span h.span) + hash_len + hmac_len

-- `ContainerKind::from_magic(magic).ok_or(Error::NotAVault)?`
unfoldable pub known_kind : List ℕ → Result ContainerKind
known_kind m = elim (from_magic m) [ some k ↦ ok k | none ↦ err not_a_vault ]

-- The caller wants another kind than `k`.
unfoldable pub is_unwanted : Option ContainerKind → ContainerKind → Bool
is_unwanted none k = Bool.false
is_unwanted (some want) k = not (kind_eq k want)

-- The reads of `parse_with_kind` up to the last stanza.
unfoldable pub parse_span : Option ContainerKind → Read Span
parse_span expected = do
  magic ← take_array 4
  kind ← lift (known_kind magic)
  refuse_if (is_unwanted expected kind) wrong_container_kind
  version ← read_u16_le
  refuse_if (ltb format_version version) newer_version
  vault_id ← take_array 16
  algorithm ← read_u8
  refuse_if (not (algorithm == kdf_algorithm_argon2id)) unsupported_kdf
  m_cost ← read_u32_le
  t_cost ← read_u32_le
  p_cost ← read_u32_le
  salt ← take_array 32
  master_seed ← take_array 32
  nonce_prefix ← take_array 16
  stanza_count ← read_u8
  stanzas ← Stanza.parse_all stanza_count
  pure (record {
    magic = magic;
    format_version = version;
    vault_id = vault_id;
    kdf = record {
      algorithm = algorithm;
      m_cost = m_cost;
      t_cost = t_cost;
      p_cost = p_cost;
      salt = salt;
    };
    master_seed = master_seed;
    nonce_prefix = nonce_prefix;
    stanzas = stanzas;
  })

module _ (hashes : Hashes) where
  open hashes use {sha256, hmac_sha256, hkdf_sha256}

  unfoldable pub compute_hash : Span → List ℕ
  compute_hash h = sha256 (auth_span h)

  unfoldable pub hmac_key : List ℕ → List ℕ
  hmac_key data_key = hkdf_sha256 data_key [] (codes "vault-header-hmac-v1")

  unfoldable pub compute_hmac : Span → List ℕ → List ℕ
  unfolding hmac_key
  compute_hmac h data_key = hmac_sha256 (hmac_key data_key) (auth_span h)

  unfoldable pub seal : Header → List ℕ → Header
  seal h data_key = record h {
    header_hash = compute_hash h.span;
    header_hmac = compute_hmac h.span data_key;
  }

  unfoldable pub verify_hmac : Header → List ℕ → Result (Unit {0})
  verify_hmac h data_key =
      if bytes_eq (compute_hmac h.span data_key) h.header_hmac then ok tt else err header_tampered

  -- The reads and checks of `parse_with_kind` behind the last stanza; `covered` is what the cursor
  -- had consumed up to there.
  unfoldable pub parse_tags : Span → List ℕ → Read Header
  parse_tags span covered = do
    header_hash ← take_array hash_len
    header_hmac ← take_array hmac_len
    refuse_if (not (bytes_eq (sha256 covered) header_hash)) header_corrupt
    _ ← lift (validate_kdf_params span.kdf.m_cost span.kdf.t_cost span.kdf.p_cost)
    pure (record { span = span; header_hash = header_hash; header_hmac = header_hmac })

  unfoldable pub read_header : Option ContainerKind → Read Header
  read_header expected = do
    span ← parse_span expected
    covered ← get_consumed
    parse_tags span covered

  unfoldable pub parse_with_kind : List ℕ → Option ContainerKind → Result Header
  parse_with_kind bytes expected = run (read_header expected) bytes

  unfoldable pub parse : List ℕ → Result Header
  unfolding parse_with_kind
  parse bytes = parse_with_kind bytes none
