-- ===== src/Header/Tests.antt =====
-- A header of a vault, and the theorems at it.
use blindkey.Prelude.{ℕ, ◌≡◌, refl, arith, some, List, [], ◌∷◌, ◌++◌, replicate}
use blindkey.Result.{ok, err, wrong_container_kind}
use blindkey.Bytes.{le_bytes}
use blindkey.Cursor.{take}
use blindkey.Stanza
use blindkey.Stanza.{Stanza}
use blindkey.Container.{ContainerKind, magic, magic_vlt, from_magic, kind_eq}
use blindkey.Primitives.Toy.{toy_hashes}
use blindkey.Header.{
  Span, Header, auth_span, serialize, compute_hash, compute_hmac, seal, verify_hmac, known_kind,
  is_unwanted, parse_span, read_header, parse_with_kind, hmac_key,
}
use blindkey.Header.Layout.{IsValid}
use blindkey.Header.RoundTrip.{IsParsed, parse_with_kind_sound, parse_with_kind-seal}
use blindkey.Prelude.{bytes_eq}

abbrev sample : Span
sample = record {
  magic = magic_vlt;
  format_version = 1;
  vault_id = replicate 16 0x11;
  kdf = record { algorithm = 1; m_cost = 65536; t_cost = 3; p_cost = 4; salt = replicate 32 0x22 };
  master_seed = replicate 32 0x33;
  nonce_prefix = replicate 16 0x44;
  stanzas = record { stanza_type = 1; blob = replicate 72 0x55 } ∷ [];
}

sample-IsValid : IsValid ContainerKind.vault sample
unfolding magic
sample-IsValid = record {
  magic_ok = refl;
  version_ok = omega arith;
  vault_id_ok = refl;
  algorithm_ok = refl;
  m_fits = omega arith;
  t_fits = omega arith;
  p_fits = omega arith;
  salt_ok = refl;
  seed_ok = refl;
  prefix_ok = refl;
  few = omega arith;
  stanzas_ok = omega arith;
}

abbrev unsealed : Header
unsealed = record { span = sample; header_hash = []; header_hmac = [] }

abbrev key : List ℕ
key = replicate 32 0xAB

parse_with_kind-seal_example :
    (parse_with_kind toy_hashes
        (serialize (seal toy_hashes unsealed key) ++ 1 ∷ [])
        (some ContainerKind.vault)
      ≡ ok (seal toy_hashes unsealed key))
    × (verify_hmac toy_hashes (seal toy_hashes unsealed key) key ≡ ok tt)
unfolding serialize auth_span seal le_bytes compute_hash compute_hmac Stanza.serialize_into
parse_with_kind-seal_example =
    parse_with_kind-seal toy_hashes ContainerKind.vault unsealed key (1 ∷ []) sample-IsValid
      (omega arith) (omega arith)

abbrev sealed : Header
sealed = seal toy_hashes unsealed key

parsed :
    (parse_with_kind toy_hashes (serialize sealed ++ 1 ∷ []) (some ContainerKind.vault) ≡ ok sealed)
    × (verify_hmac toy_hashes sealed key ≡ ok tt)
unfolding serialize auth_span seal le_bytes compute_hash compute_hmac Stanza.serialize_into
parsed =
    parse_with_kind-seal toy_hashes ContainerKind.vault unsealed key (1 ∷ []) sample-IsValid
      (omega arith) (omega arith)

parse_with_kind_sound_example :
    IsParsed toy_hashes (serialize sealed ++ 1 ∷ []) (some ContainerKind.vault) sealed
unfolding serialize auth_span seal le_bytes compute_hash compute_hmac hmac_key Stanza.serialize_into
parse_with_kind_sound_example =
    parse_with_kind_sound toy_hashes (serialize sealed ++ 1 ∷ []) (some ContainerKind.vault) sealed
      (omega arith) (omega arith) parsed.0

wrong_kind :
    parse_with_kind toy_hashes (serialize sealed) (some ContainerKind.volume)
    ≡ err wrong_container_kind
unfolding parse_with_kind read_header parse_span is_unwanted known_kind from_magic kind_eq bytes_eq
    take serialize auth_span seal le_bytes Stanza.serialize_into compute_hash compute_hmac
wrong_kind = refl
