-- ===== src/Volume/Block.antt =====
-- crates/blindkey-core/src/volume/block.rs: a data block of a volume, sealed under a nonce and
-- associated data that name its place, its version and its kind.
pub mod Binding
use blindkey.Prelude.{ℕ, ◌+◌, ◌-◌, List, [], ◌∷◌, ◌++◌, length, take, drop, ltb, if◌then◌else◌}
use blindkey.Result.{Result, ok, err, crypto_failed, volume_open_failed, ◌>>=◌}
use blindkey.Bytes.{le_bytes}
use blindkey.Primitives.{Hashes, Aead, ok_or}

abbrev pub nonce_len : ℕ
nonce_len = 24

abbrev pub tag_len : ℕ
tag_len = 16

abbrev pub kind_free : ℕ
kind_free = 0

abbrev pub kind_file : ℕ
kind_file = 1

abbrev pub kind_dir : ℕ
kind_dir = 2

-- The parts of the message go into the mac one after the other.
unfoldable pub block_nonce : Hashes → List ℕ → ℕ → ℕ → List ℕ
block_nonce hashes nonce_key block_id version =
    take nonce_len (hashes.hmac_sha256 nonce_key (le_bytes 8 block_id ++ le_bytes 8 version))

unfoldable pub block_aad : List ℕ → ℕ → ℕ → ℕ → List ℕ
block_aad volume_id block_id version kind =
    volume_id ++ (le_bytes 8 block_id ++ (le_bytes 8 version ++ kind ∷ []))

-- Building the cipher fails only for keys of a wrong length, and the volume key has 32 bytes.
unfoldable pub seal_block :
    Aead → Hashes → List ℕ → List ℕ → List ℕ → ℕ → ℕ → ℕ → List ℕ → Result (List ℕ)
seal_block aead hashes volume_key nonce_key volume_id block_id version kind plaintext = do
  let nonce = block_nonce hashes nonce_key block_id version
  let aad = block_aad volume_id block_id version kind
  ct ← ok_or crypto_failed (aead.seal volume_key nonce aad plaintext)
  ok (nonce ++ ct)

unfoldable pub block_tag : List ℕ → Result (List ℕ)
block_tag on_disk =
    if ltb (length on_disk) (nonce_len + tag_len)
    then err volume_open_failed
    else ok (drop (length on_disk - tag_len) on_disk)

unfoldable pub open_block :
    Aead → Hashes → List ℕ → List ℕ → List ℕ → ℕ → ℕ → ℕ → List ℕ → Result (List ℕ)
open_block aead hashes volume_key nonce_key volume_id block_id version kind on_disk =
    if ltb (length on_disk) (nonce_len + tag_len)
    then err volume_open_failed
    else (let nonce = block_nonce hashes nonce_key block_id version in
        let aad = block_aad volume_id block_id version kind in
        ok_or volume_open_failed (aead.unseal volume_key nonce aad (drop nonce_len on_disk)))
