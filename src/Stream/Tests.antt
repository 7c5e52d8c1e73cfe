-- ===== src/Stream/Tests.antt =====
-- A payload of three bytes under the toy cipher, and the theorems at it.
use blindkey.Prelude.{ℕ, ◌+◌, ◌*◌, ◌/◌, ◌≡◌, arith, List, [], ◌∷◌, length, replicate}
use blindkey.Result.{ok}
use blindkey.Primitives.Toy.{toy_hashes, toy_aead}
use blindkey.Stream.{stream_chunk_size, encrypt, decrypt}
use blindkey.Stream.RoundTrip.{decrypt-encrypt, decrypt_nil}

abbrev data_key : List ℕ
data_key = replicate 32 1

abbrev prefix : List ℕ
prefix = replicate 16 2

decrypt-encrypt_example :
    (ct : List ℕ) × (encrypt toy_aead toy_hashes data_key prefix (5 ∷ 6 ∷ 7 ∷ []) ≡ ok ct)
    × (length ct ≡ 3 + 16 * (3 / stream_chunk_size + 1))
    × (decrypt toy_aead toy_hashes data_key prefix ct ≡ ok (5 ∷ 6 ∷ 7 ∷ []))
decrypt-encrypt_example =
    decrypt-encrypt toy_aead toy_hashes data_key prefix (5 ∷ 6 ∷ 7 ∷ []) (omega arith)

decrypt_nil_example :
    (decrypt toy_aead toy_hashes data_key prefix [] ≡ ok [])
    × ¬ (encrypt toy_aead toy_hashes data_key prefix (5 ∷ []) ≡ ok [])
decrypt_nil_example = decrypt_nil toy_aead toy_hashes data_key prefix (5 ∷ []) (omega arith)
