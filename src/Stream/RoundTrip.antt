-- ===== src/Stream/RoundTrip.antt =====
-- `encrypt` and `decrypt` of crates/blindkey-core/src/crypto/stream.rs under one key.
use blindkey.Prelude.{
  ℕ, suc, ◌+◌, ◌*◌, ◌/◌, ◌%◌, ◌<◌, ◌≡◌, refl, sym, ap, ◌∙◌, arith, false, List, [], length,
}
use blindkey.Result.{ok}
use blindkey.Bytes.{u64_mod}
use blindkey.Primitives.{Hashes, Aead}
use blindkey.Stream.{
  StreamEncryptor, stream_chunk_size, payload_key, new, push, encrypt_with, encrypt, decrypt_chunks,
  decrypt_with, decrypt, next_plaintext_chunk,
}
use blindkey.Stream.Encrypt.{SealedAs, IsOpen, encrypts}
use blindkey.Stream.Decrypt.{length-SealedAs, decrypt_chunks-SealedAs}

module _ (aead : Aead) where
  -- Any plaintext of a usable length is sealed in chunks from counter 0 on.
  encrypt_with-SealedAs :
      (key pt : List ℕ)
      → length pt + 1 < u64_mod
      → (ct : List ℕ) × (encrypt_with aead key pt ≡ ok ct) × SealedAs aead key 0 pt ct
  unfolding encrypt_with push new
  encrypt_with-SealedAs key pt fits =
      let e : StreamEncryptor = record {
        cipher = key;
        pending = pt;
        out = [];
        counter = 0;
        finished = false;
        plaintext_len = (0 + length pt) % u64_mod;
      } in
      let o : IsOpen aead e = record { unfinished = refl; counted = omega (arith, fits) } in
      let r = encrypts aead (suc (length pt)) e o (omega arith) (omega (arith, fits)) in
      (r.ct, r.result, r.sealed)

  decrypt_with-SealedAs :
      (key pt ct : List ℕ) → SealedAs aead key 0 pt ct → decrypt_with aead key ct ≡ ok pt
  unfolding decrypt_with
  decrypt_with-SealedAs key pt ct s =
      decrypt_chunks-SealedAs aead (suc (length ct)) [] s (omega arith)

-- Every plaintext of fewer than 2^64 - 1 bytes is encrypted, with a tag of 16 bytes for each 64 KiB
-- begun and one more when the plaintext is empty or ends with a full chunk; decryption under the same key and prefix
-- gives the plaintext back.
pub decrypt-encrypt :
    (aead : Aead) (hashes : Hashes) (data_key nonce_prefix plaintext : List ℕ)
    → length plaintext + 1 < u64_mod
    → (ct : List ℕ) × (encrypt aead hashes data_key nonce_prefix plaintext ≡ ok ct)
      × (length ct ≡ length plaintext + 16 * (length plaintext / stream_chunk_size + 1))
      × (decrypt aead hashes data_key nonce_prefix ct ≡ ok plaintext)
unfolding encrypt decrypt
decrypt-encrypt aead hashes data_key nonce_prefix plaintext fits =
    let key : List ℕ = payload_key hashes data_key nonce_prefix in
    let r = encrypt_with-SealedAs aead key plaintext fits in
    (r.0, r.1, length-SealedAs aead r.2, decrypt_with-SealedAs aead key plaintext r.0 r.2)

-- The empty ciphertext decrypts to the empty plaintext under every key, without a tag; yet no encryption of
-- fewer than 2^64 - 1 bytes ends in it.
pub decrypt_nil :
    (aead : Aead) (hashes : Hashes) (data_key nonce_prefix plaintext : List ℕ)
    → length plaintext + 1 < u64_mod
    → (decrypt aead hashes data_key nonce_prefix [] ≡ ok [])
      × ¬ (encrypt aead hashes data_key nonce_prefix plaintext ≡ ok [])
unfolding decrypt decrypt_with decrypt_chunks next_plaintext_chunk
decrypt_nil aead hashes data_key nonce_prefix plaintext fits =
    let r = decrypt-encrypt aead hashes data_key nonce_prefix plaintext fits in
    (
      refl,
      λ h.
          let same : ok r.0 ≡ ok [] = sym r.1 ∙ h in
          let none_left : r.0 ≡ [] = cc in absurd (omega (arith, r.2, ap length none_left)),
    )
