-- ===== src/Stream.antt =====
-- crates/blindkey-core/src/crypto/stream.rs: the payload in sealed chunks of 64 KiB, the last one
-- marked in its nonce, by an encryptor that takes its plaintext in any pieces.
pub mod Encrypt
pub mod Decrypt
pub mod RoundTrip
mod Tests
use mathlib.Core.List.{reverse}
use blindkey.Prelude.{
  ℕ, zero, suc, ◌+◌, ◌*◌, ◌%◌, min, Bool, true, false, Option, none, some, List, [], ◌∷◌, ◌++◌,
  length, take, drop, replicate, ltb, leb, ◌==◌, ◌||◌, codes, if◌then◌else◌,
}
use blindkey.Result.{Result, ok, err, crypto_failed, body_malformed, body_auth, ◌>>=◌, ◌>>◌}
use blindkey.Bytes.{u64_mod, le_bytes}
use blindkey.Primitives.{Hashes, Aead, ok_or}

abbrev pub stream_chunk_size : ℕ
stream_chunk_size = 64 * 1024

abbrev pub tag_len : ℕ
tag_len = 16

-- `hkdf32` of crypto/mod.rs.
unfoldable pub payload_key : Hashes → List ℕ → List ℕ → List ℕ
payload_key hashes data_key nonce_prefix =
    hashes.hkdf_sha256 data_key nonce_prefix (codes "vault-payload-v1")

-- Three zero bytes, the counter in big-endian order, and the marker of the last chunk.
unfoldable pub chunk_nonce : ℕ → Bool → List ℕ
chunk_nonce counter is_last =
    0 ∷ 0 ∷ 0 ∷ (reverse (le_bytes 8 counter) ++ (if is_last then 1 else 0) ∷ [])

-- `cipher` is the key that the cipher holds.
pub record StreamEncryptor : Type 0 where
  pub cipher : List ℕ
  pub pending : List ℕ
  pub out : List ℕ
  pub counter : ℕ
  pub finished : Bool
  pub plaintext_len : ℕ

pub record StreamDecryptor : Type 0 where
  pub cipher : List ℕ
  pub rest : List ℕ
  pub counter : ℕ

-- Building the cipher fails only for keys of a wrong length, and the payload key has 32 bytes.
unfoldable pub new : List ℕ → StreamEncryptor
new key = record {
  cipher = key;
  pending = [];
  out = [];
  counter = 0;
  finished = false;
  plaintext_len = 0;
}

abbrev pub new_decryptor : List ℕ → List ℕ → StreamDecryptor
new_decryptor key ciphertext = record { cipher = key; rest = ciphertext; counter = 0 }

abbrev pub sealed_full : ℕ
sealed_full = stream_chunk_size + tag_len

module _ (aead : Aead) where
  -- `counter.checked_add(1)` fails where the sum does not fit 64 bits.
  unfoldable pub seal_one : StreamEncryptor → List ℕ → Bool → Result StreamEncryptor
  seal_one e chunk is_last = do
    sealed ← ok_or crypto_failed (aead.seal e.cipher (chunk_nonce e.counter is_last) [] chunk)
    let e' = record e { out = e.out ++ sealed }
    if is_last
        then ok e'
        else if leb u64_mod (e.counter + 1)
        then err body_malformed
        else ok (record e' { counter = e.counter + 1 })

  -- The loop of `push`, on fuel; a round takes a chunk.
  unfoldable pub seal_full_chunks : ℕ → StreamEncryptor → Result StreamEncryptor
  seal_full_chunks zero e = ok e
  seal_full_chunks (suc fuel) e = elim (ltb (length e.pending) stream_chunk_size) [
    | true ↦ ok e
    | false ↦
        seal_one (record e { pending = drop stream_chunk_size e.pending })
          (take stream_chunk_size e.pending) false
        >>= λ e'. seal_full_chunks fuel e'
  ]

  -- The length is a `usize`, which has 64 bits.
  unfoldable pub push : StreamEncryptor → List ℕ → Result StreamEncryptor
  push e bytes =
      if e.finished
      then err crypto_failed
      else seal_full_chunks (suc (length (e.pending ++ bytes))) (record e {
        plaintext_len = (e.plaintext_len + length bytes) % u64_mod;
        pending = e.pending ++ bytes;
      })

  finish_pending : StreamEncryptor → List ℕ → Result StreamEncryptor
  finish_pending e List.[] =
      if e.plaintext_len == 0 || e.plaintext_len % stream_chunk_size == 0
      then seal_one e [] true
      else ok e
  finish_pending e (List.◌∷◌ b tail) = seal_one (record e { pending = [] }) (List.◌∷◌ b tail) true

  unfoldable pub finish : StreamEncryptor → Result (List ℕ)
  unfolding finish_pending
  finish e =
      if e.finished
      then err crypto_failed
      else (do e' ← finish_pending (record e { finished = true }) e.pending; ok e'.out)

  -- Under the payload key; `encrypt` derives it first.
  unfoldable pub encrypt_with : List ℕ → List ℕ → Result (List ℕ)
  encrypt_with key plaintext = do e ← push (new key) plaintext; finish e

  unfoldable pub encrypt : Hashes → List ℕ → List ℕ → List ℕ → Result (List ℕ)
  encrypt hashes data_key nonce_prefix plaintext =
      encrypt_with (payload_key hashes data_key nonce_prefix) plaintext

  -- The step of a decryptor that has bytes left, `is_last` if it takes them all.
  open_chunk : StreamDecryptor → ℕ → Bool → Result (Option (List ℕ) × StreamDecryptor)
  open_chunk d n is_last = do
    pt ← ok_or body_auth (aead.unseal d.cipher (chunk_nonce d.counter is_last) [] (take n d.rest))
    let d' = record d { rest = drop n d.rest }
    if is_last
        then ok (some pt, d')
        else if leb u64_mod (d.counter + 1)
        then err body_malformed
        else ok (some pt, record d' { counter = d.counter + 1 })

  unfoldable pub next_plaintext_chunk : StreamDecryptor → Result (Option (List ℕ) × StreamDecryptor)
  unfolding open_chunk
  next_plaintext_chunk d =
      if length d.rest == 0
      then ok (none, d)
      else if ltb (length d.rest) tag_len
      then err body_malformed
      else let n = min (length d.rest) sealed_full in open_chunk d n (n == length d.rest)

  -- The loop of `decrypt`, on fuel; a round takes a byte at least.
  unfoldable pub decrypt_chunks : ℕ → StreamDecryptor → List ℕ → Result (List ℕ)
  decrypt_chunks zero d out = err body_malformed
  decrypt_chunks (suc fuel) d out = next_plaintext_chunk d >>= λ (chunk, d'). elim chunk [
    | none ↦ ok out
    | some pt ↦ decrypt_chunks fuel d' (out ++ pt)
  ]

  unfoldable pub decrypt_with : List ℕ → List ℕ → Result (List ℕ)
  decrypt_with key ciphertext =
      decrypt_chunks (suc (length ciphertext)) (new_decryptor key ciphertext) []

  unfoldable pub decrypt : Hashes → List ℕ → List ℕ → List ℕ → Result (List ℕ)
  decrypt hashes data_key nonce_prefix ciphertext =
      decrypt_with (payload_key hashes data_key nonce_prefix) ciphertext

  -- The loop of `decrypt_streaming`, on fuel, with the variables that its callback changes.
  unfoldable pub stream_chunks :
      {State : Type 0}
      → (List ℕ → State → Result State)
      → ℕ
      → StreamDecryptor
      → State
      → Result State
  stream_chunks on_chunk zero d s = err body_malformed
  stream_chunks on_chunk (suc fuel) d s = next_plaintext_chunk d >>= λ (chunk, d'). elim chunk [
    | none ↦ ok s
    | some pt ↦ on_chunk pt s >>= λ s'. stream_chunks on_chunk fuel d' s'
  ]

  unfoldable pub decrypt_streaming :
      {State : Type 0}
      → Hashes
      → List ℕ
      → List ℕ
      → List ℕ
      → (List ℕ → State → Result State)
      → State
      → Result State
  decrypt_streaming hashes data_key nonce_prefix ciphertext on_chunk s =
      stream_chunks on_chunk (suc (length ciphertext))
        (new_decryptor (payload_key hashes data_key nonce_prefix) ciphertext) s
