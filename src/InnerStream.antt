-- ===== src/InnerStream.antt =====
-- crates/blindkey-core/src/format/inner_stream.rs: the second encryption, of the protected fields
-- alone. Locking the key's memory and zeroizing it are not modelled.
use blindkey.Prelude.{ℕ, ◌+◌, List, length, take, drop, ◌≡◌}
use blindkey.Primitives.Cipher.{
  StreamCipher, apply_keystream, length-apply_keystream, apply_keystream_twice,
}

abbrev pub inner_stream_key_len : ℕ
inner_stream_key_len = 64

abbrev pub cipher_key : List ℕ → List ℕ
cipher_key key = take 32 key

abbrev pub cipher_nonce : List ℕ → List ℕ
cipher_nonce key = take 12 (drop 32 key)

-- The key of the cipher, and how many bytes of its keystream are used.
pub record InnerStream : Type 0 where
  pub key : List ℕ
  pub position : ℕ

unfoldable pub new : List ℕ → InnerStream
new key = record { key = key; position = 0 }

pub record SealKey : Type 0 where
  pub key : List ℕ

unfoldable pub new_seal_key : List ℕ → SealKey
new_seal_key key_bytes = record { key = take inner_stream_key_len key_bytes }

module _ (cipher : StreamCipher) where
  -- The bytes after the call, and the stream.
  unfoldable pub apply : InnerStream → List ℕ → List ℕ × InnerStream
  apply inner bytes = (
    apply_keystream cipher (cipher_key inner.key) (cipher_nonce inner.key) inner.position bytes,
    record inner { position = inner.position + length bytes },
  )

  unfoldable pub open_at : SealKey → ℕ → List ℕ → List ℕ
  open_at seal offset ct =
      apply_keystream cipher (cipher_key seal.key) (cipher_nonce seal.key) offset ct

  -- What the stream encrypts at a position, the key that sees it there decrypts.
  pub open_at-apply :
      (inner : InnerStream) (seal : SealKey) (bytes : List ℕ)
      → seal.key ≡ inner.key
      → open_at seal inner.position (apply inner bytes).0 ≡ bytes
  unfolding apply open_at
  open_at-apply inner seal bytes e = rw e (
      apply_keystream_twice cipher (cipher_key inner.key) (cipher_nonce inner.key) inner.position
        bytes)

  pub length-apply :
      (inner : InnerStream) (bytes : List ℕ) → length (apply inner bytes).0 ≡ length bytes
  unfolding apply
  length-apply inner bytes =
      length-apply_keystream cipher (cipher_key inner.key) (cipher_nonce inner.key) inner.position
        bytes
