-- ===== src/Primitives/Cipher.antt =====
-- The stream cipher of the crate `chacha20`, which is not part of the repository: under a key and a
-- nonce, each byte is combined with the byte of the keystream at its position, and combining it
-- twice gives it back. The end of the keystream, at 2^38 bytes, is out of reach of a vault.
use blindkey.Prelude.{ℕ, ◌+◌, ◌≡◌, refl, arith, List, [], ◌∷◌, length}

pub record StreamCipher : Type 0 where
  pub combine : List ℕ → List ℕ → ℕ → ℕ → ℕ
  pub combine-combine :
      (key nonce : List ℕ) (position byte : ℕ)
      → combine key nonce position (combine key nonce position byte) ≡ byte

module _ (cipher : StreamCipher) where
  -- `apply_keystream` from a position on.
  unfoldable pub apply_keystream : List ℕ → List ℕ → ℕ → List ℕ → List ℕ
  apply_keystream key nonce position [] = []
  apply_keystream key nonce position (b ∷ bs) =
      cipher.combine key nonce position b ∷ apply_keystream key nonce (position + 1) bs

  pub length-apply_keystream :
      (key nonce : List ℕ) (position : ℕ) (bs : List ℕ)
      → length (apply_keystream key nonce position bs) ≡ length bs
  unfolding apply_keystream
  length-apply_keystream key nonce position [] = refl
  length-apply_keystream key nonce position (b ∷ bs) =
      omega (arith, length-apply_keystream key nonce (position + 1) bs)

  pub apply_keystream_twice :
      (key nonce : List ℕ) (position : ℕ) (bs : List ℕ)
      → apply_keystream key nonce position (apply_keystream key nonce position bs) ≡ bs
  unfolding apply_keystream
  apply_keystream_twice key nonce position [] = refl
  apply_keystream_twice key nonce position (b ∷ bs) =
      rw (cipher.combine-combine, apply_keystream_twice key nonce (position + 1) bs) refl
