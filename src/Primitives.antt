-- ===== src/Primitives.antt =====
-- The hash functions of the crates `sha2`, `hmac` and `hkdf`, which are not part of the
-- repository: parameters of the model, with the length of their output as the only law.
pub mod Cipher
pub mod ToyStream
pub mod Toy
use blindkey.Prelude.{ℕ, ◌+◌, ◌^◌, ◌<◌, ◌≡◌, Option, none, some, List, length}
use blindkey.Result.{Error, Result, ok, err}

pub record Hashes : Type 0 where
  pub sha256 : List ℕ → List ℕ
  -- key, then message
  pub hmac_sha256 : List ℕ → List ℕ → List ℕ
  -- 32 bytes of output key material for ikm, salt and info
  pub hkdf_sha256 : List ℕ → List ℕ → List ℕ → List ℕ
  pub length-sha256 : (msg : List ℕ) → length (sha256 msg) ≡ 32
  pub length-hmac_sha256 : (key msg : List ℕ) → length (hmac_sha256 key msg) ≡ 32

-- An authenticated cipher with 16-byte tags, as the crate `chacha20poly1305` documents it: `seal`
-- and `unseal` take a key, a nonce, associated data and a message. `seal` fails only on messages of
-- 2^32 bytes and more; `unseal` returns what was sealed, and accepts only what `seal` returns.
pub record Aead : Type 0 where
  pub seal : List ℕ → List ℕ → List ℕ → List ℕ → Option (List ℕ)
  pub unseal : List ℕ → List ℕ → List ℕ → List ℕ → Option (List ℕ)
  pub seals :
      (key nonce aad msg : List ℕ)
      → length msg < 2 ^ 32
      → (ct : List ℕ) × (seal key nonce aad msg ≡ some ct)
  pub length-seal :
      (key nonce aad msg ct : List ℕ)
      → seal key nonce aad msg ≡ some ct
      → length ct ≡ length msg + 16
  pub unseal-seal :
      (key nonce aad msg ct : List ℕ)
      → seal key nonce aad msg ≡ some ct
      → unseal key nonce aad ct ≡ some msg
  pub seal-unseal :
      (key nonce aad msg ct : List ℕ)
      → unseal key nonce aad ct ≡ some msg
      → seal key nonce aad msg ≡ some ct

-- `.map_err(|_| e)` on a call of the cipher
abbrev pub ok_or {ℓ} : {A : Type ℓ} → Error → Option A → Result A
ok_or e none = err e
ok_or e (some a) = ok a
