-- ===== src/BlockStream.antt =====
-- crates/blindkey-core/src/format/block_stream.rs: the body as blocks `hmac | size u32 | payload`,
-- each under a key of its index, ended by an authenticated empty block.
pub mod Blocks
pub mod Read
pub mod Accepts
mod Tests
use blindkey.Prelude.{
  ℕ, zero, suc, ◌+◌, ◌*◌, ◌%◌, Bool, true, false, List, [], ◌∷◌, ◌++◌, length, ltb, leb, ◌==◌, not,
  bytes_eq, codes, chunks, if◌then◌else◌,
}
use blindkey.Result.{Result, ok, err, body_malformed, body_auth}
use blindkey.Bytes.{u32_mod, u64_mod, le_bytes}
use blindkey.Cursor.{
  Cursor, ◌>>=◌, ◌>>◌, pure, fail, refuse_if, relabel, remaining, run, take, take_array,
  read_u32_le,
}
use blindkey.Cursor
use blindkey.Primitives.{Hashes}

-- `BLOCK_SIZE` of format/mod.rs, and `HMAC_LEN`.
abbrev pub block_size : ℕ
block_size = 1024 * 1024

abbrev pub hmac_len : ℕ
hmac_len = 32

-- The end of the loop of `read`, behind the terminator.
unfoldable pub finish : List ℕ → Cursor.Read (List ℕ)
finish out c = if remaining c == 0 then ok (out, c) else err body_malformed

module _ (hashes : Hashes) (data_key master_seed : List ℕ) where
  open hashes use {hmac_sha256, hkdf_sha256}

  unfoldable pub block_key : ℕ → List ℕ
  block_key index =
      hkdf_sha256 data_key (le_bytes 8 index ++ master_seed) (codes "vault-block-hmac-v1")

  -- The tag over index, size and payload, as `write_block` and `read` compute it.
  unfoldable pub block_hmac : ℕ → ℕ → List ℕ → List ℕ
  unfolding block_key
  block_hmac index size payload =
      hmac_sha256 (block_key index) (le_bytes 8 index ++ (le_bytes 4 size ++ payload))

  unfoldable pub write_block : List ℕ → ℕ → List ℕ → List ℕ
  write_block out index payload =
      let size = length payload % u32_mod in
      out ++ (block_hmac index size payload ++ (le_bytes 4 size ++ payload))

  -- The loop of `frame_inner` over the chunks, and the terminator.
  unfoldable pub write_blocks : List ℕ → ℕ → List (List ℕ) → List ℕ
  write_blocks out index [] = write_block out index []
  write_blocks out index (chunk ∷ rest) =
      write_blocks (write_block out index chunk) (index + 1) rest

  unfoldable pub frame_inner : List ℕ → ℕ → List ℕ
  frame_inner ciphertext size = write_blocks [] 0 (chunks size ciphertext)

  unfoldable pub frame : List ℕ → List ℕ
  unfolding frame_inner
  frame ciphertext = frame_inner ciphertext block_size

  -- The reads and checks of one round of the loop of `read`.
  unfoldable pub read_block : ℕ → Cursor.Read (ℕ × List ℕ)
  read_block index = do
    tag ← relabel body_malformed (take_array hmac_len)
    size ← relabel body_malformed read_u32_le
    refuse_if (ltb block_size size) body_malformed
    payload ← relabel body_malformed (take size)
    refuse_if (not (bytes_eq (block_hmac index size payload) tag)) body_auth
    pure (size, payload)

  -- The loop of `read`, on fuel. A round takes 36 bytes at least.
  unfoldable pub read_blocks : ℕ → ℕ → List ℕ → Cursor.Read (List ℕ)
  read_blocks zero index out = fail body_malformed
  read_blocks (suc fuel) index out = read_block index >>= λ (size, payload). elim (size == 0) [
    | true ↦ finish out
    | false ↦ do
      refuse_if (leb u64_mod (index + 1)) body_malformed
      read_blocks fuel (index + 1) (out ++ payload)
  ]

  unfoldable pub read : List ℕ → Result (List ℕ)
  read bytes = run (read_blocks (suc (length bytes)) 0 []) bytes
