-- ===== src/BlockStream/Blocks.antt =====
-- Single blocks of crates/blindkey-core/src/format/block_stream.rs, written and read.
use blindkey.Prelude.{
  ℕ, ◌+◌, ◌*◌, ◌^◌, ◌%◌, ◌≤◌, ◌<◌, ◌≡◌, refl, sym, ap, ◌∙◌, arith, true, false, List, [], ◌∷◌, ◌++◌,
  length, length-append, append-nil, append_assoc, ltb, not, bytes_eq, bytes_eq_refl, bytes_eq→eq,
}
use native.Mathlib.Nat.{mod-eq_of_lt}
use blindkey.Result.{body_malformed, body_auth}
use blindkey.Bytes.{u32_mod, le_bytes, length-le_bytes}
use blindkey.Cursor.Reads.{
  Reads, Reads-bind, Reads-pure, Reads-take, Reads-take_at, Reads-read_le, Reads-refuse_if,
  Reads-relabel, Reads-cast,
}
use blindkey.Cursor.Takes.{
  Takes, Takes-bind, Takes-pure, Takes-take, Takes-read_le, Takes-guard, Takes-relabel,
}
use blindkey.Primitives.{Hashes}
use blindkey.BlockStream.{block_size, block_key, block_hmac, write_block, write_blocks, read_block}

module _ (hashes : Hashes) (data_key master_seed : List ℕ) where
  -- One block at its index.
  abbrev pub block : ℕ → List ℕ → List ℕ
  block index payload = write_block hashes data_key master_seed [] index payload

  pub write_block-append :
      (out : List ℕ) (index : ℕ) (payload : List ℕ)
      → write_block hashes data_key master_seed out index payload ≡ out ++ block index payload
  unfolding write_block
  write_block-append out index payload = refl

  pub block-eq :
      (index : ℕ) (payload : List ℕ)
      → length payload ≤ block_size
      → block index payload
        ≡ block_hmac hashes data_key master_seed index (length payload) payload
          ++ (le_bytes 4 (length payload) ++ payload)
  unfolding write_block
  block-eq index payload h = rw (mod-eq_of_lt {n = length payload} {m = u32_mod} (omega arith)) refl

  pub length-block :
      (index : ℕ) (payload : List ℕ) → length (block index payload) ≡ 36 + length payload
  unfolding write_block block_hmac
  length-block index payload =
      let size : ℕ = length payload % u32_mod in
      let tag : List ℕ = block_hmac hashes data_key master_seed index size payload in
      omega (
        arith,
        length-append tag (le_bytes 4 size ++ payload),
        length-append (le_bytes 4 size) payload,
        length-le_bytes 4 size,
        hashes.length-hmac_sha256 (block_key hashes data_key master_seed index)
            (le_bytes 8 index ++ (le_bytes 4 size ++ payload)),
      )

  -- The blocks of a stream from `index` on, the terminator included.
  abbrev pub stream : ℕ → List (List ℕ) → List ℕ
  stream index [] = block index []
  stream index (p ∷ ps) = block index p ++ stream (index + 1) ps

  pub write_blocks-stream :
      (out : List ℕ) (index : ℕ) (ps : List (List ℕ))
      → write_blocks hashes data_key master_seed out index ps ≡ out ++ stream index ps
  unfolding write_blocks
  write_blocks-stream out index [] = write_block-append out index []
  write_blocks-stream out index (p ∷ ps) =
      write_blocks-stream (write_block hashes data_key master_seed out index p) (index + 1) ps
      ∙ rw write_block-append (append_assoc out (block index p) (stream (index + 1) ps))

  -- A stream is longer than 36 bytes for each block and its terminator.
  pub length-stream :
      (index : ℕ) (ps : List (List ℕ)) → 36 * length ps + 36 ≤ length (stream index ps)
  length-stream index [] = omega (arith, length-block index [])
  length-stream index (p ∷ ps) = omega (
    arith,
    length-block index p,
    length-append (block index p) (stream (index + 1) ps),
    length-stream (index + 1) ps,
  )

  pub Reads-read_block :
      (index : ℕ) (payload : List ℕ)
      → length payload ≤ block_size
      → Reads
          (read_block hashes data_key master_seed index)
          (block index payload)
          (length payload, payload)
  unfolding read_block
  Reads-read_block index payload h =
      let tag : List ℕ = block_hmac hashes data_key master_seed index (length payload) payload in
      let size : length tag ≡ 32 = unfold block_hmac in hashes.length-hmac_sha256 _ _ in
      let small : ltb block_size (length payload) ≡ false = ground arith in
      let fits : length payload < 256 ^ 4 = omega arith in
      let fine : not (bytes_eq tag tag) ≡ false = rw bytes_eq_refl refl in
      rw (block-eq index payload h) (
        Reads-bind _ (Reads-relabel body_malformed (Reads-take_at 32 tag size)) (
          Reads-bind _ (Reads-relabel body_malformed (Reads-read_le 4 (length payload) fits)) (
            Reads-bind _ (Reads-refuse_if _ body_malformed small) (
              Reads-cast (append-nil payload) (
                Reads-bind _ (Reads-relabel body_malformed (Reads-take payload))
                  (Reads-bind _ (Reads-refuse_if _ body_auth fine) (Reads-pure _)))))))

  abbrev pub BlockTaken : ℕ → ℕ × List ℕ → List ℕ → Type 0
  BlockTaken index (size, payload) bs =
      (bs ≡ block index payload) × (size ≡ length payload) × (length payload ≤ block_size)

  pub Takes-read_block :
      (index : ℕ) → Takes (read_block hashes data_key master_seed index) (BlockTaken index)
  unfolding read_block
  Takes-read_block index =
      Takes-bind _ (Takes-relabel body_malformed (Takes-take 32)) (λ tag b₁ q₁ h₁.
        Takes-bind _ (Takes-relabel body_malformed (Takes-read_le 4)) (λ size b₂ q₂ h₂.
          Takes-bind _ (Takes-guard (ltb block_size size) body_malformed) (λ _ b₃ q₃ h₃.
            Takes-bind _ (Takes-relabel body_malformed (Takes-take size)) (λ payload b₄ q₄ h₄.
              Takes-bind _
                (Takes-guard
                  (not (bytes_eq (block_hmac hashes data_key master_seed index size payload) tag))
                  body_auth)
                (λ _ b₅ q₅ h₅.
                  let count : length payload ≡ size = ap length (sym q₄.0) ∙ q₄.1 in
                  let small : length payload ≤ block_size = ground (arith, q₃.1) in
                  let same : bytes_eq (block_hmac hashes data_key master_seed index size payload)
                        tag
                      ≡ true =
                    ground (arith, q₅.1) in
                  Takes-pure _ (
                    rw
                        (
                          q₁.0,
                          q₂.0,
                          q₃.0,
                          q₄.0,
                          q₅.0,
                          append-nil,
                          ← bytes_eq→eq (block_hmac hashes data_key master_seed index size payload)
                              tag same,
                          ← count,
                        )
                        (sym (block-eq index payload small)),
                    sym count,
                    small,
                  ))))))
