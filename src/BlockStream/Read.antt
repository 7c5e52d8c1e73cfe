-- ===== src/BlockStream/Read.antt =====
-- The loop of `read` of crates/blindkey-core/src/format/block_stream.rs.
use blindkey.Prelude.{
  ℕ, zero, suc, ◌+◌, ◌<◌, ◌≡◌, refl, sym, ap, ◌∙◌, arith, true, false, List, [], ◌∷◌, ◌++◌, length,
  length-append, append-nil, append_assoc, leb, ◌==◌, concat, IsPiece, All, Bool-cases, inl, inr,
}
use blindkey.Result.{Result, ok, body_malformed}
use blindkey.Bytes.{u64_mod}
use blindkey.Cursor.{Cursor, remaining}
use blindkey.Cursor.Reads.{Ahead, Ahead-skip, skip, >>=-ok}
use blindkey.Cursor.Takes.{Takes, Takes-bind, Takes-pure, Takes-guard, Takes-weaken, bind_result}
use blindkey.Primitives.{Hashes}
use blindkey.BlockStream.{block_size, finish, read_block, read_blocks}
use blindkey.BlockStream.Blocks.{block, stream, Reads-read_block, Takes-read_block, BlockTaken}

module _ (hashes : Hashes) (data_key master_seed : List ℕ) where
  abbrev pub loop : ℕ → ℕ → List ℕ → Cursor → Result (List ℕ × Cursor)
  loop fuel index out c = read_blocks hashes data_key master_seed fuel index out c

  abbrev pub blk : ℕ → List ℕ → List ℕ
  blk index p = block hashes data_key master_seed index p

  abbrev pub strm : ℕ → List (List ℕ) → List ℕ
  strm index ps = stream hashes data_key master_seed index ps

  -- A data block makes one more round.
  round :
      (fuel index : ℕ) (out p : List ℕ) (c : Cursor) (s : List ℕ)
      → IsPiece block_size p
      → index + 1 < u64_mod
      → Ahead c (blk index p ++ s)
      → loop (suc fuel) index out c
        ≡ loop fuel (index + 1) (out ++ p) (skip (length (blk index p)) c)
  unfolding read_blocks
  round fuel index out p c s piece room h =
      let one = (Reads-read_block hashes data_key master_seed index p piece.1).at c s h in
      let filled : (length p == 0) ≡ false = ground (arith, piece.0) in
      let fine : leb u64_mod (index + 1) ≡ false = ground arith in
      >>=-ok (read_block hashes data_key master_seed index) _ one ∙ rw (filled, fine) refl

  -- The terminator ends the loop.
  last_round :
      (fuel index : ℕ) (out : List ℕ) (c : Cursor) (s : List ℕ)
      → Ahead c (blk index [] ++ s)
      → loop (suc fuel) index out c ≡ finish out (skip (length (blk index [])) c)
  unfolding read_blocks
  last_round fuel index out c s h =
      let one = (Reads-read_block hashes data_key master_seed index [] (omega arith)).at c s h in
      >>=-ok (read_block hashes data_key master_seed index) _ one

  pub read_blocks-stream :
      (ps : List (List ℕ)) (fuel index : ℕ) (out : List ℕ) (c : Cursor) (s : List ℕ)
      → All (IsPiece block_size) ps
      → length ps < fuel
      → index + length ps < u64_mod
      → Ahead c (strm index ps ++ s)
      → loop fuel index out c ≡ finish (out ++ concat ps) (skip (length (strm index ps)) c)
  read_blocks-stream ps zero index out c s pieces hf hi h = absurd (omega arith)
  read_blocks-stream [] (suc fuel) index out c s pieces hf hi h =
      rw append-nil (last_round fuel index out c s h)
  read_blocks-stream (p ∷ ps) (suc fuel) index out c s (piece, pieces) hf hi h =
      let rest : List ℕ = strm (index + 1) ps in
      let h' : Ahead c (blk index p ++ (rest ++ s)) = rw append_assoc at h in
      round fuel index out p c (rest ++ s) piece (omega arith) h'
      ∙ read_blocks-stream ps fuel (index + 1) (out ++ p) (skip (length (blk index p)) c) s pieces
          (omega arith) (omega arith) (Ahead-skip (blk index p) h')
      ∙ rw append_assoc (
          ap (λ (n : ℕ). finish (out ++ (p ++ concat ps)) (record c { pos = n }))
            (omega (arith, length-append (blk index p) rest)))

  -- What the loop has taken where it succeeds: data blocks from `index` on, and a terminator.
  abbrev pub LoopTaken : ℕ → List ℕ → List ℕ → List ℕ → Type 0
  LoopTaken index out r bs =
      (ps : List (List ℕ)) × All (IsPiece block_size) ps
      × (bs ≡ strm index ps)
      × (r ≡ out ++ concat ps)

  Takes-finish : (out : List ℕ) → Takes (finish out) (λ r bs. (bs ≡ []) × (r ≡ out))
  unfolding finish
  Takes-finish out = record {
    at = λ c r c' h e. elim (Bool-cases (remaining c == 0)) [
      | inl done ↦
          (Takes-pure {Q = λ r bs. (bs ≡ []) × (r ≡ out)} out (refl, refl)).at c r c' h
            (rw done at e)
      | inr more ↦ cc (rw more at e)
    ];
  }

  pub Takes-read_blocks :
      (fuel index : ℕ) (out : List ℕ)
      → Takes (read_blocks hashes data_key master_seed fuel index out) (LoopTaken index out)
  unfolding read_blocks
  Takes-read_blocks zero index out = record { at = λ c r c' h e. cc }
  Takes-read_blocks (suc fuel) index out =
      Takes-bind _ (Takes-read_block hashes data_key master_seed index) (λ a b₁ q₁ h₁.
        elim (Bool-cases (a.0 == 0)) [
          | inl last ↦ rw last (
              Takes-weaken
                (λ r bs hb q. ([], tt, terminator a b₁ bs q₁ q.0 last, q.1 ∙ sym (append-nil out)))
                (Takes-finish out))
          | inr more ↦ rw more (
              Takes-bind _ (Takes-guard (leb u64_mod (index + 1)) body_malformed) (λ _ b₂ q₂ h₂.
                Takes-weaken
                  (λ r bs hb q. (
                    a.1 ∷ q.0,
                    ((ground (arith, q₁.1, more), q₁.2), q.1),
                    rw (q₁.0, q₂.0, q.2) refl,
                    q.3 ∙ append_assoc out a.1 (concat q.0),
                  ))
                  (Takes-read_blocks fuel (index + 1) (out ++ a.1))))
        ])
    where
      terminator :
          (a : ℕ × List ℕ) (b₁ bs : List ℕ)
          → BlockTaken hashes data_key master_seed index a b₁
          → bs ≡ []
          → (a.0 == 0) ≡ true
          → b₁ ++ bs ≡ blk index []
      terminator (size, []) b₁ bs q e l = rw (q.0, e, append-nil) refl
      terminator (size, x ∷ xs) b₁ bs q e l = ground (arith, q.1, l)

  -- The loop ends at the end of the input.
  pub loop_end :
      (fuel index : ℕ) (out : List ℕ) (c : Cursor) (r : List ℕ) (c' : Cursor)
      → loop fuel index out c ≡ ok (r, c')
      → remaining c' ≡ 0
  unfolding read_blocks finish
  loop_end zero index out c r c' e = cc
  loop_end (suc fuel) index out c r c' e =
      let (a, c₁, e₁, e₂) = bind_result _ (read_block hashes data_key master_seed index c) e in
      ground (arith, e₂, loop_end fuel (index + 1) (out ++ a.1) c₁ r c')
