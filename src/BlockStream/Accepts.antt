-- ===== src/BlockStream/Accepts.antt =====
-- `read` and `frame` of crates/blindkey-core/src/format/block_stream.rs on whole streams.
use blindkey.Prelude.{
  ℕ, suc, ◌+◌, ◌*◌, ◌≤◌, ◌<◌, ◌≡◌, ◌≢◌, ◌↔◌, sym, ◌∙◌, arith, List, [], ◌++◌, length, length-append,
  append-nil, concat, IsPiece, All, chunks, chunks-IsPiece, concat-chunks, drop, drop-all,
  length-ne-nil,
}
use mathlib.Core.Path.{subst}
use blindkey.Result.{ok, err, body_malformed}
use blindkey.Bytes.{IsByte, u64_mod}
use blindkey.Cursor.{Cursor, new}
use blindkey.Cursor.Reads.{
  Ahead, Ahead-new, Ahead-skip, length-Ahead, skip, run-ok, run-err, run-eq-ok,
}
use blindkey.Cursor.Takes.{Fits-new}
use blindkey.Primitives.{Hashes}
use blindkey.BlockStream.{block_size, finish, read_blocks, read, frame}
use blindkey.BlockStream.Blocks.{stream, write_blocks-stream, length-stream}
use blindkey.BlockStream.Read.{read_blocks-stream, Takes-read_blocks, loop_end}

module _ (hashes : Hashes) (data_key master_seed : List ℕ) where
  -- The bytes are data blocks of at most `block_size` bytes, none empty, each with the tag of its
  -- index and payload, and a terminator; the payloads make up `content`.
  pub record IsStream (bytes content : List ℕ) : Type 0 where
    pub payloads : List (List ℕ)
    pub pieces : All (IsPiece block_size) payloads
    pub layout : bytes ≡ stream hashes data_key master_seed 0 payloads
    pub joined : content ≡ concat payloads

  finish-Ahead : (out : List ℕ) {c : Cursor} → Ahead c [] → finish out c ≡ ok (out, c)
  unfolding finish
  finish-Ahead out h = ground (arith, length-Ahead h)

  loop_on_stream :
      (ps : List (List ℕ)) (s : List ℕ)
      → All (IsPiece block_size) ps
      → length (stream hashes data_key master_seed 0 ps ++ s) < u64_mod
      → read_blocks hashes data_key master_seed
          (suc (length (stream hashes data_key master_seed 0 ps ++ s)))
          0
          []
          (new (stream hashes data_key master_seed 0 ps ++ s))
        ≡ finish (concat ps) (
            skip
              (length (stream hashes data_key master_seed 0 ps))
              (new (stream hashes data_key master_seed 0 ps ++ s)))
  loop_on_stream ps s pieces small =
      let whole : List ℕ = stream hashes data_key master_seed 0 ps in
      let many : 36 * length ps + 36 ≤ length (whole ++ s) =
        omega (arith, length-stream hashes data_key master_seed 0 ps, length-append whole s) in
      read_blocks-stream hashes data_key master_seed ps _ 0 [] _ s pieces (omega arith)
        (omega arith) (Ahead-new _ small)

  accepts_stream :
      (bytes content : List ℕ)
      → length bytes < u64_mod
      → IsStream bytes content
      → read hashes data_key master_seed bytes ≡ ok content
  unfolding read
  accepts_stream bytes content small st =
      let whole : List ℕ = stream hashes data_key master_seed 0 st.payloads in
      let small' : length (whole ++ []) < u64_mod = rw (append-nil, ← st.layout) small in
      let at_end : Ahead (skip (length whole) (new (whole ++ []))) [] =
        Ahead-skip whole (rw append-nil (Ahead-new whole (rw append-nil at small'))) in
      rw (st.layout, ← append-nil whole, st.joined)
        (run-ok (read_blocks hashes data_key master_seed (suc (length (whole ++ []))) 0 [])
          (whole ++ []) (loop_on_stream st.payloads [] st.pieces small' ∙ finish-Ahead _ at_end))

  IsStream-of_read :
      (bytes content : List ℕ)
      → All IsByte bytes
      → length bytes < u64_mod
      → read hashes data_key master_seed bytes ≡ ok content
      → IsStream bytes content
  unfolding read
  IsStream-of_read bytes content hb small e =
      let (c, e₀) =
        run-eq-ok (read_blocks hashes data_key master_seed (suc (length bytes)) 0 []) bytes e in
      let (bs, m, (ps, pieces, eb, ec)) =
        (Takes-read_blocks hashes data_key master_seed (suc (length bytes)) 0 []).at (new bytes)
          content c (Fits-new bytes hb small) e₀ in
      let nothing : drop c.pos c.buf ≡ [] = drop-all c.pos c.buf (
        omega (
          arith,
          loop_end hashes data_key master_seed (suc (length bytes)) 0 [] (new bytes) content c e₀,
        )) in
      record {
        payloads = ps;
        pieces = pieces;
        layout = m.sight ∙ rw (nothing, append-nil) eb;
        joined = ec;
      }

  -- `read` returns `content` for a byte string of fewer than 2^64 bytes exactly if that string is
  -- a sequence of data blocks, none empty and none longer than 1 MiB, each with the tag of its own
  -- index, size and payload, closed by the tagged empty block at the end of the input, and
  -- `content` is the payloads one after the other.
  pub read_iff :
      (bytes content : List ℕ)
      → All IsByte bytes
      → length bytes < u64_mod
      → (read hashes data_key master_seed bytes ≡ ok content) ↔ IsStream bytes content
  read_iff bytes content hb small =
      (IsStream-of_read bytes content hb small, accepts_stream bytes content small)

  -- What `frame` writes is read back.
  pub read-frame :
      (ciphertext : List ℕ)
      → length (frame hashes data_key master_seed ciphertext) < u64_mod
      → read hashes data_key master_seed (frame hashes data_key master_seed ciphertext)
        ≡ ok ciphertext
  unfolding frame
  read-frame ciphertext small = accepts_stream _ ciphertext small (record {
    payloads = chunks block_size ciphertext;
    pieces = chunks-IsPiece block_size ciphertext (omega arith);
    layout = write_blocks-stream hashes data_key master_seed [] 0 (chunks block_size ciphertext);
    joined = sym (concat-chunks block_size ciphertext (omega arith));
  })

  finish_early :
      (out : List ℕ) {c : Cursor} {s : List ℕ}
      → Ahead c s
      → s ≢ []
      → finish out c ≡ err body_malformed
  unfolding finish
  finish_early out {s = s} h some_more = ground (arith, length-Ahead h, length-ne-nil s some_more)

  appended_stream :
      (ps : List (List ℕ)) (more : List ℕ)
      → All (IsPiece block_size) ps
      → length (stream hashes data_key master_seed 0 ps ++ more) < u64_mod
      → more ≢ []
      → read hashes data_key master_seed (stream hashes data_key master_seed 0 ps ++ more)
        ≡ err body_malformed
  unfolding read
  appended_stream ps more pieces small some_more =
      let whole : List ℕ = stream hashes data_key master_seed 0 ps in
      let early : finish (concat ps) (skip (length whole) (new (whole ++ more)))
          ≡ err body_malformed =
        finish_early _ (Ahead-skip whole (Ahead-new (whole ++ more) small)) some_more in
      run-err (read_blocks hashes data_key master_seed (suc (length (whole ++ more))) 0 [])
        (whole ++ more) (loop_on_stream ps more pieces small ∙ early)

  -- A byte string that is accepted is rejected as malformed once anything is appended to it.
  pub read_appended :
      (bytes content more : List ℕ)
      → All IsByte bytes
      → length (bytes ++ more) < u64_mod
      → more ≢ []
      → read hashes data_key master_seed bytes ≡ ok content
      → read hashes data_key master_seed (bytes ++ more) ≡ err body_malformed
  read_appended bytes content more hb small some_more e =
      let st = IsStream-of_read bytes content hb (omega (arith, length-append bytes more)) e in
      subst
        (λ t.
          length (t ++ more) < u64_mod
          → read hashes data_key master_seed (t ++ more) ≡ err body_malformed)
        (sym st.layout) (λ small'. appended_stream st.payloads more st.pieces small' some_more)
        small

  -- No proper front of an accepted byte string is accepted, with any content.
  pub read_truncated :
      (front back content other : List ℕ)
      → All IsByte front
      → length (front ++ back) < u64_mod
      → back ≢ []
      → read hashes data_key master_seed (front ++ back) ≡ ok content
      → read hashes data_key master_seed front ≢ ok other
  read_truncated front back content other hb small some_more e e' =
      cc (e, read_appended front other back hb small some_more e')
