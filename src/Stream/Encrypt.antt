-- ===== src/Stream/Encrypt.antt =====
-- The output of the encryptor of crates/blindkey-core/src/crypto/stream.rs.
use blindkey.Prelude.{
  ℕ, zero, suc, ◌+◌, ◌-◌, ◌%◌, ◌^◌, ◌≤◌, ◌<◌, ◌≡◌, refl, sym, ap, ◌∙◌, arith, true, false, some,
  List, [], ◌∷◌, ◌++◌, length, take, drop, append_assoc, length-drop, length-take, ltb, leb, ◌==◌,
  ◌||◌, Bool-cases, inl, inr, take-append-drop,
}
use blindkey.Result.{ok, ◌>>=◌}
use blindkey.Bytes.{u64_mod}
use blindkey.Primitives.{Aead}
use blindkey.Stream.{
  StreamEncryptor, stream_chunk_size, chunk_nonce, seal_one, seal_full_chunks, finish,
  finish_pending,
}

module _ (aead : Aead) where
  -- `ct` is the chunks of `pt` sealed from counter `n` on: all but the last one full, and the last
  -- one, which alone is marked, not full.
  pub data SealedAs (key : List ℕ) : ℕ → List ℕ → List ℕ → Type 0 where
    last :
        {n : ℕ} {pt ct : List ℕ}
        → length pt < stream_chunk_size
        → aead.seal key (chunk_nonce n true) [] pt ≡ some ct
        → SealedAs key n pt ct
    more :
        {n : ℕ} {pt ct : List ℕ} (chunk rest c cs : List ℕ)
        → pt ≡ chunk ++ rest
        → ct ≡ c ++ cs
        → length chunk ≡ stream_chunk_size
        → n + 1 < u64_mod
        → aead.seal key (chunk_nonce n false) [] chunk ≡ some c
        → SealedAs key (n + 1) rest cs
        → SealedAs key n pt ct

  -- The encryptor is not finished, and has counted the bytes that it was given
  -- modulo the chunk size.
  pub record IsOpen (e : StreamEncryptor) : Type 0 where
    pub unfinished : e.finished ≡ false
    pub counted : e.plaintext_len % stream_chunk_size ≡ length e.pending % stream_chunk_size

  seal_last :
      (e : StreamEncryptor) (chunk : List ℕ) {ct : List ℕ}
      → aead.seal e.cipher (chunk_nonce e.counter true) [] chunk ≡ some ct
      → seal_one aead e chunk true ≡ ok (record e { out = e.out ++ ct })
  unfolding seal_one
  seal_last e chunk h = rw h refl

  -- The encryptor after one full chunk with ciphertext `c`.
  abbrev after : StreamEncryptor → List ℕ → StreamEncryptor
  after e c = record e {
    pending = drop stream_chunk_size e.pending;
    out = e.out ++ c;
    counter = e.counter + 1;
  }

  seal_more :
      (e : StreamEncryptor) {c : List ℕ}
      → e.counter + 1 < u64_mod
      → aead.seal e.cipher (chunk_nonce e.counter false) [] (take stream_chunk_size e.pending)
        ≡ some c
      → seal_one aead
          (record e { pending = drop stream_chunk_size e.pending })
          (take stream_chunk_size e.pending)
          false
        ≡ ok (after e c)
  unfolding seal_one
  seal_more e room h =
      let fine : leb u64_mod (e.counter + 1) ≡ false = ground arith in rw (h, fine) refl

  -- The test of `finish` on an empty remainder always passes, so the last chunk is never left out.
  finish_pending-ok :
      (e : StreamEncryptor) (pending : List ℕ) {ct : List ℕ}
      → pending ≡ e.pending
      → e.plaintext_len % stream_chunk_size ≡ length pending % stream_chunk_size
      → aead.seal e.cipher (chunk_nonce e.counter true) [] pending ≡ some ct
      → finish_pending aead e pending ≡ ok (record e { pending = []; out = e.out ++ ct })
  unfolding finish_pending
  finish_pending-ok e [] {ct} p counted h =
      let whole : (e.plaintext_len % stream_chunk_size == 0) ≡ true = ground arith in
      let always : (e.plaintext_len == 0 || e.plaintext_len % stream_chunk_size == 0) ≡ true =
        ground arith in
      rw always (
        seal_last e [] h
        ∙ ap (λ (t : List ℕ). ok (record e { pending = t; out = e.out ++ ct })) (sym p))
  finish_pending-ok e (b ∷ tail) p counted h = seal_last (record e { pending = [] }) (b ∷ tail) h

  finish_short :
      (e : StreamEncryptor) {ct : List ℕ}
      → IsOpen e
      → length e.pending < stream_chunk_size
      → aead.seal e.cipher (chunk_nonce e.counter true) [] e.pending ≡ some ct
      → finish aead e ≡ ok (e.out ++ ct)
  unfolding finish finish_pending
  finish_short e {ct} o short h =
      let e' : StreamEncryptor = record e { finished = true } in
      let put : finish_pending aead e' e.pending
          ≡ ok (record e' { pending = []; out = e.out ++ ct }) =
        finish_pending-ok e' e.pending refl o.counted h in
      rw (o.unfinished, put) refl

  -- Sealing what is pending from `e` on ends with `e.out` followed by `ct`.
  pub record Encrypts (fuel : ℕ) (e : StreamEncryptor) : Type 0 where
    pub ct : List ℕ
    pub result : (seal_full_chunks aead fuel e >>= λ e'. finish aead e') ≡ ok (e.out ++ ct)
    pub sealed : SealedAs e.cipher e.counter e.pending ct

  short_case :
      (fuel : ℕ) (e : StreamEncryptor) (ct : List ℕ)
      → IsOpen e
      → ltb (length e.pending) stream_chunk_size ≡ true
      → aead.seal e.cipher (chunk_nonce e.counter true) [] e.pending ≡ some ct
      → Encrypts (suc fuel) e
  unfolding seal_full_chunks
  short_case fuel e ct o short h =
      let small : length e.pending < stream_chunk_size = ground arith in
      record {
        ct = ct;
        result = rw (short, seal_full_chunks) (finish_short e o small h);
        sealed = last small h;
      }

  full_case :
      (fuel : ℕ) (e : StreamEncryptor) (c : List ℕ)
      → ltb (length e.pending) stream_chunk_size ≡ false
      → e.counter + 1 < u64_mod
      → length (take stream_chunk_size e.pending) ≡ stream_chunk_size
      → aead.seal e.cipher (chunk_nonce e.counter false) [] (take stream_chunk_size e.pending)
        ≡ some c
      → Encrypts fuel (after e c)
      → Encrypts (suc fuel) e
  unfolding seal_full_chunks
  full_case fuel e c full room size h rest = record {
    ct = c ++ rest.ct;
    result =
        rw (full, seal_full_chunks, seal_more e room h)
          (rest.result ∙ ap ok (append_assoc e.out c rest.ct));
    sealed =
        more (take stream_chunk_size e.pending) (drop stream_chunk_size e.pending) c rest.ct
          (sym (take-append-drop stream_chunk_size e.pending)) refl size room h rest.sealed;
  }

  pub encrypts :
      (fuel : ℕ) (e : StreamEncryptor)
      → IsOpen e
      → length e.pending < fuel
      → e.counter + length e.pending < u64_mod
      → Encrypts fuel e
  encrypts zero e o hf hc = absurd (omega arith)
  encrypts (suc fuel) e o hf hc = elim (Bool-cases (ltb (length e.pending) stream_chunk_size)) [
    | inl short ↦
        let small : length e.pending < 2 ^ 32 = ground arith in
        let sealed = aead.seals e.cipher (chunk_nonce e.counter true) [] e.pending small in
        short_case fuel e sealed.0 o short sealed.1
    | inr full ↦
        let big : stream_chunk_size ≤ length e.pending = ground arith in
        let chunk : List ℕ = take stream_chunk_size e.pending in
        let size : length chunk ≡ stream_chunk_size =
          omega (arith, length-take stream_chunk_size e.pending) in
        let left : length (drop stream_chunk_size e.pending)
            ≡ length e.pending - stream_chunk_size =
          length-drop stream_chunk_size e.pending in
        let sealed = aead.seals e.cipher (chunk_nonce e.counter false) [] chunk (omega arith) in
        let o' : IsOpen (after e sealed.0) = record {
          unfinished = o.unfinished;
          counted = omega (arith, o.counted, left, big);
        } in
        full_case fuel e sealed.0 full (omega arith) size sealed.1 (
          encrypts fuel (after e sealed.0) o' (omega (arith, left, big)) (omega (arith, left, big)))
  ]
