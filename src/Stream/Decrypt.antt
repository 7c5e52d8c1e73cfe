-- ===== src/Stream/Decrypt.antt =====
-- The decryptor of crates/blindkey-core/src/crypto/stream.rs on the output of the encryptor.
use blindkey.Prelude.{
  ℕ, zero, suc, ◌+◌, ◌*◌, ◌/◌, ◌≤◌, ◌<◌, ◌≡◌, refl, sym, ap, ◌∙◌, arith, true, false, some, List,
  [], ◌++◌, length, take, drop, append_assoc, length-append, ltb, leb, ◌==◌, min, take-all,
  drop-all, take-append_at, drop-append_at,
}
use blindkey.Result.{ok}
use blindkey.Bytes.{u64_mod}
use blindkey.Primitives.{Aead}
use blindkey.Stream.{
  StreamDecryptor, stream_chunk_size, tag_len, sealed_full, chunk_nonce, open_chunk,
  next_plaintext_chunk, decrypt_chunks,
}
use blindkey.Stream.Encrypt.{SealedAs, last, more}

module _ (aead : Aead) where
  -- A stream has one tag for each full chunk and one for the last.
  pub length-SealedAs :
      {key : List ℕ} {n : ℕ} {pt ct : List ℕ}
      → SealedAs aead key n pt ct
      → length ct ≡ length pt + tag_len * (length pt / stream_chunk_size + 1)
  length-SealedAs {key} {n} {pt} {ct} (last short h) =
      omega (arith, aead.length-seal key (chunk_nonce n true) [] pt ct h)
  length-SealedAs {key} {n} {pt} {ct} (more chunk rest c cs ep ec size room h s) = omega (
    arith,
    aead.length-seal key (chunk_nonce n false) [] chunk c h,
    length-SealedAs s,
    ap length ep,
    ap length ec,
    length-append chunk rest,
    length-append c cs,
  )

  next_last :
      (d : StreamDecryptor) (pt : List ℕ)
      → tag_len ≤ length d.rest
      → length d.rest ≤ sealed_full
      → aead.unseal d.cipher (chunk_nonce d.counter true) [] d.rest ≡ some pt
      → next_plaintext_chunk aead d ≡ ok (some pt, record d { rest = [] })
  unfolding next_plaintext_chunk open_chunk
  next_last d pt lo hi h =
      let all : min (length d.rest) sealed_full ≡ length d.rest = omega arith in
      let some_left : (length d.rest == 0) ≡ false = ground arith in
      let enough : ltb (length d.rest) tag_len ≡ false = ground arith in
      let at_end : (length d.rest == length d.rest) ≡ true = ground arith in
      rw
        (
          some_left,
          enough,
          all,
          at_end,
          take-all (length d.rest) d.rest (omega arith),
          drop-all (length d.rest) d.rest (omega arith),
          h,
        )
        refl

  next_more :
      (d : StreamDecryptor) (pt c cs : List ℕ)
      → d.rest ≡ c ++ cs
      → length c ≡ sealed_full
      → 0 < length cs
      → d.counter + 1 < u64_mod
      → aead.unseal d.cipher (chunk_nonce d.counter false) [] c ≡ some pt
      → next_plaintext_chunk aead d ≡ ok (some pt, record d { rest = cs; counter = d.counter + 1 })
  unfolding next_plaintext_chunk open_chunk
  next_more d pt c cs e size left room h =
      let total : length d.rest ≡ length c + length cs = ap length e ∙ length-append c cs in
      let part : min (length d.rest) sealed_full ≡ sealed_full = omega (arith, total) in
      let some_left : (length d.rest == 0) ≡ false = ground (arith, total) in
      let enough : ltb (length d.rest) tag_len ≡ false = ground (arith, total) in
      let not_end : (sealed_full == length d.rest) ≡ false = ground (arith, total) in
      let fine : leb u64_mod (d.counter + 1) ≡ false = ground arith in
      let front : take sealed_full d.rest ≡ c =
        ap (take sealed_full) e ∙ take-append_at sealed_full c cs size in
      let back : drop sealed_full d.rest ≡ cs =
        ap (drop sealed_full) e ∙ drop-append_at sealed_full c cs size in
      rw (some_left, enough, part, not_end, front, back, h, fine) refl

  at_end :
      (fuel : ℕ) (d : StreamDecryptor) (out : List ℕ)
      → d.rest ≡ []
      → decrypt_chunks aead (suc fuel) d out ≡ ok out
  unfolding decrypt_chunks next_plaintext_chunk
  at_end fuel d out e = rw (ap length e) refl

  round :
      (fuel : ℕ) (d d' : StreamDecryptor) (pt out : List ℕ)
      → next_plaintext_chunk aead d ≡ ok (some pt, d')
      → decrypt_chunks aead (suc fuel) d out ≡ decrypt_chunks aead fuel d' (out ++ pt)
  unfolding decrypt_chunks
  round fuel d d' pt out e = rw e refl

  -- Whatever is sealed is decrypted, on as much fuel as the ciphertext has bytes, and one more.
  pub decrypt_chunks-SealedAs :
      {key : List ℕ} (fuel : ℕ) (out : List ℕ) {n : ℕ} {pt ct : List ℕ}
      → SealedAs aead key n pt ct
      → length ct < fuel
      → decrypt_chunks aead fuel (record { cipher = key; rest = ct; counter = n }) out
        ≡ ok (out ++ pt)
  decrypt_chunks-SealedAs zero out s hf = absurd (omega arith)
  decrypt_chunks-SealedAs (suc zero) out s hf = absurd (omega (arith, length-SealedAs s))
  decrypt_chunks-SealedAs {key} (suc (suc fuel)) out {n} {pt} {ct} (last short h) hf =
      let d : StreamDecryptor = record { cipher = key; rest = ct; counter = n } in
      let size = aead.length-seal key (chunk_nonce n true) [] pt ct h in
      let opens = aead.unseal-seal key (chunk_nonce n true) [] pt ct h in
      round (suc fuel) d (record d { rest = [] }) pt out
        (next_last d pt (omega (arith, size)) (omega (arith, size)) opens)
      ∙ at_end fuel (record d { rest = [] }) (out ++ pt) refl
  decrypt_chunks-SealedAs {key} (suc (suc fuel)) out {n} {pt} {ct}
        (more chunk rest c cs ep ec size room h s) hf =
      let d : StreamDecryptor = record { cipher = key; rest = ct; counter = n } in
      let d' : StreamDecryptor = record { cipher = key; rest = cs; counter = n + 1 } in
      let size_c = aead.length-seal key (chunk_nonce n false) [] chunk c h in
      let opens = aead.unseal-seal key (chunk_nonce n false) [] chunk c h in
      let total : length ct ≡ length c + length cs = ap length ec ∙ length-append c cs in
      let left : 0 < length cs = omega (arith, length-SealedAs s) in
      round (suc fuel) d d' chunk out
        (next_more d chunk c cs ec (omega (arith, size_c, size)) left room opens)
      ∙ decrypt_chunks-SealedAs (suc fuel) (out ++ chunk) s (omega (arith, total, size_c, hf))
      ∙ ap ok (append_assoc out chunk rest ∙ ap (λ (t : List ℕ). out ++ t) (sym ep))
