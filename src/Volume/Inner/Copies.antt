-- ===== src/Volume/Inner/Copies.antt =====
-- `serialize_dual` and `parse_dual` of crates/blindkey-core/src/volume/inner.rs together.
use blindkey.Prelude.{
  ℕ, ◌+◌, ◌*◌, ◌≡◌, refl, sym, ap, ◌∙◌, arith, false, List, ◌++◌, length, take, drop, ltb,
  append_assoc, length-append, take-append_at, drop-append_at, take-all, inl, inr, take-append-drop,
  ◌⊎◌,
}
use blindkey.Result.{Error, ok, err, volume_open_failed, Result-cases, >>=-eq-ok}
use blindkey.Primitives.{Aead}
use blindkey.Volume.Block.{nonce_len}
use blindkey.Volume.Block.Binding.{ok_or-eq-ok}
use blindkey.Volume.Inner.Fields.{InnerHeader, encode, decode}
use blindkey.Volume.Inner.RoundTrip.{IsValid, decode-encode}
use blindkey.Volume.Inner.{
  inner_wrapped_len, aad, wrap_copy, serialize_dual, unwrap_copy, parse_dual,
}

module _ (aead : Aead) (volume_key volume_id : List ℕ) where
  -- A copy of `h` is wrapped under a nonce, has the length of a copy and is unwrapped again.
  pub record Wrapped (copy : ℕ) (nonce : List ℕ) (h : InnerHeader) : Type 0 where
    pub bytes : List ℕ
    pub wraps : wrap_copy aead volume_key volume_id copy nonce (encode h) ≡ ok bytes
    pub size : length bytes ≡ inner_wrapped_len
    pub unwraps : unwrap_copy aead volume_key volume_id copy bytes ≡ ok h

  pub wrapped :
      (copy : ℕ) (nonce : List ℕ) (h : InnerHeader)
      → IsValid h
      → length nonce ≡ nonce_len
      → Wrapped copy nonce h
  unfolding wrap_copy unwrap_copy
  wrapped copy nonce h v hn =
      let pt : List ℕ = encode h in
      let id : List ℕ = aad volume_id copy in
      let (decoded, len) = decode-encode h v in
      let (ct, sealed) = aead.seals volume_key nonce id pt (omega (arith, len)) in
      let size : length (nonce ++ ct) ≡ inner_wrapped_len = omega (
        arith,
        length-append nonce ct,
        hn,
        len,
        aead.length-seal volume_key nonce id pt ct sealed,
      ) in
      let enough : ltb (length (nonce ++ ct)) inner_wrapped_len ≡ false = ground (arith, size) in
      record {
        bytes = nonce ++ ct;
        wraps = rw sealed refl;
        size = size;
        unwraps =
            rw
              (
                enough,
                take-append_at nonce_len nonce ct hn,
                take-all inner_wrapped_len (nonce ++ ct) (omega (arith, size)),
                drop-append_at nonce_len nonce ct hn,
                aead.unseal-seal volume_key nonce id pt ct sealed,
              )
              decoded;
      }

  pub serialize_dual-Wrapped :
      (nonce_0 nonce_1 : List ℕ) (h : InnerHeader) (w₀ : Wrapped 0 nonce_0 h)
      (w₁ : Wrapped 1 nonce_1 h)
      → serialize_dual aead volume_key volume_id nonce_0 nonce_1 h ≡ ok (w₀.bytes ++ w₁.bytes)
  unfolding serialize_dual
  serialize_dual-Wrapped nonce_0 nonce_1 h w₀ w₁ = rw (w₀.wraps, w₁.wraps) refl

  -- A region of two copies and more is parsed from its first copy, else from its second.
  pub parse_dual-halves :
      (a b rest : List ℕ)
      → length a ≡ inner_wrapped_len
      → length b ≡ inner_wrapped_len
      → parse_dual aead volume_key volume_id (a ++ (b ++ rest))
        ≡ elim (unwrap_copy aead volume_key volume_id 0 a) [
          | ok h ↦ ok h
          | err _ ↦ unwrap_copy aead volume_key volume_id 1 b
        ]
  unfolding parse_dual
  parse_dual-halves a b rest ha hb =
      let region : List ℕ = a ++ (b ++ rest) in
      let total : length region ≡ length a + (length b + length rest) =
        length-append a (b ++ rest) ∙ ap (λ (n : ℕ). length a + n) (length-append b rest) in
      let enough : ltb (length region) (2 * inner_wrapped_len) ≡ false = ground (arith, total) in
      let first : take inner_wrapped_len region ≡ a =
        take-append_at inner_wrapped_len a (b ++ rest) ha in
      let both : length (a ++ b) ≡ 2 * inner_wrapped_len =
        omega (arith, length-append a b, ha, hb) in
      let front : take (2 * inner_wrapped_len) region ≡ a ++ b =
        ap (take (2 * inner_wrapped_len)) (sym (append_assoc a b rest))
        ∙ take-append_at (2 * inner_wrapped_len) (a ++ b) rest both in
      let second : drop inner_wrapped_len (take (2 * inner_wrapped_len) region) ≡ b =
        ap (drop inner_wrapped_len) front ∙ drop-append_at inner_wrapped_len a b ha in
      rw (enough, first)
        (ap
          (λ (t : List ℕ). elim (unwrap_copy aead volume_key volume_id 0 a) [
            | ok h ↦ ok h
            | err _ ↦ unwrap_copy aead volume_key volume_id 1 t
          ])
          second)

-- An inner header whose fields fit their widths, serialized under two nonces of 24 bytes, is parsed
-- back from its two copies, whatever follows, and also when the second copy is overwritten.
pub parse_dual-serialize_dual :
    (aead : Aead) (volume_key volume_id nonce_0 nonce_1 : List ℕ) (h : InnerHeader)
    (damaged rest : List ℕ)
    → IsValid h
    → length nonce_0 ≡ nonce_len
    → length nonce_1 ≡ nonce_len
    → length damaged ≡ inner_wrapped_len
    → (primary : List ℕ) × (backup : List ℕ) × (serialize_dual aead volume_key volume_id nonce_0
          nonce_1 h
        ≡ ok (primary ++ backup))
      × (parse_dual aead volume_key volume_id (primary ++ (backup ++ rest)) ≡ ok h)
      × (parse_dual aead volume_key volume_id (primary ++ (damaged ++ rest)) ≡ ok h)
parse_dual-serialize_dual aead volume_key volume_id nonce_0 nonce_1 h damaged rest v h₀ h₁ hd =
    let w₀ = wrapped aead volume_key volume_id 0 nonce_0 h v h₀ in
    let w₁ = wrapped aead volume_key volume_id 1 nonce_1 h v h₁ in
    (
      w₀.bytes,
      w₁.bytes,
      serialize_dual-Wrapped aead volume_key volume_id nonce_0 nonce_1 h w₀ w₁,
      parse_dual-halves aead volume_key volume_id w₀.bytes w₁.bytes rest w₀.size w₁.size
          ∙ rw w₀.unwraps refl,
      parse_dual-halves aead volume_key volume_id w₀.bytes damaged rest w₀.size hd
          ∙ rw w₀.unwraps refl,
    )

-- When the first copy is overwritten by bytes that do not unwrap, the header is parsed back from the
-- second copy.
pub parse_dual_backup :
    (aead : Aead) (volume_key volume_id nonce_0 nonce_1 : List ℕ) (h : InnerHeader)
    (damaged rest : List ℕ) (e : Error)
    → IsValid h
    → length nonce_0 ≡ nonce_len
    → length nonce_1 ≡ nonce_len
    → length damaged ≡ inner_wrapped_len
    → unwrap_copy aead volume_key volume_id 0 damaged ≡ err e
    → (primary : List ℕ) × (backup : List ℕ) × (serialize_dual aead volume_key volume_id nonce_0
          nonce_1 h
        ≡ ok (primary ++ backup))
      × (parse_dual aead volume_key volume_id (damaged ++ (backup ++ rest)) ≡ ok h)
parse_dual_backup aead volume_key volume_id nonce_0 nonce_1 h damaged rest e v h₀ h₁ hd hx =
    let w₀ = wrapped aead volume_key volume_id 0 nonce_0 h v h₀ in
    let w₁ = wrapped aead volume_key volume_id 1 nonce_1 h v h₁ in
    (
      w₀.bytes,
      w₁.bytes,
      serialize_dual-Wrapped aead volume_key volume_id nonce_0 nonce_1 h w₀ w₁,
      parse_dual-halves aead volume_key volume_id damaged w₁.bytes rest hd w₁.size
          ∙ rw (hx, w₁.unwraps) refl,
    )

-- The inner header that the slice of copy `copy` holds, sealed as this copy under some nonce.
pub record Holds (aead : Aead) (volume_key volume_id : List ℕ) (copy : ℕ) (slice : List ℕ)
    (h : InnerHeader) : Type 0 where
  pub nonce : List ℕ
  pub pt : List ℕ
  pub wraps : wrap_copy aead volume_key volume_id copy nonce pt ≡ ok slice
  pub decodes : decode pt ≡ ok h

unwrap_copy_sound :
    (aead : Aead) (volume_key volume_id : List ℕ) (copy : ℕ) (on_disk : List ℕ) (h : InnerHeader)
    → length on_disk ≡ inner_wrapped_len
    → unwrap_copy aead volume_key volume_id copy on_disk ≡ ok h
    → Holds aead volume_key volume_id copy on_disk h
unfolding unwrap_copy wrap_copy
unwrap_copy_sound aead volume_key volume_id copy on_disk h len e =
    let nonce : List ℕ = take nonce_len on_disk in
    let id : List ℕ = aad volume_id copy in
    let enough : ltb (length on_disk) inner_wrapped_len ≡ false = ground (arith, len) in
    let all : take inner_wrapped_len on_disk ≡ on_disk =
      take-all inner_wrapped_len on_disk (omega (arith, len)) in
    let (pt, opened, decodes) = >>=-eq-ok _ decode (rw (enough, all) at e) in
    let unsealed = ok_or-eq-ok volume_open_failed _ opened in
    let sealed = aead.seal-unseal volume_key nonce id pt (drop nonce_len on_disk) unsealed in
    record {
      nonce = nonce;
      pt = pt;
      wraps = rw sealed (ap ok (take-append-drop nonce_len on_disk));
      decodes = decodes;
    }

-- An inner header that is parsed was sealed in one of the two slots: as the first copy in the first
-- slot, or as the second copy in the second.
pub parse_dual_sound :
    (aead : Aead) (volume_key volume_id a b rest : List ℕ) (h : InnerHeader)
    → length a ≡ inner_wrapped_len
    → length b ≡ inner_wrapped_len
    → parse_dual aead volume_key volume_id (a ++ (b ++ rest)) ≡ ok h
    → Holds aead volume_key volume_id 0 a h ⊎ Holds aead volume_key volume_id 1 b h
parse_dual_sound aead volume_key volume_id a b rest h ha hb e =
    let e' = sym (parse_dual-halves aead volume_key volume_id a b rest ha hb) ∙ e in
    elim (Result-cases (unwrap_copy aead volume_key volume_id 0 a)) [
      | inl (h', first) ↦
          let same : h' ≡ h = (let t : ok h' ≡ ok h = (rw first at e') in cc) in
          inl (unwrap_copy_sound aead volume_key volume_id 0 a h ha (first ∙ ap ok same))
      | inr (x, failed) ↦
          inr (unwrap_copy_sound aead volume_key volume_id 1 b h hb (rw failed at e'))
    ]
