-- ===== src/Header/RoundTrip.antt =====
-- `serialize`, `seal`, `verify_hmac` and `parse_with_kind` of
-- crates/blindkey-core/src/format/header.rs together.
use blindkey.Prelude.{
  ℕ, ◌+◌, ◌*◌, ◌≤◌, ◌<◌, ◌≡◌, ◌↔◌, refl, sym, ap, ◌∙◌, arith, true, false, Option, some, List, ◌++◌,
  length, length-append, append-nil, append_assoc, All, not, bytes_eq, bytes_eq_refl, bytes_eq→eq,
  take-append_at, drop, take as take_list,
}
use blindkey.Result.{ok, header_corrupt}
use blindkey.Bytes.{IsByte, u64_mod}
use blindkey.Cursor.{Cursor, new, consumed}
use blindkey.Cursor.Reads.{
  Reads, Ahead, Ahead-new, Ahead-skip, skip, Reads-bind, Reads-pure, Reads-take_at, Reads-refuse_if,
  Reads-cast, Reads-lift, >>=-ok, run-ok, run-eq-ok,
}
use blindkey.Cursor.Takes.{
  Takes, Fits-new, Moves, Takes-bind, Takes-pure, Takes-take, Takes-guard, Takes-lift, bind_result,
}
use blindkey.Kdf.{validate_kdf_params, validate_kdf_params_accepts, ceiling_m, ceiling_t, ceiling_p}
use blindkey.Container.{ContainerKind}
use blindkey.Primitives.{Hashes}
use blindkey.Header.{
  Span, Header, auth_span, serialize, on_disk_len, parse_span, compute_hash, compute_hmac, seal,
  verify_hmac, parse_tags, read_header, parse_with_kind, hash_len, hmac_len,
}
use blindkey.Header.Layout.{IsValid, Expects, Reads-parse_span, Takes-parse_span}

-- The parameters that `validate_kdf_params` accepts.
pub record IsBounded (h : Span) : Type 0 where
  pub m_ok : h.kdf.m_cost ≤ ceiling_m
  pub t_ok : h.kdf.t_cost ≤ ceiling_t
  pub p_ok : h.kdf.p_cost ≤ ceiling_p
  pub lanes_ok : h.kdf.p_cost * 8 ≤ h.kdf.m_cost

module _ (hashes : Hashes) where
  open hashes use {sha256}

  -- The stored tags as `seal` leaves them.
  pub record IsHashed (h : Header) : Type 0 where
    pub hash_ok : h.header_hash ≡ compute_hash hashes h.span
    pub hmac_ok : length h.header_hmac ≡ 32

  Reads-parse_tags :
      (h : Header)
      → IsBounded h.span
      → IsHashed h
      → Reads (parse_tags hashes h.span (auth_span h.span)) (h.header_hash ++ h.header_hmac) h
  unfolding parse_tags compute_hash
  Reads-parse_tags h b t =
      let size : length h.header_hash ≡ 32 =
        ap length t.hash_ok ∙ hashes.length-sha256 (auth_span h.span) in
      let fine : not (bytes_eq (sha256 (auth_span h.span)) h.header_hash) ≡ false =
        rw (t.hash_ok, bytes_eq_refl (sha256 (auth_span h.span))) refl in
      let accepted =
        (validate_kdf_params_accepts h.kdf.m_cost h.kdf.t_cost h.kdf.p_cost).1
          (b.m_ok, b.t_ok, b.p_ok, b.lanes_ok) in
      Reads-bind _ (Reads-take_at 32 h.header_hash size) (
        Reads-cast (append-nil h.header_hmac) (
          Reads-bind _ (Reads-take_at 32 h.header_hmac t.hmac_ok) (
            Reads-bind _ (Reads-refuse_if _ header_corrupt fine)
              (Reads-bind _ (Reads-lift accepted.1) (Reads-pure h)))))

  -- A header that `parse_with_kind` may accept is parsed from its serialization, whatever body
  -- follows, if the caller expects its kind or none and the file has less than 2^64 bytes.
  pub parse_with_kind-serialize :
      (expected : Option ContainerKind) (k : ContainerKind) (h : Header) (body : List ℕ)
      → Expects expected k
      → IsValid k h.span
      → IsBounded h.span
      → IsHashed h
      → length (serialize h ++ body) < u64_mod
      → parse_with_kind hashes (serialize h ++ body) expected ≡ ok h
  unfolding parse_with_kind read_header serialize
  parse_with_kind-serialize expected k h body he v b t small =
      let span : List ℕ = auth_span h.span in
      let tags : List ℕ = h.header_hash ++ h.header_hmac in
      let whole : (span ++ tags) ++ body ≡ span ++ (tags ++ body) = append_assoc span tags body in
      let ahead : Ahead (new (span ++ (tags ++ body))) (span ++ (tags ++ body)) =
        Ahead-new _ (rw whole at small) in
      let covered : take_list (0 + length span) (span ++ (tags ++ body)) ≡ span =
        take-append_at (0 + length span) span (tags ++ body) (omega arith) in
      let first = (Reads-parse_span expected k h.span he v).at _ _ ahead in
      let second = (Reads-parse_tags h b t).at _ body (Ahead-skip span ahead) in
      let tags_read =
        ap (λ t. parse_tags hashes h.span t (skip (length span) (new (span ++ (tags ++ body)))))
          covered in
      rw whole (
        run-ok (read_header hashes expected) (span ++ (tags ++ body))
          (>>=-ok (parse_span expected) _ first ∙ tags_read ∙ second))

  -- What a parsed file holds.
  pub record IsParsed (bytes : List ℕ) (expected : Option ContainerKind) (h : Header) : Type 0 where
    pub body : List ℕ
    pub layout : bytes ≡ serialize h ++ body
    pub hash_matches : h.header_hash ≡ compute_hash hashes h.span
    pub bounded : IsBounded h.span
    pub kind : ContainerKind
    pub valid : IsValid kind h.span
    pub as_expected : Expects expected kind

  Takes-parse_tags :
      (span : Span) (covered : List ℕ)
      → Takes (parse_tags hashes span covered) (λ h bs.
        (h.span ≡ span)
        × (bs ≡ h.header_hash ++ h.header_hmac)
        × (sha256 covered ≡ h.header_hash)
        × IsBounded span)
  unfolding parse_tags
  Takes-parse_tags span covered = Takes-bind _ (Takes-take 32) (λ hash b₁ q₁ h₁.
      Takes-bind _ (Takes-take 32) (λ hmac b₂ q₂ h₂.
        Takes-bind _ (Takes-guard (not (bytes_eq (sha256 covered) hash)) header_corrupt)
          (λ _ b₃ q₃ h₃.
            Takes-bind _
              (Takes-lift (validate_kdf_params span.kdf.m_cost span.kdf.t_cost span.kdf.p_cost))
              (λ strength b₄ q₄ h₄.
                let same : bytes_eq (sha256 covered) hash ≡ true = ground (arith, q₃.1) in
                let (m, t, p, l) = (validate_kdf_params_accepts _ _ _).0 (strength, q₄.1) in
                Takes-pure _ (
                  refl,
                  rw (q₁.0, q₂.0, q₃.0, q₄.0, append-nil) refl,
                  bytes_eq→eq (sha256 covered) hash same,
                  record { m_ok = m; t_ok = t; p_ok = p; lanes_ok = l },
                )))))

  -- The bytes that a cursor at the start has moved over are what it has consumed.
  consumed-Moves : {bytes bs : List ℕ} {c : Cursor} → Moves (new bytes) bs c → consumed c ≡ bs
  consumed-Moves {bytes} {bs} {c} m =
      ap (take_list c.pos) (m.same ∙ m.sight) ∙ take-append_at c.pos bs _ (omega (arith, m.moved))

  -- A file of fewer than 2^64 bytes that is parsed is the serialization of the header that is
  -- returned, followed by some body; that header has the kind that is expected, if any, and holds
  -- what a header of its kind may hold, its hash is the hash of its span, and its Argon2id
  -- parameters are within the limits.
  pub parse_with_kind_sound :
      (bytes : List ℕ) (expected : Option ContainerKind) (h : Header)
      → All IsByte bytes
      → length bytes < u64_mod
      → parse_with_kind hashes bytes expected ≡ ok h
      → IsParsed bytes expected h
  unfolding parse_with_kind read_header serialize compute_hash
  parse_with_kind_sound bytes expected h hb small e =
      let (c, e₀) = run-eq-ok (read_header hashes expected) bytes e in
      let (span, c₁, e₁, e₂) = bind_result _ (parse_span expected (new bytes)) e₀ in
      let (bs, m, (eb, (k, v, x))) =
        (Takes-parse_span expected).at (new bytes) span c₁ (Fits-new bytes hb small) e₁ in
      let (bs', m', (es, et, eh, b)) = (Takes-parse_tags span (consumed c₁)).at c₁ h c m.fits e₂ in
      let rest : List ℕ = drop c.pos c.buf in
      record {
        body = rest;
        layout =
            m.sight
            ∙ ap (λ t. bs ++ t) m'.sight
            ∙ sym (append_assoc bs bs' rest)
            ∙ ap (λ t. t ++ rest) (rw (eb, et, es) refl);
        hash_matches = sym eh ∙ ap sha256 (consumed-Moves m ∙ eb ∙ ap auth_span (sym es));
        bounded = rw es b;
        kind = k;
        valid = rw es v;
        as_expected = x;
      }

  -- A span that `parse_with_kind` may accept, sealed with a data key, is parsed from its
  -- serialization, whatever body follows, if the file has less than 2^64 bytes, and the header
  -- verifies under that key.
  pub parse_with_kind-seal :
      (k : ContainerKind) (h : Header) (data_key body : List ℕ)
      → IsValid k h.span
      → IsBounded h.span
      → length (serialize (seal hashes h data_key) ++ body) < u64_mod
      → (parse_with_kind hashes (serialize (seal hashes h data_key) ++ body) (some k)
          ≡ ok (seal hashes h data_key))
        × (verify_hmac hashes (seal hashes h data_key) data_key ≡ ok tt)
  unfolding seal verify_hmac compute_hmac
  parse_with_kind-seal k h data_key body v b small = (
    parse_with_kind-serialize (some k) k (seal hashes h data_key) body refl v b
        (record { hash_ok = refl; hmac_ok = hashes.length-hmac_sha256 _ _ }) small,
    rw bytes_eq_refl refl,
  )

  -- A data key verifies a header exactly if the stored tag is the one that it gives.
  pub verify_hmac_iff :
      (h : Header) (data_key : List ℕ)
      → (verify_hmac hashes h data_key ≡ ok tt)
        ↔ (h.header_hmac ≡ compute_hmac hashes h.span data_key)
  unfolding verify_hmac
  verify_hmac_iff h data_key = (
    λ e. ground (arith, bytes_eq→eq (compute_hmac hashes h.span data_key) h.header_hmac),
    λ e. rw (e, bytes_eq_refl (compute_hmac hashes h.span data_key)) refl,
  )

-- The header takes `on_disk_len` bytes on disk, if its tags have their length.
pub length-serialize :
    (h : Header)
    → length h.header_hash ≡ hash_len
    → length h.header_hmac ≡ hmac_len
    → length (serialize h) ≡ on_disk_len h
unfolding serialize on_disk_len
length-serialize h eh em = omega (
  arith,
  length-append (auth_span h.span) (h.header_hash ++ h.header_hmac),
  length-append h.header_hash h.header_hmac,
)
