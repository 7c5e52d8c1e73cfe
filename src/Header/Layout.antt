-- ===== src/Header/Layout.antt =====
-- The authenticated span of the header of crates/blindkey-core/src/format/header.rs, written and
-- read back.
use mathlib.Core.List.{foldl}
use blindkey.Prelude.{
  ℕ, ◌^◌, ◌≤◌, ◌<◌, ◌≡◌, refl, sym, ap, ◌∙◌, arith, true, false, Option, none, some, List, [], ◌∷◌,
  ◌++◌, length, append-nil, append_assoc, ltb, All, not, ◌==◌, Option-cases, inl, inr,
}
use native.Mathlib.Nat.{mod-eq_of_lt}
use blindkey.Result.{ok, wrong_container_kind, newer_version, unsupported_kdf}
use blindkey.Bytes.{u32_mod, le_bytes}
use blindkey.Cursor.Reads.{
  Reads, Reads-bind, Reads-pure, Reads-take_at, Reads-read_u8, Reads-read_le, Reads-refuse_if,
  Reads-cast, Reads-lift,
}
use blindkey.Cursor.Takes.{
  Takes, Takes-bind, Takes-pure, Takes-take, Takes-read_u8, Takes-read_le, Takes-guard, Takes-lift,
}
use blindkey.Stanza.{Stanza, serialize_into, max_stanzas}
use blindkey.Stanza.RoundTrip.{
  IsValid as IsValidStanza, serialize_all, Reads-parse_all, Takes-parse_all,
}
use blindkey.Container.{
  ContainerKind, format_version, from_magic, kind_eq, magic, from_magic-magic, magic_of_from_magic,
}
use blindkey.Header.{Span, auth_span, parse_span, known_kind, is_unwanted, kdf_algorithm_argon2id}

foldl-serialize_into :
    (out : List ℕ) (ss : List Stanza) → foldl serialize_into out ss ≡ out ++ serialize_all ss
unfolding serialize_into
foldl-serialize_into out [] = sym (append-nil out)
foldl-serialize_into out (s ∷ ss) =
    foldl-serialize_into (serialize_into out s) ss ∙ append_assoc out _ (serialize_all ss)

-- What the header of a container of kind `k` holds, as `parse_span` checks it.
pub record IsValid (k : ContainerKind) (h : Span) : Type 0 where
  pub magic_ok : h.magic ≡ magic k
  pub version_ok : h.format_version ≤ format_version
  pub vault_id_ok : length h.vault_id ≡ 16
  pub algorithm_ok : h.kdf.algorithm ≡ kdf_algorithm_argon2id
  pub m_fits : h.kdf.m_cost < u32_mod
  pub t_fits : h.kdf.t_cost < u32_mod
  pub p_fits : h.kdf.p_cost < u32_mod
  pub salt_ok : length h.kdf.salt ≡ 32
  pub seed_ok : length h.master_seed ≡ 32
  pub prefix_ok : length h.nonce_prefix ≡ 16
  pub few : length h.stanzas ≤ max_stanzas
  pub stanzas_ok : All IsValidStanza h.stanzas

-- The span as one concatenation, nested to the right.
pub auth_span-eq :
    (h : Span)
    → length h.stanzas ≤ max_stanzas
    → auth_span h
      ≡ h.magic
        ++ (le_bytes 2 h.format_version
            ++ (h.vault_id
                ++ (h.kdf.algorithm ∷ []
                    ++ (le_bytes 4 h.kdf.m_cost
                        ++ (le_bytes 4 h.kdf.t_cost
                            ++ (le_bytes 4 h.kdf.p_cost
                                ++ (h.kdf.salt
                                    ++ (h.master_seed
                                        ++ (h.nonce_prefix
                                            ++ (length h.stanzas ∷ []
                                                ++ serialize_all h.stanzas))))))))))
unfolding auth_span
auth_span-eq h few =
    rw (foldl-serialize_into, mod-eq_of_lt {n = length h.stanzas} {m = 256} (omega arith))
      (simp append_assoc)

-- The kind that the caller expects, if any, is `k`.
abbrev pub Expects : Option ContainerKind → ContainerKind → Type 0
Expects none k = Unit
Expects (some want) k = want ≡ k

kind_eq_refl : (k : ContainerKind) → kind_eq k k ≡ true
unfolding kind_eq
kind_eq_refl k = ground arith

wanted :
    (expected : Option ContainerKind) (k : ContainerKind)
    → Expects expected k
    → is_unwanted expected k ≡ false
unfolding is_unwanted
wanted none k h = refl
wanted (some want) k h = rw (h, kind_eq_refl k) refl

known : (m : List ℕ) (k : ContainerKind) → m ≡ magic k → known_kind m ≡ ok k
unfolding known_kind
known m k e = rw (e, known_kind, from_magic-magic k) refl

length-magic : (k : ContainerKind) → length (magic k) ≡ 4
unfolding magic
length-magic ContainerKind.vault = refl
length-magic ContainerKind.sealed_file = refl
length-magic ContainerKind.volume = refl

pub Reads-parse_span :
    (expected : Option ContainerKind) (k : ContainerKind) (h : Span)
    → Expects expected k
    → IsValid k h
    → Reads (parse_span expected) (auth_span h) h
unfolding parse_span
Reads-parse_span expected k h he v =
    let new_enough : ltb format_version h.format_version ≡ false = ground (arith, v.version_ok) in
    let known_kdf : not (h.kdf.algorithm == kdf_algorithm_argon2id) ≡ false =
      rw v.algorithm_ok refl in
    let version_fits : h.format_version < 256 ^ 2 = omega (arith, v.version_ok) in
    let four : length h.magic ≡ 4 = ap length v.magic_ok ∙ length-magic k in
    rw (auth_span-eq h v.few) (
      Reads-bind _ (Reads-take_at 4 h.magic four) (
        Reads-bind _ (Reads-lift (known h.magic k v.magic_ok)) (
          Reads-bind _ (Reads-refuse_if _ wrong_container_kind (wanted expected k he)) (
            Reads-bind _ (Reads-read_le 2 h.format_version version_fits) (
              Reads-bind _ (Reads-refuse_if _ newer_version new_enough) (
                Reads-bind _ (Reads-take_at 16 h.vault_id v.vault_id_ok) (
                  Reads-bind _ (Reads-read_u8 h.kdf.algorithm) (
                    Reads-bind _ (Reads-refuse_if _ unsupported_kdf known_kdf) (
                      Reads-bind _ (Reads-read_le 4 h.kdf.m_cost v.m_fits) (
                        Reads-bind _ (Reads-read_le 4 h.kdf.t_cost v.t_fits) (
                          Reads-bind _ (Reads-read_le 4 h.kdf.p_cost v.p_fits) (
                            Reads-bind _ (Reads-take_at 32 h.kdf.salt v.salt_ok) (
                              Reads-bind _ (Reads-take_at 32 h.master_seed v.seed_ok) (
                                Reads-bind _ (Reads-take_at 16 h.nonce_prefix v.prefix_ok) (
                                  Reads-bind _ (Reads-read_u8 (length h.stanzas)) (
                                    Reads-cast (append-nil (serialize_all h.stanzas)) (
                                      Reads-bind _ (Reads-parse_all h.stanzas v.few v.stanzas_ok)
                                        (Reads-pure h))))))))))))))))))

known_sound : (m : List ℕ) (k : ContainerKind) → known_kind m ≡ ok k → m ≡ magic k
unfolding known_kind
known_sound m k e = elim (Option-cases (from_magic m)) [
  | inl unknown ↦ cc (rw (unknown, known_kind) at e)
  | inr (j, found) ↦
      let same : j ≡ k = cc (rw (found, known_kind) at e) in
      sym (magic_of_from_magic m k (found ∙ ap some same))
]

kind_eq→eq : (j k : ContainerKind) → kind_eq j k ≡ true → j ≡ k
unfolding kind_eq
kind_eq→eq j k h = ground arith

wanted_sound :
    (expected : Option ContainerKind) (k : ContainerKind)
    → is_unwanted expected k ≡ false
    → Expects expected k
unfolding is_unwanted
wanted_sound none k h = tt
wanted_sound (some want) k h = ground (arith, kind_eq→eq k want)

abbrev pub SpanTaken : Option ContainerKind → Span → List ℕ → Type 0
SpanTaken expected h bs =
    (bs ≡ auth_span h) × ((k : ContainerKind) × IsValid k h × Expects expected k)

pub Takes-parse_span :
    (expected : Option ContainerKind) → Takes (parse_span expected) (SpanTaken expected)
unfolding parse_span
Takes-parse_span expected = Takes-bind _ (Takes-take 4) (λ magic b₁ q₁ h₁.
    Takes-bind _ (Takes-lift (known_kind magic)) (λ k b₂ q₂ h₂.
      Takes-bind _ (Takes-guard (is_unwanted expected k) wrong_container_kind) (λ _ b₃ q₃ h₃.
        Takes-bind _ (Takes-read_le 2) (λ version b₄ q₄ h₄.
          Takes-bind _ (Takes-guard (ltb format_version version) newer_version) (λ _ b₅ q₅ h₅.
            Takes-bind _ (Takes-take 16) (λ vault_id b₆ q₆ h₆.
              Takes-bind _ Takes-read_u8 (λ algorithm b₇ q₇ h₇.
                Takes-bind _
                  (Takes-guard (not (algorithm == kdf_algorithm_argon2id)) unsupported_kdf)
                  (λ _ b₈ q₈ h₈. Takes-bind _ (Takes-read_le 4) (λ m_cost b₉ q₉ h₉.
                    Takes-bind _ (Takes-read_le 4) (λ t_cost b₁₀ q₁₀ h₁₀.
                      Takes-bind _ (Takes-read_le 4) (λ p_cost b₁₁ q₁₁ h₁₁.
                        Takes-bind _ (Takes-take 32) (λ salt b₁₂ q₁₂ h₁₂.
                          Takes-bind _ (Takes-take 32) (λ master_seed b₁₃ q₁₃ h₁₃.
                            Takes-bind _ (Takes-take 16) (λ nonce_prefix b₁₄ q₁₄ h₁₄.
                              Takes-bind _ Takes-read_u8 (λ count b₁₅ q₁₅ h₁₅.
                                Takes-bind _ (Takes-parse_all count) (λ stanzas b₁₆ q₁₆ h₁₆.
                                  let h : Span = record {
                                    magic = magic;
                                    format_version = version;
                                    vault_id = vault_id;
                                    kdf = record {
                                      algorithm = algorithm;
                                      m_cost = m_cost;
                                      t_cost = t_cost;
                                      p_cost = p_cost;
                                      salt = salt;
                                    };
                                    master_seed = master_seed;
                                    nonce_prefix = nonce_prefix;
                                    stanzas = stanzas;
                                  } in
                                  let few : length stanzas ≤ max_stanzas =
                                    omega (arith, q₁₆.0.2, q₁₆.1) in
                                  let known_kdf : algorithm ≡ kdf_algorithm_argon2id =
                                    ground (arith, q₈.1) in
                                  let new_enough : version ≤ format_version =
                                    ground (arith, q₅.1) in
                                  Takes-pure _ (
                                    rw
                                        (
                                          q₁.0,
                                          q₂.0,
                                          q₃.0,
                                          q₄.0,
                                          q₅.0,
                                          q₆.0,
                                          q₇,
                                          q₈.0,
                                          q₉.0,
                                          q₁₀.0,
                                          q₁₁.0,
                                          q₁₂.0,
                                          q₁₃.0,
                                          q₁₄.0,
                                          q₁₅,
                                          q₁₆.0.0,
                                          append-nil,
                                          ← q₁₆.0.2,
                                        )
                                        (sym (auth_span-eq h few)),
                                    (
                                      k,
                                      record {
                                        magic_ok = known_sound magic k q₂.1;
                                        version_ok = new_enough;
                                        vault_id_ok = ap length (sym q₆.0) ∙ q₆.1;
                                        algorithm_ok = known_kdf;
                                        m_fits = q₉.1;
                                        t_fits = q₁₀.1;
                                        p_fits = q₁₁.1;
                                        salt_ok = ap length (sym q₁₂.0) ∙ q₁₂.1;
                                        seed_ok = ap length (sym q₁₃.0) ∙ q₁₃.1;
                                        prefix_ok = ap length (sym q₁₄.0) ∙ q₁₄.1;
                                        few = few;
                                        stanzas_ok = q₁₆.0.1;
                                      },
                                      wanted_sound expected k q₃.1,
                                    ),
                                  )))))))))))))))))
