-- ===== src/Primitives/Toy.antt =====
-- Hash functions and a cipher that can be computed, to run the code and to show that the laws can
-- be met.
use blindkey.Prelude.{
  ℕ, ◌+◌, ◌-◌, ◌*◌, ◌%◌, ◌≡◌, refl, sym, ap, ◌∙◌, arith, Option, none, some, if◌then◌else◌, List,
  [], ◌∷◌, ◌++◌, length, replicate, take, length-replicate, length-append, take-append_at,
  Bool-cases, inl, inr, bytes_eq, bytes_eq_refl, bytes_eq→eq,
}
use blindkey.Primitives.{Hashes, Aead}

abbrev pub mix : List ℕ → ℕ
mix [] = 7
mix (x ∷ xs) = (x + 3 * mix xs) % 251

pub length-fill : (msg : List ℕ) → length (replicate 32 (mix msg)) ≡ 32
length-fill msg = length-replicate 32 (mix msg)

abbrev pub toy_hashes : Hashes
toy_hashes = record {
  sha256 = λ msg. replicate 32 (mix msg);
  hmac_sha256 = λ key msg. replicate 32 (mix (key ++ msg));
  hkdf_sha256 = λ ikm salt info. replicate 32 (mix (ikm ++ (salt ++ info)));
  length-sha256 = length-fill;
  length-hmac_sha256 = λ key msg. length-fill (key ++ msg);
}

abbrev pub tag : List ℕ → List ℕ → List ℕ → List ℕ → List ℕ
tag key nonce aad msg = replicate 16 (mix (key ++ (nonce ++ (aad ++ msg))))

abbrev pub toy_seal : List ℕ → List ℕ → List ℕ → List ℕ → List ℕ
toy_seal key nonce aad msg = msg ++ tag key nonce aad msg

abbrev pub toy_unseal : List ℕ → List ℕ → List ℕ → List ℕ → Option (List ℕ)
toy_unseal key nonce aad ct =
    let msg = take (length ct - 16) ct in
    if bytes_eq (toy_seal key nonce aad msg) ct then some msg else none

pub length-toy_seal :
    (key nonce aad msg : List ℕ) → length (toy_seal key nonce aad msg) ≡ length msg + 16
length-toy_seal key nonce aad msg =
    length-append msg (tag key nonce aad msg)
    ∙ ap (λ (n : ℕ). length msg + n) (length-replicate 16 (mix (key ++ (nonce ++ (aad ++ msg)))))

pub toy_unseal-toy_seal :
    (key nonce aad msg : List ℕ) → toy_unseal key nonce aad (toy_seal key nonce aad msg) ≡ some msg
toy_unseal-toy_seal key nonce aad msg =
    let size : length (toy_seal key nonce aad msg) - 16 ≡ length msg =
      omega (arith, length-toy_seal key nonce aad msg) in
    let front : take (length msg) (toy_seal key nonce aad msg) ≡ msg =
      take-append_at (length msg) msg (tag key nonce aad msg) refl in
    rw (size, front, bytes_eq_refl (toy_seal key nonce aad msg)) refl

pub toy_seal-toy_unseal :
    (key nonce aad msg ct : List ℕ)
    → toy_unseal key nonce aad ct ≡ some msg
    → toy_seal key nonce aad msg ≡ ct
toy_seal-toy_unseal key nonce aad msg ct h =
    let m : List ℕ = take (length ct - 16) ct in
    elim (Bool-cases (bytes_eq (toy_seal key nonce aad m) ct)) [
      | inl same ↦
          let chosen : some m ≡ some msg = (rw same at h) in
          let e : m ≡ msg = cc in
          ap (toy_seal key nonce aad) (sym e) ∙ bytes_eq→eq (toy_seal key nonce aad m) ct same
      | inr other ↦ let refused : none ≡ some msg = (rw other at h) in cc
    ]

pub some-inj {ℓ} : {A : Type ℓ} {a b : A} → some a ≡ some b → a ≡ b
some-inj h = cc

abbrev pub toy_aead : Aead
toy_aead = record {
  seal = λ key nonce aad msg. some (toy_seal key nonce aad msg);
  unseal = toy_unseal;
  seals = λ key nonce aad msg small. (toy_seal key nonce aad msg, refl);
  length-seal =
      λ key nonce aad msg ct h. sym (ap length (some-inj h)) ∙ length-toy_seal key nonce aad msg;
  unseal-seal = λ key nonce aad msg ct h.
      ap (toy_unseal key nonce aad) (sym (some-inj h)) ∙ toy_unseal-toy_seal key nonce aad msg;
  seal-unseal = λ key nonce aad msg ct h. ap some (toy_seal-toy_unseal key nonce aad msg ct h);
}
