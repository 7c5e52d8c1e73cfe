-- ===== src/Primitives/ToyStream.antt =====
-- A stream cipher that can be computed: it turns over the bytes at even positions.
use blindkey.Prelude.{
  ℕ, ◌-◌, ◌%◌, ◌≡◌, refl, arith, List, Bool-cases, inl, inr, ltb, ◌==◌, if◌then◌else◌,
}
use blindkey.Primitives.Cipher.{StreamCipher}

abbrev turned : ℕ → ℕ
turned byte = if ltb byte 256 then 255 - byte else byte

turned_twice : (byte : ℕ) → turned (turned byte) ≡ byte
turned_twice byte = ground arith

abbrev pub toy_combine : List ℕ → List ℕ → ℕ → ℕ → ℕ
toy_combine key nonce position byte = if position % 2 == 0 then turned byte else byte

pub toy_combine_twice :
    (key nonce : List ℕ) (position byte : ℕ)
    → toy_combine key nonce position (toy_combine key nonce position byte) ≡ byte
toy_combine_twice key nonce position byte = elim (Bool-cases (position % 2 == 0)) [
  | inl even ↦ rw even (turned_twice byte)
  | inr odd ↦ rw odd refl
]

abbrev pub toy_cipher : StreamCipher
toy_cipher = record { combine = toy_combine; combine-combine = toy_combine_twice }
