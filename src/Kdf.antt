-- ===== src/Kdf.antt =====
-- The Argon2id parameter policy of crates/blindkey-core/src/crypto/mod.rs.
pub mod Argon
pub mod Toy
mod Tests
use blindkey.Prelude.{
  ℕ, ◌+◌, ◌*◌, ◌≤◌, ◌<◌, ◌≡◌, arith, ◌&&◌, ◌||◌, ltb, leb, if◌then◌else◌, ◌≢◌, ◌↔◌, inl, inr,
}
use blindkey.Result.{
  Result, Error, ok, err, Result-cases, kdf_params_out_of_range, kdf_below_floor, ◌>>=◌, ◌>>◌,
}
use blindkey.Bytes.{u32_mod}

-- Costs in KiB, iterations and lanes.
abbrev pub default_m : ℕ
default_m = 65536

abbrev pub default_t : ℕ
default_t = 3

abbrev pub default_p : ℕ
default_p = 4

abbrev pub floor_m : ℕ
floor_m = 19456

abbrev pub floor_t : ℕ
floor_t = 2

abbrev pub floor_p : ℕ
floor_p = 1

abbrev pub ceiling_m : ℕ
ceiling_m = 4 * 1024 * 1024

abbrev pub ceiling_t : ℕ
ceiling_t = 24

abbrev pub ceiling_p : ℕ
ceiling_p = 16

pub data KdfStrength : Type 0 where
  recommended below_recommended below_floor : KdfStrength

-- `checked_mul` fails where the product does not fit 32 bits.
unfoldable pub validate_kdf_params : ℕ → ℕ → ℕ → Result KdfStrength
validate_kdf_params m t p =
    if ltb ceiling_m m || (ltb ceiling_t t || ltb ceiling_p p)
    then err kdf_params_out_of_range
    else if leb u32_mod (p * 8)
    then err kdf_params_out_of_range
    else if ltb m (p * 8)
    then err kdf_params_out_of_range
    else if ltb m floor_m || (ltb t floor_t || ltb p floor_p)
    then ok below_floor
    else if leb default_m m && (leb default_t t && leb default_p p)
    then ok recommended
    else ok below_recommended

below_floor_refused : KdfStrength → Result (Unit {0})
below_floor_refused below_floor = err kdf_below_floor
below_floor_refused _ = ok tt

unfoldable pub reject_kdf_below_floor : ℕ → ℕ → ℕ → Result (Unit {0})
unfolding below_floor_refused
reject_kdf_below_floor m t p = do s ← validate_kdf_params m t p; below_floor_refused s

validate_kdf_params-eq-ok :
    (m t p : ℕ) (s : KdfStrength)
    → validate_kdf_params m t p ≡ ok s
    → (m ≤ ceiling_m) × (t ≤ ceiling_t) × (p ≤ ceiling_p) × (p * 8 ≤ m)
unfolding validate_kdf_params
validate_kdf_params-eq-ok m t p s e = ground arith

validate_kdf_params-ne-err :
    (m t p : ℕ) (e : Error)
    → m ≤ ceiling_m
    → t ≤ ceiling_t
    → p ≤ ceiling_p
    → p * 8 ≤ m
    → validate_kdf_params m t p ≢ err e
unfolding validate_kdf_params
validate_kdf_params-ne-err m t p e hm ht hp hl = ground arith

-- Parameters are accepted, with some strength, exactly if each cost is at most its ceiling and the
-- memory is at least eight KiB for each lane.
pub validate_kdf_params_accepts :
    (m t p : ℕ)
    → ((s : KdfStrength) × (validate_kdf_params m t p ≡ ok s))
      ↔ ((m ≤ ceiling_m) × (t ≤ ceiling_t) × (p ≤ ceiling_p) × (p * 8 ≤ m))
validate_kdf_params_accepts m t p = (
  λ (s, e). validate_kdf_params-eq-ok m t p s e,
  λ (hm, ht, hp, hl). elim (Result-cases (validate_kdf_params m t p)) [
    | inl found ↦ found
    | inr (e, h) ↦ absurd (validate_kdf_params-ne-err m t p e hm ht hp hl h)
  ],
)

-- Writing is accepted exactly if each cost lies between its floor and its ceiling and the memory
-- is at least eight KiB for each lane.
pub reject_kdf_below_floor_iff :
    (m t p : ℕ)
    → (reject_kdf_below_floor m t p ≡ ok tt) ↔ (
        (floor_m ≤ m)
        × (m ≤ ceiling_m)
        × (floor_t ≤ t)
        × (t ≤ ceiling_t)
        × (floor_p ≤ p)
        × (p ≤ ceiling_p)
        × (p * 8 ≤ m))
unfolding reject_kdf_below_floor validate_kdf_params
reject_kdf_below_floor_iff m t p = (λ e. ground arith, λ h. ground arith)
