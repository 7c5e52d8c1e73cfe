-- ===== src/Kdf/Tests.antt =====
-- Runs of the parameter policy.
use blindkey.Prelude.{◌≡◌, refl}
use blindkey.Result.{ok, err, kdf_params_out_of_range, kdf_below_floor}
use blindkey.Kdf.{
  validate_kdf_params, reject_kdf_below_floor, recommended, below_recommended, below_floor,
}

policy :
    (validate_kdf_params 65536 3 4 ≡ ok recommended)
    × (validate_kdf_params 19456 2 1 ≡ ok below_recommended)
    × (validate_kdf_params 8 1 1 ≡ ok below_floor)
    × (validate_kdf_params 7 1 1 ≡ err kdf_params_out_of_range)
    × (reject_kdf_below_floor 8 1 1 ≡ err kdf_below_floor)
unfolding validate_kdf_params reject_kdf_below_floor
policy = (refl, refl, refl, refl, refl)
