-- ===== src/Kdf/Argon.antt =====
-- crates/blindkey-core/src/crypto/kdf.rs: the password's key. Argon2id and the normalization of
-- texts come from the crates `argon2` and `unicode-normalization`, which are parameters.
use blindkey.Prelude.{ℕ, Bool, Option, List, if◌then◌else◌}
use blindkey.Result.{Result, err, kdf_params_out_of_range, crypto_failed}
use blindkey.Primitives.{ok_or}
use blindkey.Volume.Fs.Utf8.{is_utf8}

pub record Argon : Type 0 where
  pub nfc : List ℕ → List ℕ
  -- `Params::new`: memory, iterations and lanes
  pub accepts : ℕ → ℕ → ℕ → Bool
  -- password, salt, memory, iterations, lanes
  pub hash_password : List ℕ → List ℕ → ℕ → ℕ → ℕ → Option (List ℕ)

unfoldable pub argon2id : Argon → List ℕ → List ℕ → ℕ → ℕ → ℕ → Result (List ℕ)
argon2id argon password salt m_cost t_cost p_cost =
    let normalized = if is_utf8 password then argon.nfc password else password in
    if argon.accepts m_cost t_cost p_cost
    then ok_or crypto_failed (argon.hash_password normalized salt m_cost t_cost p_cost)
    else err kdf_params_out_of_range
