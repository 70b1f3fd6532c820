-- ===== src/Inference/KeyDerivation.antt =====
-- `derive_key_from_huk`: HKDF over the hardware unique key.
use pico2w_tfm.Common.{ℕ, Bytes, [], ◌∷◌}
use pico2w_tfm.Psa.{
  salt, info, key_derivation_setup, key_derivation_input_bytes, key_derivation_input_key,
  key_derivation_output_bytes, key_derivation_abort, crypto, success, Trace, Env,
}
use pico2w_tfm.Inference.State.{Action, pure, ◌>>=◌, ◌>>◌, gets, log, check, check_or}

module _ (env : Env) where
  -- The bytes are those that `psa_key_derivation_output_bytes` leaves in `derived`.
  unfoldable pub derive_key_from_huk : Bytes → ℕ → Action Bytes
  derive_key_from_huk label derived_len = do
    check env key_derivation_setup
    check_or env (key_derivation_input_bytes salt []) (log key_derivation_abort)
    check_or env key_derivation_input_key (log key_derivation_abort)
    check_or env (key_derivation_input_bytes info label) (log key_derivation_abort)
    derived ← gets (λ w. env.filled (key_derivation_output_bytes derived_len) w.trace)
    check_or env (key_derivation_output_bytes derived_len) (log key_derivation_abort)
    log key_derivation_abort
    pure derived

-- A history whose last call has given a label to the key derivation.
abbrev pub informed : Bytes → Trace → Trace
informed label t = crypto (key_derivation_input_bytes info label) success ∷ t
