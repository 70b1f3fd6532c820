-- ===== src/Suite/Runner.antt =====
-- nspe/test_runner.c.
use pico2w_tfm.Common.{ℕ, Bool, List, ◌∷◌, Bytes, if◌then◌else◌}
use pico2w_tfm.Client.Api.{Framework}
use pico2w_tfm.Suite.Echo.{EchoTest, test_echo_service}
use pico2w_tfm.Suite.Crypto.{PsaCrypto, CryptoTest, test_psa_encryption, test_psa_hash}
use pico2w_tfm.Suite.Maix.{MaixTest, test_tinymaix_comprehensive_suite}

-- What the stack holds where a test has its buffers: behind the input of the echo tests, the three
-- buffers of the crypto tests, and the key's buffer.
pub record Stack : Type 0 where
  pub next_byte : ℕ
  pub ciphertext : Bytes
  pub decrypted : Bytes
  pub hash : Bytes
  pub key_buffer : Bytes

-- The lines of the log.
pub data RunLine : Type 0 where
  dev_suite_starts only_key_test dev_suite_ends : RunLine
  production_suite_starts production_suite_ends : RunLine

-- What the tests leave. The client calls of the echo tests go before those of the inference tests.
pub record Run : Type 0 where
  pub log : List RunLine
  pub echo : EchoTest
  pub crypto : CryptoTest
  pub maix : MaixTest

-- `run_all_tests`; the flag is DEV_MODE.
unfoldable pub run_all_tests : Framework → PsaCrypto → Bool → Stack → Run → Run
run_all_tests psa crypto dev_mode stack r =
    let echo = test_echo_service psa stack.next_byte r.echo in
    let encrypted = test_psa_encryption crypto stack.ciphertext stack.decrypted r.crypto in
    let hashed = test_psa_hash crypto stack.hash encrypted in
    let maix = record r.maix { calls = if dev_mode then r.echo.calls else echo.calls } in
    let tested = test_tinymaix_comprehensive_suite psa dev_mode stack.key_buffer maix in
    if dev_mode
    then record r { log = dev_suite_ends ∷ only_key_test ∷ dev_suite_starts ∷ r.log; maix = tested }
    else record {
      log = production_suite_ends ∷ production_suite_starts ∷ r.log;
      echo = echo;
      crypto = hashed;
      maix = tested;
    }
