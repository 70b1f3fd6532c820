-- ===== src/Suite/Tests.antt =====
-- The application's tests over concrete services.
use pico2w_tfm.Common.{
  ℕ, false, Bytes, ◌∷◌, [], ◌≡◌, refl, replicate, ltb, ◌==◌, if◌then◌else◌, length,
}
use pico2w_tfm.Common.Int.{pos, negsuc}
use pico2w_tfm.Psa.{success, generic_error, tm_ok, Env, psa_get, ipc_call}
use pico2w_tfm.Echo.Service.{Echo, dispatch}
use pico2w_tfm.Client.Api.{Calls, Framework}
use pico2w_tfm.Client.Closing.{Closed, nothing}
use pico2w_tfm.Client.EndToEnd.{ReachesEcho, answer_of}
use pico2w_tfm.Suite.Echo.{
  EchoTest, echo_banner, echo_complete, test_title, passed, input_shown, output_shown, test_string,
  test_echo_service,
}
use pico2w_tfm.Suite.EchoVerdict.{first_calls, test_echo_service-passed}
use pico2w_tfm.Suite.Crypto.{
  PsaCrypto, CryptoTest, CryptoRequest, psa_cipher_encrypt, psa_cipher_decrypt, test_psa_encryption,
}
use pico2w_tfm.Suite.Keys.{keys, test_psa_encryption-keys}
use pico2w_tfm.Suite.CryptoVerdict.{passes, test_psa_encryption-passes}
use pico2w_tfm.Suite.Maix.{
  MaixTest, custom_image, draw_rows, draw_row, test_tinymaix_comprehensive_suite,
}
use pico2w_tfm.Suite.MaixVerdict.{Verdict, one_more, all_succeed, comprehensive_suite-Verdict}
use pico2w_tfm.Suite.Runner.{Stack, run_all_tests}
use pico2w_tfm.Suite.Connections.{run_all_tests-Closed}

-- what the two valid requests send, by its length
abbrev sent : ℕ → Bytes
sent n = if n == 25 then test_string else replicate 256 b'A'

abbrev secure : Env
secure = record {
  get_status = λ t. success;
  message = λ t. record { type = ipc_call 0; handle = 5; in_size = 25; out_size = 256 };
  read_bytes = λ handle vec n t. sent n;
  crypto_status = λ c t. success;
  filled = λ c t. [];
  key_id = λ t. 1;
  engine_status = λ c t. tm_ok;
  Float = ℕ;
  gt = λ a b. ltb b a;
  zero_float = 0;
  scores = λ t. [];
}

abbrev waiting : Echo
waiting = record {
  input_buffer = replicate 256 0;
  output_buffer = replicate 256 0;
  trace = psa_get success ∷ [];
}

-- a framework that hands each request to the echo partition
abbrev framework : Framework
framework = record {
  connect = λ sid version t. pos 1;
  answer = λ h type input capacity t.
      answer_of
        (dispatch secure
          (record { type = ipc_call 0; handle = 5; in_size = length input; out_size = capacity })
          waiting).trace;
}

abbrev start : EchoTest
start = record {
  input_buffer = replicate 256 7;
  output_buffer = replicate 256 7;
  output_size = 99;
  lines = [];
  calls = [];
}

reaches :
    (input : Bytes) (t : Calls)
    → sent (length input) ≡ input
    → ReachesEcho framework secure input 256 t
reaches input t e = record {
  connects = refl;
  handle = 5;
  partition = waiting;
  valid = record { input_length = refl; output_length = refl };
  history = [];
  taken = refl;
  reads = e;
  answers = refl;
}

test_echo_service-passed_example :
    (test_echo_service framework 0 start).lines
    ≡ echo_complete
      ∷ passed 4
      ∷ test_title 4
      ∷ passed 3
      ∷ test_title 3
      ∷ passed 2
      ∷ test_title 2
      ∷ passed 1
      ∷ output_shown test_string 25
      ∷ input_shown test_string 25
      ∷ test_title 1
      ∷ echo_banner
      ∷ []
test_echo_service-passed_example =
    test_echo_service-passed framework secure start 0 (reaches test_string [] refl)
      (reaches (replicate 256 b'A') (first_calls framework secure start) refl)

-- A cipher that puts a byte in front.
abbrev toy_output : CryptoRequest → Bytes
toy_output (psa_cipher_encrypt k bytes room) = 1 ∷ bytes
toy_output (psa_cipher_decrypt k (c ∷ bytes) room) = bytes
toy_output _ = []

abbrev crypto : PsaCrypto
crypto = record { status = λ c h. success; key_id = λ h. 42; output = λ c h. toy_output c }

abbrev fresh : CryptoTest
fresh = record { lines = []; history = [] }

test_psa_encryption-keys_example :
    keys crypto (test_psa_encryption crypto (replicate 80 0) (replicate 64 0) fresh).history ≡ []
test_psa_encryption-keys_example =
    test_psa_encryption-keys crypto (replicate 80 0) (replicate 64 0) fresh (λ k h. refl)

-- The test has passed once.
test_psa_encryption-passes_example :
    passes (test_psa_encryption crypto (replicate 80 0) (replicate 64 0) fresh).lines ≡ 1
test_psa_encryption-passes_example =
    test_psa_encryption-passes crypto (replicate 80 0) (replicate 64 0) fresh refl

custom_image-size : length custom_image ≡ 784
unfolding custom_image draw_rows draw_row
custom_image-size = refl

-- A framework that refuses every connection.
abbrev offline : Framework
offline = record {
  connect = λ sid version t. negsuc 129;
  answer =
      λ h type input capacity t. record { status = generic_error; out_bytes = []; out_len = 0 };
}

abbrev untested : MaixTest
untested = record { predicted_class = pos 0; lines = []; calls = [] }

comprehensive_suite-Verdict_example :
    Verdict
      (one_more offline (all_succeed offline []) 0)
      1
      (test_tinymaix_comprehensive_suite offline false (replicate 16 0) untested)
comprehensive_suite-Verdict_example = comprehensive_suite-Verdict offline (replicate 16 0) untested

abbrev stack : Stack
stack = record {
  next_byte = 0;
  ciphertext = replicate 80 0;
  decrypted = replicate 64 0;
  hash = replicate 32 0;
  key_buffer = replicate 16 0;
}

run_all_tests-Closed_example :
    Closed
      (run_all_tests framework crypto false stack
        (record { log = []; echo = start; crypto = fresh; maix = untested })).maix.calls
run_all_tests-Closed_example =
    run_all_tests-Closed framework crypto false stack
      (record { log = []; echo = start; crypto = fresh; maix = untested }) nothing
