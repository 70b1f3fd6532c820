-- ===== src/Suite/Connections.antt =====
-- The connections of the application (nspe/test_runner.c).
use pico2w_tfm.Common.{
  ℕ, Bool, true, false, Option, some, [], ◌∷◌, Bytes, Bool-cases, inl, inr, take, ◌≡◌, refl, ◌&&◌,
  ◌==◌,
}
use pico2w_tfm.Psa.{Status, is_success}
use pico2w_tfm.Client.Api.{
  Framework, tfm_tinymaix_load_encrypted_model, tfm_tinymaix_run_inference,
  tfm_tinymaix_get_model_key,
}
use pico2w_tfm.Suite.MaixVerdict.{custom_succeeds}
use pico2w_tfm.Client.Closing.{Closed, echo, load, run, run_with_data, get_key, perform_all-Closed}
use pico2w_tfm.Suite.Echo.{
  EchoTest, buffer_size, call_echo, same_bytes, basic_verdict, basic_test, empty_test, maximum_test,
  oversized_test, test_echo_service,
}
use pico2w_tfm.Suite.Crypto.{PsaCrypto}
use pico2w_tfm.Suite.Maix.{
  is_status_success, custom_image, MaixTest, builtin_inference, custom_inference, custom_test,
  builtin_test, test_tinymaix_basic_functionality, test_tinymaix_get_model_key,
  test_tinymaix_comprehensive_suite,
}
use pico2w_tfm.Suite.Runner.{Stack, Run, run_all_tests}

module _ (psa : Framework) where
  call_echo-Closed :
      (data' : Option Bytes) (s : EchoTest)
      → Closed s.calls
      → Closed (call_echo psa data' s).1.calls
  unfolding call_echo
  call_echo-Closed data' s c =
      perform_all-Closed psa
        (echo data' (some s.output_buffer) buffer_size (some s.output_size) ∷ []) s.calls c

  -- Printing makes no call.
  abbrev IsClosed : EchoTest → Type 0
  IsClosed s = Closed s.calls

  basic_verdict-calls :
      (status : Status) (n : ℕ) (s : EchoTest) → (basic_verdict status n s).calls ≡ s.calls
  unfolding basic_verdict
  basic_verdict-calls status n s = elim (Bool-cases (is_success status)) [
    | inr failed ↦ rw failed refl
    | inl fine ↦
        elim (Bool-cases
          (same_bytes (take n s.input_buffer) (take n s.output_buffer) && s.output_size == n)) [
            | inl same ↦ rw (fine, same) refl
            | inr differs ↦ rw (fine, differs) refl
          ]
  ]

  basic_test-Closed : (s : EchoTest) → IsClosed s → IsClosed (basic_test psa s)
  unfolding basic_test
  basic_test-Closed s c = rw (basic_verdict-calls _ _ _) (call_echo-Closed _ _ c)

  empty_test-Closed : (s : EchoTest) → IsClosed s → IsClosed (empty_test psa s)
  unfolding empty_test
  empty_test-Closed s c = call_echo-Closed _ _ c

  maximum_test-Closed : (s : EchoTest) → IsClosed s → IsClosed (maximum_test psa s)
  unfolding maximum_test
  maximum_test-Closed s c = call_echo-Closed _ _ c

  oversized_test-Closed :
      (next_byte : ℕ) (s : EchoTest) → IsClosed s → IsClosed (oversized_test psa next_byte s)
  unfolding oversized_test
  oversized_test-Closed next_byte s c = call_echo-Closed _ _ c

  test_echo_service-Closed :
      (next_byte : ℕ) (s : EchoTest) → IsClosed s → IsClosed (test_echo_service psa next_byte s)
  unfolding test_echo_service
  test_echo_service-Closed next_byte s c =
      oversized_test-Closed next_byte _
        (maximum_test-Closed _ (empty_test-Closed _ (basic_test-Closed s c)))

  custom_test-Closed : (s : MaixTest) → Closed s.calls → Closed (custom_test psa s).calls
  unfolding custom_test custom_inference
  custom_test-Closed s c =
      let c' = perform_all-Closed psa (run_with_data (some custom_image) 784 true ∷ []) s.calls c in
      elim (Bool-cases (custom_succeeds psa s.calls)) [
        | inl fine ↦ rw fine c'
        | inr failed ↦ rw failed c'
      ]

  builtin_test-Closed : (s : MaixTest) → Closed s.calls → Closed (builtin_test psa s).calls
  unfolding builtin_test builtin_inference
  builtin_test-Closed s c =
      let c' = perform_all-Closed psa (run true ∷ []) s.calls c in
      elim (Bool-cases (is_status_success (tfm_tinymaix_run_inference psa true s.calls).0.0)) [
        | inl fine ↦ rw fine (custom_test-Closed _ c')
        | inr failed ↦ rw failed c'
      ]

  basic-Closed :
      (s : MaixTest) → Closed s.calls → Closed (test_tinymaix_basic_functionality psa s).calls
  unfolding test_tinymaix_basic_functionality
  basic-Closed s c =
      let c' = perform_all-Closed psa (load ∷ []) s.calls c in
      elim (Bool-cases (is_status_success (tfm_tinymaix_load_encrypted_model psa s.calls).0)) [
        | inl fine ↦ rw fine (builtin_test-Closed _ c')
        | inr failed ↦ rw failed c'
      ]

  get_model_key_test-Closed :
      (key_buffer : Bytes) (s : MaixTest)
      → Closed s.calls
      → Closed (test_tinymaix_get_model_key psa key_buffer s).calls
  unfolding test_tinymaix_get_model_key
  get_model_key_test-Closed key_buffer s c =
      let c' = perform_all-Closed psa (get_key (some key_buffer) 16 ∷ []) s.calls c in
      elim (Bool-cases
        (is_status_success (tfm_tinymaix_get_model_key psa (some key_buffer) 16 s.calls).0.0)) [
          | inl fine ↦ rw fine c'
          | inr failed ↦ rw failed c'
        ]

  -- The application leaves no connection open: if every connection was closed before, then after
  -- `run_all_tests`, in a build with DEV_MODE or without it and whatever the framework answers, each
  -- connection that a test got was closed after one request and before the next was opened.
  pub run_all_tests-Closed :
      (crypto : PsaCrypto) (dev_mode : Bool) (stack : Stack) (r : Run)
      → Closed r.echo.calls
      → Closed (run_all_tests psa crypto dev_mode stack r).maix.calls
  unfolding run_all_tests test_tinymaix_comprehensive_suite
  run_all_tests-Closed crypto true stack r c = get_model_key_test-Closed stack.key_buffer _ c
  run_all_tests-Closed crypto false stack r c =
      basic-Closed _ (test_echo_service-Closed stack.next_byte r.echo c)
