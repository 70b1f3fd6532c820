-- ===== src/Suite/MaixVerdict.antt =====
-- What the verdicts of nspe/tinymaix_inference_test.c say.
use pico2w_tfm.Common.{
  ℕ, suc, ◌≡◌, refl, ap, Bool, true, false, ◌&&◌, some, List, [], ◌∷◌, Bytes, if◌then◌else◌,
  Bool-cases, inl, inr,
}
use pico2w_tfm.Client.Api.{
  Calls, Framework, tfm_tinymaix_load_encrypted_model, tfm_tinymaix_run_inference,
  tfm_tinymaix_run_inference_with_data,
}
use pico2w_tfm.Suite.Maix.{
  MaixLine, basic_passed, suite_passed, suite_banner, suite_starting, suite_running, tell,
  is_status_success, custom_image, MaixTest, builtin_inference, custom_inference, custom_test,
  builtin_test, test_tinymaix_basic_functionality, test_tinymaix_comprehensive_suite,
}

-- how often the basic test, and the suite, are said to have passed
abbrev pub basic_passes : List MaixLine → ℕ
basic_passes [] = 0
basic_passes (basic_passed ∷ ls) = suc (basic_passes ls)
basic_passes (_ ∷ ls) = basic_passes ls

abbrev pub suite_passes : List MaixLine → ℕ
suite_passes [] = 0
suite_passes (suite_passed ∷ ls) = suc (suite_passes ls)
suite_passes (_ ∷ ls) = suite_passes ls

-- The two verdicts after some lines of one test.
pub record Verdict (basic suite : ℕ) (s : MaixTest) : Type 0 where
  pub basic' : basic_passes s.lines ≡ basic
  pub suite' : suite_passes s.lines ≡ suite

module _ (psa : Framework) where
  -- The three requests succeed, one after the other.
  abbrev pub custom_succeeds : Calls → Bool
  custom_succeeds t =
      is_status_success
        (tfm_tinymaix_run_inference_with_data psa (some custom_image) 784 true t).0.0

  abbrev pub builtin_succeeds : Calls → Bool
  builtin_succeeds t =
      let ((status, class), t') = tfm_tinymaix_run_inference psa true t in
      is_status_success status && custom_succeeds t'

  abbrev pub all_succeed : Calls → Bool
  all_succeed t =
      let (status, t') = tfm_tinymaix_load_encrypted_model psa t in
      is_status_success status && builtin_succeeds t'

  abbrev pub one_more : Bool → ℕ → ℕ
  one_more more n = if more then suc n else n

  custom_test-Verdict :
      (s : MaixTest)
      → Verdict
          (one_more (custom_succeeds s.calls) (basic_passes s.lines))
          (suite_passes s.lines)
          (custom_test psa s)
  unfolding custom_test custom_inference
  custom_test-Verdict s = elim (Bool-cases (custom_succeeds s.calls)) [
    | inl fine ↦ rw fine (record { basic' = refl; suite' = refl })
    | inr failed ↦ rw failed (record { basic' = refl; suite' = refl })
  ]

  builtin_test-Verdict :
      (s : MaixTest)
      → Verdict
          (one_more (builtin_succeeds s.calls) (basic_passes s.lines))
          (suite_passes s.lines)
          (builtin_test psa s)
  unfolding builtin_test builtin_inference
  builtin_test-Verdict s =
      elim (Bool-cases (is_status_success (tfm_tinymaix_run_inference psa true s.calls).0.0)) [
        | inl fine ↦ rw fine (custom_test-Verdict _)
        | inr failed ↦ rw failed (record { basic' = refl; suite' = refl })
      ]

  basic-Verdict :
      (s : MaixTest)
      → Verdict
          (one_more (all_succeed s.calls) (basic_passes s.lines))
          (suite_passes s.lines)
          (test_tinymaix_basic_functionality psa s)
  unfolding test_tinymaix_basic_functionality
  basic-Verdict s =
      elim (Bool-cases (is_status_success (tfm_tinymaix_load_encrypted_model psa s.calls).0)) [
        | inl fine ↦ rw fine (builtin_test-Verdict _)
        | inr failed ↦ rw failed (record { basic' = refl; suite' = refl })
      ]

  -- The verdict of the basic test is right, and that of the suite is not: in a production build
  -- `test_tinymaix_comprehensive_suite` prints that the basic functionality test has passed exactly
  -- if the model is loaded and both inferences succeed, one after the other; but it prints that the
  -- "Basic + Encrypted Model Tests Passed!" in any case, once, whatever the service answers.
  pub comprehensive_suite-Verdict :
      (key_buffer : Bytes) (s : MaixTest)
      → Verdict
          (one_more (all_succeed s.calls) (basic_passes s.lines))
          (suc (suite_passes s.lines))
          (test_tinymaix_comprehensive_suite psa false key_buffer s)
  unfolding test_tinymaix_comprehensive_suite
  comprehensive_suite-Verdict key_buffer s =
      let v = basic-Verdict (tell (suite_running ∷ suite_starting ∷ suite_banner ∷ []) s) in
      record { basic' = v.basic'; suite' = ap suc v.suite' }
