-- ===== src/Suite/Maix.antt =====
-- nspe/tinymaix_inference_test.c.
use pico2w_tfm.Common.{
  ℕ, zero, suc, ◌+◌, Bool, true, false, ◌&&◌, ◌||◌, Option, none, some, List, [], ◌∷◌, ◌++◌, Bytes,
  leb, ◌==◌, if◌then◌else◌, take,
}
use pico2w_tfm.Common.Int.{ℤ, pos, negsuc}
use pico2w_tfm.Client.Api.{
  TinymaixStatus, status_success, Calls, Framework, tfm_tinymaix_load_encrypted_model,
  tfm_tinymaix_run_inference, tfm_tinymaix_run_inference_with_data, tfm_tinymaix_get_model_key,
}

-- The lines that are printed, with what they show; a predicted class is shown with its label, if it
-- has one.
pub data MaixLine : Type 0 where
  basic_banner load_title load_done builtin_title builtin_done custom_title custom_done : MaixLine
  basic_passed key_banner key_title key_done : MaixLine
  load_failed builtin_failed custom_failed key_failed : TinymaixStatus → MaixLine
  predicted : ℤ → Option Bytes → MaixLine
  key_shown : Bytes → MaixLine
  suite_banner suite_starting suite_running suite_passed : MaixLine
  dev_banner dev_starting dev_running dev_passed : MaixLine

abbrev pub is_status_success : TinymaixStatus → Bool
is_status_success status_success = true
is_status_success _ = false

-- `mnist_labels[c]`, for 0 <= c <= 9
abbrev pub mnist_label : ℤ → Option Bytes
mnist_label (pos c) = if leb c 9 then some ((b'0' + c) ∷ []) else none
mnist_label (negsuc _) = none

-- The condition of the loops that draw a "7".
abbrev pub is_white : ℕ → ℕ → Bool
is_white y x =
    y == 0 && leb 10 x && leb x 17
    || y == 1 && x == 17
    || leb 2 y && leb y 6 && x == 17
    || y == 7 && leb 10 x && leb x 17

-- The two loops over a cleared image: `left` columns from `x` on, and `left` rows from `y` on.
unfoldable pub draw_row : ℕ → ℕ → ℕ → Bytes
draw_row zero x y = []
draw_row (suc left') x y = (if is_white y x then 255 else 0) ∷ draw_row left' (suc x) y

unfoldable pub draw_rows : ℕ → ℕ → Bytes
draw_rows zero y = []
draw_rows (suc left') y = draw_row 28 0 y ++ draw_rows left' (suc y)

unfoldable pub custom_image : Bytes
custom_image = draw_rows 28 0

-- `predicted_class`, the lines with the latest first, and the calls.
pub record MaixTest : Type 0 where
  pub predicted_class : ℤ
  pub lines : List MaixLine
  pub calls : Calls

abbrev pub tell : List MaixLine → MaixTest → MaixTest
tell lines s = record s { lines = lines ++ s.lines }

abbrev pub stored : Option ℤ → ℤ → ℤ
stored none class = class
stored (some class) _ = class

module _ (psa : Framework) where
  -- `status = tfm_tinymaix_run_inference(&predicted_class)`
  unfoldable pub builtin_inference : MaixTest → TinymaixStatus × MaixTest
  builtin_inference s =
      let ((status, class), t) = tfm_tinymaix_run_inference psa true s.calls in
      (status, record s { predicted_class = stored class s.predicted_class; calls = t })

  -- `status = tfm_tinymaix_run_inference_with_data(…)`
  unfoldable pub custom_inference : MaixTest → TinymaixStatus × MaixTest
  custom_inference s =
      let ((status, class), t) =
        tfm_tinymaix_run_inference_with_data psa (some custom_image) 784 true s.calls in
      (status, record s { predicted_class = stored class s.predicted_class; calls = t })

  -- Test 3
  unfoldable pub custom_test : MaixTest → MaixTest
  custom_test s =
      let (status, s₁) = custom_inference (tell (custom_title ∷ []) s) in
      let class = s₁.predicted_class in
      if is_status_success status
      then tell (basic_passed ∷ predicted class (mnist_label class) ∷ custom_done ∷ []) s₁
      else tell (custom_failed status ∷ []) s₁

  -- Test 2
  unfoldable pub builtin_test : MaixTest → MaixTest
  builtin_test s =
      let (status, s₁) = builtin_inference (tell (builtin_title ∷ []) s) in
      let class = s₁.predicted_class in
      if is_status_success status
      then custom_test (tell (predicted class (mnist_label class) ∷ builtin_done ∷ []) s₁)
      else tell (builtin_failed status ∷ []) s₁

  -- From Test 1 on.
  unfoldable pub test_tinymaix_basic_functionality : MaixTest → MaixTest
  test_tinymaix_basic_functionality s =
      let (status, t) = tfm_tinymaix_load_encrypted_model psa s.calls in
      let s₁ : MaixTest = record {
        predicted_class = negsuc 0;
        lines = load_title ∷ basic_banner ∷ s.lines;
        calls = t;
      } in
      if is_status_success status
      then builtin_test (tell (load_done ∷ []) s₁)
      else tell (load_failed status ∷ []) s₁

  -- The function of a build with DEV_MODE; `key_buffer` has 16 bytes, on the stack.
  unfoldable pub test_tinymaix_get_model_key : Bytes → MaixTest → MaixTest
  test_tinymaix_get_model_key key_buffer s =
      let ((status, key), t) = tfm_tinymaix_get_model_key psa (some key_buffer) 16 s.calls in
      let s₁ = record s { lines = key_title ∷ key_banner ∷ s.lines; calls = t } in
      if is_status_success status
      then tell (key_shown (take 16 key) ∷ key_done ∷ []) s₁
      else tell (key_failed status ∷ []) s₁

  -- The flag is DEV_MODE.
  unfoldable pub test_tinymaix_comprehensive_suite : Bool → Bytes → MaixTest → MaixTest
  test_tinymaix_comprehensive_suite dev_mode key_buffer s =
      if dev_mode
      then tell (dev_passed ∷ []) (
          test_tinymaix_get_model_key key_buffer
            (tell (dev_running ∷ dev_starting ∷ dev_banner ∷ []) s))
      else tell (suite_passed ∷ []) (
          test_tinymaix_basic_functionality
            (tell (suite_running ∷ suite_starting ∷ suite_banner ∷ []) s))
