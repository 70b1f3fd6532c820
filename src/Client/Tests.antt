-- ===== src/Client/Tests.antt =====
-- The client interface over a framework that answers at once.
use pico2w_tfm.Common.{
  ℕ, true, not, none, some, Bytes, ◌∷◌, [], ◌≡◌, refl, arith, List, replicate, ltb, ◌==◌,
  if◌then◌else◌, u32_bytes, take, read_u32,
}
use pico2w_tfm.Common.Int.{ℤ, pos, negsuc, ltb_ℤ, pattern32}
use pico2w_tfm.Psa.{success, tm_ok, Env, psa_get, ipc_call}
use pico2w_tfm.Echo.Service.{Echo, dispatch}
use pico2w_tfm.Client.Api.{
  Answer, Framework, status_success, error_generic, error_model_load_failed, tfm_echo_service,
  tfm_tinymaix_run_inference, error_inference_failed, tfm_tinymaix_load_encrypted_model, request,
}
use pico2w_tfm.Client.Closing.{
  ApiCall, Closed, nothing, echo, load, run, get_key, perform_all, perform_all-Closed,
}
use pico2w_tfm.Client.EndToEnd.{ReachesEcho, answer_of, tfm_echo_service_echoes}
use pico2w_tfm.Client.Inferring.{request_msg, ReachesInference, run_inference_predicts}
use pico2w_tfm.Client.Loading.{load_tells}
use pico2w_tfm.Inference.Samples.{board, production, loaded}
use pico2w_tfm.Inference.State.{World}
use pico2w_tfm.Inference.Argmax.{IsOrder, IsPrediction}
use pico2w_tfm.Inference.Service.{Build}
use pico2w_tfm.Inference.Service

abbrev hello : Bytes
hello = 104 ∷ 105 ∷ 33 ∷ []

-- the secure side of an echo
abbrev secure : Env
secure = record {
  get_status = λ t. success;
  message = λ t. record { type = ipc_call 0; handle = 5; in_size = 3; out_size = 4 };
  read_bytes = λ handle vec n t. take n hello;
  crypto_status = λ c t. success;
  filled = λ c t. [];
  key_id = λ t. 1;
  engine_status = λ c t. tm_ok;
  Float = ℕ;
  gt = λ a b. ltb b a;
  zero_float = 0;
  scores = λ t. [];
}

abbrev waiting : Echo
waiting = record {
  input_buffer = replicate 256 0;
  output_buffer = replicate 256 0;
  trace = psa_get success ∷ [];
}

abbrev answer : ℕ → Answer
answer type =
    if type == 0
    then answer_of
        (dispatch secure (record { type = ipc_call 0; handle = 5; in_size = 3; out_size = 4 })
          waiting).trace
    else record { status = success; out_bytes = u32_bytes (pattern32 (pos 7)); out_len = 4 }

-- a framework with one connection at a time
abbrev framework : Framework
framework = record {
  connect = λ sid version t. pos 1;
  answer = λ h type input capacity t. answer type;
}

abbrev offline : Framework
offline = record framework { connect = λ sid version t. negsuc 3 }

tfm_tinymaix_load_encrypted_model-offline :
    (tfm_tinymaix_load_encrypted_model offline []).0 ≡ error_generic
unfolding tfm_tinymaix_load_encrypted_model request
tfm_tinymaix_load_encrypted_model-offline = refl

-- The word is not 0.
tfm_tinymaix_load_encrypted_model-word :
    (tfm_tinymaix_load_encrypted_model framework []).0 ≡ error_model_load_failed
unfolding tfm_tinymaix_load_encrypted_model request u32_bytes read_u32
tfm_tinymaix_load_encrypted_model-word = refl

abbrev calls : List ApiCall
calls =
    load
    ∷ run true
    ∷ echo (some hello) (some (0 ∷ 0 ∷ 0 ∷ 0 ∷ [])) 4 (some 0)
    ∷ get_key none 16
    ∷ []

perform_all-Closed_example : Closed (perform_all framework calls [])
perform_all-Closed_example = perform_all-Closed framework calls [] nothing

waiting-ReachesEcho : ReachesEcho framework secure hello 4 []
waiting-ReachesEcho = record {
  connects = refl;
  handle = 5;
  partition = waiting;
  valid = record { input_length = refl; output_length = refl };
  history = [];
  taken = refl;
  reads = refl;
  answers = refl;
}

tfm_echo_service_echoes_example :
    (tfm_echo_service framework (some hello) (some (0 ∷ 0 ∷ 0 ∷ 9 ∷ [])) 4 (some 0) []).0
    ≡ (success, some (104 ∷ 105 ∷ 33 ∷ 9 ∷ []), some 3)
tfm_echo_service_echoes_example =
    tfm_echo_service_echoes framework secure hello (0 ∷ 0 ∷ 0 ∷ 9 ∷ []) 0 [] waiting-ReachesEcho
      (omega arith) (omega arith)

abbrev waiting_world : World
waiting_world = record loaded { trace = psa_get success ∷ [] }

-- a framework that hands each request to the inference partition
abbrev inference : Framework
inference = record {
  connect = λ sid version t. pos 1;
  answer = λ h type input capacity t.
      answer_of (Service.dispatch board production (request_msg type 5) waiting_world).trace;
}

ltb-IsOrder : IsOrder (λ a b. ltb b a)
ltb-IsOrder = record { asym = λ a b h. ground arith; not_gt_trans = λ a b c h k. ground arith }

abbrev loaded-ReachesInference : ReachesInference inference board production 0x1003 []
loaded-ReachesInference = record {
  connects = refl;
  handle = 5;
  partition = waiting_world;
  history = [];
  taken = refl;
  answers = refl;
}

run_inference_predicts_example :
    (class : ℤ) × IsPrediction (λ a b. ltb b a) 0 (0 ∷ 3 ∷ 8 ∷ 8 ∷ []) class
    × ((tfm_tinymaix_run_inference inference true []).0 ≡ (
        if not (ltb_ℤ class (pos 0))
        then (status_success, some class)
        else (error_inference_failed, none)))
run_inference_predicts_example =
    run_inference_predicts inference board production [] ltb-IsOrder loaded-ReachesInference

abbrev load-ReachesInference : ReachesInference inference board production 0x1002 []
load-ReachesInference = record {
  connects = refl;
  handle = 5;
  partition = waiting_world;
  history = [];
  taken = refl;
  answers = refl;
}

load_tells_example : (tfm_tinymaix_load_encrypted_model inference []).0 ≡ (
    if (Service.dispatch board production (request_msg 0x1002 5) waiting_world).model_loaded
    then status_success
    else error_model_load_failed)
load_tells_example = load_tells inference [] board production load-ReachesInference
