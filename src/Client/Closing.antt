-- ===== src/Client/Closing.antt =====
-- The client functions close what they open.
use pico2w_tfm.Common.{
  List, ltb, ◌||◌, length, ℕ, Bool, true, false, Option, none, some, Bytes, ◌∷◌, [], ◌≡◌,
  Bool-cases, inl, inr, if_both,
}
use pico2w_tfm.Common.Int.{ℤ}
use pico2w_tfm.Psa.{Status}
use pico2w_tfm.Client.Api.{
  TinymaixStatus, client_max_data_size, Calls, psa_connect, psa_call, psa_close, Framework,
  is_refused, request, tfm_echo_service, tfm_tinymaix_load_encrypted_model,
  tfm_tinymaix_run_inference_with_data, tfm_tinymaix_run_inference, tfm_tinymaix_get_model_key,
}

-- Each connection was refused, or served one request and was closed before anything else happened.
pub data Closed : Calls → Type 0 where
  nothing : Closed []
  refused :
      {t : Calls} (sid version : ℕ) (handle : ℤ)
      → is_refused handle ≡ true
      → Closed t
      → Closed (psa_connect sid version handle ∷ t)
  served :
      {t : Calls} (sid version type capacity : ℕ) (handle : ℤ) (input : Bytes)
      → is_refused handle ≡ false
      → Closed t
      → Closed (
          psa_close handle
          ∷ psa_call handle type input capacity
          ∷ psa_connect sid version handle
          ∷ t)

module _ (psa : Framework) {t : Calls} (closed : Closed t) where
  request-Closed :
      (sid version type capacity : ℕ) (input : Bytes)
      → Closed (request psa sid version type input capacity t).1
  unfolding request
  request-Closed sid version type capacity input =
      let handle = psa.connect sid version t in
      elim (Bool-cases (is_refused handle)) [
        | inl no' ↦ rw no' (refused sid version handle no' closed)
        | inr yes' ↦ rw yes' (served sid version type capacity handle input yes' closed)
      ]

  echo-Closed :
      (data' out_data : Option Bytes) (out_len : ℕ) (out_size : Option ℕ)
      → Closed (tfm_echo_service psa data' out_data out_len out_size t).1
  unfolding tfm_echo_service
  echo-Closed (some data') (some out_data) out_len (some out_size) =
      if_both {A = (Status × Option Bytes × Option ℕ) × Calls} (λ r. Closed r.1)
        (ltb client_max_data_size (length data') || ltb out_len (length data')) (λ _. closed)
        (λ _. request-Closed _ _ _ _ _)
  echo-Closed (some data') (some out_data) out_len none = closed
  echo-Closed (some data') none out_len out_size = closed
  echo-Closed none out_data out_len out_size = closed

  load-Closed : Closed (tfm_tinymaix_load_encrypted_model psa t).1
  unfolding tfm_tinymaix_load_encrypted_model
  load-Closed = request-Closed _ _ _ _ _

  run_inference_with_data-Closed :
      (image : Option Bytes) (size : ℕ) (predicted_class : Bool)
      → Closed (tfm_tinymaix_run_inference_with_data psa image size predicted_class t).1
  unfolding tfm_tinymaix_run_inference_with_data
  run_inference_with_data-Closed image size true = request-Closed _ _ _ _ _
  run_inference_with_data-Closed image size false = closed

  get_model_key-Closed :
      (buffer : Option Bytes) (size : ℕ) → Closed (tfm_tinymaix_get_model_key psa buffer size t).1
  unfolding tfm_tinymaix_get_model_key
  get_model_key-Closed none size = closed
  get_model_key-Closed (some buffer) size =
      if_both {A = (TinymaixStatus × Bytes) × Calls} (λ r. Closed r.1) (ltb size 16) (λ _. closed)
        (λ _. request-Closed _ _ _ _ _)

-- A call of the interface.
pub data ApiCall : Type 0 where
  echo : Option Bytes → Option Bytes → ℕ → Option ℕ → ApiCall
  load : ApiCall
  run : Bool → ApiCall
  run_with_data : Option Bytes → ℕ → Bool → ApiCall
  get_key : Option Bytes → ℕ → ApiCall

-- The PSA calls that it makes.
abbrev pub perform : Framework → ApiCall → Calls → Calls
perform psa (echo data' out_data out_len out_size) t =
    (tfm_echo_service psa data' out_data out_len out_size t).1
perform psa load t = (tfm_tinymaix_load_encrypted_model psa t).1
perform psa (run predicted_class) t = (tfm_tinymaix_run_inference psa predicted_class t).1
perform psa (run_with_data image size predicted_class) t =
    (tfm_tinymaix_run_inference_with_data psa image size predicted_class t).1
perform psa (get_key buffer size) t = (tfm_tinymaix_get_model_key psa buffer size t).1

abbrev pub perform_all : Framework → List ApiCall → Calls → Calls
perform_all psa [] t = t
perform_all psa (c ∷ cs) t = perform_all psa cs (perform psa c t)

perform-Closed : (psa : Framework) (c : ApiCall) (t : Calls) → Closed t → Closed (perform psa c t)
unfolding tfm_tinymaix_run_inference
perform-Closed psa (echo data' out_data out_len out_size) t h =
    echo-Closed psa h data' out_data out_len out_size
perform-Closed psa load t h = load-Closed psa h
perform-Closed psa (run predicted_class) t h =
    run_inference_with_data-Closed psa h none 0 predicted_class
perform-Closed psa (run_with_data image size predicted_class) t h =
    run_inference_with_data-Closed psa h image size predicted_class
perform-Closed psa (get_key buffer size) t h = get_model_key-Closed psa h buffer size

-- A client that makes any calls of the interface in any order, with any answers of the framework,
-- closes each connection that it gets, after one request and before it opens the next: if that was
-- so of the calls before.
pub perform_all-Closed :
    (psa : Framework) (cs : List ApiCall) (t : Calls) → Closed t → Closed (perform_all psa cs t)
perform_all-Closed psa [] t h = h
perform_all-Closed psa (c ∷ cs) t h =
    perform_all-Closed psa cs (perform psa c t) (perform-Closed psa c t h)
