-- ===== src/Client/Api.antt =====
-- `tfm_echo_service` of interface/src/tfm_echo_api.c and the functions of
-- interface/src/tfm_tinymaix_inference_api.c, over the PSA client calls that they make.
use pico2w_tfm.Common.{
  ℕ, Bool, not, Option, none, some, Bytes, ◌∷◌, [], List, ltb, ◌==◌, ◌||◌, if◌then◌else◌, length,
  overwrite, read_u32, u32_bytes,
}
use pico2w_tfm.Common.Int.{ℤ, pos, negsuc, ltb_ℤ, signed32, pattern32}
use pico2w_tfm.Psa.{Status, invalid_argument, connection_refused, is_success}

-- What `psa_call` gives back: its status, the bytes that it puts into the output, and the
-- output's new length.
pub record Answer : Type 0 where
  pub status : Status
  pub out_bytes : Bytes
  pub out_len : ℕ

-- A PSA client call: the service and version of a connection; the handle, the request type, the
-- input and the output's capacity of a request; a handle.
pub data Call : Type 0 where
  psa_connect : ℕ → ℕ → ℤ → Call
  psa_call : ℤ → ℕ → Bytes → ℕ → Call
  psa_close : ℤ → Call

abbrev pub Calls : Type 0
Calls = List Call

-- The framework's side of the calls.
pub record Framework : Type 0 where
  pub connect : ℕ → ℕ → Calls → ℤ
  pub answer : ℤ → ℕ → Bytes → ℕ → Calls → Answer

-- `tfm_tinymaix_status_t`
pub data TinymaixStatus : Type 0 where
  status_success error_invalid_param error_model_load_failed : TinymaixStatus
  error_inference_failed error_generic : TinymaixStatus

abbrev pub echo_service_sid : ℕ
echo_service_sid = 0x105

abbrev pub tinymaix_inference_sid : ℕ
tinymaix_inference_sid = 0x107

abbrev pub client_max_data_size : ℕ
client_max_data_size = 256

-- a handle that is not positive
abbrev pub is_refused : ℤ → Bool
is_refused handle = not (ltb_ℤ (pos 0) handle)

module _ (psa : Framework) where
  -- `psa_connect`; with a connection, one `psa_call` and `psa_close`. The calls are added to those
  -- made so far.
  unfoldable pub request : ℕ → ℕ → ℕ → Bytes → ℕ → Calls → Option Answer × Calls
  request sid version type input capacity t =
      let handle = psa.connect sid version t in
      let t₁ = psa_connect sid version handle ∷ t in
      if is_refused handle then (none, t₁) else (
        some (psa.answer handle type input capacity t₁),
        psa_close handle ∷ psa_call handle type input capacity ∷ t₁,
      )

  -- What is left of a call for the caller: the status, and `out_data` and `*out_size`.
  abbrev pub echo_result : Option Answer → Bytes → ℕ → Status × Option Bytes × Option ℕ
  echo_result none out_data out_size = (connection_refused, some out_data, some out_size)
  echo_result (some a) out_data out_size = (
    a.status,
    some (overwrite out_data 0 a.out_bytes),
    some (if is_success a.status then a.out_len else out_size),
  )

  -- The pointers `data`, `out_data` and `out_size` may be null, and have the memory behind them
  -- otherwise; the result has the status and the memory behind the last two.
  unfoldable pub tfm_echo_service :
      Option Bytes
      → Option Bytes
      → ℕ
      → Option ℕ
      → Calls
      → (Status × Option Bytes × Option ℕ) × Calls
  unfolding request
  tfm_echo_service (some data') (some out_data) out_len (some out_size) t =
      if ltb client_max_data_size (length data') || ltb out_len (length data')
      then ((invalid_argument, some out_data, some out_size), t)
      else (let (a, t') = request echo_service_sid 1 0 data' out_len t in
          (echo_result a out_data out_size, t'))
  tfm_echo_service _ out_data out_len out_size t = ((invalid_argument, out_data, out_size), t)

  -- The word that `result` holds after a call: what it was initialised with, overwritten.
  abbrev pub result_word : ℕ → Answer → ℕ
  result_word initial a = read_u32 (overwrite (u32_bytes initial) 0 a.out_bytes) 0

  abbrev pub load_result : Option Answer → TinymaixStatus
  load_result none = error_generic
  load_result (some a) =
      if not (is_success a.status) || not (result_word 1 a == 0)
      then error_model_load_failed
      else status_success

  unfoldable pub tfm_tinymaix_load_encrypted_model : Calls → TinymaixStatus × Calls
  unfolding request read_u32 u32_bytes
  tfm_tinymaix_load_encrypted_model t =
      let (a, t') = request tinymaix_inference_sid 1 0x1002 [] 4 t in (load_result a, t')

  -- The status, and what is written to `*predicted_class`.
  abbrev pub inference_result : Option Answer → TinymaixStatus × Option ℤ
  inference_result none = (error_generic, none)
  inference_result (some a) =
      let result = signed32 (result_word (pattern32 (negsuc 0)) a) in
      if not (is_success a.status) || ltb_ℤ result (pos 0)
      then (error_inference_failed, none)
      else (status_success, some result)

  -- The image and its size are not used. The flag says whether `predicted_class` is a pointer.
  unfoldable pub tfm_tinymaix_run_inference_with_data :
      Option Bytes → ℕ → Bool → Calls → (TinymaixStatus × Option ℤ) × Calls
  unfolding request read_u32 u32_bytes
  tfm_tinymaix_run_inference_with_data image_data image_size predicted_class t =
      if predicted_class
      then (let (a, t') = request tinymaix_inference_sid 1 0x1003 [] 4 t in
          (inference_result a, t'))
      else ((error_invalid_param, none), t)

  unfoldable pub tfm_tinymaix_run_inference : Bool → Calls → (TinymaixStatus × Option ℤ) × Calls
  unfolding tfm_tinymaix_run_inference_with_data
  tfm_tinymaix_run_inference predicted_class t =
      tfm_tinymaix_run_inference_with_data none 0 predicted_class t

  abbrev pub key_result : Option Answer → Bytes → TinymaixStatus × Bytes
  key_result none key_buffer = (error_generic, key_buffer)
  key_result (some a) key_buffer = (
    if is_success a.status then status_success else error_generic,
    overwrite key_buffer 0 a.out_bytes,
  )

  -- The DEV_MODE function; the buffer may be null.
  unfoldable pub tfm_tinymaix_get_model_key :
      Option Bytes → ℕ → Calls → (TinymaixStatus × Bytes) × Calls
  unfolding request
  tfm_tinymaix_get_model_key none key_buffer_size t = ((error_invalid_param, []), t)
  tfm_tinymaix_get_model_key (some key_buffer) key_buffer_size t =
      if ltb key_buffer_size 16
      then ((error_invalid_param, key_buffer), t)
      else (let (a, t') = request tinymaix_inference_sid 1 0x1004 [] key_buffer_size t in
          (key_result a key_buffer, t'))
