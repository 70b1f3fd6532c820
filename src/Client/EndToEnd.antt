-- ===== src/Client/EndToEnd.antt =====
-- From a client function through the partition and back.
use pico2w_tfm.Common.{
  ◌||◌, ℕ, true, false, Option, none, some, Bytes, ◌∷◌, [], ◌≡◌, ◌≤◌, refl, arith, ltb, length,
  overwrite, ap, ◌∙◌, read_u32, u32_bytes, read_u32-u32_bytes, if◌then◌else◌, IsU32,
}
use pico2w_tfm.Common.Int.{ℤ, pos, negsuc, ltb_ℤ, signed32, pattern32, IsI32, signed32-pattern32}
use pico2w_tfm.Psa.{Status, success, generic_error, Msg, ipc_call, psa_get, psa_reply, Trace, Env}
use pico2w_tfm.History.{written}
use pico2w_tfm.Echo.Service.{Echo, dispatch}
use pico2w_tfm.Echo.Serving.{IsValid, dispatch_lem}
use pico2w_tfm.Client.Api.{
  Answer, Calls, Framework, is_refused, request, echo_service_sid, client_max_data_size,
  tfm_echo_service, tfm_tinymaix_run_inference_with_data, tinymaix_inference_sid, psa_connect,
  TinymaixStatus, status_success, error_inference_failed,
}

-- the status of the latest reply
abbrev pub reply_status : Trace → Status
reply_status [] = generic_error
reply_status (psa_reply _ s ∷ t) = s
reply_status (_ ∷ t) = reply_status t

-- What a client learns of the handling of its message.
abbrev pub answer_of : Trace → Answer
answer_of t = record {
  status = reply_status t;
  out_bytes = written t;
  out_len = length (written t);
}

-- After the calls `t` the framework connects the client to the echo partition, whose buffers have
-- their declared lengths. The partition takes the request, `psa_read` reads the client's input, and
-- the client gets what the partition replies and writes.
pub record ReachesEcho (psa : Framework) (env : Env) (input : Bytes) (capacity : ℕ) (t : Calls)
    : Type 0 where
  pub connects : is_refused (psa.connect echo_service_sid 1 t) ≡ false
  pub handle : ℕ
  pub partition : Echo
  pub valid : IsValid partition
  pub history : Trace
  pub taken : partition.trace ≡ psa_get success ∷ history
  pub reads : env.read_bytes handle 0 (length input) partition.trace ≡ input
  pub answers :
      psa.answer
        (psa.connect echo_service_sid 1 t)
        0
        input
        capacity
        (psa_connect echo_service_sid 1 (psa.connect echo_service_sid 1 t) ∷ t)
      ≡ answer_of
          (dispatch env
            (record {
              type = ipc_call 0;
              handle = handle;
              in_size = length input;
              out_size = capacity;
            })
            partition).trace

module _ (psa : Framework) (env : Env) where
  answer_echoes :
      (input : Bytes) (capacity : ℕ) (t : Calls)
      → ReachesEcho psa env input capacity t
      → length input ≤ 256
      → length input ≤ capacity
      → psa.answer
          (psa.connect echo_service_sid 1 t)
          0
          input
          capacity
          (psa_connect echo_service_sid 1 (psa.connect echo_service_sid 1 t) ∷ t)
        ≡ record { status = success; out_bytes = input; out_len = length input }
  answer_echoes input capacity t echo small room =
      let e = echo.partition in
      let msg : Msg = record {
        type = ipc_call 0;
        handle = echo.handle;
        in_size = length input;
        out_size = capacity;
      } in
      echo.answers ∙ rw (dispatch_lem env msg e echo.valid, echo.reads, echo.taken) (ground arith)

  -- Through the echo partition a client gets its own bytes back: for at most 256 bytes and an output
  -- that has room for them, and if the framework carries the request to the partition and the answer
  -- back, `tfm_echo_service` returns success, with the data at the start of the output and its
  -- length in `*out_size`.
  pub tfm_echo_service_echoes :
      (data' out_data : Bytes) (out_size : ℕ) (t : Calls)
      → ReachesEcho psa env data' (length out_data) t
      → length data' ≤ 256
      → length data' ≤ length out_data
      → (tfm_echo_service psa (some data') (some out_data) (length out_data) (some out_size) t).0
        ≡ (success, some (overwrite out_data 0 data'), some (length data'))
  unfolding tfm_echo_service request
  tfm_echo_service_echoes data' out_data out_size t echo small room =
      let fits : (ltb client_max_data_size (length data') || ltb (length out_data) (length data'))
          ≡ false =
        ground arith in
      rw (fits, echo.connects, answer_echoes data' (length out_data) t echo small room) refl

pattern32-IsU32 : (z : ℤ) → IsU32 (pattern32 z)
pattern32-IsU32 (pos n) = omega arith
pattern32-IsU32 (negsuc n) = omega arith

module _ (psa : Framework) where
  abbrev pub outcome : ℤ → TinymaixStatus × Option ℤ
  outcome class =
      if ltb_ℤ class (pos 0) then (error_inference_failed, none) else (status_success, some class)

  -- If the inference service is connected and replies with success and the word of a class, which is
  -- an `int`, then the client function stores that class unless it is negative, when it reports a
  -- failed inference.
  pub run_inference_class :
      (class : ℤ) (image : Option Bytes) (size : ℕ) (t : Calls)
      → IsI32 class
      → is_refused (psa.connect tinymaix_inference_sid 1 t) ≡ false
      → psa.answer
          (psa.connect tinymaix_inference_sid 1 t)
          0x1003
          []
          4
          (psa_connect tinymaix_inference_sid 1 (psa.connect tinymaix_inference_sid 1 t) ∷ t)
        ≡ record { status = success; out_bytes = u32_bytes (pattern32 class); out_len = 4 }
      → (tfm_tinymaix_run_inference_with_data psa image size true t).0 ≡ (
          if ltb_ℤ class (pos 0)
          then (error_inference_failed, none)
          else (status_success, some class))
  unfolding tfm_tinymaix_run_inference_with_data request u32_bytes read_u32
  run_inference_class class image size t range connected answer =
      let word : read_u32 (u32_bytes (pattern32 class)) 0 ≡ pattern32 class =
        read_u32-u32_bytes (pattern32 class) (pattern32-IsU32 class) in
      let back : signed32 (read_u32 (u32_bytes (pattern32 class)) 0) ≡ class =
        ap signed32 word ∙ signed32-pattern32 class range in
      rw (connected, answer) (ap outcome back)
