-- ===== src/Inference/Service.antt =====
-- `tinymaix_inference_init` and `tinymaix_inference_entry`: the handler of each message type and the
-- service loop.
use pico2w_tfm.Common.{
  ℕ, zero, suc, ◌*◌, Bool, true, false, some, Bytes, ◌∷◌, ltb, leb, ◌==◌, ◌&&◌, if◌then◌else◌,
  length, overwrite, u32_bytes, take,
}
use pico2w_tfm.Common.Int.{pattern32}
use pico2w_tfm.Psa.{
  Status, success, generic_error, not_supported, bad_state, invalid_argument, buffer_too_small,
  insufficient_memory, communication_failure, is_success, MsgType, ipc_connect, ipc_disconnect,
  ipc_call, Msg, Mat, TmCall, tm_load, tm_preprocess, tm_run, TmErr, is_tm_ok, psa_wait, psa_get,
  psa_read, psa_write, psa_reply, engine, Env,
}
use pico2w_tfm.Inference.State.{World, ok, err, status_of}
use pico2w_tfm.Inference.KeyDerivation.{derive_key_from_huk}
use pico2w_tfm.Inference.Decrypt.{decrypt_model, max_model_size, derived_key_len, huk_label}
use pico2w_tfm.Inference.Output.{parse_output}

abbrev pub ipc_load_encrypted_model : ℕ
ipc_load_encrypted_model = 0x1002

abbrev pub ipc_run_inference : ℕ
ipc_run_inference = 0x1003

abbrev pub ipc_get_model_key : ℕ
ipc_get_model_key = 0x1004

-- What the build fixes: `DEV_MODE`, and the package that is compiled in, with its size
-- (`encrypted_mdl_data_data`, `encrypted_mdl_data_size`).
pub record Build : Type 0 where
  pub dev_mode : Bool
  pub mdl_data : Bytes
  pub mdl_size : ℕ

-- `tinymaix_inference_init`. That it clears `g_mdl` shows only in what TinyMaix answers.
unfoldable pub tinymaix_inference_init : World → Status × World
tinymaix_inference_init w = (success, record w { model_loaded = false })

abbrev pub image_size : ℕ
image_size = 28 * 28

-- the shape that `g_in_uint8` is given
abbrev pub image_shape : Mat
image_shape = record { dims = 3; h = 28; w = 28; c = 1 }

module _ (env : Env) (build : Build) where
  -- A call of the engine, with its result.
  unfoldable pub call_engine : TmCall → World → TmErr × World
  call_engine c w =
      let r = env.engine_status c w.trace in (r, record w { trace = engine c r ∷ w.trace })

  -- The choice of the model and its decryption.
  unfoldable pub decrypt_builtin : World → Status × World
  decrypt_builtin w =
      if ltb max_model_size build.mdl_size
      then (insufficient_memory, w)
      else (let (r, w') = decrypt_model env (some build.mdl_data) build.mdl_size w in
          (status_of r, w'))

  -- `tm_load` of the decrypted model, if there is one; `g_model_loaded` says how it went.
  unfoldable pub load_decrypted : Status × World → Status × World
  unfolding call_engine
  load_decrypted (s, w) =
      if is_success s
      then (let (r, w') = call_engine (tm_load w.decrypted_model) w in
          if is_tm_ok r
          then (success, record w' { model_loaded = true })
          else (generic_error, record w' { model_loaded = false }))
      else (s, record w { model_loaded = false })

  abbrev pub write : Msg → Bytes → World → World
  write msg bytes w = record w { trace = psa_write msg.handle 0 bytes ∷ w.trace }

  abbrev pub reply : Msg → Status × World → World
  reply msg (s, w) = record w { trace = psa_reply msg.handle s ∷ w.trace }

  -- `case TINYMAIX_IPC_LOAD_ENCRYPTED_MODEL`
  unfoldable pub load_encrypted_model : Msg → World → World
  load_encrypted_model msg w =
      let (s, w') = load_decrypted (decrypt_builtin w) in
      reply msg (s, if is_success s && leb 4 msg.out_size then write msg (u32_bytes 0) w' else w')

  -- From the preparation of `g_in_uint8` to the result, on the image in `mnist_pic`.
  unfoldable pub infer : Msg → World → Status × World
  unfolding call_engine parse_output
  infer msg w =
      let w0 = record w { in_uint8 = image_shape } in
      let (p, w1) = call_engine (tm_preprocess w0.decrypted_model image_shape w0.mnist_pic) w0 in
      if is_tm_ok p
      then (let (r, w2) = call_engine (tm_run w1.decrypted_model) w1 in
          if is_tm_ok r
          then (let result = parse_output env.gt env.zero_float (env.scores w2.trace) in
              (
                success,
                if leb 4 msg.out_size then write msg (u32_bytes (pattern32 result)) w2 else w2,
              ))
          else (generic_error, w2))
      else (generic_error, w1)

  -- An image of the client's, which `psa_read` puts into `mnist_pic`.
  unfoldable pub infer_custom : Msg → World → Status × World
  unfolding infer
  infer_custom msg w =
      let got = env.read_bytes msg.handle 0 msg.in_size w.trace in
      let w' = record w {
        mnist_pic = overwrite w.mnist_pic 0 got;
        trace = psa_read msg.handle 0 msg.in_size got ∷ w.trace;
      } in
      if length got == msg.in_size then infer msg w' else (communication_failure, w')

  -- `case TINYMAIX_IPC_RUN_INFERENCE`
  unfoldable pub run_inference : Msg → World → World
  run_inference msg w = reply msg (
      if w.model_loaded
      then (if msg.in_size == image_size
          then infer_custom msg w
          else if msg.in_size == 0
          then infer msg w
          else (invalid_argument, w))
      else (bad_state, w))

  -- `case TINYMAIX_IPC_GET_MODEL_KEY`
  unfoldable pub get_model_key : Msg → World → World
  get_model_key msg w = reply msg (
      if ltb msg.out_size derived_key_len
      then (buffer_too_small, w)
      else (let (r, w') = derive_key_from_huk env huk_label derived_key_len w in
          elim r [ ok key ↦ (success, write msg (take derived_key_len key) w') | err s ↦ (s, w') ]))

  -- The `switch` on `msg.type`; the last request type exists in a DEV_MODE build only.
  abbrev pub dispatch_type : MsgType → Msg → World → World
  dispatch_type ipc_connect msg w = reply msg (success, w)
  dispatch_type ipc_disconnect msg w = reply msg (success, w)
  dispatch_type (ipc_call n) msg w =
      if n == ipc_load_encrypted_model
      then load_encrypted_model msg w
      else if n == ipc_run_inference
      then run_inference msg w
      else if build.dev_mode && n == ipc_get_model_key
      then get_model_key msg w
      else reply msg (not_supported, w)

  unfoldable pub dispatch : Msg → World → World
  dispatch msg w = dispatch_type msg.type msg w

  -- One round of the service loop.
  unfoldable pub round : World → World
  round w =
      let waiting = psa_wait ∷ w.trace in
      let status = env.get_status waiting in
      let got = record w { trace = psa_get status ∷ waiting } in
      if is_success status then dispatch (env.message waiting) got else got

  -- The first `n` rounds of `while (1)`.
  unfoldable pub serve : ℕ → World → World
  serve zero w = w
  serve (suc n) w = serve n (round w)
