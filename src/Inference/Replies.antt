-- ===== src/Inference/Replies.antt =====
-- What a client is told: the status of a load and of an inference on each branch.
use pico2w_tfm.Common.{
  ◌≤◌, true, false, [], ◌∷◌, ◌≡◌, ◌≢◌, ◌↔◌, ap, arith, Bool-cases, inl, inr, Option, none, some,
  ◌==◌, length, take, overwrite, u32_bytes,
}
use pico2w_tfm.Psa.{
  Status, success, bad_state, invalid_argument, psa_read, psa_write, psa_reply, engine,
  tm_preprocess, tm_run, Trace, Env, Msg,
}
use pico2w_tfm.Common.Int.{ℤ, pattern32}
use pico2w_tfm.Inference.Output.{parse_output}
use pico2w_tfm.Inference.Argmax.{IsOrder, IsPrediction, parse_output-IsPrediction}
use pico2w_tfm.Inference.State.{World}
use pico2w_tfm.Inference.Service.{
  Build, call_engine, load_decrypted, load_encrypted_model, infer, infer_custom, run_inference,
  reply, image_shape, image_size,
}

-- the status of the latest reply
abbrev pub replied : Trace → Option Status
replied [] = none
replied (psa_reply _ s ∷ t) = some s
replied (_ ∷ t) = replied t

module _ (env : Env) (build : Build) where
  -- After a load request the partition has a model exactly if it has replied with success: each
  -- failure, of the decryption or of the engine, takes the previous model away.
  pub load_replies_success_iff :
      (msg : Msg) (w : World)
      → (replied (load_encrypted_model env build msg w).trace ≡ some success)
        ↔ ((load_encrypted_model env build msg w).model_loaded ≡ true)
  unfolding load_encrypted_model load_decrypted call_engine
  load_replies_success_iff msg w = ground arith

  -- With no model loaded, an inference request is refused before anything is read from the client
  -- or given to the engine, and changes nothing.
  pub run_inference_unloaded :
      (msg : Msg) (w : World)
      → w.model_loaded ≡ false
      → run_inference env build msg w
        ≡ record w { trace = psa_reply msg.handle bad_state ∷ w.trace }
  unfolding run_inference
  run_inference_unloaded msg w h = ground arith

  -- An input that is neither empty nor an image of 784 bytes is refused in the same way, also with
  -- a model.
  pub run_inference_bad_size :
      (msg : Msg) (w : World)
      → w.model_loaded ≡ true
      → msg.in_size ≢ 0
      → msg.in_size ≢ image_size
      → run_inference env build msg w
        ≡ record w { trace = psa_reply msg.handle invalid_argument ∷ w.trace }
  unfolding run_inference
  run_inference_bad_size msg w h z s = ground arith

  -- the class that `infer` reports, of the scores that the engine leaves
  abbrev class_after : Trace → ℤ
  class_after t = parse_output env.gt env.zero_float (env.scores t)

  infer-reports :
      (msg : Msg) (w : World)
      → (infer env build msg w).0 ≡ success
      → 4 ≤ msg.out_size
      → (t : Trace) × ((infer env build msg w).1.trace
          ≡ psa_write msg.handle 0 (u32_bytes (pattern32 (class_after t))) ∷ t)
  unfolding infer call_engine
  infer-reports msg w h room =
      let prepare = tm_preprocess w.decrypted_model image_shape w.mnist_pic in
      let p = env.engine_status prepare w.trace in
      let t₁ = engine prepare p ∷ w.trace in
      let r = env.engine_status (tm_run w.decrypted_model) t₁ in
      (engine (tm_run w.decrypted_model) r ∷ t₁, ground arith)

  -- the reply to a successful inference, over the write of the class that the scores mean
  abbrev pub Reported : Msg → Trace → Type 0
  Reported msg t' =
      (t : Trace) × (class : ℤ) × IsPrediction env.gt env.zero_float (take 10 (env.scores t)) class
      × (t' ≡ psa_write msg.handle 0 (u32_bytes (pattern32 class)) ∷ t)

  infer-Reported :
      IsOrder env.gt
      → (msg : Msg) (w : World) → 4 ≤ msg.out_size
      → (infer env build msg w).0 ≡ success
      → Reported msg (infer env build msg w).1.trace
  infer-Reported order msg w room h =
      let (t, e) = infer-reports msg w h room in
      (t, class_after t, parse_output-IsPrediction env.gt order env.zero_float (env.scores t), e)

  infer_custom-Reported :
      IsOrder env.gt
      → (msg : Msg) (w : World) → 4 ≤ msg.out_size
      → (infer_custom env build msg w).0 ≡ success
      → Reported msg (infer_custom env build msg w).1.trace
  unfolding infer_custom
  infer_custom-Reported order msg w room h =
      let got = env.read_bytes msg.handle 0 msg.in_size w.trace in
      let w' = record w {
        mnist_pic = overwrite w.mnist_pic 0 got;
        trace = psa_read msg.handle 0 msg.in_size got ∷ w.trace;
      } in
      elim (Bool-cases (length got == msg.in_size)) [
        | inl full ↦ rw full (infer-Reported order msg w' room (rw full at h))
        | inr short ↦ absurd (ground arith)
      ]

  run_inference-eq_custom :
      (msg : Msg) (w : World)
      → w.model_loaded ≡ true
      → (msg.in_size == image_size) ≡ true
      → run_inference env build msg w ≡ reply env build msg (infer_custom env build msg w)
  unfolding run_inference
  run_inference-eq_custom msg w loaded custom = ground arith

  run_inference-eq_builtin :
      (msg : Msg) (w : World)
      → w.model_loaded ≡ true
      → (msg.in_size == image_size) ≡ false
      → (msg.in_size == 0) ≡ true
      → run_inference env build msg w ≡ reply env build msg (infer env build msg w)
  unfolding run_inference
  run_inference-eq_builtin msg w loaded other empty = ground arith

  -- The status of the answer, of which `replied` is the reading.
  reply-Reported :
      (msg : Msg) (r : Status × World)
      → replied (reply env build msg r).trace ≡ some success
      → (r.0 ≡ success → Reported msg r.1.trace)
      → (t' : Trace) × ((reply env build msg r).trace ≡ psa_reply msg.handle success ∷ t')
        × Reported msg t'
  reply-Reported msg (s, w) h k =
      let e : s ≡ success = cc in (w.trace, ap (λ x. psa_reply msg.handle x ∷ w.trace) e, k e)

  -- A request that is answered with success, from a client with room for four bytes and on floats
  -- that are numbers, has just been sent the class that the engine's scores mean: the first
  -- greatest positive one of ten, or -1.
  pub run_inference-Reported :
      IsOrder env.gt
      → (msg : Msg) (w : World) → 4 ≤ msg.out_size
      → replied (run_inference env build msg w).trace ≡ some success
      → (t' : Trace) × ((run_inference env build msg w).trace ≡ psa_reply msg.handle success ∷ t')
        × Reported msg t'
  run_inference-Reported order msg w room h = elim (Bool-cases w.model_loaded) [
    | inr unloaded ↦ absurd (refused_unloaded unloaded)
    | inl loaded ↦ elim (Bool-cases (msg.in_size == image_size)) [
      | inl custom ↦
          let e = run_inference-eq_custom msg w loaded custom in
          rw e (
            reply-Reported msg (infer_custom env build msg w) (rw e at h)
              (infer_custom-Reported order msg w room))
      | inr other' ↦ elim (Bool-cases (msg.in_size == 0)) [
        | inl empty ↦
            let e = run_inference-eq_builtin msg w loaded other' empty in
            rw e (
              reply-Reported msg (infer env build msg w) (rw e at h)
                (infer-Reported order msg w room))
        | inr bad ↦ absurd (refused_size loaded other' bad)
      ]
    ]
  ]
    where
      refused_unloaded : w.model_loaded ≡ false → ⊥
      refused_unloaded e = cc (rw (run_inference_unloaded msg w e) at h)

      refused_size :
          w.model_loaded ≡ true
          → (msg.in_size == image_size) ≡ false
          → (msg.in_size == 0) ≡ false
          → ⊥
      refused_size l a b =
          cc (rw (run_inference_bad_size msg w l (ground arith) (ground arith)) at h)
