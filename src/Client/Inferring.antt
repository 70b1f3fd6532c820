-- ===== src/Client/Inferring.antt =====
-- An inference from the client function (interface/src/tfm_tinymaix_inference_api.c) through the
-- partition (partitions/tinymaix_inference/tinymaix_inference.c) and back.
use pico2w_tfm.Common.{
  ℕ, Bool, true, false, not, ◌&&◌, List, none, some, ◌∷◌, [], ◌≡◌, refl, ap, ◌∙◌, arith, take,
  u32_bytes, if◌then◌else◌, Bool-cases, inl, inr,
}
use pico2w_tfm.Common.Int.{ℤ, pos, ltb_ℤ, pattern32, IsI32}
use pico2w_tfm.Psa.{
  success, is_success, Msg, ipc_call, psa_get, psa_write, psa_reply, TmErr, is_tm_ok, engine,
  tm_preprocess, tm_run, Trace, Env,
}
use pico2w_tfm.History.{written}
use pico2w_tfm.Inference.State.{World}
use pico2w_tfm.Inference.Output.{parse_output}
use pico2w_tfm.Inference.Argmax.{IsOrder, IsPrediction, parse_output-IsPrediction}
use pico2w_tfm.Inference.Service.{Build, call_engine, infer, run_inference, dispatch, image_shape}
use pico2w_tfm.Client.Api.{
  Calls, Framework, status_success, error_inference_failed, is_refused, request, psa_connect,
  tinymaix_inference_sid, tfm_tinymaix_run_inference, tfm_tinymaix_run_inference_with_data,
}
use pico2w_tfm.Client.EndToEnd.{answer_of, run_inference_class}

-- The request of a client, by its type, without any data and with room for a word.
abbrev pub request_msg : ℕ → ℕ → Msg
request_msg type handle = record {
  type = ipc_call type;
  handle = handle;
  in_size = 0;
  out_size = 4;
}

abbrev inference_msg : ℕ → Msg
inference_msg handle = request_msg 0x1003 handle

-- After the calls `t` the framework connects the client to the inference partition, which takes the
-- request, and the client gets what the partition replies and writes.
pub record ReachesInference (psa : Framework) (env : Env) (build : Build) (type : ℕ) (t : Calls)
    : Type 0 where
  pub connects : is_refused (psa.connect tinymaix_inference_sid 1 t) ≡ false
  pub handle : ℕ
  pub partition : World
  pub history : Trace
  pub taken : partition.trace ≡ psa_get success ∷ history
  pub answers :
      psa.answer
        (psa.connect tinymaix_inference_sid 1 t)
        type
        []
        4
        (psa_connect tinymaix_inference_sid 1 (psa.connect tinymaix_inference_sid 1 t) ∷ t)
      ≡ answer_of (dispatch env build (request_msg type handle) partition).trace

module _ (env : Env) (build : Build) (w : World) where
  -- The engine's two answers to the partition, and the history behind them.
  abbrev pub prepared : TmErr
  prepared = env.engine_status (tm_preprocess w.decrypted_model image_shape w.mnist_pic) w.trace

  abbrev pub after_prepare : Trace
  after_prepare =
      engine (tm_preprocess w.decrypted_model image_shape w.mnist_pic) prepared ∷ w.trace

  abbrev pub ran : TmErr
  ran = env.engine_status (tm_run w.decrypted_model) after_prepare

  abbrev pub after_run : Trace
  after_run = engine (tm_run w.decrypted_model) ran ∷ after_prepare

  -- what the scores mean that the engine leaves
  abbrev pub class_of : ℤ
  class_of = parse_output env.gt env.zero_float (env.scores after_run)

  abbrev pub infers : Bool
  infers = w.model_loaded && is_tm_ok prepared && is_tm_ok ran

  dispatch-run_inference :
      (handle : ℕ)
      → dispatch env build (inference_msg handle) w
        ≡ run_inference env build (inference_msg handle) w
  unfolding dispatch
  dispatch-run_inference handle = refl

  -- The answer of the partition on its good branch, and on the others.
  run_inference-infers :
      (handle : ℕ)
      → infers ≡ true
      → (run_inference env build (inference_msg handle) w).trace
        ≡ psa_reply handle success ∷ psa_write handle 0 (u32_bytes (pattern32 class_of)) ∷ after_run
  unfolding run_inference infer call_engine
  run_inference-infers handle h = ground arith

  run_inference-fails :
      (handle : ℕ)
      → infers ≡ false
      → is_success (answer_of (run_inference env build (inference_msg handle) w).trace).status
        ≡ false
  unfolding run_inference infer call_engine
  run_inference-fails handle h = ground arith

-- The answer that a reply over a written word makes, if nothing was written before.
pub answer_of_word :
    (handle : ℕ) (class : ℤ) (t : Trace)
    → written t ≡ []
    → answer_of (psa_reply handle success ∷ psa_write handle 0 (u32_bytes (pattern32 class)) ∷ t)
      ≡ record { status = success; out_bytes = u32_bytes (pattern32 class); out_len = 4 }
unfolding u32_bytes
answer_of_word handle class t h = rw h refl

if_not : {A : Type 0} (b : Bool) (x y : A) → (if b then x else y) ≡ (if not b then y else x)
if_not true x y = refl
if_not false x y = refl

class-IsI32 :
    {F : Type 0} (gt : F → F → Bool) (zero_float : F) (ten : List F) (class : ℤ)
    → IsPrediction gt zero_float ten class
    → IsI32 class
class-IsI32 gt zero_float ten class (inl (e, none')) = rw e (omega arith)
class-IsI32 gt zero_float ten class (inr (j, best, e, small, at, better, all', before)) =
    rw e (omega arith)

module _ (psa : Framework) where
  -- A request that is answered with a failure.
  run_inference_failed :
      (t : Calls)
      → is_refused (psa.connect tinymaix_inference_sid 1 t) ≡ false
      → is_success
          (psa.answer (psa.connect tinymaix_inference_sid 1 t) 0x1003 [] 4 (
            psa_connect tinymaix_inference_sid 1 (psa.connect tinymaix_inference_sid 1 t)
            ∷ t)).status
        ≡ false
      → (tfm_tinymaix_run_inference psa true t).0 ≡ (error_inference_failed, none)
  unfolding tfm_tinymaix_run_inference tfm_tinymaix_run_inference_with_data request
  run_inference_failed t connected failed = rw (connected, failed) refl

  -- An inference gives the client what the model says. If the framework carries the client's request
  -- to the inference partition and its answer back, then `tfm_tinymaix_run_inference` returns success
  -- with a class exactly if the partition has a model, the engine prepares the image and runs the
  -- model, and the class is not -1; and that class is the index of the first greatest positive one of
  -- the ten scores that the engine leaves (-1 stands for none), on floats that are numbers. In all
  -- other cases it reports a failed inference and stores no class.
  pub run_inference_predicts :
      (env : Env) (build : Build) (t : Calls)
      → IsOrder env.gt
      → (r : ReachesInference psa env build 0x1003 t)
      → (class : ℤ) × IsPrediction env.gt env.zero_float
          (take 10 (env.scores (after_run env build r.partition)))
          class
        × ((tfm_tinymaix_run_inference psa true t).0 ≡ (
            if infers env build r.partition && not (ltb_ℤ class (pos 0))
            then (status_success, some class)
            else (error_inference_failed, none)))
  unfolding tfm_tinymaix_run_inference
  run_inference_predicts env build t order r =
      let w = r.partition in
      let class = class_of env build w in
      let predicted : IsPrediction env.gt env.zero_float
          (take 10 (env.scores (after_run env build w))) class =
        parse_output-IsPrediction env.gt order env.zero_float
          (env.scores (after_run env build w)) in
      let dispatched = dispatch-run_inference env build w r.handle in
      elim (Bool-cases (infers env build w)) [
        | inr failed ↦ (
          class,
          predicted,
          rw failed (
              run_inference_failed t r.connects
                (rw (r.answers, dispatched) (run_inference-fails env build w r.handle failed))),
        )
        | inl fine ↦
            let sent = run_inference-infers env build w r.handle fine in
            let silent : written w.trace ≡ [] = rw r.taken refl in
            let answered =
              r.answers
              ∙ ap (λ w'. answer_of w'.trace) dispatched
              ∙ ap answer_of sent
              ∙ answer_of_word r.handle class (after_run env build w) silent in
            (
              class,
              predicted,
              rw fine (
                  run_inference_class psa class none 0 t
                    (class-IsI32 env.gt env.zero_float _ class predicted) r.connects answered
                  ∙ if_not (ltb_ℤ class (pos 0)) _ _),
            )
      ]
