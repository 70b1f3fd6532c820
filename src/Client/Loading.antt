-- ===== src/Client/Loading.antt =====
-- The loading of the model, from the client function (interface/src/tfm_tinymaix_inference_api.c)
-- through the partition (partitions/tinymaix_inference/tinymaix_inference.c) and back.
use pico2w_tfm.Common.{
  ℕ, true, false, ◌∷◌, [], some, ◌≡◌, ◌⊎◌, inl, inr, refl, ap, ◌∙◌, u32_bytes, read_u32, ltb,
  if◌then◌else◌, Bool-cases,
}
use pico2w_tfm.Common.Int.{pos}
use pico2w_tfm.Psa.{
  success, is_success, Event, imported, key_derivation_abort, cipher_abort, destroy_key, is_tm_ok,
  tm_load, engine, Trace, Env,
}
use pico2w_tfm.History.{written}
use pico2w_tfm.Inference.State.{World, call, ◌>>=◌}
use pico2w_tfm.Inference.Decrypt.{cipher_output, max_model_size}
use pico2w_tfm.Inference.Stages.{IsCleanup, DecryptionKeeps, decrypt_model-Keeps}
use pico2w_tfm.Inference.Service.{
  Build, call_engine, decrypt_builtin, load_decrypted, load_encrypted_model, dispatch,
}
use pico2w_tfm.Client.Api.{
  Answer, Calls, Framework, status_success, error_model_load_failed, is_refused, request,
  psa_connect, tinymaix_inference_sid, tfm_tinymaix_load_encrypted_model,
}
use pico2w_tfm.Client.EndToEnd.{answer_of}
use pico2w_tfm.Client.Inferring.{request_msg, ReachesInference, answer_of_word}

-- Nothing is written to a client.
record WritesNothing (u w : World) : Type 0 where
  kept : written w.trace ≡ written u.trace

cleanup_silent : (e : Event) (t : Trace) → IsCleanup e → written (e ∷ t) ≡ written t
cleanup_silent (imported id) t h = refl
cleanup_silent key_derivation_abort t h = refl
cleanup_silent cipher_abort t h = refl
cleanup_silent (destroy_key id) t h = refl
cleanup_silent _ t h = absurd h

WritesNothing-decryption : (env : Env) → DecryptionKeeps env WritesNothing
WritesNothing-decryption env = record {
  cipher = record {
    derivation = record {
      order = record {
        same = λ w. record { kept = refl };
        trans = λ u v w p q. record { kept = q.kept ∙ p.kept };
      };
      silent = λ c s. record { from = λ w. unfold call in record { kept = refl } };
      cleanup = λ e c. record {
        from = λ w. unfold ◌>>=◌ in record { kept = cleanup_silent e w.trace c };
      };
    };
    output = λ c at o. record { from = λ w. unfold cipher_output in record { kept = refl } };
    key = λ key w. record { kept = refl };
    size = λ n w. record { kept = refl };
  };
  importing = λ key. record { from = λ w. unfold call in record { kept = refl } };
}

module _ (env : Env) (build : Build) where
  decrypt_builtin-silent :
      (w : World) → written (decrypt_builtin env build w).1.trace ≡ written w.trace
  unfolding decrypt_builtin
  decrypt_builtin-silent w =
      let decrypted =
        decrypt_model-Keeps (WritesNothing-decryption env) (some build.mdl_data) build.mdl_size in
      elim (Bool-cases (ltb max_model_size build.mdl_size)) [
        | inl large ↦ rw large refl
        | inr fits ↦ rw fits (decrypted.from w).kept
      ]

  -- What the client is answered, and whether there is a model.
  abbrev IsAnswered : World → Type 0
  IsAnswered w' =
      ((w'.model_loaded ≡ true)
        × (answer_of w'.trace ≡ record { status = success; out_bytes = u32_bytes 0; out_len = 4 }))
      ⊎ ((w'.model_loaded ≡ false) × (is_success (answer_of w'.trace).status ≡ false))

  load_encrypted_model-IsAnswered :
      (handle : ℕ) (w : World)
      → written w.trace ≡ []
      → IsAnswered (load_encrypted_model env build (request_msg 0x1002 handle) w)
  unfolding load_encrypted_model load_decrypted call_engine
  load_encrypted_model-IsAnswered handle w silent =
      let (s, w₁) = decrypt_builtin env build w in
      let r = env.engine_status (tm_load w₁.decrypted_model) w₁.trace in
      let quiet = decrypt_builtin-silent w ∙ silent in
      elim (Bool-cases (is_success s)) [
        | inr failed ↦ rw failed (inr (rw failed refl, rw failed refl))
        | inl fine ↦ elim (Bool-cases (is_tm_ok r)) [
          | inr failed ↦ rw (fine, failed) (inr (refl, refl))
          | inl loaded ↦
              rw (fine, loaded)
                (inl (
                  refl,
                  answer_of_word handle (pos 0) (engine (tm_load w₁.decrypted_model) r ∷ w₁.trace)
                      quiet,
                ))
        ]
      ]

  dispatch-load :
      (handle : ℕ) (w : World)
      → dispatch env build (request_msg 0x1002 handle) w
        ≡ load_encrypted_model env build (request_msg 0x1002 handle) w
  unfolding dispatch
  dispatch-load handle w = refl

module _ (psa : Framework) (t : Calls) where
  -- what the framework answers to a request to load the model
  abbrev load_answer : Answer
  load_answer =
      psa.answer (psa.connect tinymaix_inference_sid 1 t) 0x1002 [] 4
        (psa_connect tinymaix_inference_sid 1 (psa.connect tinymaix_inference_sid 1 t) ∷ t)

  load_succeeded :
      is_refused (psa.connect tinymaix_inference_sid 1 t) ≡ false
      → load_answer ≡ record { status = success; out_bytes = u32_bytes 0; out_len = 4 }
      → (tfm_tinymaix_load_encrypted_model psa t).0 ≡ status_success
  unfolding tfm_tinymaix_load_encrypted_model request u32_bytes read_u32
  load_succeeded connected a = rw (connected, a) refl

  load_failed :
      is_refused (psa.connect tinymaix_inference_sid 1 t) ≡ false
      → is_success load_answer.status ≡ false
      → (tfm_tinymaix_load_encrypted_model psa t).0 ≡ error_model_load_failed
  unfolding tfm_tinymaix_load_encrypted_model request
  load_failed connected failed = rw (connected, failed) refl

  -- The client learns whether there is a model. If the framework carries the client's request to the
  -- inference partition and its answer back, then `tfm_tinymaix_load_encrypted_model` returns success
  -- exactly if the partition has a model loaded after it has handled the request, and reports a
  -- failed load otherwise: each failure, of the decryption or of the engine, takes the previous model
  -- away.
  pub load_tells :
      (env : Env) (build : Build)
      → (r : ReachesInference psa env build 0x1002 t)
      → (tfm_tinymaix_load_encrypted_model psa t).0 ≡ (
          if (dispatch env build (request_msg 0x1002 r.handle) r.partition).model_loaded
          then status_success
          else error_model_load_failed)
  load_tells env build r =
      let w = r.partition in
      let dispatched = dispatch-load env build r.handle w in
      let silent : written w.trace ≡ [] = rw r.taken refl in
      elim (load_encrypted_model-IsAnswered env build r.handle w silent) [
        | inl (loaded, a) ↦
            rw (dispatched, loaded)
              (load_succeeded r.connects (r.answers ∙ ap (λ w'. answer_of w'.trace) dispatched ∙ a))
        | inr (unloaded, a) ↦
            rw (dispatched, unloaded)
              (load_failed r.connects (
                ap (λ x. is_success x.status) (r.answers ∙ ap (λ w'. answer_of w'.trace) dispatched)
                ∙ a))
      ]
