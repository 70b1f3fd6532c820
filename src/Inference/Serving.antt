-- ===== src/Inference/Serving.antt =====
-- Each message that the inference partition receives is answered exactly once, and what the answer
-- is.
use pico2w_tfm.Common.{ℕ, zero, suc, ◌∷◌, ◌≡◌, refl, arith, some, ◌==◌, overwrite, if_both, ◌&&◌}
use pico2w_tfm.Psa.{
  Status, success, not_supported, Event, imported, key_derivation_abort, cipher_abort, destroy_key,
  psa_wait, psa_get, psa_read, psa_reply, Trace, Env, Msg, MsgType, ipc_connect, ipc_disconnect,
  ipc_call,
}
use pico2w_tfm.History.{
  Extends, here, step, Extends-trans, Answers, received, replies, received-Answers, replies-Answers,
}
use pico2w_tfm.Inference.State.{World, call, ◌>>=◌}
use pico2w_tfm.Inference.Decrypt.{huk_label, derived_key_len, cipher_output}
use pico2w_tfm.Inference.Stages.{
  IsCleanup, DerivationKeeps, DecryptionKeeps, derive_key_from_huk-Keeps, decrypt_model-Keeps,
}
use pico2w_tfm.Inference.Service.{
  ipc_load_encrypted_model, ipc_run_inference, ipc_get_model_key, Build, call_engine,
  decrypt_builtin, load_decrypted, load_encrypted_model, infer, infer_custom, run_inference,
  get_model_key, dispatch_type, dispatch, round, serve,
}

-- No message is taken or answered in between.
abbrev Quietly : World → World → Type 0
Quietly u w = Extends u.trace w.trace

cleanup_quiet : (e : Event) (t : Trace) → IsCleanup e → Extends t (e ∷ t)
cleanup_quiet (imported id) t h = step _ tt here
cleanup_quiet key_derivation_abort t h = step _ tt here
cleanup_quiet cipher_abort t h = step _ tt here
cleanup_quiet (destroy_key id) t h = step _ tt here
cleanup_quiet _ t h = absurd h

module _ (env : Env) where
  Quietly-derivation : DerivationKeeps env Quietly
  Quietly-derivation = record {
    order = record { same = λ w. here; trans = λ u v w. Extends-trans };
    silent = λ c s. record { from = λ w. unfold call in step _ tt here };
    cleanup = λ e c. record { from = λ w. unfold ◌>>=◌ in cleanup_quiet e w.trace c };
  }

  Quietly-decryption : DecryptionKeeps env Quietly
  Quietly-decryption = record {
    cipher = record {
      derivation = Quietly-derivation;
      output = λ c at o. record { from = λ w. unfold cipher_output in step _ tt here };
      key = λ key w. here;
      size = λ n w. here;
    };
    importing = λ key. record { from = λ w. unfold call in step _ tt here };
  }

module _ (env : Env) (build : Build) where
  -- The message is answered, and nothing else.
  abbrev pub Served : Msg → World → World → Type 0
  Served msg w w' = (s : Status) × Answers msg.handle s w.trace w'.trace

  decrypt_builtin-quiet : (w : World) → Extends w.trace (decrypt_builtin env build w).1.trace
  unfolding decrypt_builtin
  decrypt_builtin-quiet w = grind (
    arith,
    here,
    (decrypt_model-Keeps (Quietly-decryption env) (some build.mdl_data) build.mdl_size).from w,
  )

  load_decrypted-quiet :
      (s : Status) (w : World) → Extends w.trace (load_decrypted env build (s, w)).1.trace
  unfolding load_decrypted call_engine
  load_decrypted-quiet s w = grind (arith, here, step)

  load_encrypted_model-Served :
      (msg : Msg) (w : World) → Served msg w (load_encrypted_model env build msg w)
  unfolding load_encrypted_model
  load_encrypted_model-Served msg w =
      let (s, u) = decrypt_builtin env build w in
      let (s', v) = load_decrypted env build (s, u) in
      let quiet : Extends w.trace v.trace =
        Extends-trans (decrypt_builtin-quiet w) (load_decrypted-quiet s u) in
      (s', record { before = _; quiet = grind (arith, step); answered = refl })

  infer-quiet : (msg : Msg) (w : World) → Extends w.trace (infer env build msg w).1.trace
  unfolding infer call_engine
  infer-quiet msg w = grind (arith, here, step)

  infer_custom-quiet :
      (msg : Msg) (w : World) → Extends w.trace (infer_custom env build msg w).1.trace
  unfolding infer_custom
  infer_custom-quiet msg w =
      let got = env.read_bytes msg.handle 0 msg.in_size w.trace in
      let w' = record w {
        mnist_pic = overwrite w.mnist_pic 0 got;
        trace = psa_read msg.handle 0 msg.in_size got ∷ w.trace;
      } in
      let read : Extends w.trace w'.trace = step _ tt here in
      grind (arith, Extends-trans read (infer-quiet msg w'), read)

  run_inference-Served : (msg : Msg) (w : World) → Served msg w (run_inference env build msg w)
  unfolding run_inference
  run_inference-Served msg w = (
    _,
    record {
      before = _;
      quiet = grind (arith, here, infer-quiet msg w, infer_custom-quiet msg w);
      answered = refl;
    },
  )

  get_model_key-Served : (msg : Msg) (w : World) → Served msg w (get_model_key env build msg w)
  unfolding get_model_key
  get_model_key-Served msg w = (
    _,
    record {
      before = _;
      quiet = grind (
        arith,
        here,
        step,
        (derive_key_from_huk-Keeps (Quietly-derivation env) huk_label derived_key_len).from w,
      );
      answered = refl;
    },
  )

  -- A message of any type causes calls that neither take nor answer a message, and then exactly one
  -- reply, to its own handle.
  pub dispatch-Served : (msg : Msg) (w : World) → Served msg w (dispatch env build msg w)
  unfolding dispatch
  dispatch-Served msg w = by_type msg.type
    where
      at_once : (s : Status) → Served msg w (record w { trace = psa_reply msg.handle s ∷ w.trace })
      at_once s = (s, record { before = w.trace; quiet = here; answered = refl })

      by_type : (m : MsgType) → Served msg w (dispatch_type env build m msg w)
      by_type ipc_connect = at_once success
      by_type ipc_disconnect = at_once success
      by_type (ipc_call n) =
          if_both (Served msg w) (n == ipc_load_encrypted_model)
            (λ _. load_encrypted_model-Served msg w)
            λ _.
              if_both (Served msg w) (n == ipc_run_inference) (λ _. run_inference-Served msg w)
                λ _.
                  if_both (Served msg w) (build.dev_mode && n == ipc_get_model_key)
                    (λ _. get_model_key-Served msg w) (λ _. at_once not_supported)

  round_answers :
      (w : World)
      → replies w.trace ≡ received w.trace
      → replies (round env build w).trace ≡ received (round env build w).trace
  unfolding round
  round_answers w h =
      let waiting = psa_wait ∷ w.trace in
      let got = record w { trace = psa_get (env.get_status waiting) ∷ waiting } in
      let (s, a) = dispatch-Served (env.message waiting) got in
      ground (arith, received-Answers a, replies-Answers a)

  -- After any number of rounds the service has answered as many messages as it has received, if
  -- that was so at the start.
  pub serve_answers_all :
      (n : ℕ) (w : World)
      → replies w.trace ≡ received w.trace
      → replies (serve env build n w).trace ≡ received (serve env build n w).trace
  unfolding serve
  serve_answers_all zero w h = h
  serve_answers_all (suc n) w h = serve_answers_all n (round env build w) (round_answers w h)
