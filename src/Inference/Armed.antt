-- ===== src/Inference/Armed.antt =====
-- The engine only ever works on a model that it has accepted: the buffer that `tm_load` keeps a
-- pointer to is not written between a successful load and any inference.
use pico2w_tfm.Common.{
  ◌∙◌, ℕ, zero, suc, true, [], ◌∷◌, ◌≡◌, refl, Option, some, none, overwrite, Bytes, arith,
  if◌then◌else◌,
}
use pico2w_tfm.Psa.{
  Status, CryptoCall, cipher_update, cipher_finish, tm_load, tm_preprocess, tm_run, is_tm_ok, Event,
  imported, key_derivation_abort, cipher_abort, destroy_key, crypto, engine, psa_read, psa_wait,
  psa_get, Trace, Env, Msg,
}
use pico2w_tfm.Inference.State.{World, call, ◌>>=◌}
use pico2w_tfm.Inference.Decrypt.{huk_label, derived_key_len, cipher_output}
use pico2w_tfm.Inference.Keeps.{IsPreorder}
use pico2w_tfm.Inference.Stages.{
  IsSilent, IsCleanup, DerivationKeeps, DecryptionKeeps, derive_key_from_huk-Keeps,
  decrypt_model-Keeps,
}
use pico2w_tfm.Inference.Service.{
  Build, call_engine, decrypt_builtin, load_decrypted, load_encrypted_model, infer, infer_custom,
  run_inference, get_model_key, dispatch, round, serve,
}

-- The model that the engine holds: what the latest `tm_load` accepted, unless the buffer was
-- written since.
abbrev pub armed : Trace → Option Bytes
armed [] = none
armed (engine (tm_load bin) r ∷ t) = if is_tm_ok r then some bin else none
armed (crypto (cipher_update _ _) _ ∷ t) = none
armed (crypto (cipher_finish _) _ ∷ t) = none
armed (_ ∷ t) = armed t

-- Every preprocessing and every inference was made on the bytes that the engine held at that time.
abbrev pub RunsArmed : Trace → Type 0
RunsArmed [] = Unit
RunsArmed (engine (tm_preprocess bin _ _) _ ∷ t) = (armed t ≡ some bin) × RunsArmed t
RunsArmed (engine (tm_run bin) _ ∷ t) = (armed t ≡ some bin) × RunsArmed t
RunsArmed (_ ∷ t) = RunsArmed t

-- If `g_model_loaded` is set, the engine holds the present contents of `g_decrypted_model`.
pub record IsArmed (w : World) : Type 0 where
  pub runs : RunsArmed w.trace
  pub loaded : w.model_loaded ≡ true → armed w.trace ≡ some w.decrypted_model

-- The runs so far stay armed.
record KeepsRuns (u w : World) : Type 0 where
  kept : RunsArmed u.trace → RunsArmed w.trace

-- Nothing changes for the engine.
record KeepsModel (u w : World) : Type 0 where
  kept : IsArmed u → IsArmed w

KeepsRuns-preorder : IsPreorder KeepsRuns
KeepsRuns-preorder = record {
  same = λ w. record { kept = λ h. h };
  trans = λ u v w p q. record { kept = λ h. q.kept (p.kept h) };
}

KeepsModel-preorder : IsPreorder KeepsModel
KeepsModel-preorder = record {
  same = λ w. record { kept = λ h. h };
  trans = λ u v w p q. record { kept = λ h. q.kept (p.kept h) };
}

silent_armed :
    (c : CryptoCall) (s : Status) (t : Trace) → IsSilent c → armed (crypto c s ∷ t) ≡ armed t
silent_armed (cipher_update a b) s t h = absurd h
silent_armed (cipher_finish n) s t h = absurd h
silent_armed _ s t h = refl

cleanup_armed : (e : Event) (t : Trace) → IsCleanup e → armed (e ∷ t) ≡ armed t
cleanup_armed (imported id) t h = refl
cleanup_armed key_derivation_abort t h = refl
cleanup_armed cipher_abort t h = refl
cleanup_armed (destroy_key id) t h = refl
cleanup_armed _ t h = absurd h

cleanup_runs : (e : Event) (t : Trace) → IsCleanup e → RunsArmed t → RunsArmed (e ∷ t)
cleanup_runs (imported id) t h r = r
cleanup_runs key_derivation_abort t h r = r
cleanup_runs cipher_abort t h r = r
cleanup_runs (destroy_key id) t h r = r
cleanup_runs _ t h r = absurd h

module _ (env : Env) where
  KeepsRuns-derivation : DerivationKeeps env KeepsRuns
  KeepsRuns-derivation = record {
    order = KeepsRuns-preorder;
    silent = λ c s. record { from = λ w. unfold call in record { kept = λ h. h } };
    cleanup =
        λ e c. record { from = λ w. unfold ◌>>=◌ in record { kept = cleanup_runs e w.trace c } };
  }

  KeepsModel-derivation : DerivationKeeps env KeepsModel
  KeepsModel-derivation = record {
    order = KeepsModel-preorder;
    silent = λ c s. record {
      from = λ w.
          unfold call in
          record {
            kept = λ h. record {
              runs = h.runs;
              loaded = λ l. silent_armed c _ w.trace s ∙ h.loaded l;
            };
          };
    };
    cleanup = λ e c. record {
      from = λ w.
          unfold ◌>>=◌ in
          record {
            kept = λ h. record {
              runs = cleanup_runs e w.trace c h.runs;
              loaded = λ l. cleanup_armed e w.trace c ∙ h.loaded l;
            };
          };
    };
  }

  KeepsRuns-decryption : DecryptionKeeps env KeepsRuns
  KeepsRuns-decryption = record {
    cipher = record {
      derivation = KeepsRuns-derivation;
      output = λ c at o. record { from = λ w. unfold cipher_output in record { kept = λ h. h } };
      key = λ key w. record { kept = λ h. h };
      size = λ n w. record { kept = λ h. h };
    };
    importing = λ key. record { from = λ w. unfold call in record { kept = λ h. h } };
  }

module _ (env : Env) (build : Build) where
  load_encrypted_model-IsArmed :
      (msg : Msg) (w : World) → IsArmed w → IsArmed (load_encrypted_model env build msg w)
  unfolding load_encrypted_model load_decrypted call_engine decrypt_builtin
  load_encrypted_model-IsArmed msg w h = ground (
    arith,
    ((decrypt_model-Keeps (KeepsRuns-decryption env) (some build.mdl_data) build.mdl_size).from
          w).kept
        h.runs,
  )

  get_model_key-IsArmed :
      (msg : Msg) (w : World) → IsArmed w → IsArmed (get_model_key env build msg w)
  unfolding get_model_key
  get_model_key-IsArmed msg w h =
      let d =
        ((derive_key_from_huk-Keeps (KeepsModel-derivation env) huk_label derived_key_len).from
            w).kept
          h in
      ground (arith, d.runs, d.loaded)

  infer-IsArmed :
      (msg : Msg) (w : World)
      → w.model_loaded ≡ true
      → IsArmed w
      → IsArmed (infer env build msg w).1
  unfolding infer call_engine
  infer-IsArmed msg w l h = ground (arith, h.loaded l)

  infer_custom-IsArmed :
      (msg : Msg) (w : World)
      → w.model_loaded ≡ true
      → IsArmed w
      → IsArmed (infer_custom env build msg w).1
  unfolding infer_custom
  infer_custom-IsArmed msg w l h =
      let got = env.read_bytes msg.handle 0 msg.in_size w.trace in
      let w' = record w {
        mnist_pic = overwrite w.mnist_pic 0 got;
        trace = psa_read msg.handle 0 msg.in_size got ∷ w.trace;
      } in
      let read : IsArmed w' = record { runs = h.runs; loaded = h.loaded } in
      ground (arith, infer-IsArmed msg w' l read, read)

  run_inference-IsArmed :
      (msg : Msg) (w : World) → IsArmed w → IsArmed (run_inference env build msg w)
  unfolding run_inference
  run_inference-IsArmed msg w h = ground (arith, infer-IsArmed msg w, infer_custom-IsArmed msg w)

  dispatch-IsArmed : (msg : Msg) (w : World) → IsArmed w → IsArmed (dispatch env build msg w)
  unfolding dispatch
  dispatch-IsArmed msg w h = ground (
    arith,
    load_encrypted_model-IsArmed msg w,
    run_inference-IsArmed msg w,
    get_model_key-IsArmed msg w,
  )

  round-IsArmed : (w : World) → IsArmed w → IsArmed (round env build w)
  unfolding round
  round-IsArmed w h =
      let waiting = psa_wait ∷ w.trace in
      let got = record w { trace = psa_get (env.get_status waiting) ∷ waiting } in
      ground (arith, dispatch-IsArmed (env.message waiting) got)

  -- Whatever messages come, in whatever order and with whatever answers of PSA Crypto and of the
  -- engine: every `tm_preprocess` and every `tm_run` works on the very bytes that the latest
  -- `tm_load` accepted, and no decryption has written the buffer since.
  pub serve-IsArmed : (n : ℕ) (w : World) → IsArmed w → IsArmed (serve env build n w)
  unfolding serve
  serve-IsArmed zero w h = h
  serve-IsArmed (suc n) w h = serve-IsArmed n (round env build w) (round-IsArmed w h)
