-- ===== src/Inference/Secrecy.antt =====
-- A production build gives nothing but single words away: neither the derived key nor the model.
use pico2w_tfm.Common.{ℕ, zero, suc, false, [], ◌∷◌, ◌≡◌, arith, some, length, overwrite, u32_bytes}
use pico2w_tfm.Psa.{
  Event, imported, key_derivation_abort, cipher_abort, destroy_key, psa_wait, psa_get, psa_read,
  psa_write, Trace, Env, Msg,
}
use pico2w_tfm.Inference.State.{World, call, ◌>>=◌}
use pico2w_tfm.Inference.Decrypt.{cipher_output}
use pico2w_tfm.Inference.Stages.{IsCleanup, DecryptionKeeps, decrypt_model-Keeps}
use pico2w_tfm.Inference.Service.{
  Build, call_engine, decrypt_builtin, load_decrypted, load_encrypted_model, infer, infer_custom,
  run_inference, dispatch, round, serve,
}

-- Each write to a client was of one 32-bit word.
abbrev pub WritesWords : Trace → Type 0
WritesWords [] = Unit
WritesWords (psa_write _ _ bytes ∷ t) = (length bytes ≡ 4) × WritesWords t
WritesWords (_ ∷ t) = WritesWords t

record KeepsWords (u w : World) : Type 0 where
  kept : WritesWords u.trace → WritesWords w.trace

cleanup_words : (e : Event) (t : Trace) → IsCleanup e → WritesWords t → WritesWords (e ∷ t)
cleanup_words (imported id) t h r = r
cleanup_words key_derivation_abort t h r = r
cleanup_words cipher_abort t h r = r
cleanup_words (destroy_key id) t h r = r
cleanup_words _ t h r = absurd h

KeepsWords-decryption : (env : Env) → DecryptionKeeps env KeepsWords
KeepsWords-decryption env = record {
  cipher = record {
    derivation = record {
      order = record {
        same = λ w. record { kept = λ h. h };
        trans = λ u v w p q. record { kept = λ h. q.kept (p.kept h) };
      };
      silent = λ c s. record { from = λ w. unfold call in record { kept = λ h. h } };
      cleanup =
          λ e c. record { from = λ w. unfold ◌>>=◌ in record { kept = cleanup_words e w.trace c } };
    };
    output = λ c at o. record { from = λ w. unfold cipher_output in record { kept = λ h. h } };
    key = λ key w. record { kept = λ h. h };
    size = λ n w. record { kept = λ h. h };
  };
  importing = λ key. record { from = λ w. unfold call in record { kept = λ h. h } };
}

module _ (env : Env) (build : Build) (production : build.dev_mode ≡ false) where
  load_encrypted_model-WritesWords :
      (msg : Msg) (w : World)
      → WritesWords w.trace
      → WritesWords (load_encrypted_model env build msg w).trace
  unfolding load_encrypted_model load_decrypted decrypt_builtin call_engine u32_bytes
  load_encrypted_model-WritesWords msg w h =
      let decrypted =
        decrypt_model-Keeps (KeepsWords-decryption env) (some build.mdl_data) build.mdl_size in
      ground (arith, (decrypted.from w).kept h)

  infer-WritesWords :
      (msg : Msg) (w : World) → WritesWords w.trace → WritesWords (infer env build msg w).1.trace
  unfolding infer call_engine u32_bytes
  infer-WritesWords msg w h = ground arith

  run_inference-WritesWords :
      (msg : Msg) (w : World)
      → WritesWords w.trace
      → WritesWords (run_inference env build msg w).trace
  unfolding run_inference infer_custom
  run_inference-WritesWords msg w h =
      let got = env.read_bytes msg.handle 0 msg.in_size w.trace in
      let w' = record w {
        mnist_pic = overwrite w.mnist_pic 0 got;
        trace = psa_read msg.handle 0 msg.in_size got ∷ w.trace;
      } in
      ground (arith, infer-WritesWords msg w h, infer-WritesWords msg w' h)

  dispatch-WritesWords :
      (msg : Msg) (w : World) → WritesWords w.trace → WritesWords (dispatch env build msg w).trace
  unfolding dispatch
  dispatch-WritesWords msg w h =
      ground (arith, load_encrypted_model-WritesWords msg w h, run_inference-WritesWords msg w h)

  round-WritesWords : (w : World) → WritesWords w.trace → WritesWords (round env build w).trace
  unfolding round
  round-WritesWords w h =
      let waiting = psa_wait ∷ w.trace in
      let got = record w { trace = psa_get (env.get_status waiting) ∷ waiting } in
      ground (arith, dispatch-WritesWords (env.message waiting) got)

  -- In a build without DEV_MODE, if every write to a client was of exactly four bytes at the start,
  -- it is so for as long as the service runs, whatever the messages ask for.
  pub serve-WritesWords :
      (n : ℕ) (w : World) → WritesWords w.trace → WritesWords (serve env build n w).trace
  unfolding serve
  serve-WritesWords zero w h = h
  serve-WritesWords (suc n) w h = serve-WritesWords n (round env build w) (round-WritesWords w h)
