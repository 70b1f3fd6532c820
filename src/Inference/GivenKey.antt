-- ===== src/Inference/GivenKey.antt =====
-- The service and its one key: what it writes to clients, and what it imports.
use pico2w_tfm.Common.{
  ℕ, zero, suc, ◌≡◌, inl, inr, ap, ◌∙◌, arith, ◌∷◌, some, Bytes, length, take, overwrite, u32_bytes,
  take_all, Bool-cases, ltb,
}
use pico2w_tfm.Psa.{
  psa_wait, psa_get, psa_read, key_derivation_output_bytes, Trace, Env, Msg, Status, success,
}
use pico2w_tfm.Inference.State.{World, Result, ok, err}
use pico2w_tfm.Inference.KeyDerivation.{derive_key_from_huk, informed}
use pico2w_tfm.Inference.Decrypt.{huk_label, derived_key_len}
use pico2w_tfm.Inference.Outcomes.{Outcome}
use pico2w_tfm.Inference.Stages.{derive_key_from_huk-Keeps}
use pico2w_tfm.Inference.ModelKey.{
  HasOneKey, Kept, KeepsKey-derivation, derive_key_from_huk-key, decrypt_model-HasOneKey,
}
use pico2w_tfm.Inference.Service.{
  Build, call_engine, decrypt_builtin, load_decrypted, load_encrypted_model, infer, infer_custom,
  run_inference, get_model_key, write, dispatch, round, serve,
}

module _ (env : Env) (build : Build) (key : Bytes) (sixteen : length key ≡ 16)
    (derived : (t : Trace)
      → env.filled (key_derivation_output_bytes derived_key_len) (informed huk_label t) ≡ key) where
  load_encrypted_model-HasOneKey :
      (msg : Msg) (w : World)
      → HasOneKey key w
      → HasOneKey key (load_encrypted_model env build msg w)
  unfolding load_encrypted_model load_decrypted decrypt_builtin call_engine u32_bytes
  load_encrypted_model-HasOneKey msg w h =
      let decrypted =
        decrypt_model-HasOneKey key env sixteen derived (some build.mdl_data) build.mdl_size w h in
      ground (arith, decrypted)

  infer-HasOneKey :
      (msg : Msg) (w : World) → HasOneKey key w → HasOneKey key (infer env build msg w).1
  unfolding infer call_engine u32_bytes
  infer-HasOneKey msg w h = ground arith

  run_inference-HasOneKey :
      (msg : Msg) (w : World) → HasOneKey key w → HasOneKey key (run_inference env build msg w)
  unfolding run_inference infer_custom
  run_inference-HasOneKey msg w h =
      let got = env.read_bytes msg.handle 0 msg.in_size w.trace in
      let w' = record w {
        mnist_pic = overwrite w.mnist_pic 0 got;
        trace = psa_read msg.handle 0 msg.in_size got ∷ w.trace;
      } in
      ground (arith, infer-HasOneKey msg w h, infer-HasOneKey msg w')

  written-HasOneKey :
      (msg : Msg) (p : Result Bytes × World)
      → HasOneKey key p.1
      → Outcome (λ k _. k ≡ key) (λ _ _. Unit {0}) p
      → HasOneKey key
          (elim p.0 as (λ _. Status × World) [
            | ok k ↦ (success, write env build msg (take derived_key_len k) p.1)
            | err s ↦ (s, p.1)
          ]).1
  written-HasOneKey msg (ok k, w) h e =
      let all' : take 16 k ≡ key = take_all 16 k (omega (arith, sixteen, ap length e)) ∙ e in
      record { events = (inr all', h.events); size = h.size }
  written-HasOneKey msg (err s, w) h e = h

  get_model_key-HasOneKey :
      (msg : Msg) (w : World) → HasOneKey key w → HasOneKey key (get_model_key env build msg w)
  unfolding get_model_key
  get_model_key-HasOneKey msg w h =
      let given =
        written-HasOneKey msg (derive_key_from_huk env huk_label derived_key_len w)
          (Kept key env w
            (derive_key_from_huk-Keeps (KeepsKey-derivation key env) huk_label derived_key_len) h)
          (derive_key_from_huk-key key env sixteen derived w) in
      elim (Bool-cases (ltb msg.out_size derived_key_len)) [
        | inl short ↦ rw short (record { events = (tt, h.events); size = h.size })
        | inr room ↦ rw room (record { events = (tt, given.events); size = given.size })
      ]

  dispatch-HasOneKey :
      (msg : Msg) (w : World) → HasOneKey key w → HasOneKey key (dispatch env build msg w)
  unfolding dispatch
  dispatch-HasOneKey msg w h = ground (
    arith,
    load_encrypted_model-HasOneKey msg w h,
    run_inference-HasOneKey msg w h,
    get_model_key-HasOneKey msg w h,
  )

  round-HasOneKey : (w : World) → HasOneKey key w → HasOneKey key (round env build w)
  unfolding round
  round-HasOneKey w h =
      let waiting = psa_wait ∷ w.trace in
      let got = record w { trace = psa_get (env.get_status waiting) ∷ waiting } in
      ground (arith, dispatch-HasOneKey (env.message waiting) got)

  -- One key for the whole life of the service, in builds with and without DEV_MODE: if the key
  -- derivation gives the same 16 bytes whenever it is asked for 16 bytes right after it took the label
  -- of the model's key, the buffer of the key has 16 bytes, and
  -- up to now every imported key was that key and every write to a client was of four bytes or of
  -- that key, then so it is after any number of rounds, whatever the messages ask for. So the key
  -- that GET_MODEL_KEY gives away is the one that every decryption imports.
  pub serve-HasOneKey : (n : ℕ) (w : World) → HasOneKey key w → HasOneKey key (serve env build n w)
  unfolding serve
  serve-HasOneKey zero w h = h
  serve-HasOneKey (suc n) w h = serve-HasOneKey n (round env build w) (round-HasOneKey w h)
