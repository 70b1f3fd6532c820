-- ===== src/Inference/ModelKey.antt =====
-- One key: what GET_MODEL_KEY gives away is what every decryption imports.
use pico2w_tfm.Common.{
  ℕ, ◌≡◌, ◌⊎◌, ap, ◌∙◌, arith, Option, Bytes, length, take, overwrite, All, take_all, overwrite_all,
  length-overwrite,
}
use pico2w_tfm.Psa.{
  generic_error, Event, imported, key_derivation_abort, cipher_abort, destroy_key, psa_write,
  crypto, CryptoCall, import_key, key_derivation_input_bytes, info, key_derivation_output_bytes,
  cipher_update, cipher_finish, Trace, Env,
}
use pico2w_tfm.Inference.State.{
  World, Result, ok, err, Action, call, check, check_or, ◌>>=◌, from_result,
}
use pico2w_tfm.Inference.KeyDerivation.{derive_key_from_huk, informed}
use pico2w_tfm.Inference.Decrypt.{
  check_package, init_crypto, derive_encryption_key, import_encryption_key, run_cipher,
  decrypt_model, cipher_output, huk_label, derived_key_len,
}
use pico2w_tfm.Inference.Outcomes.{Outcome, >>=-Outcome, >>=-leaves, >>=-both_leave}
use pico2w_tfm.Inference.Unknowns.{behind, pure-Outcome, gets-Outcome, check_or-last}
use pico2w_tfm.Inference.Keeps.{Keeps}
use pico2w_tfm.Inference.Stages.{
  IsSilent, IsOutput, IsCleanup, DerivationKeeps, CipherKeeps, derive_key_from_huk-Keeps,
  init_crypto-Keeps, run_cipher-Keeps, accept_plaintext-Keeps,
}

-- An imported key is the given one, and what is written to a client is one word or that key.
abbrev ImportsKey : Bytes → CryptoCall → Type 0
ImportsKey key (import_key k) = k ≡ key
ImportsKey key _ = Unit

abbrev pub IsKeyed : Bytes → Event → Type 0
IsKeyed key (crypto c s) = ImportsKey key c
IsKeyed key (psa_write handle vec bytes) = (length bytes ≡ 4) ⊎ (bytes ≡ key)
IsKeyed key _ = Unit

-- Every event so far is so, and `encryption_key` has its 16 bytes.
pub record HasOneKey (key : Bytes) (w : World) : Type 0 where
  pub events : All (IsKeyed key) w.trace
  pub size : length w.encryption_key ≡ 16

pub record KeepsKey (key : Bytes) (u w : World) : Type 0 where
  pub kept : HasOneKey key u → HasOneKey key w

module _ (key : Bytes) where
  silent-ImportsKey : (c : CryptoCall) → IsSilent c → ImportsKey key c
  silent-ImportsKey (import_key k) h = absurd h
  silent-ImportsKey _ h = tt

  cleanup-IsKeyed : (e : Event) → IsCleanup e → IsKeyed key e
  cleanup-IsKeyed (imported id) h = tt
  cleanup-IsKeyed key_derivation_abort h = tt
  cleanup-IsKeyed cipher_abort h = tt
  cleanup-IsKeyed (destroy_key id) h = tt
  cleanup-IsKeyed _ h = absurd h

  module _ (env : Env) where
    pub KeepsKey-derivation : DerivationKeeps env (KeepsKey key)
    KeepsKey-derivation = record {
      order = record {
        same = λ w. record { kept = λ h. h };
        trans = λ u v w p q. record { kept = λ h. q.kept (p.kept h) };
      };
      silent = λ c s. record {
        from = λ w.
            unfold call in
            record {
              kept = λ h. record { events = (silent-ImportsKey c s, h.events); size = h.size };
            };
      };
      cleanup = λ e c. record {
        from = λ w.
            unfold ◌>>=◌ in
            record {
              kept = λ h. record { events = (cleanup-IsKeyed e c, h.events); size = h.size };
            };
      };
    }

    output-ImportsKey : (c : CryptoCall) → IsOutput c → ImportsKey key c
    output-ImportsKey (cipher_update input n) h = tt
    output-ImportsKey (cipher_finish n) h = tt
    output-ImportsKey _ h = absurd h

    KeepsKey-cipher : CipherKeeps env (KeepsKey key)
    KeepsKey-cipher = record {
      derivation = KeepsKey-derivation;
      output = λ c at o. record {
        from = λ w.
            unfold cipher_output in
            record {
              kept = λ h. record { events = (output-ImportsKey c o, h.events); size = h.size };
            };
      };
      key = λ k w. record {
        kept = λ h. record {
          events = h.events;
          size = length-overwrite w.encryption_key 0 k ∙ h.size;
        };
      };
      size = λ n w. record { kept = λ h. record { events = h.events; size = h.size } };
    }

    pub Kept :
        {A : Type 0} {m : Action A} (w : World)
        → Keeps (KeepsKey key) m
        → HasOneKey key w
        → HasOneKey key (m w).1
    Kept w k h = (k.from w).kept h

    module _ (sixteen : length key ≡ 16)
        (derived : (t : Trace)
          → env.filled (key_derivation_output_bytes derived_key_len) (informed huk_label t)
            ≡ key) where
      -- The derivation gives the one key.
      pub derive_key_from_huk-key :
          (w : World)
          → Outcome
              (λ k _. k ≡ key)
              (λ _ _. Unit {0})
              (derive_key_from_huk env huk_label derived_key_len w)
      unfolding derive_key_from_huk
      derive_key_from_huk-key w =
          let is_key = λ (k : Bytes) (_ : World). k ≡ key in
          behind is_key _ _ w λ _ w₁. behind is_key _ _ w₁ λ _ w₂. behind is_key _ _ w₂ λ _ w₃.
            >>=-Outcome (λ _ v. v.trace ≡ informed huk_label w₃.trace) is_key (λ _ _. Unit {0}) _ _
              w₃ (check_or-last env (key_derivation_input_bytes info huk_label) _ w₃)
              λ _ w₄ last.
                >>=-Outcome is_key is_key (λ _ _. Unit {0}) _ _ w₄
                  (gets-Outcome is_key
                    (λ v. env.filled (key_derivation_output_bytes derived_key_len) v.trace) w₄
                    (ap (env.filled (key_derivation_output_bytes derived_key_len)) last
                      ∙ derived w₃.trace))
                  λ k w₅ e.
                    behind is_key _ _ w₅
                      λ _ w₆. behind is_key _ _ w₆ λ _ w₇. pure-Outcome is_key k w₇ e

      import_encryption_key-HasOneKey :
          (w : World)
          → HasOneKey key w
          → w.encryption_key ≡ key
          → HasOneKey key (import_encryption_key env w).1
      unfolding import_encryption_key check check_or call ◌>>=◌
      import_encryption_key-HasOneKey w h e =
          let same : take 16 w.encryption_key ≡ key =
            take_all 16 w.encryption_key (omega (arith, h.size)) ∙ e in
          ground (arith, same)

      stored-HasOneKey :
          (p : Result Bytes × World)
          → HasOneKey key p.1
          → Outcome (λ k _. k ≡ key) (λ _ _. Unit {0}) p
          → Outcome
              (λ _ v. HasOneKey key v × (v.encryption_key ≡ key))
              (λ _. HasOneKey key)
              (elim p.0 as (λ _. Result (Unit {0}) × World) [
                | ok k ↦
                    (ok tt, record (p.1) { encryption_key = overwrite (p.1).encryption_key 0 k })
                | err s ↦ (err generic_error, p.1)
              ])
      stored-HasOneKey (ok k, w) h e =
          let all' : overwrite w.encryption_key 0 k ≡ key =
            overwrite_all w.encryption_key k (omega (arith, h.size, sixteen, ap length e)) ∙ e in
          (
            record { events = h.events; size = length-overwrite w.encryption_key 0 k ∙ h.size },
            all',
          )
      stored-HasOneKey (err s, w) h e = h

      derive_encryption_key-HasOneKey :
          (w : World)
          → HasOneKey key w
          → Outcome
              (λ _ v. HasOneKey key v × (v.encryption_key ≡ key))
              (λ _. HasOneKey key)
              (derive_encryption_key env w)
      unfolding derive_encryption_key
      derive_encryption_key-HasOneKey w h =
          stored-HasOneKey (derive_key_from_huk env huk_label derived_key_len w)
            (Kept w (derive_key_from_huk-Keeps KeepsKey-derivation huk_label derived_key_len) h)
            (derive_key_from_huk-key w)

      pub decrypt_model-HasOneKey :
          (encrypted : Option Bytes) (n : ℕ) (w : World)
          → HasOneKey key w
          → HasOneKey key (decrypt_model env encrypted n w).1
      unfolding decrypt_model
      decrypt_model-HasOneKey encrypted n w h =
          let Q = HasOneKey key in
          >>=-both_leave Q (from_result (check_package encrypted n)) _ w (unfold ◌>>=◌ in h)
            λ p w₁ h₁.
              >>=-both_leave Q (init_crypto env) _ w₁
                (Kept w₁ (init_crypto-Keeps KeepsKey-cipher) h₁)
                λ _ w₂ h₂.
                  >>=-leaves (λ _ v. HasOneKey key v × (v.encryption_key ≡ key)) Q
                    (derive_encryption_key env) _ w₂ (derive_encryption_key-HasOneKey w₂ h₂)
                    λ _ w₃ h₃.
                      >>=-both_leave Q (import_encryption_key env) _ w₃
                        (import_encryption_key-HasOneKey w₃ h₃.0 h₃.1)
                        λ id w₄ h₄.
                          >>=-both_leave Q (run_cipher env p.0 p.1 id) _ w₄
                            (Kept w₄ (run_cipher-Keeps KeepsKey-cipher p.0 p.1 id) h₄)
                            λ m w₅ h₅. Kept w₅ (accept_plaintext-Keeps KeepsKey-cipher p.0 m) h₅
