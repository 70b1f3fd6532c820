-- ===== src/Inference/RoundTrip/Stages.antt =====
-- The stages of `decrypt_model` when PSA Crypto succeeds.
use pico2w_tfm.Common.{
  not, ℕ, ◌+◌, ◌-◌, ◌≤◌, ◌≡◌, refl, ap, sym, ◌∙◌, arith, [], ◌∷◌, ◌++◌, Bytes, length, overwrite,
  overwrite_all, take, take_all, length-append,
}
use pico2w_tfm.Psa.{
  Status, generic_error, is_success, Event, success, CryptoCall, cipher_update, cipher_finish,
  crypto, crypto_init, import_key, cipher_decrypt_setup, cipher_set_iv, imported,
  key_derivation_output_bytes, key_derivation_setup, key_derivation_input_bytes,
  key_derivation_input_key, key_derivation_abort, salt, info, Trace, Env,
}
use pico2w_tfm.Inference.State.{
  World, raise_if, pure, gets, log, ◌>>◌, Result, ok, err, from_result, call, check, check_or,
  ◌>>=◌, Action,
}
use pico2w_tfm.Inference.KeyDerivation.{derive_key_from_huk, informed}
use pico2w_tfm.Inference.Decrypt.{
  abort_and_destroy, Header, init_crypto, derive_encryption_key, import_encryption_key,
  cipher_output, finish_bytes, decrypt_bytes, run_cipher, max_model_size, huk_label,
  derived_key_len,
}
use pico2w_tfm.Inference.Outcomes.{Outcome, >>=-Outcome}

-- A history after which a cipher operation is set up with a key that was imported, and with an IV.
abbrev pub prepared : Bytes → Bytes → ℕ → Trace → Trace
prepared key iv id t =
    crypto (cipher_set_iv iv) success
    ∷ crypto (cipher_decrypt_setup id) success
    ∷ imported id
    ∷ crypto (import_key key) success
    ∷ t

-- PSA Crypto succeeds on every call, derives the key of 16 bytes under the model's label, and gives
-- the plaintext for the ciphertext in two outputs, under that key and that IV.
pub record Decrypts (env : Env) (key iv ciphertext plaintext : Bytes) : Type 0 where
  pub succeeds : (c : CryptoCall) (t : Trace) → env.crypto_status c t ≡ success
  pub derives :
      (t : Trace)
      → env.filled (key_derivation_output_bytes derived_key_len) (informed huk_label t) ≡ key
  pub key_size : length key ≡ 16
  pub outputs :
      (n id : ℕ) (t : Trace)
      → let update = cipher_update ciphertext max_model_size in
        let ready = prepared key iv id t in
        env.filled update ready ++ env.filled (cipher_finish n) (crypto update success ∷ ready)
        ≡ plaintext

abbrev pub Never : Status → World → Type 0
Never s w = ⊥

-- The action succeeds with a value and a state of which `P` holds.
pub record Succeeds {A : Type 0} (P : A → World → Type 0) (m : Action A) (w : World) : Type 0 where
  pub ends : Outcome P Never (m w)

pub >>=-Succeeds :
    {A B : Type 0} {P : A → World → Type 0} {P' : B → World → Type 0} {m : Action A}
    {f : A → Action B} {w : World}
    → Succeeds P m w
    → ((a : A) (w' : World) → P a w' → Succeeds P' (f a) w')
    → Succeeds P' (m >>= f) w
>>=-Succeeds {A} {B} {P} {P'} {m} {f} {w} h k = record {
  ends = >>=-Outcome P P' Never m f w h.ends (λ a w' p. (k a w' p).ends);
}

-- The buffer of the model is `buf`, and the one of the key has its 16 bytes.
pub record IsReady (buf : Bytes) (w : World) : Type 0 where
  pub buffer : w.decrypted_model ≡ buf
  pub key_size : length w.encryption_key ≡ 16

-- The buffer of the model is `buf`, and the one of the key holds the key.
pub record HasKey (buf key : Bytes) (w : World) : Type 0 where
  pub buffer : w.decrypted_model ≡ buf
  pub holds : w.encryption_key ≡ key

-- The buffer of the model is `buf`, and the last thing that was done is the import of the key.
pub record HasImported (buf key : Bytes) (id : ℕ) (w : World) : Type 0 where
  pub buffer : w.decrypted_model ≡ buf
  pub before : Trace
  pub last : w.trace ≡ imported id ∷ crypto (import_key key) success ∷ before

-- The buffer begins with `plaintext`.
abbrev pub Holds : Bytes → World → Type 0
Holds plaintext w = (rest : Bytes) × (w.decrypted_model ≡ plaintext ++ rest)

-- A write at the start.
overwrite_start :
    (buf b : Bytes) → length b ≤ length buf → (rest : Bytes) × (overwrite buf 0 b ≡ b ++ rest)
overwrite_start [] [] h = ([], refl)
overwrite_start (z ∷ buf) [] h = (z ∷ buf, refl)
overwrite_start [] (y ∷ b) h = absurd (omega arith)
overwrite_start (z ∷ buf) (y ∷ b) h =
    let (rest, e) = overwrite_start buf b (omega arith) in (rest, ap (◌∷◌ y) e)

-- Two writes in a row, the second right behind the first.
overwrite_behind :
    (buf a b : Bytes)
    → length a + length b ≤ length buf
    → (rest : Bytes) × (overwrite (overwrite buf 0 a) (length a) b ≡ (a ++ b) ++ rest)
overwrite_behind [] [] b h = overwrite_start [] b (omega arith)
overwrite_behind [] (x ∷ a) b h = absurd (omega arith)
overwrite_behind (z ∷ buf) [] b h = overwrite_start (z ∷ buf) b (omega arith)
overwrite_behind (z ∷ buf) (x ∷ a) b h =
    let (rest, e) = overwrite_behind buf a b (omega arith) in (rest, ap (◌∷◌ x) e)

pub from_result-Succeeds :
    {A B : Type 0} {P : B → World → Type 0} {r : Result A} {a : A} (f : A → Action B) {w : World}
    → r ≡ ok a
    → Succeeds P (f a) w
    → Succeeds P (from_result r >>= f) w
unfolding ◌>>=◌
from_result-Succeeds {A} {B} {P} {r} {a} f {w} e h = record { ends = rw e h.ends }

pub Succeeds-result :
    {Q : World → Type 0} (m : Action (Unit {0})) (w : World)
    → Succeeds (λ _. Q) m w
    → ((m w).0 ≡ ok tt) × Q (m w).1
Succeeds-result {Q} m w h = let (r, w') = m w in split r w' h.ends
  where
    split :
        (r : Result (Unit {0})) (w' : World) → Outcome (λ _. Q) Never (r, w') → (r ≡ ok tt) × Q w'
    split (ok tt) w' q = (refl, q)
    split (err s) w' q = absurd q

gets-Succeeds :
    {A : Type 0} (P : A → World → Type 0) (f : World → A) {w : World}
    → P (f w) w
    → Succeeds P (gets f) w
unfolding ◌>>=◌
gets-Succeeds P f h = record { ends = h }

log-pure-Succeeds :
    {A : Type 0} (Q : A → Type 0) (event : Event) (a : A) {buf : Bytes} {w : World}
    → IsReady buf w
    → Q a
    → Succeeds (λ b v. Q b × IsReady buf v) (log event >> pure a) w
unfolding ◌>>=◌
log-pure-Succeeds Q event a r q = record {
  ends = (q, record { buffer = r.buffer; key_size = r.key_size });
}

module _ (env : Env) {key iv ciphertext plaintext : Bytes}
    (good : Decrypts env key iv ciphertext plaintext) where
  -- A checked call succeeds and is the next event.
  check_or-eq :
      (c : CryptoCall) (cleanup : Action (Unit {0})) (w : World)
      → check_or env c cleanup w ≡ (ok tt, record w { trace = crypto c success ∷ w.trace })
  unfolding check_or call ◌>>=◌
  check_or-eq c cleanup w = rw (good.succeeds c w.trace) refl

  checked :
      (c : CryptoCall) (cleanup : Action (Unit {0})) (w : World) {buf : Bytes}
      → w.decrypted_model ≡ buf
      → Succeeds
          (λ _ v. (v.decrypted_model ≡ buf) × (v.trace ≡ crypto c success ∷ w.trace))
          (check_or env c cleanup)
          w
  checked c cleanup w e = record { ends = rw (check_or-eq c cleanup w) (e, refl) }

  pub init_crypto-Succeeds :
      {buf : Bytes} {w : World} → IsReady buf w → Succeeds (λ _. IsReady buf) (init_crypto env) w
  unfolding init_crypto call ◌>>=◌
  init_crypto-Succeeds {buf} {w} r = record {
    ends =
        rw (good.succeeds crypto_init w.trace)
          (record { buffer = r.buffer; key_size = r.key_size });
  }

  kept :
      (c : CryptoCall) (cleanup : Action (Unit {0})) {buf : Bytes} (w : World)
      → IsReady buf w
      → Succeeds
          (λ _ v. IsReady buf v × (v.trace ≡ crypto c success ∷ w.trace))
          (check_or env c cleanup)
          w
  kept c cleanup w r = record {
    ends = rw (check_or-eq c cleanup w) (record { buffer = r.buffer; key_size = r.key_size }, refl);
  }

  -- The derivation gives the key.
  derive_key_from_huk-Succeeds :
      {buf : Bytes} (w : World)
      → IsReady buf w
      → Succeeds
          (λ k v. (k ≡ key) × IsReady buf v)
          (derive_key_from_huk env huk_label derived_key_len)
          w
  unfolding derive_key_from_huk check
  derive_key_from_huk-Succeeds {buf} w r =
      let output = key_derivation_output_bytes derived_key_len in
      let release = log key_derivation_abort in
      >>=-Succeeds (kept key_derivation_setup (pure tt) w r) λ _ w₁ r₁.
        >>=-Succeeds (kept (key_derivation_input_bytes salt []) release w₁ r₁.0) λ _ w₂ r₂.
          >>=-Succeeds (kept key_derivation_input_key release w₂ r₂.0) λ _ w₃ r₃.
            >>=-Succeeds (kept (key_derivation_input_bytes info huk_label) release w₃ r₃.0)
              λ _ w₄ r₄.
                >>=-Succeeds
                  (gets-Succeeds (λ k v. (k ≡ key) × IsReady buf v) (λ v. env.filled output v.trace)
                    (ap (env.filled output) r₄.1 ∙ good.derives w₃.trace, r₄.0))
                  λ k w₅ r₅.
                    >>=-Succeeds (kept output release w₅ r₅.1)
                      λ _ w₆ r₆. log-pure-Succeeds (λ j. j ≡ key) key_derivation_abort k r₆.0 r₅.0

  pub derive_encryption_key-Succeeds :
      {buf : Bytes} {w : World}
      → IsReady buf w
      → Succeeds (λ _. HasKey buf key) (derive_encryption_key env) w
  unfolding derive_encryption_key
  derive_encryption_key-Succeeds {buf} {w} r =
      let p = derive_key_from_huk env huk_label derived_key_len w in
      record { ends = stored p.0 p.1 (derive_key_from_huk-Succeeds w r).ends }
    where
      stored :
          (r : Result Bytes) (w' : World)
          → Outcome (λ k v. (k ≡ key) × IsReady buf v) Never (r, w')
          → Outcome {A = Unit {0}}
              (λ _. HasKey buf key)
              Never
              (elim r [
                | ok k ↦ (ok tt, record w' { encryption_key = overwrite w'.encryption_key 0 k })
                | err s ↦ (err generic_error, w')
              ])
      stored (ok k) w' h =
          let filled =
            overwrite_all w'.encryption_key k
              (omega (arith, h.1.key_size, good.key_size, ap length h.0)) in
          record { buffer = h.1.buffer; holds = filled ∙ h.0 }
      stored (err s) w' h = absurd h

  pub import-Succeeds :
      {buf : Bytes} {w : World}
      → HasKey buf key w
      → Succeeds (HasImported buf key) (import_encryption_key env) w
  unfolding import_encryption_key check ◌>>=◌
  import-Succeeds {buf} {w} h =
      let all' : take 16 w.encryption_key ≡ key =
        ap (take 16) h.holds ∙ take_all 16 key (omega (arith, good.key_size)) in
      record {
        ends = rw (check_or-eq (import_key (take 16 w.encryption_key)) (pure tt) w) (record {
          buffer = h.buffer;
          before = w.trace;
          last =
              ap (λ k. imported (env.key_id w.trace) ∷ crypto (import_key k) success ∷ w.trace)
                all';
        });
      }

  -- The two outputs of the cipher, one behind the other, are the plaintext.
  decrypt_bytes-Succeeds :
      (id : ℕ) (t : Trace) {buf : Bytes} {w : World}
      → w.decrypted_model ≡ buf
      → w.trace ≡ prepared key iv id t
      → length plaintext ≤ length buf
      → Succeeds
          (λ r w'. (r ≡ (success, length plaintext)) × Holds plaintext w')
          (decrypt_bytes env ciphertext)
          w
  unfolding decrypt_bytes finish_bytes cipher_output ◌>>=◌
  decrypt_bytes-Succeeds id before {buf} {w} e p fits =
      let update = cipher_update ciphertext max_model_size in
      let ready = prepared key iv id before in
      let a = env.filled update ready in
      let finish = cipher_finish (max_model_size - length a) in
      let t = crypto update success ∷ ready in
      let b = env.filled finish t in
      let split : a ++ b ≡ plaintext = good.outputs (max_model_size - length a) id before in
      let sizes : length a + length b ≡ length plaintext =
        sym (length-append a b) ∙ ap length split in
      let (rest, written) = overwrite_behind buf a b (omega arith) in
      record {
        ends =
            rw (p, good.succeeds update ready, good.succeeds finish t, e)
              (ap (λ n. (success, n)) sizes, (rest, written ∙ ap (λ x. x ++ rest) split));
      }

  -- The rest of `run_cipher`.
  release-Succeeds :
      (id : ℕ) {r : Status × ℕ} {w : World}
      → r ≡ (success, length plaintext)
      → Holds plaintext w
      → Succeeds
          (λ n w'. (n ≡ length plaintext) × Holds plaintext w')
          (abort_and_destroy env id >> (raise_if (not (is_success r.0)) r.0 >> pure r.1))
          w
  unfolding ◌>>=◌
  release-Succeeds id e held = record { ends = rw e (refl, held) }

  pub run_cipher-Succeeds :
      (h : Header) (id : ℕ) {buf : Bytes} {w : World}
      → h.iv ≡ iv
      → HasImported buf key id w
      → length plaintext ≤ length buf
      → Succeeds
          (λ n w'. (n ≡ length plaintext) × Holds plaintext w')
          (run_cipher env h ciphertext id)
          w
  unfolding run_cipher
  run_cipher-Succeeds h id {buf} {w} same m fits =
      >>=-Succeeds (checked (cipher_decrypt_setup id) _ w m.buffer) λ _ w₁ (b₁, t₁).
        >>=-Succeeds (checked (cipher_set_iv h.iv) _ w₁ b₁) λ _ w₂ (b₂, t₂).
          >>=-Succeeds (decrypt_bytes-Succeeds id m.before b₂ (cc (t₁, t₂, m.last, same)) fits)
            λ r w₃ h₃. release-Succeeds id h₃.0 h₃.1
