-- ===== src/Inference/Accepted.antt =====
-- What a successful `decrypt_model` has checked.
use pico2w_tfm.Common.{
  ℕ, ◌≤◌, ◌<◌, ◌≡◌, ◌⊎◌, inl, inr, Bool-cases, leb, refl, arith, some, Bytes, read_u32,
}
use mathlib.Core.Path.{subst}
use pico2w_tfm.Psa.{Status, Env}
use pico2w_tfm.Inference.State.{World, Result, ok, err, from_result, ◌>>=◌, Action}
use pico2w_tfm.Inference.Padding.{strip_padding}
use pico2w_tfm.Inference.Unpadding.{IsPadded, strip_padding-IsPadded}
use pico2w_tfm.Inference.Decrypt.{
  Header, check_package, init_crypto, derive_encryption_key, import_encryption_key, run_cipher,
  accept_plaintext, decrypt_model, max_model_size, encrypted_header_magic,
  encrypted_header_cbc_size, model_magic,
}
use pico2w_tfm.Inference.Outcomes.{Outcome, Outcome-weaken, >>=-Outcome}

-- The package holds a header of the right kind, for a model that fits the buffer, and a ciphertext.
pub record IsPackage (bytes : Bytes) (size : ℕ) : Type 0 where
  pub magic : read_u32 bytes 0 ≡ encrypted_header_magic
  pub version : read_u32 bytes 4 ≡ 3
  pub fits : read_u32 bytes 8 ≤ max_model_size
  pub has_ciphertext : encrypted_header_cbc_size < size

-- The buffer holds a model of `original_size` bytes, before PKCS#7 padding that ends at some length.
pub record HoldsModel (original_size : ℕ) (w : World) : Type 0 where
  pub size : w.decrypted_size ≡ original_size
  pub output_length : ℕ
  pub padded : IsPadded w.decrypted_model output_length original_size
  pub magic : (original_size < 4) ⊎ (read_u32 w.decrypted_model 0 ≡ model_magic)

abbrev Ignored : Status → World → Type 0
Ignored s w = Unit

check_package-IsPackage :
    (bytes : Bytes) (size : ℕ) (p : Header × Bytes)
    → check_package (some bytes) size ≡ ok p
    → IsPackage bytes size × (p.0.original_size ≡ read_u32 bytes 8)
unfolding check_package
check_package-IsPackage bytes size p h = ground arith

from_result-Outcome :
    {A : Type 0} (r : Result A) (w : World) → Outcome (λ a _. r ≡ ok a) Ignored (from_result r w)
unfolding ◌>>=◌
from_result-Outcome (ok a) w = refl
from_result-Outcome (err s) w = tt

-- A stage whose result does not matter.
passing_by :
    {A B : Type 0} (P : B → World → Type 0) (m : Action A) (f : A → Action B) (w : World)
    → ((a : A) (w' : World) → Outcome P Ignored (f a w'))
    → Outcome P Ignored ((m >>= f) w)
passing_by {A} P m f w k =
    >>=-Outcome (λ a w'. Unit {0}) P Ignored m f w (let (r, w') = m w in go r w') (λ a w' h. k a w')
  where
    go : (r : Result A) (w' : World) → Outcome (λ _ _. Unit {0}) Ignored (r, w')
    go (ok a) w' = tt
    go (err s) w' = tt

module _ (env : Env) where
  accept_plaintext_lem :
      (h : Header) (n : ℕ) (w : World)
      → (accept_plaintext env h n w).0 ≡ ok tt
      → let w' = (accept_plaintext env h n w).1 in
        (strip_padding w'.decrypted_model n ≡ ok h.original_size)
        × (w'.decrypted_size ≡ h.original_size)
        × ((h.original_size < 4) ⊎ (read_u32 w'.decrypted_model 0 ≡ model_magic))
  unfolding accept_plaintext ◌>>=◌
  accept_plaintext_lem h n w e = elim (Bool-cases (leb 4 h.original_size)) [
    | inl long ↦ (ground arith, ground arith, inr (ground arith))
    | inr short ↦ (ground arith, ground arith, inl (ground arith))
  ]

  accept_plaintext-HoldsModel :
      (h : Header) (n : ℕ) (w : World)
      → Outcome (λ _ w'. HoldsModel h.original_size w') Ignored (accept_plaintext env h n w)
  accept_plaintext-HoldsModel h n w =
      let (r, w') = accept_plaintext env h n w in go r w' (accept_plaintext_lem h n w)
    where
      go :
          (r : Result (Unit {0})) (w' : World)
          → (r ≡ ok tt
              → (strip_padding w'.decrypted_model n ≡ ok h.original_size)
                × (w'.decrypted_size ≡ h.original_size)
                × ((h.original_size < 4) ⊎ (read_u32 w'.decrypted_model 0 ≡ model_magic)))
          → Outcome (λ _ w'. HoldsModel h.original_size w') Ignored (r, w')
      go (ok tt) w' k =
          let (stripped, size, magic) = k refl in
          record {
            size = size;
            output_length = n;
            padded = strip_padding-IsPadded w'.decrypted_model n h.original_size stripped;
            magic = magic;
          }
      go (err s) w' k = tt

  decrypt_model-Outcome :
      (bytes : Bytes) (size : ℕ) (w : World)
      → Outcome
          (λ _ w'. IsPackage bytes size × HoldsModel (read_u32 bytes 8) w')
          Ignored
          (decrypt_model env (some bytes) size w)
  unfolding decrypt_model
  decrypt_model-Outcome bytes size w =
      >>=-Outcome _ goal Ignored (from_result (check_package (some bytes) size)) _ w
        (from_result-Outcome _ w)
        λ p w₁ checked. passing_by goal (init_crypto env) _ w₁ λ _ w₂.
          passing_by goal (derive_encryption_key env) _ w₂ λ _ w₃.
            passing_by goal (import_encryption_key env) _ w₃ λ id w₄.
              passing_by goal (run_cipher env p.0 p.1 id) _ w₄ λ n w₅.
                let (valid, same) = check_package-IsPackage bytes size p checked in
                Outcome-weaken (λ _. HoldsModel p.0.original_size) goal Ignored
                  (accept_plaintext env p.0 n w₅) (λ _ w' held. (valid, rw same at held))
                  (accept_plaintext-HoldsModel p.0 n w₅)
    where
      goal : Unit {0} → World → Type 0
      goal _ w' = IsPackage bytes size × HoldsModel (read_u32 bytes 8) w'

  -- If `decrypt_model` succeeds, the package had the magic number, version 3, a stated size of at
  -- most 4096 bytes and a ciphertext behind its header; and `g_decrypted_model` holds a model of
  -- exactly the stated size before valid PKCS#7 padding, with TinyMaix's magic number if it has four
  -- bytes at least.
  pub decrypt_model_accepts :
      (bytes : Bytes) (size : ℕ) (w w' : World)
      → decrypt_model env (some bytes) size w ≡ (ok tt, w')
      → IsPackage bytes size × HoldsModel (read_u32 bytes 8) w'
  decrypt_model_accepts bytes size w w' h =
      subst (Outcome (λ _ v. IsPackage bytes size × HoldsModel (read_u32 bytes 8) v) Ignored) h
        (decrypt_model-Outcome bytes size w)
