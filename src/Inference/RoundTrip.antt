-- ===== src/Inference/RoundTrip.antt =====
-- A package that the repository's encryptor builds is decrypted to the model that it was built from.
pub mod Package
pub mod Stages
use pico2w_tfm.Common.{
  not, Bool-cases, ◌&&◌, ◌==◌, false, inl, inr, ◌⊎◌, get_or-append_left, replicate, ◌%◌, ltb, leb,
  ℕ, suc, ◌+◌, ◌-◌, ◌*◌, ◌≤◌, ◌<◌, ◌≡◌, refl, ap, sym, ◌∙◌, arith, Bool, true, List, [], ◌∷◌, ◌++◌,
  some, Bytes, IsU32, read_u32, u32_bytes, length, take, drop, overwrite, length-append,
  length-overwrite, drop-append, take-append, take_all, append_assoc,
}
use pico2w_tfm.Psa.{
  Status, generic_error, is_success, Event, success, CryptoCall, cipher_update, cipher_finish,
  key_derivation_abort, key_derivation_output_bytes, crypto, crypto_init, import_key, Trace, Env,
}
use pico2w_tfm.Inference.State.{
  World, raise_if, pure, gets, log, ◌>>◌, Result, ok, err, from_result, call, check, check_or,
  ◌>>=◌, Action,
}
use pico2w_tfm.Inference.KeyDerivation.{derive_key_from_huk}
use pico2w_tfm.Inference.Padding.{strip_padding, pkcs7_pad}
use pico2w_tfm.Inference.Unpadding.{strip_padding-pkcs7_pad}
use pico2w_tfm.Inference.Decrypt.{
  abort_and_destroy, Header, header_of, check_package, init_crypto, derive_encryption_key,
  import_encryption_key, cipher_output, finish_bytes, decrypt_bytes, run_cipher, accept_plaintext,
  decrypt_model, max_model_size, model_magic, huk_label, derived_key_len,
}
use pico2w_tfm.Inference.Outcomes.{Outcome, >>=-Outcome}
use pico2w_tfm.Inference.RoundTrip.Package.{create_encrypted_package, header-package}
use pico2w_tfm.Inference.RoundTrip.Stages.{
  Decrypts, IsReady, Never, Succeeds, >>=-Succeeds, Holds, from_result-Succeeds, Succeeds-result,
  init_crypto-Succeeds, import-Succeeds, derive_encryption_key-Succeeds, run_cipher-Succeeds,
}

-- The first word of a model is that of any buffer which begins with it.
read_u32-append :
    (model rest : Bytes) → 4 ≤ length model → read_u32 (model ++ rest) 0 ≡ read_u32 model 0
unfolding read_u32
read_u32-append model rest h =
    rw
      (
        get_or-append_left model rest 0 0 (omega arith),
        get_or-append_left model rest 1 0 (omega arith),
        get_or-append_left model rest 2 0 (omega arith),
        get_or-append_left model rest 3 0 (omega arith),
      )
      refl

word_accepted :
    (model rest buf : Bytes)
    → buf ≡ model ++ rest
    → (length model < 4) ⊎ (read_u32 model 0 ≡ model_magic)
    → (leb 4 (length model) && not (read_u32 buf 0 == model_magic)) ≡ false
word_accepted model rest buf e (inl short) = ground arith
word_accepted model rest buf e (inr word) = elim (Bool-cases (leb 4 (length model))) [
  | inl long ↦
      let same : read_u32 buf 0 ≡ model_magic =
        rw e (read_u32-append model rest (ground arith) ∙ word) in
      ground arith
  | inr short ↦ ground arith
]

-- `g_decrypted_model` begins with the model, and its size is recorded.
pub record IsDecrypted (model : Bytes) (w : World) : Type 0 where
  pub size : w.decrypted_size ≡ length model
  pub begins : take (length model) w.decrypted_model ≡ model

module _ (env : Env) (model : Bytes) where
  accept_plaintext-Succeeds :
      (h : Header) (n : ℕ) (w : World)
      → h.original_size ≡ length model
      → n ≡ length (pkcs7_pad model 16)
      → Holds (pkcs7_pad model 16) w
      → (length model < 4) ⊎ (read_u32 model 0 ≡ model_magic)
      → Succeeds (λ _. IsDecrypted model) (accept_plaintext env h n) w
  unfolding accept_plaintext ◌>>=◌ pkcs7_pad
  accept_plaintext-Succeeds h n w size len (rest, holds) magic =
      let stripped : strip_padding w.decrypted_model n ≡ ok (length model) =
        rw (holds, len) (strip_padding-pkcs7_pad model rest) in
      let p = replicate (16 - length model % 16) (16 - length model % 16) in
      let begins : w.decrypted_model ≡ model ++ (p ++ rest) = holds ∙ append_assoc model p rest in
      let good_word : (leb 4 (length model) && not (read_u32 w.decrypted_model 0 == model_magic))
          ≡ false =
        word_accepted model (p ++ rest) w.decrypted_model begins magic in
      let front : take (length model) w.decrypted_model ≡ model =
        rw begins (take-append (length model) model (p ++ rest) refl) in
      let sized : (length model == h.original_size) ≡ true = ground arith in
      record { ends = simp (stripped, sized, good_word) (record { size = refl; begins = front }) }

  -- A package that the encryptor builds is decrypted to the model that it was built from: if the
  -- model's and the key's buffers have their declared 4096 and 16 bytes, the IV has 16 bytes, there
  -- is a ciphertext, the padded model fits the buffer, a model of four bytes or more begins with
  -- "MAIX", and PSA Crypto succeeds, derives a key of 16 bytes under the model's label, and gives the
  -- padded model for the ciphertext under that key and that IV, then `decrypt_model` succeeds,
  -- `g_decrypted_model` begins with the model, and `g_decrypted_size` is its length.
  pub decrypt_model-create_encrypted_package :
      (key iv ciphertext : Bytes) (w : World)
      → length iv ≡ 16
      → 0 < length ciphertext
      → length w.decrypted_model ≡ max_model_size
      → length w.encryption_key ≡ 16
      → length (pkcs7_pad model 16) ≤ max_model_size
      → (length model < 4) ⊎ (read_u32 model 0 ≡ model_magic)
      → Decrypts env key iv ciphertext (pkcs7_pad model 16)
      → let bytes = create_encrypted_package model iv ciphertext in
        let (r, w') = decrypt_model env (some bytes) (length bytes) w in
        (r ≡ ok tt) × IsDecrypted model w'
  unfolding decrypt_model
  decrypt_model-create_encrypted_package key iv ciphertext w iv16 nonempty room kept fits magic
        good =
      let bytes = create_encrypted_package model iv ciphertext in
      let small : length model ≤ max_model_size =
        unfold pkcs7_pad in
        omega (
          arith,
          length-append model (replicate (16 - length model % 16) (16 - length model % 16)),
        ) in
      let (size, same, checked) =
        header-package model iv ciphertext iv16 (omega arith) small nonempty in
      let ready : IsReady w.decrypted_model w = record { buffer = refl; key_size = kept } in
      Succeeds-result (decrypt_model env (some bytes) (length bytes)) w (
        from_result-Succeeds _ checked (
          >>=-Succeeds (init_crypto-Succeeds env good ready) λ _ w₂ r₂.
            >>=-Succeeds (derive_encryption_key-Succeeds env good r₂) λ _ w₃ r₃.
              >>=-Succeeds (import-Succeeds env good r₃) λ id w₄ r₄.
                >>=-Succeeds
                  (run_cipher-Succeeds env good (header_of bytes) id same r₄ (omega arith))
                  λ n w₅ h₅. accept_plaintext-Succeeds (header_of bytes) n w₅ size h₅.0 h₅.1 magic))
