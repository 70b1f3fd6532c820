-- ===== src/Suite/CryptoVerdict.antt =====
-- When `test_psa_encryption` (nspe/psa_crypto_test.c) prints that it has passed.
use pico2w_tfm.Common.{
  ℕ, zero, suc, ◌≡◌, refl, ap, sym, ◌∙◌, arith, Bool, false, ◌&&◌, List, [], ◌∷◌, Bytes, ◌==◌,
  if◌then◌else◌, length, take, overwrite, set, take-overwrite, Bool-cases, inl, inr,
}
use pico2w_tfm.Psa.{is_success}
use pico2w_tfm.Suite.Echo.{same_bytes}
use pico2w_tfm.Suite.Crypto.{
  psa_crypto_init, psa_import_key, psa_cipher_encrypt, psa_cipher_decrypt, CryptoHistory, PsaCrypto,
  CryptoLine, round_trip_passed, test_data_size, plaintext, key_data, key_attributes, CryptoTest,
  crypto_request, destroy_and_finish, decrypt_test, encrypt_test, test_psa_encryption,
}

-- how often the test has passed
abbrev pub passes : List CryptoLine → ℕ
passes [] = 0
passes (round_trip_passed ∷ ls) = suc (passes ls)
passes (_ ∷ ls) = passes ls

take-set_end : (xs : Bytes) (n v : ℕ) → take n (set xs n v) ≡ take n xs
take-set_end [] zero v = refl
take-set_end [] (suc n) v = refl
take-set_end (x ∷ xs) zero v = refl
take-set_end (x ∷ xs) (suc n) v = ap (◌∷◌ x) (take-set_end xs n v)

same_bytes-length : (xs ys : Bytes) → (length xs == length ys) ≡ false → same_bytes xs ys ≡ false
same_bytes-length [] [] h = absurd (ground (arith, h))
same_bytes-length [] (y ∷ ys) h = refl
same_bytes-length (x ∷ xs) [] h = refl
same_bytes-length (x ∷ xs) (y ∷ ys) h = ground (arith, same_bytes-length xs ys)

-- The comparison of the test compares the output with the plaintext.
compared :
    (decrypted out : Bytes)
    → length decrypted ≡ 64
    → (length plaintext == length out
        && same_bytes
            (take (length out) plaintext)
            (take (length out) (set (overwrite decrypted 0 out) (length out) 0)))
      ≡ same_bytes plaintext out
compared decrypted out size = elim (Bool-cases (56 == length out)) [
  | inr differs ↦ rw differs (sym (same_bytes-length plaintext out differs))
  | inl same ↦
      let n : length out ≡ 56 = ground arith in
      let front : take (length out) (set (overwrite decrypted 0 out) (length out) 0) ≡ out =
        take-set_end (overwrite decrypted 0 out) (length out) 0
        ∙ take-overwrite decrypted out (omega (arith, n, size)) in
      let whole : take (length out) plaintext ≡ plaintext = ap (λ k. take k plaintext) n in
      rw (same, front, whole) refl
]

module _ (psa : PsaCrypto) where
  -- The calls of both ciphers, from a history on, with what they are given.
  abbrev pub decrypts_back : ℕ → Bytes → CryptoHistory → Bool
  decrypts_back key_id ciphertext h =
      let d = psa_cipher_decrypt key_id ciphertext test_data_size in
      is_success (psa.status d h) && same_bytes plaintext (psa.output d h)

  abbrev pub round_trips : ℕ → Bytes → CryptoHistory → Bool
  round_trips key_id ciphertext h =
      let e = psa_cipher_encrypt key_id plaintext 80 in
      let out = psa.output e h in
      is_success (psa.status e h)
      && decrypts_back key_id (take (length out) (overwrite ciphertext 0 out))
          ((e, psa.status e h) ∷ h)

  abbrev pub counted : Bool → CryptoTest → ℕ
  counted passed s = if passed then suc (passes s.lines) else passes s.lines

  decrypt_test-passes :
      (key_id : ℕ) (ciphertext decrypted : Bytes) (s : CryptoTest)
      → length decrypted ≡ 64
      → passes (decrypt_test psa key_id ciphertext decrypted s).lines
        ≡ counted (decrypts_back key_id ciphertext s.history) s
  unfolding decrypt_test crypto_request
  decrypt_test-passes key_id ciphertext decrypted s size =
      let d = psa_cipher_decrypt key_id ciphertext test_data_size in
      let out = psa.output d s.history in
      let same = compared decrypted out size in
      elim (Bool-cases (is_success (psa.status d s.history))) [
        | inr failed ↦ rw failed refl
        | inl fine ↦ elim (Bool-cases (same_bytes plaintext out)) [
          | inl equal ↦ rw (fine, same, equal) refl
          | inr differs ↦ rw (fine, same, differs) refl
        ]
      ]

  encrypt_test-passes :
      (key_id : ℕ) (ciphertext decrypted : Bytes) (s : CryptoTest)
      → length decrypted ≡ 64
      → passes (encrypt_test psa key_id ciphertext decrypted s).lines
        ≡ counted (round_trips key_id ciphertext s.history) s
  unfolding encrypt_test crypto_request
  encrypt_test-passes key_id ciphertext decrypted s size =
      let e = psa_cipher_encrypt key_id plaintext 80 in
      elim (Bool-cases (is_success (psa.status e s.history))) [
        | inr failed ↦ rw failed refl
        | inl fine ↦ rw fine (decrypt_test-passes _ _ _ _ size)
      ]

  -- The verdict of the encryption test is right: with the 64 bytes of `decrypted` on the stack,
  -- `test_psa_encryption` prints that it has passed exactly if PSA Crypto is initialised, imports the
  -- key, encrypts the text and decrypts that ciphertext with the same key, all with success, and the
  -- bytes that come out are the text; and it prints so at most once.
  pub test_psa_encryption-passes :
      (ciphertext decrypted : Bytes) (s : CryptoTest)
      → length decrypted ≡ 64
      → let h₁ = (psa_crypto_init, psa.status psa_crypto_init s.history) ∷ s.history in
        let c = psa_import_key key_attributes key_data in
        let h₂ = (c, psa.status c h₁) ∷ h₁ in
        passes (test_psa_encryption psa ciphertext decrypted s).lines
        ≡ counted
            (is_success (psa.status psa_crypto_init s.history)
              && is_success (psa.status c h₁)
              && round_trips (psa.key_id h₁) ciphertext h₂)
            s
  unfolding test_psa_encryption crypto_request destroy_and_finish
  test_psa_encryption-passes ciphertext decrypted s size =
      let h₁ = (psa_crypto_init, psa.status psa_crypto_init s.history) ∷ s.history in
      let c = psa_import_key key_attributes key_data in
      elim (Bool-cases (is_success (psa.status psa_crypto_init s.history))) [
        | inr failed ↦ rw failed refl
        | inl fine ↦ elim (Bool-cases (is_success (psa.status c h₁))) [
          | inr failed ↦ rw (fine, failed) refl
          | inl imported ↦ rw (fine, imported) (encrypt_test-passes _ _ _ _ size)
        ]
      ]
