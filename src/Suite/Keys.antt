-- ===== src/Suite/Keys.antt =====
-- The keys and the verdict of `test_psa_encryption` (nspe/psa_crypto_test.c).
use pico2w_tfm.Common.{
  ℕ, ◌≡◌, refl, ◌∙◌, arith, true, List, [], ◌∷◌, Bytes, ◌==◌, if◌then◌else◌, Bool-cases, inl, inr,
}
use pico2w_tfm.Psa.{is_success}
use pico2w_tfm.Suite.Crypto.{
  psa_crypto_init, psa_import_key, psa_cipher_encrypt, psa_cipher_decrypt, psa_destroy_key,
  CryptoHistory, PsaCrypto, test_data_size, plaintext, key_data, key_attributes, CryptoTest,
  crypto_request, destroy_and_finish, decrypt_test, encrypt_test, test_psa_encryption,
}

abbrev pub remove_key : ℕ → List ℕ → List ℕ
remove_key k [] = []
remove_key k (k' ∷ ks) = if k' == k then ks else k' ∷ remove_key k ks

module _ (psa : PsaCrypto) where
  -- the keys that were imported and not destroyed
  abbrev pub keys : CryptoHistory → List ℕ
  keys [] = []
  keys ((psa_import_key a bytes, status) ∷ h) =
      if is_success status then psa.key_id h ∷ keys h else keys h
  keys ((psa_destroy_key k, status) ∷ h) =
      if is_success status then remove_key k (keys h) else keys h
  keys (_ ∷ h) = keys h

  decrypt_test-keys :
      (key_id : ℕ) (ciphertext decrypted : Bytes) (s : CryptoTest)
      → keys (decrypt_test psa key_id ciphertext decrypted s).history ≡ keys s.history
  unfolding decrypt_test crypto_request
  decrypt_test-keys key_id ciphertext decrypted s =
      elim (Bool-cases
        (is_success (psa.status (psa_cipher_decrypt key_id ciphertext test_data_size) s.history))) [
          | inl fine ↦ rw fine refl
          | inr failed ↦ rw failed refl
        ]

  encrypt_test-keys :
      (key_id : ℕ) (ciphertext decrypted : Bytes) (s : CryptoTest)
      → keys (encrypt_test psa key_id ciphertext decrypted s).history ≡ keys s.history
  unfolding encrypt_test crypto_request
  encrypt_test-keys key_id ciphertext decrypted s =
      elim (Bool-cases
        (is_success (psa.status (psa_cipher_encrypt key_id plaintext 80) s.history))) [
          | inl fine ↦ rw fine (decrypt_test-keys _ _ _ _)
          | inr failed ↦ rw failed refl
        ]

  destroy_and_finish-keys :
      (key_id : ℕ) (ks : List ℕ) (s : CryptoTest)
      → is_success (psa.status (psa_destroy_key key_id) s.history) ≡ true
      → keys s.history ≡ key_id ∷ ks
      → keys (destroy_and_finish psa key_id s).history ≡ ks
  unfolding destroy_and_finish crypto_request
  destroy_and_finish-keys key_id ks s fine have =
      let same : (key_id == key_id) ≡ true = ground arith in rw (fine, have, same) refl

  -- However the encryption test ends, it leaves no key behind: if PSA Crypto does not refuse to
  -- destroy keys, then the same imported keys are alive after `test_psa_encryption` as before,
  -- whatever the other calls return.
  pub test_psa_encryption-keys :
      (ciphertext decrypted : Bytes) (s : CryptoTest)
      → ((k : ℕ) (h : CryptoHistory) → is_success (psa.status (psa_destroy_key k) h) ≡ true)
      → keys (test_psa_encryption psa ciphertext decrypted s).history ≡ keys s.history
  unfolding test_psa_encryption crypto_request
  test_psa_encryption-keys ciphertext decrypted s destroys =
      let h₁ = (psa_crypto_init, psa.status psa_crypto_init s.history) ∷ s.history in
      let c = psa_import_key key_attributes key_data in
      elim (Bool-cases (is_success (psa.status psa_crypto_init s.history))) [
        | inr failed ↦ rw failed refl
        | inl fine ↦ elim (Bool-cases (is_success (psa.status c h₁))) [
          | inr failed ↦ rw (fine, failed) (rw failed refl)
          | inl imported ↦
              rw (fine, imported)
                (destroy_and_finish-keys (psa.key_id h₁) (keys s.history) _ (destroys _ _)
                  (encrypt_test-keys _ _ _ _ ∙ rw imported refl))
        ]
      ]
