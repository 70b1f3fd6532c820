-- ===== src/Suite/Crypto.antt =====
-- nspe/psa_crypto_test.c.
use pico2w_tfm.Common.{
  ℕ, ◌+◌, Bool, true, ◌&&◌, List, [], ◌∷◌, ◌++◌, Bytes, ◌==◌, if◌then◌else◌, take, overwrite, set,
  length,
}
use pico2w_tfm.Psa.{Status, is_success}
use pico2w_tfm.Suite.Echo.{c_string, same_bytes}

-- The attributes that the test sets: whether the key encrypts and decrypts, and its bits. The
-- algorithm is CBC with PKCS#7 padding and the type AES, here and in every call.
pub record KeyAttributes : Type 0 where
  pub encrypts : Bool
  pub decrypts : Bool
  pub bits : ℕ

-- A call of PSA Crypto: the key's attributes and bytes; the key, the input and the room for the
-- output; the key; the input and the room for the hash.
pub data CryptoRequest : Type 0 where
  psa_crypto_init : CryptoRequest
  psa_import_key : KeyAttributes → Bytes → CryptoRequest
  psa_cipher_encrypt : ℕ → Bytes → ℕ → CryptoRequest
  psa_cipher_decrypt : ℕ → Bytes → ℕ → CryptoRequest
  psa_destroy_key : ℕ → CryptoRequest
  psa_hash_compute : Bytes → ℕ → CryptoRequest

-- The calls so far with their outcomes, the latest first.
abbrev pub CryptoHistory : Type 0
CryptoHistory = List (CryptoRequest × Status)

-- PSA Crypto: the status of a call, the number of an imported key, and the bytes of an output.
pub record PsaCrypto : Type 0 where
  pub status : CryptoRequest → CryptoHistory → Status
  pub key_id : CryptoHistory → ℕ
  pub output : CryptoRequest → CryptoHistory → Bytes

-- The lines that are printed, with what they show.
pub data CryptoLine : Type 0 where
  encryption_banner init_done key_destroyed crypto_complete : CryptoLine
  encryption_title decryption_title : CryptoLine
  init_failed import_failed encryption_failed decryption_failed hash_failed : Status → CryptoLine
  key_imported : ℕ → CryptoLine
  plaintext_shown : Bytes → CryptoLine
  ciphertext_length : ℕ → CryptoLine
  hex_shown : Bytes → CryptoLine
  decrypted_length : ℕ → CryptoLine
  decrypted_shown : Bytes → CryptoLine
  round_trip_passed round_trip_mismatch : CryptoLine
  hash_banner hash_complete : CryptoLine
  hash_input : Bytes → CryptoLine
  hash_length : ℕ → CryptoLine

-- "Hello PSA Crypto! This is a test message for encryption."
abbrev pub plaintext : Bytes
plaintext =
    b'H' ∷ b'e' ∷ b'l' ∷ b'l' ∷ b'o' ∷ b' ' ∷ b'P' ∷ b'S' ∷ b'A' ∷ b' ' ∷ b'C' ∷ b'r' ∷ b'y' ∷ b'p'
    ∷ b't' ∷ b'o' ∷ b'!' ∷ b' ' ∷ b'T' ∷ b'h' ∷ b'i' ∷ b's' ∷ b' ' ∷ b'i' ∷ b's' ∷ b' ' ∷ b'a'
    ∷ b' ' ∷ b't' ∷ b'e' ∷ b's' ∷ b't' ∷ b' ' ∷ b'm' ∷ b'e' ∷ b's' ∷ b's' ∷ b'a' ∷ b'g' ∷ b'e'
    ∷ b' ' ∷ b'f' ∷ b'o' ∷ b'r' ∷ b' ' ∷ b'e' ∷ b'n' ∷ b'c' ∷ b'r' ∷ b'y' ∷ b'p' ∷ b't' ∷ b'i'
    ∷ b'o' ∷ b'n' ∷ b'.' ∷ []

-- "Hello PSA Hash!"
abbrev pub hash_text : Bytes
hash_text =
    b'H' ∷ b'e' ∷ b'l' ∷ b'l' ∷ b'o' ∷ b' ' ∷ b'P' ∷ b'S' ∷ b'A' ∷ b' ' ∷ b'H' ∷ b'a' ∷ b's' ∷ b'h'
    ∷ b'!' ∷ []

abbrev pub key_data : Bytes
key_data =
    0x2b ∷ 0x7e ∷ 0x15 ∷ 0x16 ∷ 0x28 ∷ 0xae ∷ 0xd2 ∷ 0xa6 ∷ 0xab ∷ 0xf7 ∷ 0x15 ∷ 0x88 ∷ 0x09 ∷ 0xcf
    ∷ 0x4f ∷ 0x3c ∷ []

abbrev pub test_data_size : ℕ
test_data_size = 64

abbrev pub key_attributes : KeyAttributes
key_attributes = record { encrypts = true; decrypts = true; bits = 128 }

-- What was printed, the latest line first, and what was called.
pub record CryptoTest : Type 0 where
  pub lines : List CryptoLine
  pub history : CryptoHistory

abbrev pub say : List CryptoLine → CryptoTest → CryptoTest
say lines s = record s { lines = lines ++ s.lines }

module _ (psa : PsaCrypto) where
  unfoldable pub crypto_request : CryptoRequest → CryptoTest → Status × CryptoTest
  crypto_request c s =
      let status = psa.status c s.history in
      (status, record s { history = (c, status) ∷ s.history })

  -- From the label `cleanup` on; the status of the call is not looked at.
  unfoldable pub destroy_and_finish : ℕ → CryptoTest → CryptoTest
  destroy_and_finish key_id s =
      say (crypto_complete ∷ key_destroyed ∷ []) (crypto_request (psa_destroy_key key_id) s).1

  -- Test 2 and the comparison, on the bytes of the ciphertext and the buffer `decrypted`. A 0 behind
  -- the end of the buffer, which C would write to the memory there, is dropped.
  unfoldable pub decrypt_test : ℕ → Bytes → Bytes → CryptoTest → CryptoTest
  decrypt_test key_id ciphertext decrypted s =
      let c = psa_cipher_decrypt key_id ciphertext test_data_size in
      let out = psa.output c s.history in
      let (status, s₁) = crypto_request c (say (decryption_title ∷ []) s) in
      let n = length out in
      let decrypted' = set (overwrite decrypted 0 out) n 0 in
      let same = length plaintext == n && same_bytes (take n plaintext) (take n decrypted') in
      let verdict = if same then round_trip_passed else round_trip_mismatch in
      if is_success status
      then say (verdict ∷ decrypted_shown (c_string decrypted') ∷ decrypted_length n ∷ []) s₁
      else say (decryption_failed status ∷ []) s₁

  -- Test 1 and what follows, on the buffer `ciphertext`.
  unfoldable pub encrypt_test : ℕ → Bytes → Bytes → CryptoTest → CryptoTest
  encrypt_test key_id ciphertext decrypted s =
      let c = psa_cipher_encrypt key_id plaintext (test_data_size + 16) in
      let out = psa.output c s.history in
      let (status, s₁) =
        crypto_request c (say (plaintext_shown plaintext ∷ encryption_title ∷ []) s) in
      let bytes = take (length out) (overwrite ciphertext 0 out) in
      let s₂ = say (hex_shown bytes ∷ ciphertext_length (length out) ∷ []) s₁ in
      if is_success status
      then decrypt_test key_id bytes decrypted s₂
      else say (encryption_failed status ∷ []) s₁

  -- The buffers on the stack are given with what is in them.
  unfoldable pub test_psa_encryption : Bytes → Bytes → CryptoTest → CryptoTest
  test_psa_encryption ciphertext decrypted s =
      let (init_status, s₁) = crypto_request psa_crypto_init (say (encryption_banner ∷ []) s) in
      let key_id = psa.key_id s₁.history in
      let (import_status, s₂) =
        crypto_request (psa_import_key key_attributes key_data) (say (init_done ∷ []) s₁) in
      let s₃ = say (key_imported key_id ∷ []) s₂ in
      if is_success init_status
      then (if is_success import_status
          then destroy_and_finish key_id (encrypt_test key_id ciphertext decrypted s₃)
          else say (import_failed import_status ∷ []) s₂)
      else say (init_failed init_status ∷ []) s₁

  -- `hash` has the 32 bytes of SHA-256.
  unfoldable pub test_psa_hash : Bytes → CryptoTest → CryptoTest
  test_psa_hash hash s =
      let c = psa_hash_compute hash_text 32 in
      let out = psa.output c s.history in
      let (status, s₁) = crypto_request c (say (hash_input hash_text ∷ hash_banner ∷ []) s) in
      let hash' = overwrite hash 0 out in
      if is_success status
      then say (hash_complete ∷ hex_shown (take (length out) hash') ∷ hash_length (length out) ∷ [])
          s₁
      else say (hash_failed status ∷ []) s₁
