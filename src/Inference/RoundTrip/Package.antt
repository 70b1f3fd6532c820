-- ===== src/Inference/RoundTrip/Package.antt =====
-- `create_encrypted_package` of tools/tinymaix_model_encryptor.py, and what `decrypt_model` reads in
-- such a package.
use pico2w_tfm.Common.{
  ◌+◌, ◌-◌, ◌≤◌, ◌<◌, ◌≡◌, ap, ◌∙◌, arith, [], ◌∷◌, ◌++◌, some, Bytes, IsU32, read_u32, u32_bytes,
  length, take, drop, length-append, drop-append, take-append, take_all,
}
use pico2w_tfm.Inference.State.{ok}
use pico2w_tfm.Inference.Decrypt.{header_of, check_package, max_model_size}

-- "TMAX", the version 3, the size of the model, the IV and the ciphertext.
unfoldable pub create_encrypted_package : Bytes → Bytes → Bytes → Bytes
create_encrypted_package model iv ciphertext =
    (0x54 ∷ 0x4d ∷ 0x41 ∷ 0x58 ∷ []) ++ u32_bytes 3 ++ u32_bytes (length model) ++ iv ++ ciphertext

pub header-package :
    (model iv ciphertext : Bytes)
    → length iv ≡ 16
    → IsU32 (length model)
    → length model ≤ max_model_size
    → 0 < length ciphertext
    → let bytes = create_encrypted_package model iv ciphertext in
      ((header_of bytes).original_size ≡ length model)
      × ((header_of bytes).iv ≡ iv)
      × (check_package (some bytes) (length bytes) ≡ ok (header_of bytes, ciphertext))
unfolding create_encrypted_package check_package header_of read_u32 u32_bytes
header-package model iv ciphertext iv16 u32 small nonempty =
    let len : length (iv ++ ciphertext) ≡ 16 + length ciphertext =
      length-append iv ciphertext ∙ ap (λ n. n + length ciphertext) iv16 in
    let behind : drop 16 (iv ++ ciphertext) ≡ ciphertext = drop-append 16 iv ciphertext iv16 in
    let all : take (12 + length (iv ++ ciphertext) - 28) ciphertext ≡ ciphertext =
      take_all (12 + length (iv ++ ciphertext) - 28) ciphertext (omega arith) in
    (
      omega arith,
      take-append 16 iv ciphertext iv16,
      ground (arith, ap (take (12 + length (iv ++ ciphertext) - 28)) behind ∙ all),
    )
