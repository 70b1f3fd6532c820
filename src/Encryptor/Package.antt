-- ===== src/Encryptor/Package.antt =====
-- `encrypt_model` and `create_encrypted_package`, whose layout is in Inference.RoundTrip.Package.
use pico2w_tfm.Common.{◌^◌, Bytes, leb, length, if◌then◌else◌}
use pico2w_tfm.Inference.Padding.{pkcs7_pad}
use pico2w_tfm.Inference.RoundTrip.Package.{create_encrypted_package}
use pico2w_tfm.Encryptor.Header.{cipher_error, struct_error}
use pico2w_tfm.Encryptor.Run.{Host, Action, ◌>>=◌, pure, raise, value_or, draw}

module _ (host : Host) where
  -- The ciphertext and the IV.
  unfoldable pub encrypt_model : Bytes → Bytes → Action (Bytes × Bytes)
  unfolding draw pkcs7_pad
  encrypt_model model key = do
    iv ← draw host 16
    let padded = pkcs7_pad model 16
    encrypted ← value_or cipher_error (host.aes_cbc key iv padded)
    pure (encrypted, iv)

  -- `struct.pack` refuses a size that is no 32-bit number.
  unfoldable pub create_package : Bytes → Bytes → Action Bytes
  unfolding encrypt_model create_encrypted_package
  create_package model key = do
    (encrypted, iv) ← encrypt_model model key
    if leb (2 ^ 32) (length model)
        then raise struct_error
        else pure (create_encrypted_package model iv encrypted)
