-- ===== src/Inference/Decrypt.antt =====
-- `decrypt_model`: from an encrypted package to the model in `g_decrypted_model`.
use pico2w_tfm.Common.{
  ℕ, ◌+◌, ◌-◌, Bool, true, false, not, Option, none, some, Bytes, ◌∷◌, [], ltb, leb, ◌==◌, ◌&&◌,
  ◌||◌, if◌then◌else◌, take, drop, overwrite, length, read_u32,
}
use pico2w_tfm.Psa.{
  Status, CryptoCall, crypto, success, generic_error, invalid_argument, buffer_too_small,
  already_exists, is_success, crypto_init, import_key, cipher_decrypt_setup, cipher_set_iv,
  cipher_update, cipher_finish, cipher_abort, destroy_key, imported, Env,
}
use pico2w_tfm.Inference.State.{
  Action, Result, ok, err, pure, ◌>>=◌, ◌>>◌, gets, modify, raise_if, from_result, log, call, check,
  check_or,
}
use pico2w_tfm.Inference.KeyDerivation.{derive_key_from_huk}
use pico2w_tfm.Inference.Padding.{strip_padding}

abbrev pub max_model_size : ℕ
max_model_size = 4096

abbrev pub encrypted_header_magic : ℕ
encrypted_header_magic = 0x58414d54

abbrev pub encrypted_header_cbc_size : ℕ
encrypted_header_cbc_size = 28

abbrev pub derived_key_len : ℕ
derived_key_len = 16

-- "MAIX", the magic number of a TinyMaix model
abbrev pub model_magic : ℕ
model_magic = 0x5849414d

-- `encrypted_tinymaix_header_cbc_t`
pub record Header : Type 0 where
  pub magic : ℕ
  pub version : ℕ
  pub original_size : ℕ
  pub iv : Bytes

unfoldable pub header_of : Bytes → Header
unfolding read_u32
header_of buf = record {
  magic = read_u32 buf 0;
  version = read_u32 buf 4;
  original_size = read_u32 buf 8;
  iv = take 16 (drop 12 buf);
}

-- The checks before any crypto call; they give the header and the ciphertext.
unfoldable pub check_package : Option Bytes → ℕ → Result (Header × Bytes)
unfolding header_of
check_package none encrypted_size = err invalid_argument
check_package (some encrypted) encrypted_size =
    let header = header_of encrypted in
    let ciphertext_size = encrypted_size - encrypted_header_cbc_size in
    let ciphertext = take ciphertext_size (drop encrypted_header_cbc_size encrypted) in
    if ltb encrypted_size encrypted_header_cbc_size
    then err invalid_argument
    else if not (header.magic == encrypted_header_magic) || not (header.version == 3)
    then err invalid_argument
    else if ltb max_model_size header.original_size
    then err buffer_too_small
    else if ciphertext_size == 0
    then err invalid_argument
    else ok (header, ciphertext)

-- `psa_crypto_init`, for which a second initialisation is no error
abbrev pub init_accepted : Status → Bool
init_accepted success = true
init_accepted already_exists = true
init_accepted _ = false

-- "pico2w-tinymaix-model-aes128-v1.0"
abbrev pub huk_label : Bytes
huk_label =
    b'p' ∷ b'i' ∷ b'c' ∷ b'o' ∷ b'2' ∷ b'w' ∷ b'-' ∷ b't' ∷ b'i' ∷ b'n' ∷ b'y' ∷ b'm' ∷ b'a' ∷ b'i'
    ∷ b'x' ∷ b'-' ∷ b'm' ∷ b'o' ∷ b'd' ∷ b'e' ∷ b'l' ∷ b'-' ∷ b'a' ∷ b'e' ∷ b's' ∷ b'1' ∷ b'2'
    ∷ b'8' ∷ b'-' ∷ b'v' ∷ b'1' ∷ b'.' ∷ b'0' ∷ []

module _ (env : Env) where
  -- The key goes into `encryption_key`; whatever goes wrong is reported as a generic error.
  unfoldable pub derive_encryption_key : Action (Unit {0})
  derive_encryption_key w =
      let (r, w') = derive_key_from_huk env huk_label derived_key_len w in
      elim r [
        | ok key ↦ (ok tt, record w' { encryption_key = overwrite w'.encryption_key 0 key })
        | err s ↦ (err generic_error, w')
      ]

  -- `psa_import_key` of the 16 key bytes; the result is `key_id`.
  unfoldable pub import_encryption_key : Action ℕ
  import_encryption_key = do
    key ← gets (λ w. take 16 w.encryption_key)
    id ← gets (λ w. env.key_id w.trace)
    check env (import_key key)
    log (imported id)
    pure id

  abbrev pub abort_and_destroy : ℕ → Action (Unit {0})
  abort_and_destroy key_id = log cipher_abort >> log (destroy_key key_id)

  -- A cipher call with an output: the bytes that it leaves go into `g_decrypted_model` from `at` on.
  -- The result is its status and the number of those bytes.
  unfoldable pub cipher_output : CryptoCall → ℕ → Action (Status × ℕ)
  cipher_output c at w =
      let s = env.crypto_status c w.trace in
      let out = env.filled c w.trace in
      (
        ok (s, length out),
        record w {
          decrypted_model = overwrite w.decrypted_model at out;
          trace = crypto c s ∷ w.trace;
        },
      )

  -- `psa_cipher_finish` behind the `n` bytes that there are.
  unfoldable pub finish_bytes : ℕ → Action (Status × ℕ)
  finish_bytes n = do (s, m) ← cipher_output (cipher_finish (max_model_size - n)) n; pure (s, n + m)

  -- `psa_cipher_update`, and `psa_cipher_finish` behind it if that succeeds.
  unfoldable pub decrypt_bytes : Bytes → Action (Status × ℕ)
  decrypt_bytes ciphertext = do
    (s, n) ← cipher_output (cipher_update ciphertext max_model_size) 0
    if is_success s then finish_bytes n else pure (s, n)

  -- From `psa_cipher_decrypt_setup` to the destruction of the key; the result is `output_length`.
  unfoldable pub run_cipher : Header → Bytes → ℕ → Action ℕ
  run_cipher header ciphertext key_id = do
    check_or env (cipher_decrypt_setup key_id) (log (destroy_key key_id))
    check_or env (cipher_set_iv header.iv) (abort_and_destroy key_id)
    (s, output_length) ← decrypt_bytes ciphertext
    abort_and_destroy key_id
    raise_if (not (is_success s)) s
    pure output_length

  -- From the removal of the padding to the end.
  unfoldable pub accept_plaintext : Header → ℕ → Action (Unit {0})
  accept_plaintext header output_length = do
    model ← gets (λ w. w.decrypted_model)
    size ← from_result (strip_padding model output_length)
    modify (λ w. record w { decrypted_size = size })
    raise_if (not (size == header.original_size)) generic_error
    raise_if (leb 4 size && not (read_u32 model 0 == model_magic)) generic_error

  unfoldable pub init_crypto : Action (Unit {0})
  init_crypto = do s ← call env crypto_init; raise_if (not (init_accepted s)) s

  unfoldable pub decrypt_model : Option Bytes → ℕ → Action (Unit {0})
  decrypt_model encrypted encrypted_size = do
    (header, ciphertext) ← from_result (check_package encrypted encrypted_size)
    init_crypto
    derive_encryption_key
    key_id ← import_encryption_key
    output_length ← run_cipher header ciphertext key_id
    accept_plaintext header output_length
