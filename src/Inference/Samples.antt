-- ===== src/Inference/Samples.antt =====
-- A board with an encrypted model, for concrete runs.
use pico2w_tfm.Common.{ℕ, ◌∷◌, [], ◌++◌, true, false, Bytes, replicate, ltb, if◌then◌else◌}
use pico2w_tfm.Psa.{
  success, ipc_call, CryptoCall, cipher_update, key_derivation_output_bytes, Msg, tm_ok, Trace, Env,
}
use pico2w_tfm.History.{received}
use pico2w_tfm.Inference.State.{World}
use pico2w_tfm.Inference.Service.{Build, image_shape, image_size}

-- "MAIX" with the padding of `_pkcs7_pad`
abbrev pub padded_model : Bytes
padded_model = 0x4d ∷ 0x41 ∷ 0x49 ∷ 0x58 ∷ replicate 12 12

-- "TMAX", the version 3, the size 4, an IV and a ciphertext of 16 bytes each
abbrev pub encrypted : Bytes
encrypted =
    0x54 ∷ 0x4d ∷ 0x41 ∷ 0x58 ∷ 3 ∷ 0 ∷ 0 ∷ 0 ∷ 4 ∷ 0 ∷ 0 ∷ 0 ∷ replicate 16 9 ++ replicate 16 170

abbrev pub filled : CryptoCall → Trace → Bytes
filled (key_derivation_output_bytes n) t = replicate n 7
filled (cipher_update input n) t = padded_model
filled _ t = []

-- a request of the given type, with a result of four bytes
abbrev pub request_of : ℕ → ℕ → Msg
request_of type in_size = record {
  type = ipc_call type;
  handle = 6;
  in_size = in_size;
  out_size = 4;
}

-- a client that loads the model and then asks for inferences without an image
abbrev pub board : Env
board = record {
  get_status = λ t. success;
  message = λ t. if ltb 0 (received t) then request_of 0x1003 0 else request_of 0x1002 0;
  read_bytes = λ handle vec n t. replicate n 1;
  crypto_status = λ c t. success;
  filled = filled;
  key_id = λ t. 1;
  engine_status = λ c t. tm_ok;
  Float = ℕ;
  gt = λ a b. ltb b a;
  zero_float = 0;
  scores = λ t. 0 ∷ 3 ∷ 8 ∷ 8 ∷ [];
}

abbrev pub production : Build
production = record { dev_mode = false; mdl_data = encrypted; mdl_size = 44 }

abbrev pub started : World
started = record {
  model_loaded = false;
  decrypted_model = replicate 32 0;
  decrypted_size = 0;
  encryption_key = replicate 16 0;
  mnist_pic = replicate image_size 5;
  in_uint8 = image_shape;
  trace = [];
}

abbrev pub loaded : World
loaded = record started { model_loaded = true }
