-- ===== src/Inference/Tests.antt =====
-- The inference partition on a concrete package and concrete messages.
use pico2w_tfm.Common.{
  length-replicate, inr, ℕ, ◌≡◌, refl, ◌∷◌, [], ◌↔◌, Bytes, some, replicate, arith, length, ltb,
  read_u32,
}
use pico2w_tfm.Psa.{success, psa_reply, Trace}
use pico2w_tfm.Common.Int.{pos}
use pico2w_tfm.Inference.State.{World, ok, ◌>>=◌, check, check_or, call}
use pico2w_tfm.Inference.KeyDerivation.{derive_key_from_huk}
use pico2w_tfm.Inference.Padding.{strip_padding, padding_matches, pkcs7_pad}
use pico2w_tfm.Inference.Decrypt.{
  decrypt_model, check_package, header_of, init_crypto, derive_encryption_key,
  import_encryption_key, run_cipher, decrypt_bytes, finish_bytes, cipher_output, accept_plaintext,
}
use pico2w_tfm.Inference.Output.{parse_output, parse_from}
use pico2w_tfm.Inference.Service.{call_engine, infer, run_inference, serve, dispatch}
use pico2w_tfm.Inference.Argmax.{IsOrder, IsPrediction, parse_output-IsPrediction}
use pico2w_tfm.Inference.Service.{Build}
use pico2w_tfm.Psa.{Env}
use pico2w_tfm.History.{received}
use pico2w_tfm.Common.{ltb, true, if◌then◌else◌}
use pico2w_tfm.Inference.ModelKey.{HasOneKey}
use pico2w_tfm.Inference.GivenKey.{serve-HasOneKey}
use pico2w_tfm.Inference.Unpadding.{IsPadded, strip_padding_iff}
use pico2w_tfm.Inference.Armed.{IsArmed, serve-IsArmed}
use pico2w_tfm.Inference.Serving.{Served, dispatch-Served}
use pico2w_tfm.Inference.Replies.{Reported, run_inference-Reported}
use pico2w_tfm.Inference.Secrecy.{WritesWords, serve-WritesWords}
use pico2w_tfm.Inference.Images.{images, builtin_image_replaced}
use pico2w_tfm.Inference.RoundTrip.{IsDecrypted, decrypt_model-create_encrypted_package}
use pico2w_tfm.Inference.RoundTrip.Package.{create_encrypted_package}
use pico2w_tfm.Inference.RoundTrip.Stages.{Decrypts}
use pico2w_tfm.Inference.Accepted.{IsPackage, HoldsModel, decrypt_model_accepts}
use pico2w_tfm.Inference.Samples.{
  padded_model, encrypted, request_of, board, production, started, loaded,
}

ℕ-IsOrder : IsOrder (λ a b. ltb b a)
ℕ-IsOrder = record { asym = λ a b h. ground arith; not_gt_trans = λ a b c h k. ground arith }

parse_output-scores : parse_output (λ a b. ltb b a) 0 (0 ∷ 3 ∷ 8 ∷ 8 ∷ []) ≡ pos 2
unfolding parse_output parse_from
parse_output-scores = refl

decrypts : (decrypt_model board (some encrypted) 44 started).0 ≡ ok tt
unfolding decrypt_model check_package header_of read_u32 init_crypto derive_encryption_key
    derive_key_from_huk import_encryption_key run_cipher decrypt_bytes finish_bytes cipher_output
    accept_plaintext strip_padding padding_matches check check_or call ◌>>=◌
decrypts = refl

decrypt_model_accepts_example :
    IsPackage encrypted 44
    × HoldsModel (read_u32 encrypted 8) (decrypt_model board (some encrypted) 44 started).1
unfolding decrypt_model check_package header_of read_u32 init_crypto derive_encryption_key
    derive_key_from_huk import_encryption_key run_cipher decrypt_bytes finish_bytes cipher_output
    accept_plaintext strip_padding padding_matches check check_or call ◌>>=◌
decrypt_model_accepts_example =
    decrypt_model_accepts board encrypted 44 started
      (decrypt_model board (some encrypted) 44 started).1 refl

started-IsArmed : IsArmed started
started-IsArmed = record { runs = tt; loaded = λ h. cc h }

serve-IsArmed_example : IsArmed (serve board production 2 started)
serve-IsArmed_example = serve-IsArmed board production 2 started started-IsArmed

serve-WritesWords_example : WritesWords (serve board production 2 started).trace
serve-WritesWords_example = serve-WritesWords board production refl 2 started tt

dispatch-Served_example :
    Served board production
      (request_of 0x1003 784)
      loaded
      (dispatch board production (request_of 0x1003 784) loaded)
dispatch-Served_example = dispatch-Served board production (request_of 0x1003 784) loaded

run_inference-Reported_example :
    (t' : Trace) × ((run_inference board production (request_of 0x1003 0) loaded).trace
      ≡ psa_reply 6 success ∷ t')
    × Reported board production (request_of 0x1003 0) t'
unfolding run_inference infer call_engine
run_inference-Reported_example =
    run_inference-Reported board production ℕ-IsOrder (request_of 0x1003 0) loaded (omega arith)
      refl

strip_padding_iff_example : (strip_padding padded_model 16 ≡ ok 4) ↔ IsPadded padded_model 16 4
strip_padding_iff_example = strip_padding_iff padded_model 16 4

parse_output-IsPrediction_example :
    IsPrediction
      (λ a b. ltb b a)
      0
      (0 ∷ 3 ∷ 8 ∷ 8 ∷ [])
      (parse_output (λ a b. ltb b a) 0 (0 ∷ 3 ∷ 8 ∷ 8 ∷ []))
parse_output-IsPrediction_example =
    parse_output-IsPrediction (λ a b. ltb b a) ℕ-IsOrder 0 (0 ∷ 3 ∷ 8 ∷ 8 ∷ [])

builtin_image_replaced_example :
    images
      (run_inference board production
        (request_of 0x1003 0)
        (run_inference board production (request_of 0x1003 784) loaded)).trace
    ≡ replicate 784 1 ∷ replicate 784 1 ∷ []
builtin_image_replaced_example =
    builtin_image_replaced board production (request_of 0x1003 784) (request_of 0x1003 0) loaded
      refl refl refl refl refl

abbrev tiny_model : Bytes
tiny_model = 0x4d ∷ 0x41 ∷ 0x49 ∷ 0x58 ∷ []

board-Decrypts :
    Decrypts board (replicate 16 7) (replicate 16 9) (replicate 16 170) (pkcs7_pad tiny_model 16)
unfolding pkcs7_pad
board-Decrypts = record {
  succeeds = λ c t. refl;
  derives = λ t. refl;
  key_size = refl;
  outputs = λ n id t. refl;
}

abbrev with_buffer : World
with_buffer = record started { decrypted_model = replicate 4096 0 }

decrypt_model-create_encrypted_package_example :
    let bytes = create_encrypted_package tiny_model (replicate 16 9) (replicate 16 170) in
    let (r, w') = decrypt_model board (some bytes) (length bytes) with_buffer in
    (r ≡ ok tt) × IsDecrypted tiny_model w'
unfolding pkcs7_pad read_u32
decrypt_model-create_encrypted_package_example =
    decrypt_model-create_encrypted_package board tiny_model (replicate 16 7) (replicate 16 9)
      (replicate 16 170) with_buffer refl (omega arith) (length-replicate {A = ℕ} 4096 0) refl
      (omega arith) (inr refl) board-Decrypts

-- a DEV_MODE build whose client asks for the key and then loads the model
abbrev development : Build
development = record production { dev_mode = true }

abbrev asking : Env
asking = record board {
  message = λ t.
      if ltb 0 (received t)
      then request_of 0x1002 0
      else record (request_of 0x1004 0) { out_size = 16 };
}

serve-HasOneKey_example : HasOneKey (replicate 16 7) (serve asking development 2 started)
serve-HasOneKey_example =
    serve-HasOneKey asking development (replicate 16 7) refl (λ t. refl) 2 started
      (record { events = tt; size = refl })
