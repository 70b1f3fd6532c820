-- ===== src/Inference/Padding.antt =====
-- The manual removal of PKCS#7 padding in `decrypt_model`.
use pico2w_tfm.Common.{
  ℕ, zero, suc, ◌+◌, ◌-◌, Bool, true, Bytes, ltb, ◌==◌, ◌||◌, ◌&&◌, if◌then◌else◌, get_or, ◌%◌,
  ◌++◌, replicate, length,
}
use pico2w_tfm.Psa.{generic_error}
use pico2w_tfm.Inference.State.{Result, ok, err}

-- The loop over the padding bytes, from position `i` for `rounds` bytes: each must be `padding`.
unfoldable pub padding_matches : Bytes → ℕ → ℕ → ℕ → ℕ → Bool
padding_matches buf output_length padding i zero = true
padding_matches buf output_length padding i (suc rounds) =
    get_or buf (output_length - 1 - i) 0 == padding
    && padding_matches buf output_length padding (i + 1) rounds

-- The length without the padding, of `output_length` bytes in `buf`.
unfoldable pub strip_padding : Bytes → ℕ → Result ℕ
unfolding padding_matches
strip_padding buf output_length =
    let padding = get_or buf (output_length - 1) 0 in
    if output_length == 0
    then err generic_error
    else if padding == 0 || ltb 16 padding
    then err generic_error
    else if ltb output_length padding
    then err generic_error
    else if padding_matches buf output_length padding 0 padding
    then ok (output_length - padding)
    else err generic_error

-- `_pkcs7_pad` of tools/tinymaix_model_encryptor.py.
unfoldable pub pkcs7_pad : Bytes → ℕ → Bytes
pkcs7_pad data' block_size =
    let padding_length = block_size - length data' % block_size in
    data' ++ replicate padding_length padding_length
