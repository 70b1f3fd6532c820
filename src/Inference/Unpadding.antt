-- ===== src/Inference/Unpadding.antt =====
-- The removal of the padding accepts exactly PKCS#7 padding, and undoes the encryptor's `_pkcs7_pad`.
use pico2w_tfm.Common.{
  ◌∙◌, ℕ, zero, suc, ◌+◌, ◌-◌, ◌≤◌, ◌<◌, ◌≡◌, ◌↔◌, ◌%◌, refl, true, Bytes, arith, ◌++◌, get_or,
  length, replicate, length-append, length-replicate, get_or-append_left, get_or-append_right,
  get_or-replicate,
}
use pico2w_tfm.Inference.State.{ok}
use pico2w_tfm.Inference.Padding.{padding_matches, strip_padding, pkcs7_pad}

matches_sound :
    (buf : Bytes) (n p i rounds j : ℕ)
    → padding_matches buf n p i rounds ≡ true
    → i ≤ j
    → j < i + rounds
    → get_or buf (n - 1 - j) 0 ≡ p
unfolding padding_matches
matches_sound buf n p i zero j h lo hi = absurd (omega arith)
matches_sound buf n p i (suc rounds) j h lo hi =
    ground (arith, matches_sound buf n p (i + 1) rounds j)

matches_complete :
    (buf : Bytes) (n p i rounds : ℕ)
    → ((j : ℕ) → i ≤ j → j < i + rounds → get_or buf (n - 1 - j) 0 ≡ p)
    → padding_matches buf n p i rounds ≡ true
unfolding padding_matches
matches_complete buf n p i zero h = refl
matches_complete buf n p i (suc rounds) h = ground (
  arith,
  h i,
  matches_complete buf n p (i + 1) rounds (λ j lo hi. h j (omega arith) (omega arith)),
)

-- The first `n` bytes of `buf` end in PKCS#7 padding for blocks of 16, with `m` bytes before it.
pub record IsPadded (buf : Bytes) (n m : ℕ) : Type 0 where
  pub padding : ℕ
  pub positive : 0 < padding
  pub at_most_block : padding ≤ 16
  pub splits : m + padding ≡ n
  pub equal : (j : ℕ) → j < padding → get_or buf (n - 1 - j) 0 ≡ padding

pub strip_padding-IsPadded : (buf : Bytes) (n m : ℕ) → strip_padding buf n ≡ ok m → IsPadded buf n m
unfolding strip_padding
strip_padding-IsPadded buf n m h = record {
  padding = get_or buf (n - 1) 0;
  positive = ground arith;
  at_most_block = ground arith;
  splits = ground arith;
  equal =
      λ j lt. ground (arith, matches_sound buf n (get_or buf (n - 1) 0) 0 (get_or buf (n - 1) 0) j);
}

pub IsPadded-strip_padding : (buf : Bytes) (n m : ℕ) → IsPadded buf n m → strip_padding buf n ≡ ok m
unfolding strip_padding
IsPadded-strip_padding buf n m v =
    let last : get_or buf (n - 1 - 0) 0 ≡ v.padding = v.equal 0 v.positive in
    let start : n - 1 - 0 ≡ n - 1 = omega arith in
    let all : padding_matches buf n v.padding 0 v.padding ≡ true =
      matches_complete buf n v.padding 0 v.padding (λ j lo hi. v.equal j (omega arith)) in
    ground arith

-- `decrypt_model` takes `m` bytes for the model of `n` decrypted bytes exactly when the rest is
-- PKCS#7 padding: 1 to 16 bytes, each of which is their number.
pub strip_padding_iff : (buf : Bytes) (n m : ℕ) → (strip_padding buf n ≡ ok m) ↔ IsPadded buf n m
strip_padding_iff buf n m = (strip_padding-IsPadded buf n m, IsPadded-strip_padding buf n m)

-- The position that the loop reads, `j` bytes before the end, is the position `p - 1 - j` of the
-- padding.
pkcs7_pad-equal :
    (model : Bytes) (p j : ℕ) (rest : Bytes)
    → j < p
    → get_or ((model ++ replicate p p) ++ rest) (length model + p - 1 - j) 0 ≡ p
pkcs7_pad-equal model p j rest h =
    get_or-append_left (model ++ replicate p p) rest (length model + p - 1 - j) 0
      (omega (arith, length-append model (replicate p p), length-replicate p p))
    ∙ get_or-append_right model (replicate p p) (p - 1 - j) (length model + p - 1 - j) 0
        (omega arith)
    ∙ get_or-replicate p p (p - 1 - j) 0 (omega arith)

-- A buffer that begins with a model padded by the encryptor's `_pkcs7_pad` for blocks of 16 bytes,
-- whatever the model and whatever lies behind it, gives back exactly the model's length.
pub strip_padding-pkcs7_pad :
    (model rest : Bytes)
    → strip_padding (pkcs7_pad model 16 ++ rest) (length (pkcs7_pad model 16)) ≡ ok (length model)
unfolding pkcs7_pad
strip_padding-pkcs7_pad model rest =
    let p = 16 - length model % 16 in
    IsPadded-strip_padding _ _ _ (record {
      padding = p;
      positive = omega arith;
      at_most_block = omega arith;
      splits = omega (arith, length-append model (replicate p p), length-replicate p p);
      equal = λ j lt.
          rw (length-append model (replicate p p), length-replicate p p)
            (pkcs7_pad-equal model p j rest lt);
    })
