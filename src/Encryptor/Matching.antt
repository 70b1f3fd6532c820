-- ===== src/Encryptor/Matching.antt =====
-- The array of a C source of `generate_c_header`, as the parser's patterns match it.
use pico2w_tfm.Common.{
  ℕ, ◌≡◌, ◌≢◌, refl, ◌∙◌, arith, true, not, ◌==◌, Bytes, IsByte, [], ◌∷◌, ◌++◌, Option, some, All,
  All-append, All-imp, codes, append-nil,
}
use pico2w_tfm.Encryptor.Text.{is_word, one_or_more, search_text}
use pico2w_tfm.Encryptor.Header.{
  array_tail, array_head, array_match, same_name, data_tail, data_match, hex_byte, hex_values,
}
use pico2w_tfm.Encryptor.Source.{rows, row_count, source_end}
use pico2w_tfm.Encryptor.Rows.{IsPlain, hex_values-rows}
use pico2w_tfm.Encryptor.Searching.{IsNoSpace, literal-append, one_or_more-append, IsDigit}
use pico2w_tfm.Encryptor.Passing.{array_part}

abbrev pub IsWord : ℕ → Type 0
IsWord c = is_word c ≡ true

pub IsWord-IsNoSpace : (c : ℕ) → IsWord c → IsNoSpace c
IsWord-IsNoSpace c h = ground arith

-- Where a search finds the pattern at once.
pub search_text-here :
    {A : Type 0} (m : Bytes → Option A) (x : ℕ) (xs : Bytes) {a : A}
    → m (x ∷ xs) ≡ some a
    → search_text m (x ∷ xs) ≡ some a
unfolding search_text
search_text-here m x xs h = rw (h, search_text) refl

-- The head of an array, up to the equals sign, for a matcher that takes the name.
pub array_head-array_part :
    (m : Bytes → Option (Bytes × Bytes)) (x : ℕ) (xs rest : Bytes)
    → IsWord x
    → m ((x ∷ xs) ++ (codes "[] = {\n" ++ rest)) ≡ some (x ∷ xs, codes "[] = {\n" ++ rest)
    → array_head m (array_part (x ∷ xs) rest) ≡ some (x ∷ xs, codes " {\n" ++ rest)
unfolding array_head array_tail
array_head-array_part m x xs rest w h = rw (IsWord-IsNoSpace x w, h) refl

pub array_match-array_part :
    (x : ℕ) (xs rest : Bytes)
    → All IsWord (x ∷ xs)
    → array_match (array_part (x ∷ xs) rest) ≡ some (x ∷ xs, codes " {\n" ++ rest)
unfolding array_match
array_match-array_part x xs rest h =
    array_head-array_part (one_or_more is_word) x xs rest h.0
      (one_or_more-append is_word x xs b'[' (codes "] = {\n" ++ rest) h refl)

pub same_name-append : (name rest : Bytes) → same_name name (name ++ rest) ≡ some (name, rest)
unfolding same_name
same_name-append name rest = rw (literal-append name rest) refl

pub IsPlain-in_braces : (c : ℕ) → IsPlain c → not (c == b'}') ≡ true
IsPlain-in_braces c h = ground arith

pub data_tail-braces :
    (body rest : Bytes)
    → All IsPlain body
    → data_tail (codes " {\n" ++ (body ++ b'}' ∷ rest)) ≡ some (b'\n' ∷ body)
unfolding data_tail
data_tail-braces body rest h =
    rw
      (one_or_more-append (λ c. not (c == b'}')) b'\n' body b'}' rest
        (refl, All-imp IsPlain (λ c. not (c == b'}') ≡ true) body IsPlain-in_braces h) refl)
      refl

pub data_match-array_part :
    (x : ℕ) (xs body rest : Bytes)
    → IsWord x
    → All IsPlain body
    → data_match (x ∷ xs) (array_part (x ∷ xs) (body ++ b'}' ∷ rest)) ≡ some (b'\n' ∷ body)
unfolding data_match
data_match-array_part x xs body rest w h =
    rw
      (array_head-array_part (same_name (x ∷ xs)) x xs (body ++ b'}' ∷ rest) w
        (same_name-append (x ∷ xs) (codes "[] = {\n" ++ (body ++ b'}' ∷ rest))))
      (data_tail-braces body rest h)

abbrev pub IsNoHash : ℕ → Type 0
IsNoHash c = c ≢ b'#'

pub IsWord-IsNoHash : (c : ℕ) → IsWord c → IsNoHash c
IsWord-IsNoHash c h = ground arith

pub IsPlain-IsNoHash : (c : ℕ) → IsPlain c → IsNoHash c
IsPlain-IsNoHash c h = h.1

pub source_end-IsNoHash : (name : Bytes) → All IsWord name → All IsNoHash (source_end name)
unfolding source_end
source_end-IsNoHash name h =
    let word = All-imp IsWord IsNoHash name IsWord-IsNoHash h in
    let third = codes "_data);\n\n" in
    let second = codes "_size = sizeof(" ++ (name ++ (third ++ [])) in
    All-append IsNoHash (codes "};\n\nconst size_t ") (name ++ second) (omega arith) (
      All-append IsNoHash name second word (
        All-append IsNoHash (codes "_size = sizeof(") (name ++ (third ++ [])) (omega arith)
          (All-append IsNoHash name (third ++ []) word (omega arith))))

pub array_part-IsNoHash :
    (name body rest : Bytes)
    → All IsWord name
    → All IsPlain body
    → All IsNoHash rest
    → All IsNoHash (array_part name (body ++ rest))
array_part-IsNoHash name body rest w h k =
    let behind = codes "[] = {\n" ++ (body ++ rest) in
    All-append IsNoHash (codes "const uint8_t ") (name ++ behind) (omega arith) (
      All-append IsNoHash name behind (All-imp IsWord IsNoHash name IsWord-IsNoHash w) (
        All-append IsNoHash (codes "[] = {\n") (body ++ rest) (omega arith)
          (All-append IsNoHash body rest (All-imp IsPlain IsNoHash body IsPlain-IsNoHash h) k)))

pub IsDigit-ne_c : (d : ℕ) → IsDigit d → d ≢ b'c'
IsDigit-ne_c d h = omega arith

-- The bytes between the braces, read back.
pub hex_values-body :
    (bytes : Bytes)
    → All IsByte bytes
    → hex_values 0 (b'\n' ∷ rows (row_count bytes) bytes []) ≡ bytes
unfolding hex_values hex_byte
hex_values-body bytes h =
    hex_values-rows (row_count bytes) bytes [] h (omega arith) ∙ append-nil bytes
