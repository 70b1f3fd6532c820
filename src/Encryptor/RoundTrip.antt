-- ===== src/Encryptor/RoundTrip.antt =====
-- The C source that `generate_c_header` writes is read back by `parse_tinymaix_header`.
use pico2w_tfm.Common.{
  ℕ, ◌<◌, ◌≡◌, ◌≢◌, refl, ◌∙◌, ap, arith, Bytes, IsByte, [], ◌∷◌, ◌++◌, Option, none, some, All,
  All-append, codes, length,
}
use mathlib.Core.Path.{subst}
use pico2w_tfm.Encryptor.Text.{search_text}
use pico2w_tfm.Encryptor.Header.{
  ok, array_match, data_match, define_match, define_value, parsed_values, parse_tinymaix_header,
}
use pico2w_tfm.Encryptor.Source.{rows, row_count, source_end, source_content}
use pico2w_tfm.Encryptor.Rows.{rows-IsPlain, rows-append}
use pico2w_tfm.Encryptor.Searching.{
  StartsAt, search_text-none, IsNoSpace, array_match-StartsAt, data_match-StartsAt,
  define_match-StartsAt, IsDigit,
}
use pico2w_tfm.Encryptor.Passing.{
  array_part, PassesOver, array_match-PassesOver, data_match-PassesOver, define_match-PassesOver,
  search_text-source_start,
}
use pico2w_tfm.Encryptor.Matching.{
  IsWord, search_text-here, array_match-array_part, data_match-array_part, source_end-IsNoHash,
  array_part-IsNoHash, IsDigit-ne_c, hex_values-body,
}

module _ (bytes header_name array_name : Bytes) (all_bytes : All IsByte bytes)
    (no_space : All IsNoSpace header_name) (word : All IsWord array_name) where
  abbrev name_of : Bytes
  name_of = array_name ++ codes "_data"

  abbrev text : Bytes
  text = source_content bytes header_name array_name

  abbrev body : Bytes
  body = rows (row_count bytes) bytes []

  name_of-IsWord : All IsWord name_of
  name_of-IsWord =
      All-append IsWord array_name (codes "_data") word (refl, (refl, (refl, (refl, (refl, tt)))))

  -- A search in the text goes on at the array, with the rows in front of the closing brace.
  search_text-source_content :
      {A : Type 0} {c : ℕ} (m : Bytes → Option A)
      → PassesOver m
      → StartsAt c m
      → ((x : ℕ) → IsDigit x → x ≢ c)
      → search_text m text ≡ search_text m (array_part name_of (body ++ source_end array_name))
  unfolding source_content
  search_text-source_content m p s no_digit =
      search_text-source_start header_name array_name no_space m (length bytes) _ p s no_digit
      ∙ ap (λ t. search_text m (array_part name_of t))
          (rows-append (row_count bytes) bytes (source_end array_name))

  define_value-source_content : (name : Bytes) → define_value name text ≡ 0
  unfolding define_value
  define_value-source_content name =
      let nowhere : search_text (define_match name) text ≡ none =
        search_text-source_content (define_match name) (define_match-PassesOver name)
          (define_match-StartsAt name) (λ x h. omega (arith, h))
        ∙ search_text-none (define_match name) _ (define_match-StartsAt name) (
            array_part-IsNoHash name_of body (source_end array_name) name_of-IsWord
              (rows-IsPlain (row_count bytes) bytes all_bytes)
              (source_end-IsNoHash array_name word)) in
      rw (nowhere, define_value) refl

  -- The two searches for the array, for the name as it begins.
  found_at :
      (x : ℕ) (xs : Bytes)
      → name_of ≡ x ∷ xs
      → All IsWord (x ∷ xs)
      → (search_text array_match text
          ≡ some (x ∷ xs, codes " {\n" ++ (body ++ source_end array_name)))
        × (search_text (data_match (x ∷ xs)) text ≡ some (b'\n' ∷ body))
  unfolding source_end
  found_at x xs e w = (
    search_text-source_content array_match array_match-PassesOver array_match-StartsAt IsDigit-ne_c
        ∙ ap (λ n. search_text array_match (array_part n (body ++ source_end array_name))) e
        ∙ search_text-here array_match _ _ (array_match-array_part x xs _ w),
    search_text-source_content (data_match (x ∷ xs)) (data_match-PassesOver (x ∷ xs))
          (data_match-StartsAt (x ∷ xs)) IsDigit-ne_c
        ∙ ap (λ n. search_text (data_match (x ∷ xs)) (array_part n (body ++ source_end array_name)))
            e
        ∙ search_text-here (data_match (x ∷ xs)) _ _ (
            data_match-array_part x xs body _ w.0 (rows-IsPlain (row_count bytes) bytes all_bytes)),
  )

  parsed_values-source_content :
      (values name : Bytes)
      → 0 < length values
      → parsed_values text name values
        ≡ ok (record { model_data = values; array_name = name; mdl_buf_len = 0; lbuf_len = 0 })
  unfolding parsed_values
  parsed_values-source_content [] name nonempty = absurd (omega arith)
  parsed_values-source_content (b ∷ bs) name nonempty =
      rw (define_value-source_content (codes "MDL_BUF_LEN"))
        (rw (define_value-source_content (codes "LBUF_LEN")) refl)

  -- A text whose array has a name that begins with `x`.
  parsed_at :
      (x : ℕ) (xs : Bytes)
      → name_of ≡ x ∷ xs
      → 0 < length bytes
      → parse_tinymaix_header text
        ≡ ok (record { model_data = bytes; array_name = x ∷ xs; mdl_buf_len = 0; lbuf_len = 0 })
  unfolding parse_tinymaix_header
  parsed_at x xs e nonempty =
      let (named, held) = found_at x xs e (subst (All IsWord) e name_of-IsWord) in
      rw (named, held, hex_values-body bytes all_bytes, parse_tinymaix_header)
        (parsed_values-source_content bytes (x ∷ xs) nonempty)

-- The C source that the tool generates is parsed by its own parser: for a package of bytes, not
-- empty, a header name without white space, and an array name of letters, digits and underscores,
-- `parse_tinymaix_header` finds in it exactly the bytes of the package, under the array's name with
-- its suffix, and no buffer lengths.
pub parse_tinymaix_header-source_content :
    (bytes header_name array_name : Bytes)
    → All IsByte bytes
    → 0 < length bytes
    → All IsNoSpace header_name
    → All IsWord array_name
    → parse_tinymaix_header (source_content bytes header_name array_name)
      ≡ ok (record {
        model_data = bytes;
        array_name = array_name ++ codes "_data";
        mdl_buf_len = 0;
        lbuf_len = 0;
      })
parse_tinymaix_header-source_content bytes header_name [] h nonempty no_space word =
    parsed_at bytes header_name [] h no_space word _ _ refl nonempty
parse_tinymaix_header-source_content bytes header_name (a ∷ as') h nonempty no_space word =
    parsed_at bytes header_name (a ∷ as') h no_space word a (as' ++ codes "_data") refl nonempty
