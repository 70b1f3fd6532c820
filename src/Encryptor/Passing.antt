-- ===== src/Encryptor/Passing.antt =====
-- The searches of the parser in a C source of `generate_c_header` go on to its array.
use pico2w_tfm.Common.{
  ℕ, ◌≡◌, ◌≢◌, refl, ◌∙◌, ap, sym, Bytes, ◌∷◌, ◌++◌, Option, none, All, All-imp, codes,
  append_assoc,
}
use pico2w_tfm.Encryptor.Text.{is_word, one_or_more, search_text, decimal}
use pico2w_tfm.Encryptor.Header.{array_head, array_match, data_match, define_match}
use pico2w_tfm.Encryptor.Source.{source_start}
use pico2w_tfm.Encryptor.Searching.{
  StartsAt, search_text-pass, IsNoSpace, array_head-quoted, data_match-quoted, define_match-quoted,
  search_text-quoted, IsDigit, decimal-All,
}

-- the texts before the array, up to the file name, up to the size, and behind it
abbrev first_part : Bytes → Bytes
first_part rest =
    codes "/* Auto-generated encrypted TinyMAIX model */\n"
    ++ (codes "/* Generated by tinymaix_model_encryptor.py */\n\n#include \"" ++ rest)

abbrev second_part : Bytes → Bytes
second_part rest = codes "\"\n\n/* Encrypted model data (" ++ rest

abbrev third_part : Bytes → Bytes
third_part rest = codes " bytes) */\n" ++ rest

abbrev pub array_part : Bytes → Bytes → Bytes
array_part name rest = codes "const uint8_t " ++ (name ++ (codes "[] = {\n" ++ rest))

-- A pattern that is found neither in the fixed texts nor in a file name.
pub record PassesOver {A : Type 0} (m : Bytes → Option A) : Type 0 where
  first : (rest : Bytes) → search_text m (first_part rest) ≡ search_text m rest
  second : (rest : Bytes) → search_text m (second_part rest) ≡ search_text m rest
  third : (rest : Bytes) → search_text m (third_part rest) ≡ search_text m rest
  quoted : (name behind : Bytes) → All IsNoSpace name → m (name ++ b'"' ∷ behind) ≡ none

pub array_match-PassesOver : PassesOver array_match
unfolding array_match array_head search_text
array_match-PassesOver = record {
  first = λ rest. refl;
  second = λ rest. refl;
  third = λ rest. refl;
  quoted = array_head-quoted (one_or_more is_word);
}

pub data_match-PassesOver : (name : Bytes) → PassesOver (data_match name)
unfolding data_match array_head search_text
data_match-PassesOver name = record {
  first = λ rest. refl;
  second = λ rest. refl;
  third = λ rest. refl;
  quoted = data_match-quoted name;
}

pub define_match-PassesOver : (name : Bytes) → PassesOver (define_match name)
unfolding define_match search_text
define_match-PassesOver name = record {
  first = λ rest. refl;
  second = λ rest. refl;
  third = λ rest. refl;
  quoted = define_match-quoted name;
}

module _ (header_name array_name : Bytes) (no_space : All IsNoSpace header_name) where
  -- The name with its suffix.
  abbrev pub data_name : Bytes
  data_name = array_name ++ codes "_data"

  -- A search goes on at the array.
  pub search_text-source_start :
      {A : Type 0} {c : ℕ} (m : Bytes → Option A) (size : ℕ) (rest : Bytes)
      → PassesOver m
      → StartsAt c m
      → ((x : ℕ) → IsDigit x → x ≢ c)
      → search_text m (source_start size header_name array_name rest)
        ≡ search_text m (array_part data_name rest)
  unfolding source_start
  search_text-source_start {c} m size rest p s no_digit =
      let array = codes "const uint8_t " ++ (array_name ++ (codes "_data[] = {\n" ++ rest)) in
      let digits = All-imp IsDigit (λ x. x ≢ c) (decimal size) no_digit (decimal-All size) in
      p.first _
      ∙ search_text-quoted m header_name _ p.quoted no_space
      ∙ p.second (decimal size ++ third_part array)
      ∙ search_text-pass m (decimal size) (third_part array) s digits
      ∙ p.third array
      ∙ ap (λ t. search_text m (codes "const uint8_t " ++ t))
          (sym (append_assoc array_name (codes "_data") (codes "[] = {\n" ++ rest)))
