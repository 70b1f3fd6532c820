-- ===== src/Encryptor/Header.antt =====
-- `parse_tinymaix_header`: the model out of a C header's text.
use pico2w_tfm.Common.{
  ℕ, zero, suc, ◌+◌, ◌-◌, ◌*◌, not, ◌&&◌, Bytes, ltb, ◌==◌, if◌then◌else◌, [], ◌∷◌, Option, none,
  some, codes,
}
use pico2w_tfm.Encryptor.Text.{
  ◌>>=◌, is_space, is_digit, is_word, is_hex, literal, drop_while, one_or_more, search_text, int_of,
}

-- The exceptions that the encryptor and what it calls raise: the four ValueErrors of the parser and
-- of the key handling by their messages, `struct.error`, and those of the files and of the ciphers.
pub data Error : Type 0 where
  no_array no_array_data no_hex_values invalid_key_file no_key_option : Error
  struct_error os_error cipher_error : Error

pub data Outcome {ℓ} (A : Type ℓ) : Type ℓ where
  ok : A → Outcome A
  raised : Error → Outcome A

pub record Parsed : Type 0 where
  pub model_data : Bytes
  pub array_name : Bytes
  pub mdl_buf_len : ℕ
  pub lbuf_len : ℕ

-- `\s+`
unfoldable pub spaces : Bytes → Option Bytes
unfolding one_or_more
spaces text = do (_, rest) ← one_or_more is_space text; some rest

-- `\[\d*\]\s*=`, behind a name
unfoldable pub array_tail : Bytes × Bytes → Option (Bytes × Bytes)
unfolding literal drop_while
array_tail (name, text) = do
  t ← literal (codes "[") text
  t ← literal (codes "]") (drop_while is_digit t)
  t ← literal (codes "=") (drop_while is_space t)
  some (name, t)

-- `const\s+uint8_t\s+NAME\[\d*\]\s*=`, with a matcher for the name
unfoldable pub array_head : (Bytes → Option (Bytes × Bytes)) → Bytes → Option (Bytes × Bytes)
unfolding spaces literal
array_head name_matcher text = do
  t ← literal (codes "const") text
  t ← spaces t
  t ← literal (codes "uint8_t") t
  t ← spaces t
  found ← name_matcher t
  array_tail found

unfoldable pub array_match : Bytes → Option (Bytes × Bytes)
array_match = array_head (one_or_more is_word)

-- the name that was found, as it stands
unfoldable pub same_name : Bytes → Bytes → Option (Bytes × Bytes)
same_name name text = do t ← literal name text; some (name, t)

-- `\s*\{([^}]+)\}`: the text between the braces
unfoldable pub data_tail : Bytes → Option Bytes
unfolding literal drop_while
data_tail text = do
  t ← literal (codes "{") (drop_while is_space text)
  (hex_data, t) ← one_or_more (λ c. not (c == b'}')) t
  _ ← literal (codes "}") t
  some hex_data

-- `array_pattern`
unfoldable pub data_match : Bytes → Bytes → Option Bytes
data_match array_name text = do (_, t) ← array_head (same_name array_name) text; data_tail t

-- `#define\s+NAME\s+\((\d+)\)`
unfoldable pub define_match : Bytes → Bytes → Option ℕ
unfolding spaces one_or_more literal int_of
define_match name text = do
  t ← literal (codes "#define") text
  t ← spaces t
  t ← literal name t
  t ← spaces t
  t ← literal (codes "(") t
  (digits, t) ← one_or_more is_digit t
  _ ← literal (codes ")") t
  some (int_of digits 0)

-- `int(match.group(1)) if match else 0`
unfoldable pub define_value : Bytes → Bytes → ℕ
define_value name text = elim (search_text (define_match name) text) [ none ↦ 0 | some n ↦ n ]

-- the value of '0' to '9', 'A' to 'F' and 'a' to 'f'
abbrev pub hex_value : ℕ → ℕ
hex_value c = if ltb c 58 then c - 48 else (if ltb c 71 then c - 55 else c - 87)

unfoldable pub two_digits : Bytes → Option ℕ
two_digits (h ∷ l ∷ _) =
    if is_hex h && is_hex l then some (hex_value h * 16 + hex_value l) else none
two_digits _ = none

-- `0x([0-9a-fA-F]{2})`, as the byte that it stands for
unfoldable pub hex_byte : Bytes → Option ℕ
unfolding literal
hex_byte text = do t ← literal (codes "0x") text; two_digits t

-- `bytes(int(h, 16) for h in re.findall(..., hex_data))`, behind `skip` characters that a match has
-- taken.
unfoldable pub hex_values : ℕ → Bytes → Bytes
hex_values skip [] = []
hex_values (suc skip) (x ∷ xs) = hex_values skip xs
hex_values zero (x ∷ xs) = elim (hex_byte (x ∷ xs)) [
  | none ↦ hex_values zero xs
  | some b ↦ b ∷ hex_values 3 xs
]

-- `if not hex_values: raise`
unfoldable pub parsed_values : Bytes → Bytes → Bytes → Outcome Parsed
parsed_values content name [] = raised no_hex_values
parsed_values content name (b ∷ bs) = ok (record {
  model_data = b ∷ bs;
  array_name = name;
  mdl_buf_len = define_value (codes "MDL_BUF_LEN") content;
  lbuf_len = define_value (codes "LBUF_LEN") content;
})

unfoldable pub parse_tinymaix_header : Bytes → Outcome Parsed
parse_tinymaix_header content = elim (search_text array_match content) [
  | none ↦ raised no_array
  | some (array_name, _) ↦ elim (search_text (data_match array_name) content) [
    | none ↦ raised no_array_data
    | some hex_data ↦ parsed_values content array_name (hex_values 0 hex_data)
  ]
]
