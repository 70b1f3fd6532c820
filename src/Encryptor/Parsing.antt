-- ===== src/Encryptor/Parsing.antt =====
-- What the parser returns is a model with a name: bytes, not none, and a name of word characters.
use pico2w_tfm.Common.{
  ℕ, zero, suc, ◌≡◌, ◌<◌, arith, Bool, true, Bytes, IsByte, [], ◌∷◌, Option, none, some, Bool-cases,
  Option-cases, inl, inr, codes, length, All,
}
use pico2w_tfm.Encryptor.Text.{
  ◌>>=◌, is_digit, is_space, is_word, literal, take_while, drop_while, one_or_more, search_text,
}
use pico2w_tfm.Encryptor.Header.{
  Outcome, ok, raised, Parsed, spaces, array_tail, array_head, array_match, data_match, two_digits,
  hex_byte, hex_values, parsed_values, parse_tinymaix_header,
}

-- What holds of a value, if there is one.
abbrev Found {ℓ} : {A : Type ℓ} → (A → Type 0) → Option A → Type 0
Found P none = Unit {0}
Found P (some a) = P a

>>=-Found :
    {A B : Type 0} (P : A → Type 0) (Q : B → Type 0) (o : Option A) (f : A → Option B)
    → Found P o
    → ((a : A) → P a → Found Q (f a))
    → Found Q (o >>= f)
>>=-Found P Q none f h k = tt
>>=-Found P Q (some a) f h k = k a h

Found-any : {A : Type 0} (o : Option A) → Found (λ _. Unit {0}) o
Found-any none = tt
Found-any (some a) = tt

search_text-Found {ℓ} :
    {A : Type ℓ} (P : A → Type 0) (m : Bytes → Option A) (text : Bytes)
    → ((t : Bytes) → Found P (m t))
    → Found P (search_text m text)
unfolding search_text
search_text-Found P m [] h = h []
search_text-Found P m (x ∷ xs) h = elim (Option-cases (m (x ∷ xs))) [
  | inl none' ↦ rw (none', search_text) (search_text-Found P m xs h)
  | inr (a, some') ↦ rw (some', search_text) (rw some' at (h (x ∷ xs)))
]

take_while-All : (p : ℕ → Bool) (xs : Bytes) → All (λ x. p x ≡ true) (take_while p xs)
unfolding take_while
take_while-All p [] = tt
take_while-All p (x ∷ xs) = elim (Bool-cases (p x)) [
  | inl yes' ↦ rw yes' (yes', take_while-All p xs)
  | inr no' ↦ rw no' tt
]

one_or_more-All :
    (p : ℕ → Bool) (text : Bytes) → Found (λ r. All (λ x. p x ≡ true) r.0) (one_or_more p text)
unfolding one_or_more
one_or_more-All p [] = tt
one_or_more-All p (x ∷ xs) = elim (Bool-cases (p x)) [
  | inl yes' ↦ rw yes' (yes', take_while-All p xs)
  | inr no' ↦ rw no' tt
]

abbrev pub IsWordText : Bytes → Type 0
IsWordText name = All (λ c. is_word c ≡ true) name

array_tail-name :
    (name text : Bytes) → IsWordText name → Found (λ r. IsWordText r.0) (array_tail (name, text))
unfolding array_tail
array_tail-name name text h =
    let P = λ (r : Bytes × Bytes). IsWordText r.0 in
    >>=-Found (λ _. Unit {0}) P (literal (codes "[") text) _ (Found-any _)
      λ t _.
        >>=-Found (λ _. Unit {0}) P (literal (codes "]") (drop_while is_digit t)) _ (Found-any _)
          λ t _.
            >>=-Found (λ _. Unit {0}) P (literal (codes "=") (drop_while is_space t)) _
              (Found-any _) λ t _. h

array_match-name : (text : Bytes) → Found (λ r. IsWordText r.0) (array_match text)
unfolding array_match array_head
array_match-name text =
    let P = λ (r : Bytes × Bytes). IsWordText r.0 in
    >>=-Found (λ _. Unit {0}) P (literal (codes "const") text) _ (Found-any _)
      λ t _.
        >>=-Found (λ _. Unit {0}) P (spaces t) _ (Found-any _)
          λ t _.
            >>=-Found (λ _. Unit {0}) P (literal (codes "uint8_t") t) _ (Found-any _)
              λ t _.
                >>=-Found (λ _. Unit {0}) P (spaces t) _ (Found-any _)
                  λ t _.
                    >>=-Found P P (one_or_more is_word t) _ (one_or_more-All is_word t)
                      λ found h. array_tail-name found.0 found.1 h

two_digits-IsByte : (text : Bytes) → Found IsByte (two_digits text)
unfolding two_digits
two_digits-IsByte [] = tt
two_digits-IsByte (h ∷ []) = tt
two_digits-IsByte (h ∷ l ∷ rest) = ground arith

hex_byte-IsByte : (text : Bytes) → Found IsByte (hex_byte text)
unfolding hex_byte
hex_byte-IsByte text =
    >>=-Found (λ _. Unit {0}) IsByte (literal (codes "0x") text) _ (Found-any _)
      λ t _. two_digits-IsByte t

hex_values-IsByte : (skip : ℕ) (text : Bytes) → All IsByte (hex_values skip text)
unfolding hex_values
hex_values-IsByte zero [] = tt
hex_values-IsByte (suc skip) [] = tt
hex_values-IsByte (suc skip) (x ∷ xs) = hex_values-IsByte skip xs
hex_values-IsByte zero (x ∷ xs) = elim (Option-cases (hex_byte (x ∷ xs))) [
  | inl none' ↦ rw (none', hex_values) (hex_values-IsByte zero xs)
  | inr (b, some') ↦
      rw (some', hex_values) (rw some' at (hex_byte-IsByte (x ∷ xs)), hex_values-IsByte 3 xs)
]

-- What a header holds for the tool: a model of some bytes, under a name of letters, digits and
-- underscores.
pub record IsModel (p : Parsed) : Type 0 where
  pub all_bytes : All IsByte p.model_data
  pub nonempty : 0 < length p.model_data
  pub word : IsWordText p.array_name

abbrev pub Gives : (Parsed → Type 0) → Outcome Parsed → Type 0
Gives P (ok p) = P p
Gives P (raised _) = Unit

parsed_values-IsModel :
    (content name values : Bytes)
    → IsWordText name
    → All IsByte values
    → Gives IsModel (parsed_values content name values)
unfolding parsed_values
parsed_values-IsModel content name [] w h = tt
parsed_values-IsModel content name (b ∷ bs) w h = record {
  all_bytes = h;
  nonempty = omega arith;
  word = w;
}

-- Whatever text the parser takes, the model that it returns is made of bytes, at least one, and its
-- name of letters, digits and underscores.
pub parse_tinymaix_header-IsModel :
    (content : Bytes) → Gives IsModel (parse_tinymaix_header content)
unfolding parse_tinymaix_header
parse_tinymaix_header-IsModel content = elim (Option-cases (search_text array_match content)) [
  | inl none' ↦ rw (none', parse_tinymaix_header) tt
  | inr ((name, rest), found) ↦
      let word : IsWordText name =
        rw found at
          (search_text-Found (λ r. IsWordText r.0) array_match content array_match-name) in
      rw (found, parse_tinymaix_header)
        (elim (Option-cases (search_text (data_match name) content)) [
          | inl none' ↦ rw none' tt
          | inr (body, held) ↦ rw held (
              parsed_values-IsModel content name (hex_values 0 body) word
                (hex_values-IsByte 0 body))
        ])
]
