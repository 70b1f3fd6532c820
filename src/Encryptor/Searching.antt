-- ===== src/Encryptor/Searching.antt =====
-- What the searches of the parser pass over, and what its matchers take.
use pico2w_tfm.Common.{
  ℕ, zero, suc, ◌+◌, ◌/◌, ◌%◌, ◌≤◌, ◌≡◌, ◌≢◌, refl, ap, arith, Bool, true, false, Bytes, ◌==◌, [],
  ◌∷◌, ◌++◌, Option, none, some, All, codes, Bool-cases, inl, inr,
}
use pico2w_tfm.Encryptor.Text.{
  ◌>>=◌, is_space, is_word, literal, take_while, drop_while, one_or_more, search_text, digits_onto,
  decimal,
}
use pico2w_tfm.Encryptor.Header.{
  spaces, array_head, array_match, data_match, define_match, same_name,
}

-- A pattern that matches at the character `c` only.
pub record StartsAt {ℓ} {A : Type ℓ} (c : ℕ) (m : Bytes → Option A) : Type ℓ where
  pub nowhere : m [] ≡ none
  pub elsewhere : (x : ℕ) (xs : Bytes) → x ≢ c → m (x ∷ xs) ≡ none

module _ {ℓ} {A : Type ℓ} (m : Bytes → Option A) where
  -- The search passes over a text without the character.
  pub search_text-pass :
      {c : ℕ} (xs ys : Bytes)
      → StartsAt c m
      → All (λ x. x ≢ c) xs
      → search_text m (xs ++ ys) ≡ search_text m ys
  unfolding search_text
  search_text-pass [] ys s h = refl
  search_text-pass (x ∷ xs) ys s h =
      rw (s.elsewhere x (xs ++ ys) h.0) (search_text-pass xs ys s h.1)

  pub search_text-none :
      {c : ℕ} (xs : Bytes) → StartsAt c m → All (λ x. x ≢ c) xs → search_text m xs ≡ none
  unfolding search_text
  search_text-none [] s h = s.nowhere
  search_text-none (x ∷ xs) s h = rw (s.elsewhere x xs h.0, search_text) (search_text-none xs s h.1)

abbrev pub IsNoSpace : ℕ → Type 0
IsNoSpace c = is_space c ≡ false

spaces-none : (name rest : Bytes) → All IsNoSpace name → spaces (name ++ b'"' ∷ rest) ≡ none
unfolding spaces one_or_more
spaces-none [] rest h = refl
spaces-none (x ∷ xs) rest h = rw h.0 refl

-- Inside of a quoted name without white space there is no text with white space behind it.
literal-spaces :
    (text name rest : Bytes)
    → All (λ c. c ≢ b'"') text
    → All IsNoSpace name
    → (literal text (name ++ b'"' ∷ rest) >>= spaces) ≡ none
unfolding literal
literal-spaces [] name rest k h = spaces-none name rest h
literal-spaces (c ∷ cs) [] rest k h = ground (arith, k.0)
literal-spaces (c ∷ cs) (x ∷ xs) rest k h = elim (Bool-cases (c == x)) [
  | inl same ↦ rw same (literal-spaces cs xs rest k.1 h.1)
  | inr other ↦ rw other refl
]

module _ (matcher : Bytes → Option (Bytes × Bytes)) where
  pub array_head-StartsAt : StartsAt b'c' (array_head matcher)
  unfolding array_head
  array_head-StartsAt = record { nowhere = refl; elsewhere = λ x xs ne. ground arith }

  pub array_head-quoted :
      (name rest : Bytes) → All IsNoSpace name → array_head matcher (name ++ b'"' ∷ rest) ≡ none
  unfolding array_head
  array_head-quoted name rest h =
      ground (arith, literal-spaces (codes "const") name rest (omega arith) h)

pub array_match-StartsAt : StartsAt b'c' array_match
unfolding array_match
array_match-StartsAt = array_head-StartsAt (one_or_more is_word)

module _ (name : Bytes) where
  pub data_match-StartsAt : StartsAt b'c' (data_match name)
  unfolding data_match array_head
  data_match-StartsAt = record { nowhere = refl; elsewhere = λ x xs ne. ground arith }

  pub data_match-quoted :
      (quoted rest : Bytes) → All IsNoSpace quoted → data_match name (quoted ++ b'"' ∷ rest) ≡ none
  unfolding data_match
  data_match-quoted quoted rest h = rw (array_head-quoted (same_name name) quoted rest h) refl

  pub define_match-StartsAt : StartsAt b'#' (define_match name)
  unfolding define_match
  define_match-StartsAt = record { nowhere = refl; elsewhere = λ x xs ne. ground arith }

  pub define_match-quoted :
      (quoted rest : Bytes)
      → All IsNoSpace quoted
      → define_match name (quoted ++ b'"' ∷ rest) ≡ none
  unfolding define_match
  define_match-quoted quoted rest h =
      ground (arith, literal-spaces (codes "#define") quoted rest (omega arith) h)

-- A search passes over a quoted name without white space, if the pattern cannot match there.
pub search_text-quoted {ℓ} :
    {A : Type ℓ} (m : Bytes → Option A) (name rest : Bytes)
    → ((quoted behind : Bytes) → All IsNoSpace quoted → m (quoted ++ b'"' ∷ behind) ≡ none)
    → All IsNoSpace name
    → search_text m (name ++ b'"' ∷ rest) ≡ search_text m (b'"' ∷ rest)
unfolding search_text
search_text-quoted m [] rest fails h = refl
search_text-quoted m (x ∷ xs) rest fails h =
    rw (fails (x ∷ xs) rest h) (search_text-quoted m xs rest fails h.1)

-- What is passed over: neither '#' nor 'c', or neither '#' nor '}'.
pub literal-append : (xs rest : Bytes) → literal xs (xs ++ rest) ≡ some rest
unfolding literal
literal-append [] rest = refl
literal-append (x ∷ xs) rest = ground (arith, literal-append xs rest)

pub take_while-append :
    (p : ℕ → Bool) (xs : Bytes) (stop : ℕ) (rest : Bytes)
    → All (λ x. p x ≡ true) xs
    → p stop ≡ false
    → take_while p (xs ++ stop ∷ rest) ≡ xs
unfolding take_while
take_while-append p [] stop rest h e = rw e refl
take_while-append p (x ∷ xs) stop rest h e =
    rw h.0 (ap (◌∷◌ x) (take_while-append p xs stop rest h.1 e))

pub drop_while-append :
    (p : ℕ → Bool) (xs : Bytes) (stop : ℕ) (rest : Bytes)
    → All (λ x. p x ≡ true) xs
    → p stop ≡ false
    → drop_while p (xs ++ stop ∷ rest) ≡ stop ∷ rest
unfolding drop_while
drop_while-append p [] stop rest h e = rw e refl
drop_while-append p (x ∷ xs) stop rest h e = rw h.0 (drop_while-append p xs stop rest h.1 e)

-- A group takes the characters of its class, up to the first other one.
pub one_or_more-append :
    (p : ℕ → Bool) (x : ℕ) (xs : Bytes) (stop : ℕ) (rest : Bytes)
    → All (λ x. p x ≡ true) (x ∷ xs)
    → p stop ≡ false
    → one_or_more p ((x ∷ xs) ++ stop ∷ rest) ≡ some (x ∷ xs, stop ∷ rest)
unfolding one_or_more
one_or_more-append p x xs stop rest h e =
    rw (h.0, take_while-append p xs stop rest h.1 e, drop_while-append p xs stop rest h.1 e) refl

abbrev pub IsDigit : ℕ → Type 0
IsDigit c = (b'0' ≤ c) × (c ≤ b'9')

digits_onto-All :
    (fuel n : ℕ) (rest : Bytes) → All IsDigit rest → All IsDigit (digits_onto fuel n rest)
unfolding digits_onto
digits_onto-All zero n rest h = h
digits_onto-All (suc fuel) n rest h =
    let digit : IsDigit (48 + n % 10) = omega arith in
    elim (Bool-cases (n / 10 == 0)) [
      | inl last ↦ rw last (digit, h)
      | inr more ↦ rw more (digits_onto-All fuel (n / 10) ((48 + n % 10) ∷ rest) (digit, h))
    ]

pub decimal-All : (n : ℕ) → All IsDigit (decimal n)
unfolding decimal
decimal-All n = digits_onto-All (suc n) n [] tt
