-- ===== src/Encryptor/Text.antt =====
-- What the encryptor uses of Python's `re` and `str`: a matcher takes a text, and gives a value with
-- the rest of the text behind the match. Texts are ASCII.
use pico2w_tfm.Common.{
  ℕ, zero, suc, ◌+◌, ◌-◌, ◌*◌, ◌/◌, ◌%◌, Bool, true, false, ◌&&◌, ◌||◌, Bytes, leb, ◌==◌,
  if◌then◌else◌, [], ◌∷◌, ◌++◌, Option, none, some, length,
}

infixl 5 ◌>>=◌
abbrev pub ◌>>=◌ : {A B : Type 0} → Option A → (A → Option B) → Option B
none >>= f = none
some a >>= f = f a

-- `\s`, `\d`, `\w` and `[0-9a-fA-F]`
abbrev pub is_space : ℕ → Bool
is_space c = c == b' ' || (leb 9 c && leb c 13) || (leb 28 c && leb c 31)

abbrev pub is_digit : ℕ → Bool
is_digit c = leb b'0' c && leb c b'9'

abbrev pub is_word : ℕ → Bool
is_word c = is_digit c || (leb b'a' c && leb c b'z') || (leb b'A' c && leb c b'Z') || c == b'_'

abbrev pub is_hex : ℕ → Bool
is_hex c = is_digit c || (leb b'a' c && leb c b'f') || (leb b'A' c && leb c b'F')

-- a text that is matched as it stands
unfoldable pub literal : Bytes → Bytes → Option Bytes
literal [] text = some text
literal (c ∷ cs) [] = none
literal (c ∷ cs) (x ∷ xs) = if c == x then literal cs xs else none

unfoldable pub take_while : (ℕ → Bool) → Bytes → Bytes
take_while p [] = []
take_while p (x ∷ xs) = if p x then x ∷ take_while p xs else []

unfoldable pub drop_while : (ℕ → Bool) → Bytes → Bytes
drop_while p [] = []
drop_while p (x ∷ xs) = if p x then drop_while p xs else x ∷ xs

-- `[class]+` as a group. What follows it in each pattern is not of the class, so the longest match is
-- the one that `re` keeps.
unfoldable pub one_or_more : (ℕ → Bool) → Bytes → Option (Bytes × Bytes)
unfolding take_while drop_while
one_or_more p [] = none
one_or_more p (x ∷ xs) = if p x then some (x ∷ take_while p xs, drop_while p xs) else none

-- `re.search`: the first position at which the pattern matches.
unfoldable pub search_text {ℓ} : {A : Type ℓ} → (Bytes → Option A) → Bytes → Option A
search_text m [] = m []
search_text m (x ∷ xs) = elim (m (x ∷ xs)) [ none ↦ search_text m xs | some a ↦ some a ]

-- `int(digits)`, behind the digits of `n`
unfoldable pub int_of : Bytes → ℕ → ℕ
int_of [] n = n
int_of (c ∷ cs) n = int_of cs (n * 10 + (c - 48))

-- The decimal digits of a number in front of `rest`; `number + 1` rounds are enough.
unfoldable pub digits_onto : ℕ → ℕ → Bytes → Bytes
digits_onto zero number rest = rest
digits_onto (suc fuel) number rest =
    let here = (48 + number % 10) ∷ rest in
    let more = digits_onto fuel (number / 10) here in if number / 10 == 0 then here else more

-- `f"{number}"`
unfoldable pub decimal : ℕ → Bytes
unfolding digits_onto
decimal number = digits_onto (suc number) number []

-- `text.replace(old, new)` for a text `old` that is not empty, behind `skip` characters that a match
-- has taken.
unfoldable pub replace_from : ℕ → Bytes → Bytes → Bytes → Bytes
replace_from skip old new [] = []
replace_from (suc skip) old new (x ∷ xs) = replace_from skip old new xs
replace_from zero old new (x ∷ xs) = elim (literal old (x ∷ xs)) [
  | none ↦ x ∷ replace_from zero old new xs
  | some _ ↦ new ++ replace_from (length old - 1) old new xs
]

abbrev pub replace : Bytes → Bytes → Bytes → Bytes
replace old new text = replace_from 0 old new text

-- `text.upper()`
unfoldable pub upper : Bytes → Bytes
upper [] = []
upper (c ∷ cs) = (if leb b'a' c && leb c b'z' then c - 32 else c) ∷ upper cs

-- `os.path.basename`: what stands behind the last '/'.
unfoldable pub basename_from : Bytes → Bytes → Bytes
basename_from current [] = current
basename_from current (c ∷ cs) = basename_from (if c == b'/' then [] else current ++ (c ∷ [])) cs

abbrev pub basename : Bytes → Bytes
basename path = basename_from [] path

-- `==` on paths
unfoldable pub equal_text : Bytes → Bytes → Bool
equal_text [] [] = true
equal_text (x ∷ xs) (y ∷ ys) = x == y && equal_text xs ys
equal_text _ _ = false
