-- ===== src/Encryptor/Rows.antt =====
-- The rows of the array, read back by the parser.
use pico2w_tfm.Common.{
  ℕ, zero, suc, ◌*◌, ◌/◌, ◌%◌, ◌≤◌, ◌<◌, ◌≡◌, ◌≢◌, refl, ◌∙◌, ap, sym, arith, true, Bytes, IsByte,
  [], ◌∷◌, ◌++◌, some, All, All-append, All-take, All-drop, codes, take, drop, length, length-drop,
  append_assoc,
}
use pico2w_tfm.Encryptor.Text.{is_hex}
use pico2w_tfm.Encryptor.Header.{hex_value, two_digits, hex_byte, hex_values}
use pico2w_tfm.Encryptor.Source.{hex_digit, two_hex, join_hex, rows}

is_hex-hex_digit : (d : ℕ) → d < 16 → is_hex (hex_digit d) ≡ true
is_hex-hex_digit d h = ground arith

hex_value-hex_digit : (d : ℕ) → d < 16 → hex_value (hex_digit d) ≡ d
hex_value-hex_digit d h = ground arith

two_digits-two_hex : (b : ℕ) (rest : Bytes) → IsByte b → two_digits (two_hex b ++ rest) ≡ some b
unfolding two_digits
two_digits-two_hex b rest h =
    rw
      (
        is_hex-hex_digit (b / 16) (omega arith),
        is_hex-hex_digit (b % 16) (omega arith),
        hex_value-hex_digit (b / 16) (omega arith),
        hex_value-hex_digit (b % 16) (omega arith),
      )
      (ap some (omega arith))

hex_byte-two_hex :
    (b : ℕ) (rest : Bytes) → IsByte b → hex_byte (codes "0x" ++ (two_hex b ++ rest)) ≡ some b
unfolding hex_byte
hex_byte-two_hex b rest h = two_digits-two_hex b rest h

-- One byte as it is printed.
hex_values-two_hex :
    (b : ℕ) (rest : Bytes)
    → IsByte b
    → hex_values 0 (codes "0x" ++ (two_hex b ++ rest)) ≡ b ∷ hex_values 0 rest
unfolding hex_values
hex_values-two_hex b rest h = rw (hex_byte-two_hex b rest h, hex_values) refl

hex_values-join_hex :
    (bs rest : Bytes) → All IsByte bs → hex_values 0 (join_hex bs ++ rest) ≡ bs ++ hex_values 0 rest
unfolding join_hex hex_values hex_byte
hex_values-join_hex [] rest h = refl
hex_values-join_hex (b ∷ []) rest h = hex_values-two_hex b rest h.0
hex_values-join_hex (b ∷ b' ∷ bs) rest h =
    hex_values-two_hex b (codes ", " ++ (join_hex (b' ∷ bs) ++ rest)) h.0
    ∙ ap (◌∷◌ b) (hex_values-join_hex (b' ∷ bs) rest h.1)

pub take-append-drop : (n : ℕ) (xs : Bytes) → take n xs ++ drop n xs ≡ xs
take-append-drop zero xs = refl
take-append-drop (suc n) [] = refl
take-append-drop (suc n) (x ∷ xs) = ap (◌∷◌ x) (take-append-drop n xs)

-- Enough rows hold all the bytes, in order.
pub hex_values-rows :
    (count : ℕ) (bytes rest : Bytes)
    → All IsByte bytes
    → length bytes ≤ 16 * count
    → hex_values 0 (rows count bytes rest) ≡ bytes ++ hex_values 0 rest
unfolding rows hex_values hex_byte
hex_values-rows zero [] rest h fits = refl
hex_values-rows zero (b ∷ bytes) rest h fits = absurd (omega arith)
hex_values-rows (suc count) bytes rest h fits =
    let front = take 16 bytes in
    let behind = drop 16 bytes in
    hex_values-join_hex front (codes ",\n" ++ rows count behind rest) (All-take IsByte 16 bytes h)
    ∙ ap (λ t. front ++ t)
        (hex_values-rows count behind rest (All-drop IsByte 16 bytes h)
          (omega (arith, length-drop 16 bytes)))
    ∙ sym (append_assoc front behind (hex_values 0 rest))
    ∙ ap (λ t. t ++ hex_values 0 rest) (take-append-drop 16 bytes)

-- What the rows are made of: neither '#' nor '}', nor anything behind 'x'.
abbrev pub IsPlain : ℕ → Type 0
IsPlain c = (c ≤ b'x') × (c ≢ b'#')

hex_digit-IsPlain : (d : ℕ) → d < 16 → IsPlain (hex_digit d)
hex_digit-IsPlain d h = ground arith

two_hex-IsPlain : (b : ℕ) → IsByte b → All IsPlain (two_hex b)
two_hex-IsPlain b h =
    (hex_digit-IsPlain (b / 16) (omega arith), (hex_digit-IsPlain (b % 16) (omega arith), tt))

join_hex-IsPlain : (bs : Bytes) → All IsByte bs → All IsPlain (join_hex bs)
unfolding join_hex
join_hex-IsPlain [] h = tt
join_hex-IsPlain (b ∷ []) h =
    All-append IsPlain (codes "0x") (two_hex b) (omega arith) (two_hex-IsPlain b h.0)
join_hex-IsPlain (b ∷ b' ∷ bs) h =
    let more = codes ", " ++ join_hex (b' ∷ bs) in
    All-append IsPlain (codes "0x") (two_hex b ++ more) (omega arith) (
      All-append IsPlain (two_hex b) more (two_hex-IsPlain b h.0) (
        All-append IsPlain (codes ", ") (join_hex (b' ∷ bs)) (omega arith)
          (join_hex-IsPlain (b' ∷ bs) h.1)))

pub rows-IsPlain :
    (count : ℕ) (bytes : Bytes) → All IsByte bytes → All IsPlain (rows count bytes [])
unfolding rows
rows-IsPlain zero bytes h = tt
rows-IsPlain (suc count) bytes h =
    let front = join_hex (take 16 bytes) in
    let more = codes ",\n" ++ rows count (drop 16 bytes) [] in
    All-append IsPlain (codes "    ") (front ++ more) (omega arith) (
      All-append IsPlain front more (join_hex-IsPlain (take 16 bytes) (All-take IsByte 16 bytes h))
        (All-append IsPlain (codes ",\n") (rows count (drop 16 bytes) []) (omega arith)
          (rows-IsPlain count (drop 16 bytes) (All-drop IsByte 16 bytes h))))

-- The rows stand in front of what follows them.
pub rows-append :
    (count : ℕ) (bytes rest : Bytes) → rows count bytes rest ≡ rows count bytes [] ++ rest
unfolding rows
rows-append zero bytes rest = refl
rows-append (suc count) bytes rest =
    ap (λ t. codes "    " ++ t)
      (ap (λ t. join_hex (take 16 bytes) ++ (codes ",\n" ++ t))
          (rows-append count (drop 16 bytes) rest)
        ∙ sym (append_assoc (join_hex (take 16 bytes)) _ rest))
