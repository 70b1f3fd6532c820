-- ===== src/Log/Printer.antt =====
-- lib/log/tfm_log_raw.c: the buffer and the output of strings and numbers.
use pico2w_tfm.Common.{
  ℕ, zero, suc, ◌+◌, ◌-◌, ◌/◌, ◌%◌, ◌^◌, Bool, ◌&&◌, List, [], ◌∷◌, Bytes, leb, ◌==◌, if◌then◌else◌,
  take, get_or, set,
}

abbrev pub print_buff_size : ℕ
print_buff_size = 32

abbrev pub num_buff_size : ℕ
num_buff_size = 12

-- `struct formatted_buffer_t`, and the strings that were given to `stdio_output_string`, the latest
-- first.
pub record Printer : Type 0 where
  pub pos : ℕ
  pub buf : Bytes
  pub outputs : List Bytes

-- `_tfm_flush_formatted_buffer`
unfoldable pub flush_formatted_buffer : Printer → ℕ → Printer
flush_formatted_buffer pb data' =
    let buf = set pb.buf pb.pos data' in
    let pos = pb.pos + 1 in
    if leb print_buff_size pos
    then record { pos = 0; buf = buf; outputs = take print_buff_size buf ∷ pb.outputs }
    else record { pos = pos; buf = buf; outputs = pb.outputs }

-- `_tfm_string_output`, on the characters before the final 0
unfoldable pub string_output : Printer → Bytes → ℕ × Printer
string_output pb [] = (0, pb)
string_output pb (c ∷ str) =
    let (count, pb') = string_output (flush_formatted_buffer pb c) str in (count + 1, pb')

-- The loop that fills `num_buff`, whose entries are given with the last one first: `fuel` is the
-- room in `num_buff`, and `digit` makes a character of a digit.
unfoldable pub fill_num_buff : (ℕ → ℕ) → ℕ → ℕ → ℕ → Bytes → Bytes
fill_num_buff digit base zero number num_buff = num_buff
fill_num_buff digit base (suc fuel) number num_buff =
    let filled = digit (number % base) ∷ num_buff in
    let rest = fill_num_buff digit base fuel (number / base) filled in
    if number / base == 0 then filled else rest

-- '0' + digit
abbrev pub dec_digit : ℕ → ℕ
dec_digit d = 48 + d

abbrev pub hex_digits_lo : Bytes
hex_digits_lo =
    b'0' ∷ b'1' ∷ b'2' ∷ b'3' ∷ b'4' ∷ b'5' ∷ b'6' ∷ b'7' ∷ b'8' ∷ b'9' ∷ b'a' ∷ b'b' ∷ b'c' ∷ b'd'
    ∷ b'e' ∷ b'f' ∷ []

abbrev pub hex_digits_up : Bytes
hex_digits_up =
    b'0' ∷ b'1' ∷ b'2' ∷ b'3' ∷ b'4' ∷ b'5' ∷ b'6' ∷ b'7' ∷ b'8' ∷ b'9' ∷ b'A' ∷ b'B' ∷ b'C' ∷ b'D'
    ∷ b'E' ∷ b'F' ∷ []

-- `_tfm_dec_num_output`; the number is the bit pattern of an `int32_t`, and the flag says whether the
-- sign is 'd'.
unfoldable pub dec_num_output : Printer → ℕ → Bool → ℕ × Printer
dec_num_output pb num sign =
    if sign && leb (2 ^ 31) num
    then (let (count, pb') =
          string_output (flush_formatted_buffer pb 45)
            (fill_num_buff dec_digit 10 num_buff_size ((2 ^ 32 - num) % 2 ^ 32) []) in
        (count + 1, pb'))
    else string_output pb (fill_num_buff dec_digit 10 num_buff_size num [])

-- `_tfm_hex_num_output`
unfoldable pub hex_num_output : Printer → ℕ → Bytes → ℕ × Printer
hex_num_output pb num hex_digits =
    string_output pb (fill_num_buff (λ d. get_or hex_digits d 0) 16 num_buff_size num [])
