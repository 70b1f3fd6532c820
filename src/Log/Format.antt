-- ===== src/Log/Format.antt =====
-- lib/log/tfm_log_raw.c: the format string.
use pico2w_tfm.Common.{
  ℕ, ◌+◌, ◌%◌, Bool, true, false, ◌||◌, Option, none, some, List, [], ◌∷◌, Bytes, ◌==◌,
  if◌then◌else◌, take,
}
use pico2w_tfm.Log.Printer.{
  Printer, flush_formatted_buffer, string_output, dec_num_output, hex_num_output, hex_digits_lo,
  hex_digits_up,
}

-- An argument, as `va_arg` reads it: the word of a number, or a string.
pub data Arg : Type 0 where
  word : ℕ → Arg
  string : Bytes → Arg

-- `count`, what is left of the arguments, and `outputbuf`.
pub record Progress : Type 0 where
  pub count : ℕ
  pub args : List Arg
  pub printer : Printer

-- "[Unsupported Tag]"
abbrev pub unsupported_text : Bytes
unsupported_text =
    b'[' ∷ b'U' ∷ b'n' ∷ b's' ∷ b'u' ∷ b'p' ∷ b'p' ∷ b'o' ∷ b'r' ∷ b't' ∷ b'e' ∷ b'd' ∷ b' ' ∷ b'T'
    ∷ b'a' ∷ b'g' ∷ b']' ∷ []

-- the characters that a `case` of the switch has
abbrev pub is_tag : ℕ → Bool
is_tag c =
    c == b'd'
    || c == b'i'
    || c == b'u'
    || c == b'x'
    || c == b'X'
    || c == b'p'
    || c == b's'
    || c == b'c'
    || c == b'%'

-- `count += …`, for an output routine on `outputbuf`
unfoldable pub add_output : (Printer → ℕ × Printer) → List Arg → Progress → Progress
add_output output args s =
    let (n, pb) = output s.printer in record { count = s.count + n; args = args; printer = pb }

-- one character, with `count++`
unfoldable pub add_char : ℕ → List Arg → Progress → Progress
add_char c args s = record {
  count = s.count + 1;
  args = args;
  printer = flush_formatted_buffer s.printer c;
}

-- "0x" and the digits
unfoldable pub pointer_output : Printer → ℕ → ℕ × Printer
pointer_output pb num =
    let (n, pb₁) = string_output pb (b'0' ∷ b'x' ∷ []) in
    let (m, pb₂) = hex_num_output pb₁ num hex_digits_lo in (n + m, pb₂)

-- A tag that takes a number.
unfoldable pub print_word : ℕ → ℕ → List Arg → Progress → Progress
print_word c num args s =
    if c == b'd' || c == b'i'
    then add_output (λ pb. dec_num_output pb num true) args s
    else if c == b'u'
    then add_output (λ pb. dec_num_output pb num false) args s
    else if c == b'x'
    then add_output (λ pb. hex_num_output pb num hex_digits_lo) args s
    else if c == b'X'
    then add_output (λ pb. hex_num_output pb num hex_digits_up) args s
    else if c == b'p'
    then add_output (λ pb. pointer_output pb num) args s
    else add_char (num % 256) args s

-- One `case` of the switch. There is no result where the argument is missing or not of the kind that
-- the tag takes, which C leaves undefined.
abbrev pub print_arg : ℕ → List Arg → Progress → Option Progress
print_arg c [] s = none
print_arg c (word num ∷ args) s = if c == b's' then none else some (print_word c num args s)
print_arg c (string str ∷ args) s =
    if c == b's' then some (add_output (λ pb. string_output pb str) args s) else none

unfoldable pub print_tag : ℕ → Progress → Option Progress
print_tag c s = if c == b'%' then some (add_char b'%' s.args s) else print_arg c s.args s

-- the `default` of the switch
unfoldable pub unsupported_tag : Progress → Progress
unsupported_tag s = add_output (λ pb. string_output pb unsupported_text) s.args s

-- A character that stands behind a '%'. One that is no tag is not passed over: the loop goes on with
-- it, and prints it.
abbrev pub after_percent : ℕ → Progress → Option Progress
after_percent c s =
    if is_tag c then print_tag c s else (let s' = unsupported_tag s in some (add_char c s'.args s'))

-- `while (*fmt)`; the flag says that the '%' before `fmt` has been read.
unfoldable pub format_loop : Bytes → Bool → Option Progress → Option Progress
format_loop fmt percent none = none
format_loop [] false (some s) = some s
format_loop [] true (some s) = some (unsupported_tag s)
format_loop (c ∷ fmt) true (some s) = format_loop fmt false (after_percent c s)
format_loop (c ∷ fmt) false (some s) =
    format_loop fmt (c == b'%') (some (if c == b'%' then s else add_char c s.args s))

-- The serial port is the platform's: what `stdio_output_string` returns for a string, after others.
-- The last part of the buffer is printed; the result has the number that is returned, and the strings
-- that were printed, the latest first.
abbrev pub last_flush : (List Bytes → Bytes → ℕ) → Option Progress → Option (ℕ × List Bytes)
last_flush stdio_output_string none = none
last_flush stdio_output_string (some s) =
    let pb = s.printer in
    let last = take pb.pos pb.buf in
    some (
      if pb.pos == 0
      then (s.count, pb.outputs)
      else (s.count + stdio_output_string pb.outputs last, last ∷ pb.outputs))

-- `_tfm_log_vprintf`; `buf` is what the buffer on the stack has in it, and `outputs` what was
-- printed before.
unfoldable pub log_vprintf :
    (List Bytes → Bytes → ℕ) → Bytes → List Arg → Bytes → List Bytes → Option (ℕ × List Bytes)
log_vprintf stdio_output_string fmt args buf outputs =
    let pb : Printer = record { pos = 0; buf = buf; outputs = outputs } in
    last_flush stdio_output_string
      (format_loop fmt false (some (record { count = 0; args = args; printer = pb })))

-- `tfm_log_printf`
unfoldable pub tfm_log_printf :
    (List Bytes → Bytes → ℕ) → Bytes → List Arg → Bytes → List Bytes → Option (ℕ × List Bytes)
tfm_log_printf stdio_output_string fmt args buf outputs =
    log_vprintf stdio_output_string fmt args buf outputs
