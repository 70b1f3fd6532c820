-- ===== src/Log/Tests.antt =====
-- The log's printer on concrete numbers and strings.
use pico2w_tfm.Common.{
  ℕ, ◌+◌, ◌%◌, true, some, List, ◌∷◌, [], ◌≡◌, refl, arith, Bytes, length, replicate,
}
use pico2w_tfm.Log.Printer.{
  Printer, flush_formatted_buffer, string_output, fill_num_buff, dec_num_output, hex_num_output,
  hex_digits_lo,
}
use pico2w_tfm.Log.Text.{IsValid, printed, text}
use pico2w_tfm.Log.Format.{
  Arg, word, string, add_output, add_char, print_word, print_tag, format_loop, log_vprintf,
  tfm_log_printf,
}
use pico2w_tfm.Log.Emits.{takes_word, takes_string}
use pico2w_tfm.Log.Rendering.{Fits, fits_end, fits_char, fits_percent, fits_tag}
use pico2w_tfm.Log.Logged.{Logged, tfm_log_printf_counts}

abbrev empty : Printer
empty = record { pos = 0; buf = replicate 32 0; outputs = [] }

empty-IsValid : IsValid empty
empty-IsValid = record { size = refl; room = omega arith }

-- a place before the end of the buffer
abbrev nearly_full : Printer
nearly_full = record { pos = 31; buf = replicate 32 46; outputs = [] }

nearly_full-IsValid : IsValid nearly_full
nearly_full-IsValid = record { size = refl; room = omega arith }

-- -12 as a bit pattern
text-minus : text (dec_num_output empty 4294967284 true).1 ≡ b'-' ∷ b'1' ∷ b'2' ∷ []
unfolding dec_num_output string_output fill_num_buff flush_formatted_buffer
text-minus = refl

text-hex : text (hex_num_output empty 0xbeef hex_digits_lo).1 ≡ b'b' ∷ b'e' ∷ b'e' ∷ b'f' ∷ []
unfolding hex_num_output string_output fill_num_buff flush_formatted_buffer
text-hex = refl

abbrev port : List Bytes → Bytes → ℕ
port os s = length s

-- "%d%%=0x%X %s"
abbrev format : Bytes
format = b'%' ∷ b'd' ∷ b'%' ∷ b'%' ∷ b'=' ∷ b'0' ∷ b'x' ∷ b'%' ∷ b'X' ∷ b' ' ∷ b'%' ∷ b's' ∷ []

abbrev args : List Arg
args = word 4294967284 ∷ word 0xbeef ∷ string (b'o' ∷ b'k' ∷ []) ∷ []

format-Fits : Fits format args
format-Fits = fits_tag (takes_word refl (omega arith)) (
    fits_percent (
      fits_char refl (
        fits_char refl (
          fits_char refl (
            fits_tag (takes_word refl (omega arith))
              (fits_char refl (fits_tag (takes_string refl) fits_end)))))))

-- "-12%=0xBEEF ok", and twice its length
tfm_log_printf-format :
    tfm_log_printf port format args (replicate 32 0) []
    ≡ some (
      28,
      (b'-' ∷ b'1' ∷ b'2' ∷ b'%' ∷ b'=' ∷ b'0' ∷ b'x' ∷ b'B' ∷ b'E' ∷ b'E' ∷ b'F' ∷ b' ' ∷ b'o'
            ∷ b'k' ∷ [])
          ∷ [],
    )
unfolding tfm_log_printf log_vprintf format_loop print_tag print_word add_output add_char
    dec_num_output hex_num_output string_output fill_num_buff flush_formatted_buffer
tfm_log_printf-format = refl

tfm_log_printf_counts_example :
    (out : Bytes) × (outputs' : List Bytes) × (tfm_log_printf port format args (replicate 32 0) []
      ≡ some (length out + length out % 32, outputs'))
    × (printed outputs' ≡ out)
tfm_log_printf_counts_example =
    tfm_log_printf_counts port format args (replicate 32 0) [] format-Fits refl (λ os s. refl)
