-- ===== src/Log/Hex.antt =====
-- lib/log/tfm_log_raw.c: the hexadecimal numbers, and what stands in them.
use pico2w_tfm.Common.{
  ℕ, zero, suc, ◌<◌, ◌≡◌, refl, ◌∙◌, arith, Bool, true, ◌&&◌, [], Bytes, ◌==◌, ==_iff, IsU32,
  get_or, append-nil,
}
use pico2w_tfm.Log.Digits.{Digits, lower_digit, upper_digit, sixteen-IsBase, fill_num_buff-Digits}
use pico2w_tfm.Log.Printer.{Printer, num_buff_size, hex_digits_lo, hex_digits_up, hex_num_output}
use pico2w_tfm.Log.Text.{IsValid, Prints, string_output-Prints}

all_below : ℕ → (ℕ → Bool) → Bool
all_below zero p = true
all_below (suc n) p = p n && all_below n p

all_below_lem : (n : ℕ) (p : ℕ → Bool) (x : ℕ) → all_below n p ≡ true → x < n → p x ≡ true
unfolding all_below
all_below_lem zero p x h less = absurd (omega arith)
all_below_lem (suc n) p x h less = ground (arith, all_below_lem n p x)

-- The table has the digits below 16 in their places.
abbrev pub IsHexTable : Bytes → (ℕ → ℕ) → Type 0
IsHexTable hex_digits digit = (d : ℕ) → d < 16 → get_or hex_digits d 0 ≡ digit d

lo_table : all_below 16 (λ d. get_or hex_digits_lo d 0 == lower_digit d) ≡ true
unfolding all_below
lo_table = refl

up_table : all_below 16 (λ d. get_or hex_digits_up d 0 == upper_digit d) ≡ true
unfolding all_below
up_table = refl

table-IsHexTable :
    (hex_digits : Bytes) (digit : ℕ → ℕ)
    → all_below 16 (λ d. get_or hex_digits d 0 == digit d) ≡ true
    → IsHexTable hex_digits digit
table-IsHexTable hex_digits digit checked d h =
    (==_iff (get_or hex_digits d 0) (digit d)).0
      (all_below_lem 16 (λ d. get_or hex_digits d 0 == digit d) d checked h)

pub hex_digits_lo-IsHexTable : IsHexTable hex_digits_lo lower_digit
hex_digits_lo-IsHexTable = table-IsHexTable hex_digits_lo lower_digit lo_table

pub hex_digits_up-IsHexTable : IsHexTable hex_digits_up upper_digit
hex_digits_up-IsHexTable = table-IsHexTable hex_digits_up upper_digit up_table

-- With a free place in the buffer, a 32-bit number is printed and counted as its hexadecimal digits.
pub hex_num_output-Prints :
    (hex_digits : Bytes) (digit : ℕ → ℕ)
    → IsHexTable hex_digits digit
    → (pb : Printer) (num : ℕ) → IsValid pb
    → IsU32 num
    → (str : Bytes) × Digits digit 16 num str × Prints pb str (hex_num_output pb num hex_digits)
unfolding hex_num_output
hex_num_output-Prints hex_digits digit table pb num v range =
    let (str, digits, e) =
      fill_num_buff-Digits 16 sixteen-IsBase (λ d. get_or hex_digits d 0) digit table num_buff_size
        num [] (omega arith) (omega arith) in
    (str, digits, rw (e ∙ append-nil str) (string_output-Prints pb str v))
