-- ===== src/Log/Digits.antt =====
-- Numbers as text: the digits of a number in a base, and lib/log/tfm_log_raw.c's loop that makes
-- them.
use pico2w_tfm.Common.{
  ℕ, zero, suc, ◌+◌, ◌-◌, ◌*◌, ◌/◌, ◌%◌, ◌^◌, ◌≤◌, ◌<◌, ◌≡◌, refl, ap, sym, ◌∙◌, arith, [], ◌∷◌,
  ◌++◌, Bytes, ltb, ◌==◌, if◌then◌else◌, append_assoc, Bool-cases, inl, inr,
}
use native.Mathlib.Nat.{pow-suc, pow-zero}
use pico2w_tfm.Log.Printer.{fill_num_buff}

-- `str` is the number in the base, its digits written by `digit`: one digit for a number below the
-- base, and else the last digit behind the digits of the number without it. So there are no leading
-- zeros, and "0" is the text of 0.
pub data Digits (digit : ℕ → ℕ) (base : ℕ) : ℕ → Bytes → Type 0 where
  one_digit : {n : ℕ} → n < base → Digits digit base n (digit n ∷ [])
  more_digits :
      {n : ℕ} {str : Bytes}
      → base ≤ n
      → Digits digit base (n / base) str
      → Digits digit base n (str ++ (digit (n % base) ∷ []))

-- '0' to '9'
abbrev pub decimal_digit : ℕ → ℕ
decimal_digit d = b'0' + d

-- '0' to '9', and the letters from 'a' or from 'A' on
abbrev pub lower_digit : ℕ → ℕ
lower_digit d = if ltb d 10 then b'0' + d else b'a' + (d - 10)

abbrev pub upper_digit : ℕ → ℕ
upper_digit d = if ltb d 10 then b'0' + d else b'A' + (d - 10)

-- What a base has of division.
pub record IsBase (base : ℕ) : Type 0 where
  pub below : (n : ℕ) → n < base → n % base ≡ n
  pub digit : (n : ℕ) → n % base < base
  pub small : (n : ℕ) → n / base ≡ 0 → n < base
  pub large : (n : ℕ) → 0 < n / base → base ≤ n
  pub shorter : (n m : ℕ) → n < m * base → n / base < m

pub ten-IsBase : IsBase 10
ten-IsBase = record {
  below = λ n h. omega arith;
  digit = λ n. omega arith;
  small = λ n h. omega arith;
  large = λ n h. omega arith;
  shorter = λ n m h. omega arith;
}

pub sixteen-IsBase : IsBase 16
sixteen-IsBase = record {
  below = λ n h. omega arith;
  digit = λ n. omega arith;
  small = λ n h. omega arith;
  large = λ n h. omega arith;
  shorter = λ n m h. omega arith;
}

-- A number has one text.
pub Digits-unique :
    {digit : ℕ → ℕ} {base n : ℕ} {a b : Bytes}
    → Digits digit base n a
    → Digits digit base n b
    → a ≡ b
Digits-unique (one_digit h) (one_digit k) = refl
Digits-unique (one_digit h) (more_digits k q) = absurd (omega arith)
Digits-unique (more_digits h p) (one_digit k) = absurd (omega arith)
Digits-unique {digit} {base} {n} (more_digits h p) (more_digits k q) =
    ap (λ s. s ++ (digit (n % base) ∷ [])) (Digits-unique p q)

room_left : (base fuel n : ℕ) → n < base ^ fuel → 0 < n → 0 < fuel
room_left base zero n h k = absurd (omega (arith, pow-zero base))
room_left base (suc fuel) n h k = omega arith

module _ (base : ℕ) (laws : IsBase base) (digit digit' : ℕ → ℕ)
    (same : (d : ℕ) → d < base → digit d ≡ digit' d) where
  -- The loop puts the digits of the number in front of the text, if it has the room for them.
  pub fill_num_buff-Digits :
      (fuel number : ℕ) (num_buff : Bytes)
      → number < base ^ fuel
      → 0 < fuel
      → (str : Bytes) × Digits digit' base number str
        × (fill_num_buff digit base fuel number num_buff ≡ str ++ num_buff)
  unfolding fill_num_buff
  fill_num_buff-Digits zero number num_buff h pos' = absurd (omega arith)
  fill_num_buff-Digits (suc fuel) number num_buff h pos' =
      let c = digit' (number % base) in
      let filled = digit (number % base) ∷ num_buff in
      let put : filled ≡ c ∷ num_buff =
        ap (λ d. d ∷ num_buff) (same (number % base) (laws.digit number)) in
      elim (Bool-cases (number / base == 0)) [
        | inl last ↦
            let less : number < base = laws.small number (ground arith) in
            let one : c ≡ digit' number = ap digit' (laws.below number less) in
            rw last (digit' number ∷ [], one_digit less, put ∙ ap (λ d. d ∷ num_buff) one)
        | inr more ↦
            let some' : 0 < number / base = ground arith in
            let less : number / base < base ^ fuel =
              laws.shorter number (base ^ fuel) (rw (pow-suc base fuel) at h) in
            let (str, digits, e) =
              fill_num_buff-Digits fuel (number / base) filled less
                (room_left base fuel (number / base) less some') in
            rw more (
              str ++ (c ∷ []),
              more_digits (laws.large number some') digits,
              e ∙ ap (λ t. str ++ t) put ∙ sym (append_assoc str (c ∷ []) num_buff),
            )
      ]
