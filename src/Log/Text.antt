-- ===== src/Log/Text.antt =====
-- What the log prints, without its buffer.
use pico2w_tfm.Common.{
  ℕ, zero, suc, ◌+◌, ◌-◌, ◌%◌, ◌^◌, ◌≤◌, ◌<◌, ◌≡◌, refl, ap, sym, ◌∙◌, arith, Bool, ◌&&◌, List, [],
  ◌∷◌, ◌++◌, Bytes, leb, if◌then◌else◌, take, set, length, length-set, IsU32, append_assoc,
  append-nil, Bool-cases, inl, inr,
}
use pico2w_tfm.Log.Digits.{Digits, decimal_digit, ten-IsBase, fill_num_buff-Digits}
use pico2w_tfm.Log.Printer.{
  print_buff_size, num_buff_size, Printer, flush_formatted_buffer, string_output, fill_num_buff,
  dec_digit, dec_num_output,
}

-- the strings that were printed, in order
abbrev pub printed : List Bytes → Bytes
printed [] = []
printed (o ∷ os) = printed os ++ o

-- The text so far: what was printed, and what waits in the buffer.
abbrev pub text : Printer → Bytes
text pb = printed pb.outputs ++ take pb.pos pb.buf

-- The buffer has 32 places, one of them free.
pub record IsValid (pb : Printer) : Type 0 where
  pub size : length pb.buf ≡ print_buff_size
  pub room : pb.pos < print_buff_size

take-set :
    (xs : Bytes) (i v : ℕ) → i < length xs → take (suc i) (set xs i v) ≡ take i xs ++ (v ∷ [])
take-set [] i v h = absurd (omega arith)
take-set (x ∷ xs) zero v h = refl
take-set (x ∷ xs) (suc i) v h = ap (◌∷◌ x) (take-set xs i v (omega arith))

pub flush-IsValid : (pb : Printer) (c : ℕ) → IsValid pb → IsValid (flush_formatted_buffer pb c)
unfolding flush_formatted_buffer
flush-IsValid pb c v = ground (arith, length-set pb.buf pb.pos c)

pub flush-pos :
    (pb : Printer) (c : ℕ)
    → IsValid pb
    → (flush_formatted_buffer pb c).pos ≡ (pb.pos + 1) % print_buff_size
unfolding flush_formatted_buffer
flush-pos pb c v = elim (Bool-cases (leb print_buff_size (pb.pos + 1))) [
  | inl full ↦ rw full (ground arith)
  | inr some' ↦ rw some' (ground arith)
]

pub text-flush :
    (pb : Printer) (c : ℕ) → IsValid pb → text (flush_formatted_buffer pb c) ≡ text pb ++ (c ∷ [])
unfolding flush_formatted_buffer
text-flush pb c v =
    let next : pb.pos + 1 ≡ suc pb.pos = omega arith in
    let put : take (pb.pos + 1) (set pb.buf pb.pos c) ≡ take pb.pos pb.buf ++ (c ∷ []) =
      ap (λ n. take n (set pb.buf pb.pos c)) next ∙ take-set pb.buf pb.pos c (omega arith) in
    elim (Bool-cases (leb print_buff_size (pb.pos + 1))) [
      | inl full ↦
          let last : pb.pos + 1 ≡ 32 = ground arith in
          rw full (
            append-nil (printed pb.outputs ++ take 32 (set pb.buf pb.pos c))
            ∙ ap (λ x. printed pb.outputs ++ x)
                (ap (λ n. take n (set pb.buf pb.pos c)) (sym last) ∙ put)
            ∙ sym (append_assoc (printed pb.outputs) (take pb.pos pb.buf) (c ∷ [])))
      | inr some' ↦
          rw (some', put) (sym (append_assoc (printed pb.outputs) (take pb.pos pb.buf) (c ∷ [])))
    ]

-- A string is printed whole, and counted, and the buffer has a free place again, as far from its
-- start as the string's length says.
pub record Prints (pb : Printer) (str : Bytes) (r : ℕ × Printer) : Type 0 where
  pub count : r.0 ≡ length str
  pub valid : IsValid r.1
  pub appended : text r.1 ≡ text pb ++ str
  pub position : r.1.pos ≡ (pb.pos + length str) % print_buff_size

-- With a free place in the buffer, a string of any length is printed behind the text so far, whole
-- and in order, and counted; the buffer has a free place again, at the length of the string further
-- on, modulo the 32 places.
pub string_output-Prints :
    (pb : Printer) (str : Bytes) → IsValid pb → Prints pb str (string_output pb str)
unfolding string_output
string_output-Prints pb [] v = record {
  count = refl;
  valid = v;
  appended = sym (append-nil (text pb));
  position = omega (arith, v.room);
}
string_output-Prints pb (c ∷ str) v =
    let p = string_output-Prints (flush_formatted_buffer pb c) str (flush-IsValid pb c v) in
    record {
      count = omega (arith, p.count);
      valid = p.valid;
      appended =
          p.appended ∙ ap (λ t. t ++ str) (text-flush pb c v) ∙ append_assoc (text pb) (c ∷ []) str;
      position = omega (arith, p.position, flush-pos pb c v);
    }

-- The bit pattern stands for a negative number that is printed as one.
abbrev pub shows_minus : ℕ → Bool → Bool
shows_minus num sign = sign && leb (2 ^ 31) num

-- The number in its printed form: '-' in front of a negative one, and the decimal digits of its
-- absolute value.
pub record ShowsDec (num : ℕ) (sign : Bool) (str : Bytes) : Type 0 where
  pub digits : Bytes
  pub written : str ≡ (if shows_minus num sign then b'-' ∷ digits else digits)
  pub shows : Digits decimal_digit 10 (if shows_minus num sign then 2 ^ 32 - num else num) digits

decimal-fill :
    (number : ℕ)
    → IsU32 number
    → (str : Bytes) × Digits decimal_digit 10 number str
      × (fill_num_buff dec_digit 10 num_buff_size number [] ≡ str)
decimal-fill number range =
    let (str, digits, e) =
      fill_num_buff-Digits 10 ten-IsBase dec_digit decimal_digit (λ d h. refl) num_buff_size number
        [] (omega arith) (omega arith) in
    (str, digits, e ∙ append-nil str)

-- With a free place in the buffer, a 32-bit number of whatever sign is printed and counted as the
-- decimal digits of its absolute value, with '-' in front if the tag is signed and it is negative.
pub dec_num_output-Prints :
    (pb : Printer) (num : ℕ) (sign : Bool)
    → IsValid pb
    → IsU32 num
    → (str : Bytes) × ShowsDec num sign str × Prints pb str (dec_num_output pb num sign)
unfolding dec_num_output
dec_num_output-Prints pb num sign v range = elim (Bool-cases (shows_minus num sign)) [
  | inl minus ↦
      let big : 2 ^ 31 ≤ num = ground arith in
      let whole : (2 ^ 32 - num) % 2 ^ 32 ≡ 2 ^ 32 - num = omega arith in
      let (digits, shows, e) = decimal-fill (2 ^ 32 - num) (omega arith) in
      let p = string_output-Prints (flush_formatted_buffer pb 45) digits (flush-IsValid pb 45 v) in
      (
        45 ∷ digits,
        record { digits = digits; written = rw minus refl; shows = rw minus shows },
        rw (minus, whole, e)
            (record {
              count = omega (arith, p.count);
              valid = p.valid;
              appended =
                  p.appended
                  ∙ ap (λ t. t ++ digits) (text-flush pb 45 v)
                  ∙ append_assoc (text pb) (45 ∷ []) digits;
              position = omega (arith, p.position, flush-pos pb 45 v);
            }),
      )
  | inr plain ↦
      let (digits, shows, e) = decimal-fill num range in
      (
        digits,
        record { digits = digits; written = rw plain refl; shows = rw plain shows },
        rw (plain, e) (string_output-Prints pb digits v),
      )
]
