-- ===== src/Log/Emits.antt =====
-- What one piece of output does to the progress of a formatted print (lib/log/tfm_log_raw.c).
use pico2w_tfm.Common.{
  ℕ, ◌+◌, ◌%◌, ◌≡◌, refl, ap, sym, ◌∙◌, arith, true, false, not, ◌&&◌, ◌||◌, some, List, [], ◌∷◌,
  ◌++◌, Bytes, ◌==◌, ==_iff, length, Bool-cases, inl, inr, length-append, append_assoc, append-nil,
  IsU32, if_both,
}
use mathlib.Core.Path.{subst}
use pico2w_tfm.Log.Printer.{
  print_buff_size, Printer, string_output, dec_num_output, hex_digits_lo, hex_digits_up,
  hex_num_output,
}
use pico2w_tfm.Log.Text.{
  text, IsValid, Prints, ShowsDec, flush-IsValid, flush-pos, text-flush, string_output-Prints,
  dec_num_output-Prints,
}
use pico2w_tfm.Log.Hex.{hex_digits_lo-IsHexTable, hex_digits_up-IsHexTable, hex_num_output-Prints}
use pico2w_tfm.Log.Digits.{Digits, lower_digit, upper_digit}
use pico2w_tfm.Log.Format.{
  Arg, word, string, Progress, unsupported_text, is_tag, add_output, add_char, pointer_output,
  print_word, print_tag, unsupported_tag,
}

-- `str` is put out and counted, `args` are left, and the buffer has a free place.
pub record Emits (s : Progress) (args : List Arg) (str : Bytes) (s' : Progress) : Type 0 where
  pub counted : s'.count ≡ s.count + length str
  pub left' : s'.args ≡ args
  pub valid : IsValid s'.printer
  pub appended : text s'.printer ≡ text s.printer ++ str
  pub position : s'.printer.pos ≡ (s.printer.pos + length str) % print_buff_size

pub Emits-nothing : (s : Progress) → IsValid s.printer → Emits s s.args [] s
Emits-nothing s v = record {
  counted = omega arith;
  left' = refl;
  valid = v;
  appended = sym (append-nil (text s.printer));
  position = omega (arith, v.room);
}

pub Emits-trans :
    {s s' s'' : Progress} {args args' : List Arg} {a b : Bytes}
    → Emits s args a s'
    → Emits s' args' b s''
    → Emits s args' (a ++ b) s''
Emits-trans {s} {s'} {s''} {args} {args'} {a} {b} p q = record {
  counted = omega (arith, p.counted, q.counted, length-append a b);
  left' = q.left';
  valid = q.valid;
  appended = q.appended ∙ ap (λ t. t ++ b) p.appended ∙ append_assoc (text s.printer) a b;
  position = omega (arith, p.position, q.position, length-append a b);
}

add_output-Emits :
    (output : Printer → ℕ × Printer) (args : List Arg) (s : Progress) (str : Bytes)
    → Prints s.printer str (output s.printer)
    → Emits s args str (add_output output args s)
unfolding add_output
add_output-Emits output args s str p = record {
  counted = ap (λ n. s.count + n) p.count;
  left' = refl;
  valid = p.valid;
  appended = p.appended;
  position = p.position;
}

pub add_char-Emits :
    (c : ℕ) (args : List Arg) (s : Progress)
    → IsValid s.printer
    → Emits s args (c ∷ []) (add_char c args s)
unfolding add_char
add_char-Emits c args s v = record {
  counted = refl;
  left' = refl;
  valid = flush-IsValid s.printer c v;
  appended = text-flush s.printer c v;
  position = flush-pos s.printer c v;
}

pub unsupported_tag-Emits :
    (s : Progress) → IsValid s.printer → Emits s s.args unsupported_text (unsupported_tag s)
unfolding unsupported_tag
unsupported_tag-Emits s v =
    add_output-Emits (λ pb. string_output pb unsupported_text) s.args s unsupported_text
      (string_output-Prints s.printer unsupported_text v)

-- How a tag's argument is written.
pub data Shows : ℕ → Arg → Bytes → Type 0 where
  signed : {n : ℕ} {str : Bytes} → ShowsDec n true str → Shows b'd' (word n) str
  signed_too : {n : ℕ} {str : Bytes} → ShowsDec n true str → Shows b'i' (word n) str
  unsigned : {n : ℕ} {str : Bytes} → ShowsDec n false str → Shows b'u' (word n) str
  hex_lo : {n : ℕ} {str : Bytes} → Digits lower_digit 16 n str → Shows b'x' (word n) str
  hex_up : {n : ℕ} {str : Bytes} → Digits upper_digit 16 n str → Shows b'X' (word n) str
  pointer :
      {n : ℕ} {str : Bytes} → Digits lower_digit 16 n str → Shows b'p' (word n) (b'0' ∷ b'x' ∷ str)
  char : {n : ℕ} → Shows b'c' (word n) ((n % 256) ∷ [])
  chars : {str : Bytes} → Shows b's' (string str) str

-- What holds of a character holds of one that is equal to it.
at_char : (P : ℕ → Type 0) {c k : ℕ} → (c == k) ≡ true → P k → P c
at_char P {c} {k} h p = subst P (sym ((==_iff c k).0 h)) p

signed-Shows :
    {c n : ℕ} {str : Bytes}
    → (c == b'd' || c == b'i') ≡ true
    → ShowsDec n true str
    → Shows c (word n) str
signed-Shows {c} {n} {str} h shows = elim (Bool-cases (c == b'd')) [
  | inl d ↦ at_char (λ k. Shows k (word n) str) d (signed shows)
  | inr not_d ↦ at_char (λ k. Shows k (word n) str) (rw not_d at h) (signed_too shows)
]

-- The tag takes an argument of this kind, and the argument is one.
pub data Takes (c : ℕ) : Arg → Type 0 where
  takes_word :
      {n : ℕ} → (is_tag c && not (c == b's') && not (c == b'%')) ≡ true → IsU32 n → Takes c (word n)
  takes_string : {str : Bytes} → (c == b's') ≡ true → Takes c (string str)

pointer_output-Prints :
    (pb : Printer) (num : ℕ)
    → IsValid pb
    → IsU32 num
    → (str : Bytes) × Digits lower_digit 16 num str
      × Prints pb (b'0' ∷ b'x' ∷ str) (pointer_output pb num)
unfolding pointer_output
pointer_output-Prints pb num v range =
    let prefix : Bytes = b'0' ∷ b'x' ∷ [] in
    let p = string_output-Prints pb prefix v in
    let pb₁ = (string_output pb prefix).1 in
    let (str, shows, q) =
      hex_num_output-Prints hex_digits_lo lower_digit hex_digits_lo-IsHexTable pb₁ num p.valid
        range in
    (
      str,
      shows,
      record {
        count = omega (arith, p.count, q.count);
        valid = q.valid;
        appended = q.appended ∙ ap (λ t. t ++ str) p.appended ∙ append_assoc (text pb) prefix str;
        position = omega (arith, p.position, q.position);
      },
    )

print_word-Emits :
    (c num : ℕ) (args : List Arg) (s : Progress)
    → (is_tag c && not (c == b's') && not (c == b'%')) ≡ true
    → IsU32 num
    → IsValid s.printer
    → (str : Bytes) × Shows c (word num) str × Emits s args str (print_word c num args s)
unfolding print_word
print_word-Emits c num args s takes range v =
    let P : Progress → Type 0 =
      λ s'. (str : Bytes) × Shows c (word num) str × Emits s args str s' in
    if_both P (c == b'd' || c == b'i')
      (λ d.
        let (str, shows, p) = dec_num_output-Prints s.printer num true v range in
        (
          str,
          signed-Shows d shows,
          add_output-Emits (λ pb. dec_num_output pb num true) args s str p,
        ))
      (λ not_d.
        if_both P (c == b'u')
          (λ u.
            let (str, shows, p) = dec_num_output-Prints s.printer num false v range in
            (
              str,
              at_char (λ k. Shows k (word num) str) u (unsigned shows),
              add_output-Emits (λ pb. dec_num_output pb num false) args s str p,
            ))
          (λ not_u.
            if_both P (c == b'x')
              (λ x.
                let (str, shows, p) =
                  hex_num_output-Prints hex_digits_lo lower_digit hex_digits_lo-IsHexTable s.printer
                    num v range in
                (
                  str,
                  at_char (λ k. Shows k (word num) str) x (hex_lo shows),
                  add_output-Emits (λ pb. hex_num_output pb num hex_digits_lo) args s str p,
                ))
              (λ not_x.
                if_both P (c == b'X')
                  (λ x.
                    let (str, shows, p) =
                      hex_num_output-Prints hex_digits_up upper_digit hex_digits_up-IsHexTable
                        s.printer num v range in
                    (
                      str,
                      at_char (λ k. Shows k (word num) str) x (hex_up shows),
                      add_output-Emits (λ pb. hex_num_output pb num hex_digits_up) args s str p,
                    ))
                  (λ not_x'.
                    if_both P (c == b'p')
                      (λ p.
                        let (str, shows, q) = pointer_output-Prints s.printer num v range in
                        (
                          b'0' ∷ b'x' ∷ str,
                          at_char (λ k. Shows k (word num) (b'0' ∷ b'x' ∷ str)) p (pointer shows),
                          add_output-Emits (λ pb. pointer_output pb num) args s (b'0' ∷ b'x' ∷ str)
                              q,
                        ))
                      (λ not_p.
                        let last : (c == b'c') ≡ true = ground arith in
                        (
                          (num % 256) ∷ [],
                          at_char (λ k. Shows k (word num) ((num % 256) ∷ [])) last char,
                          add_char-Emits (num % 256) args s v,
                        ))))))

-- A tag is printed with the first of the arguments.
pub print_tag-Emits :
    (c : ℕ) (arg : Arg) (args : List Arg) (s : Progress)
    → Takes c arg
    → s.args ≡ arg ∷ args
    → IsValid s.printer
    → (str : Bytes) × (s' : Progress) × (print_tag c s ≡ some s')
      × Shows c arg str
      × Emits s args str s'
unfolding print_tag
print_tag-Emits c (word num) args s (takes_word t range) given v =
    let (str, shows, e) = print_word-Emits c num args s t range v in
    let other' : (c == b'%') ≡ false = ground arith in
    let word' : (c == b's') ≡ false = ground arith in
    (str, print_word c num args s, rw (other', given, word') refl, shows, e)
print_tag-Emits c (string str) args s (takes_string t) given v =
    let other' : (c == b'%') ≡ false = ground arith in
    (
      str,
      add_output (λ pb. string_output pb str) args s,
      rw (other', given, t) refl,
      at_char (λ k. Shows k (string str) str) t chars,
      add_output-Emits (λ pb. string_output pb str) args s str
          (string_output-Prints s.printer str v),
    )
