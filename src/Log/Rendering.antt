-- ===== src/Log/Rendering.antt =====
-- What `tfm_log_printf` (lib/log/tfm_log_raw.c) prints for a format and its arguments.
use pico2w_tfm.Common.{
  ℕ, ◌≡◌, refl, ap, ◌∙◌, arith, true, false, Option, some, List, [], ◌∷◌, ◌++◌, Bytes, ◌==◌,
}
use pico2w_tfm.Log.Text.{IsValid}
use pico2w_tfm.Log.Format.{
  Arg, Progress, unsupported_text, is_tag, add_char, print_tag, unsupported_tag, after_percent,
  format_loop,
}
use pico2w_tfm.Log.Emits.{
  takes_word, takes_string, Emits, Emits-nothing, Emits-trans, Shows, Takes, add_char-Emits,
  unsupported_tag-Emits, print_tag-Emits,
}

-- A format, and an argument of the right kind for each of its tags.
pub data Fits : Bytes → List Arg → Type 0 where
  fits_end : {args : List Arg} → Fits [] args
  fits_char :
      {c : ℕ} {fmt : Bytes} {args : List Arg}
      → (c == b'%') ≡ false
      → Fits fmt args
      → Fits (c ∷ fmt) args
  fits_percent : {fmt : Bytes} {args : List Arg} → Fits fmt args → Fits (b'%' ∷ b'%' ∷ fmt) args
  fits_tag :
      {c : ℕ} {fmt : Bytes} {arg : Arg} {args : List Arg}
      → Takes c arg
      → Fits fmt args
      → Fits (b'%' ∷ c ∷ fmt) (arg ∷ args)
  fits_unsupported :
      {c : ℕ} {fmt : Bytes} {args : List Arg}
      → is_tag c ≡ false
      → Fits fmt args
      → Fits (b'%' ∷ c ∷ fmt) args
  fits_last : {args : List Arg} → Fits (b'%' ∷ []) args

-- The text of a format and its arguments: characters stand for themselves, a tag for its argument,
-- "%%" for '%', and a '%' without a tag for a remark.
pub data Renders : Bytes → List Arg → Bytes → Type 0 where
  nothing : {args : List Arg} → Renders [] args []
  plain :
      {c : ℕ} {fmt out : Bytes} {args : List Arg}
      → (c == b'%') ≡ false
      → Renders fmt args out
      → Renders (c ∷ fmt) args (c ∷ out)
  percent :
      {fmt out : Bytes} {args : List Arg}
      → Renders fmt args out
      → Renders (b'%' ∷ b'%' ∷ fmt) args (b'%' ∷ out)
  tag :
      {c : ℕ} {fmt str out : Bytes} {arg : Arg} {args : List Arg}
      → Shows c arg str
      → Renders fmt args out
      → Renders (b'%' ∷ c ∷ fmt) (arg ∷ args) (str ++ out)
  unsupported :
      {c : ℕ} {fmt out : Bytes} {args : List Arg}
      → is_tag c ≡ false
      → Renders fmt args out
      → Renders (b'%' ∷ c ∷ fmt) args (unsupported_text ++ (c ∷ out))
  last_percent : {args : List Arg} → Renders (b'%' ∷ []) args unsupported_text

-- The loop comes to its end, and has put out the text of the format.
pub record Rendered (fmt : Bytes) (args : List Arg) (s : Progress) (r : Option Progress)
    : Type 0 where
  pub out : Bytes
  pub unused : List Arg
  pub final : Progress
  pub ends : r ≡ some final
  pub shows : Renders fmt args out
  pub emitted : Emits s unused out final

print_percent : (s : Progress) → print_tag b'%' s ≡ some (add_char b'%' s.args s)
unfolding print_tag
print_percent s = refl

Takes-is_tag : {c : ℕ} {arg : Arg} → Takes c arg → is_tag c ≡ true
Takes-is_tag (takes_word t range) = ground arith
Takes-is_tag (takes_string t) = ground arith

after_tag : (c : ℕ) (s : Progress) → is_tag c ≡ true → after_percent c s ≡ print_tag c s
after_tag c s h = rw h refl

after_no_tag :
    (c : ℕ) (s : Progress)
    → is_tag c ≡ false
    → let s' = unsupported_tag s in after_percent c s ≡ some (add_char c s'.args s')
after_no_tag c s h = rw h refl

pub format_loop-Rendered :
    {fmt : Bytes} {args : List Arg}
    → Fits fmt args
    → (s : Progress) → s.args ≡ args
    → IsValid s.printer
    → Rendered fmt args s (format_loop fmt false (some s))
unfolding format_loop
format_loop-Rendered fits_end s given v = record {
  out = [];
  unused = s.args;
  final = s;
  ends = refl;
  shows = nothing;
  emitted = Emits-nothing s v;
}
format_loop-Rendered (fits_char {c} {fmt} plain' f) s given v =
    let e = add_char-Emits c s.args s v in
    let r = format_loop-Rendered f (add_char c s.args s) (e.left' ∙ given) e.valid in
    record {
      out = c ∷ r.out;
      unused = r.unused;
      final = r.final;
      ends = rw plain' r.ends;
      shows = plain plain' r.shows;
      emitted = Emits-trans e r.emitted;
    }
format_loop-Rendered (fits_percent {fmt} f) s given v =
    let e = add_char-Emits b'%' s.args s v in
    let r = format_loop-Rendered f (add_char b'%' s.args s) (e.left' ∙ given) e.valid in
    record {
      out = b'%' ∷ r.out;
      unused = r.unused;
      final = r.final;
      ends = ap (format_loop fmt false) (print_percent s) ∙ r.ends;
      shows = percent r.shows;
      emitted = Emits-trans e r.emitted;
    }
format_loop-Rendered (fits_tag {c} {fmt} {arg} {args} t f) s given v =
    let (str, s', printed', shows', e) = print_tag-Emits c arg args s t given v in
    let r = format_loop-Rendered f s' e.left' e.valid in
    record {
      out = str ++ r.out;
      unused = r.unused;
      final = r.final;
      ends = ap (format_loop fmt false) (after_tag c s (Takes-is_tag t) ∙ printed') ∙ r.ends;
      shows = tag shows' r.shows;
      emitted = Emits-trans e r.emitted;
    }
format_loop-Rendered (fits_unsupported {c} {fmt} no_tag f) s given v =
    let e = unsupported_tag-Emits s v in
    let s' = unsupported_tag s in
    let e' = add_char-Emits c s'.args s' e.valid in
    let r = format_loop-Rendered f (add_char c s'.args s') (e'.left' ∙ e.left' ∙ given) e'.valid in
    record {
      out = unsupported_text ++ (c ∷ r.out);
      unused = r.unused;
      final = r.final;
      ends = ap (format_loop fmt false) (after_no_tag c s no_tag) ∙ r.ends;
      shows = unsupported no_tag r.shows;
      emitted = Emits-trans e (Emits-trans e' r.emitted);
    }
format_loop-Rendered fits_last s given v = record {
  out = unsupported_text;
  unused = s.args;
  final = unsupported_tag s;
  ends = refl;
  shows = last_percent;
  emitted = unsupported_tag-Emits s v;
}
