-- ===== src/Log/Texts.antt =====
-- A format with its arguments has one text (lib/log/tfm_log_raw.c).
use pico2w_tfm.Common.{ℕ, ◌≡◌, refl, ap, sym, ◌∙◌, arith, true, false, List, ◌∷◌, ◌++◌, Bytes, Bool}
use pico2w_tfm.Log.Text.{ShowsDec}
use pico2w_tfm.Log.Digits.{Digits-unique}
use pico2w_tfm.Log.Format.{Arg, unsupported_text, is_tag}
use pico2w_tfm.Log.Emits.{Shows, signed, signed_too, unsigned, hex_lo, hex_up, pointer, char, chars}
use pico2w_tfm.Log.Rendering.{Renders, nothing, plain, percent, tag, unsupported, last_percent}

ShowsDec-unique :
    {num : ℕ} {sign : Bool} {a b : Bytes} → ShowsDec num sign a → ShowsDec num sign b → a ≡ b
ShowsDec-unique p q =
    let same : p.digits ≡ q.digits = Digits-unique p.shows q.shows in
    p.written ∙ rw same (sym q.written)

Shows-unique : {c : ℕ} {arg : Arg} {a b : Bytes} → Shows c arg a → Shows c arg b → a ≡ b
Shows-unique (signed p) (signed q) = ShowsDec-unique p q
Shows-unique (signed_too p) (signed_too q) = ShowsDec-unique p q
Shows-unique (unsigned p) (unsigned q) = ShowsDec-unique p q
Shows-unique (hex_lo p) (hex_lo q) = Digits-unique p q
Shows-unique (hex_up p) (hex_up q) = Digits-unique p q
Shows-unique (pointer p) (pointer q) = ap (λ s. b'0' ∷ b'x' ∷ s) (Digits-unique p q)
Shows-unique char char = refl
Shows-unique chars chars = refl

Shows-is_tag : {c : ℕ} {arg : Arg} {a : Bytes} → Shows c arg a → is_tag c ≡ true
Shows-is_tag (signed p) = refl
Shows-is_tag (signed_too p) = refl
Shows-is_tag (unsigned p) = refl
Shows-is_tag (hex_lo p) = refl
Shows-is_tag (hex_up p) = refl
Shows-is_tag (pointer p) = refl
Shows-is_tag char = refl
Shows-is_tag chars = refl

clash : {A : Type 0} {b : Bool} → b ≡ true → b ≡ false → A
clash h k = ground (arith, h, k)

-- Two texts of the same format and arguments are the same.
pub Renders-unique :
    {fmt a b : Bytes} {args : List Arg} → Renders fmt args a → Renders fmt args b → a ≡ b
Renders-unique nothing nothing = refl
Renders-unique (plain {c} h p) (plain k q) = ap (λ s. c ∷ s) (Renders-unique p q)
Renders-unique (plain h p) (percent q) = clash refl h
Renders-unique (plain h p) (tag k q) = clash refl h
Renders-unique (plain h p) (unsupported k q) = clash refl h
Renders-unique (plain h p) last_percent = clash refl h
Renders-unique (percent p) (plain k q) = clash refl k
Renders-unique (percent p) (percent q) = ap (λ s. b'%' ∷ s) (Renders-unique p q)
Renders-unique (percent p) (tag k q) = elim k [ ]
Renders-unique (percent p) (unsupported k q) = clash refl k
Renders-unique (tag h p) (plain k q) = clash refl k
Renders-unique (tag {out = out} h p) (tag {str = str'} k q) =
    ap (λ s. s ++ out) (Shows-unique h k) ∙ ap (λ s. str' ++ s) (Renders-unique p q)
Renders-unique (tag h p) (percent q) = elim h [ ]
Renders-unique (tag h p) (unsupported k q) = clash (Shows-is_tag h) k
Renders-unique (unsupported h p) (plain k q) = clash refl k
Renders-unique (unsupported h p) (percent q) = clash refl h
Renders-unique (unsupported h p) (tag k q) = clash (Shows-is_tag k) h
Renders-unique (unsupported {c} h p) (unsupported k q) =
    ap (λ s. unsupported_text ++ (c ∷ s)) (Renders-unique p q)
Renders-unique last_percent (plain k q) = clash refl k
Renders-unique last_percent last_percent = refl
