-- ===== src/Log/Logged.antt =====
-- What `tfm_log_printf` (lib/log/tfm_log_raw.c) prints and returns, its last flush included.
use pico2w_tfm.Common.{
  ℕ, ◌+◌, ◌%◌, ◌≡◌, refl, ap, sym, ◌∙◌, arith, false, Option, some, List, [], ◌∷◌, ◌++◌, Bytes,
  ◌==◌, if◌then◌else◌, length, take, append-nil, length-take, Bool-cases, inl, inr,
}
use pico2w_tfm.Log.Printer.{print_buff_size, Printer}
use pico2w_tfm.Log.Text.{text, printed, IsValid}
use pico2w_tfm.Log.Format.{Arg, Progress, last_flush, log_vprintf, tfm_log_printf}
use pico2w_tfm.Log.Texts.{Renders-unique}
use pico2w_tfm.Log.Rendering.{Fits, Renders, Rendered, format_loop-Rendered}

-- What was printed before, and then the one text of the format. Its last part, behind the last full
-- buffer, is printed at the end, and counted twice: `count` has the whole text, and what
-- `stdio_output_string` returns for the last part.
pub record Logged (stdio_output_string : List Bytes → Bytes → ℕ) (fmt : Bytes) (args : List Arg)
    (outputs : List Bytes) (r : Option (ℕ × List Bytes)) : Type 0 where
  pub out : Bytes
  pub count : ℕ
  pub outputs' : List Bytes
  pub returns : r ≡ some (count, outputs')
  pub shows : Renders fmt args out
  pub only : (other : Bytes) → Renders fmt args other → other ≡ out
  pub appended : printed outputs' ≡ printed outputs ++ out
  pub before : List Bytes
  pub last : Bytes
  pub last_size : length last ≡ length out % print_buff_size
  pub counted :
      count ≡ length out + (if length last == 0 then 0 else stdio_output_string before last)

module _ (stdio_output_string : List Bytes → Bytes → ℕ) where
  last_flush-Logged :
      {fmt : Bytes} {args : List Arg} {s : Progress} {r : Option Progress} (outputs : List Bytes)
      → s.count ≡ 0
      → s.printer.pos ≡ 0
      → text s.printer ≡ printed outputs
      → Rendered fmt args s r
      → Logged stdio_output_string fmt args outputs (last_flush stdio_output_string r)
  last_flush-Logged {fmt} {args} {s} {r} outputs start first before' rendered =
      let e = rendered.emitted in
      let pb = rendered.final.printer in
      let out = rendered.out in
      let pos : pb.pos ≡ length out % 32 = omega (arith, e.position, first) in
      let size : length (take pb.pos pb.buf) ≡ length out % 32 =
        length-take pb.pos pb.buf ∙ omega (arith, pos, e.valid.size) in
      let all' : text pb ≡ printed outputs ++ out = e.appended ∙ ap (λ t. t ++ out) before' in
      elim (Bool-cases (pb.pos == 0)) [
        | inl full ↦
            let none' : pb.pos ≡ 0 = ground arith in
            record {
              out = out;
              count = rendered.final.count;
              outputs' = pb.outputs;
              returns = rw (rendered.ends, full) refl;
              shows = rendered.shows;
              only = λ other q. Renders-unique q rendered.shows;
              appended =
                  sym (append-nil (printed pb.outputs))
                  ∙ ap (λ n. printed pb.outputs ++ take n pb.buf) (sym none')
                  ∙ all';
              before = [];
              last = [];
              last_size = omega (arith, pos, none');
              counted = omega (arith, e.counted, start);
            }
        | inr some' ↦
            let rest : (length (take pb.pos pb.buf) == 0) ≡ false = ground (arith, size, pos) in
            record {
              out = out;
              count = rendered.final.count + stdio_output_string pb.outputs (take pb.pos pb.buf);
              outputs' = take pb.pos pb.buf ∷ pb.outputs;
              returns = rw (rendered.ends, some') refl;
              shows = rendered.shows;
              only = λ other q. Renders-unique q rendered.shows;
              appended = all';
              before = pb.outputs;
              last = take pb.pos pb.buf;
              last_size = size;
              counted = rw rest (omega (arith, e.counted, start));
            }
      ]

  pub tfm_log_printf-Logged :
      (fmt : Bytes) (args : List Arg) (buf : Bytes) (outputs : List Bytes)
      → Fits fmt args
      → length buf ≡ print_buff_size
      → Logged stdio_output_string fmt args outputs
          (tfm_log_printf stdio_output_string fmt args buf outputs)
  unfolding tfm_log_printf log_vprintf
  tfm_log_printf-Logged fmt args buf outputs fits size =
      let pb : Printer = record { pos = 0; buf = buf; outputs = outputs } in
      let v : IsValid pb = record { size = size; room = omega arith } in
      last_flush-Logged outputs refl refl (append-nil (printed outputs))
        (format_loop-Rendered fits (record { count = 0; args = args; printer = pb }) refl v)

  -- The number that `tfm_log_printf` returns is not the number of characters that it prints. With a
  -- serial port that returns the length of each string, it is that number and, once more, the number
  -- of the characters behind the last full buffer of 32, for a format whose arguments fit.
  pub tfm_log_printf_counts :
      (fmt : Bytes) (args : List Arg) (buf : Bytes) (outputs : List Bytes)
      → Fits fmt args
      → length buf ≡ print_buff_size
      → ((os : List Bytes) (s : Bytes) → stdio_output_string os s ≡ length s)
      → (out : Bytes) × (outputs' : List Bytes) × (tfm_log_printf stdio_output_string fmt args buf
            outputs
          ≡ some (length out + length out % print_buff_size, outputs'))
        × (printed outputs' ≡ printed outputs ++ out)
  tfm_log_printf_counts fmt args buf outputs fits size port =
      let l = tfm_log_printf-Logged fmt args buf outputs fits size in
      let twice : l.count ≡ length l.out + length l.out % 32 =
        l.counted ∙ ground (arith, port l.before l.last, l.last_size) in
      (l.out, l.outputs', l.returns ∙ ap (λ n. some (n, l.outputs')) twice, l.appended)
