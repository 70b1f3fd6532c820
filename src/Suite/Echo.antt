-- ===== src/Suite/Echo.antt =====
-- nspe/echo_test_app.c.
use pico2w_tfm.Common.{
  ℕ, ◌+◌, Bool, true, false, ◌&&◌, Option, none, some, List, [], ◌∷◌, ◌++◌, Bytes, ◌==◌,
  if◌then◌else◌, take, replicate, overwrite, length,
}
use pico2w_tfm.Psa.{Status, invalid_argument, is_success}
use pico2w_tfm.Client.Api.{client_max_data_size, Calls, Framework, tfm_echo_service}

-- The lines that are printed, with what they show: a test's number, a string with a length, a
-- status, a size.
pub data EchoLine : Type 0 where
  echo_banner echo_complete data_mismatch : EchoLine
  test_title passed failed : ℕ → EchoLine
  input_shown output_shown : Bytes → ℕ → EchoLine
  failed_status : ℕ → Status → EchoLine
  failed_size : Status → ℕ → EchoLine

-- "Hello, TF-M Echo Service!"
abbrev pub test_string : Bytes
test_string =
    b'H' ∷ b'e' ∷ b'l' ∷ b'l' ∷ b'o' ∷ b',' ∷ b' ' ∷ b'T' ∷ b'F' ∷ b'-' ∷ b'M' ∷ b' ' ∷ b'E' ∷ b'c'
    ∷ b'h' ∷ b'o' ∷ b' ' ∷ b'S' ∷ b'e' ∷ b'r' ∷ b'v' ∷ b'i' ∷ b'c' ∷ b'e' ∷ b'!' ∷ []

abbrev pub buffer_size : ℕ
buffer_size = 256

-- the characters of a string in a buffer, before the first 0
abbrev pub c_string : Bytes → Bytes
c_string [] = []
c_string (c ∷ cs) = if c == 0 then [] else c ∷ c_string cs

-- `memcmp(a, b, n) == 0`, on the first `n` bytes of both
abbrev pub same_bytes : Bytes → Bytes → Bool
same_bytes [] [] = true
same_bytes [] (b ∷ bs) = false
same_bytes (a ∷ l) [] = false
same_bytes (a ∷ l) (b ∷ bs) = a == b && same_bytes l bs

abbrev pub is_invalid_argument : Status → Bool
is_invalid_argument invalid_argument = true
is_invalid_argument _ = false

-- The variables of the function, the lines so far with the latest first, and the calls.
pub record EchoTest : Type 0 where
  pub input_buffer : Bytes
  pub output_buffer : Bytes
  pub output_size : ℕ
  pub lines : List EchoLine
  pub calls : Calls

abbrev pub get : {A : Type 0} → Option A → A → A
get none a = a
get (some a) _ = a

abbrev pub print : List EchoLine → EchoTest → EchoTest
print lines s = record s { lines = lines ++ s.lines }

-- What Test 1 prints of its outcome: the number is `input_len`.
unfoldable pub basic_verdict : Status → ℕ → EchoTest → EchoTest
basic_verdict status input_len s =
    let same =
      same_bytes (take input_len s.input_buffer) (take input_len s.output_buffer)
      && s.output_size == input_len in
    let s' = print (output_shown (c_string s.output_buffer) s.output_size ∷ []) s in
    if is_success status
    then (if same then print (passed 1 ∷ []) s' else print (data_mismatch ∷ []) s')
    else print (failed_status 1 status ∷ []) s

module _ (psa : Framework) where
  -- The call of the service, with the output buffer and the pointer to `output_size`.
  unfoldable pub call_echo : Option Bytes → EchoTest → Status × EchoTest
  call_echo data' s =
      let ((status, out_data, out_size), t) =
        tfm_echo_service psa data' (some s.output_buffer) buffer_size (some s.output_size)
          s.calls in
      (
        status,
        record s {
          output_buffer = get out_data s.output_buffer;
          output_size = get out_size s.output_size;
          calls = t;
        },
      )

  -- Test 1; `strncpy` fills the buffer with zeros behind the string.
  unfoldable pub basic_test : EchoTest → EchoTest
  basic_test s =
      let input_buffer = test_string ++ replicate 231 0 in
      let input_len = length (c_string input_buffer) in
      let s₁ = record s {
        input_buffer = input_buffer;
        output_buffer = replicate 256 0;
        lines =
            input_shown (c_string input_buffer) input_len ∷ test_title 1 ∷ echo_banner ∷ s.lines;
      } in
      let (status, s₂) = call_echo (some (take input_len input_buffer)) s₁ in
      basic_verdict status input_len s₂

  -- Test 2
  unfoldable pub empty_test : EchoTest → EchoTest
  empty_test s =
      let (status, s₁) = call_echo none (print (test_title 2 ∷ []) s) in
      print (if is_invalid_argument status then passed 2 ∷ [] else failed 2 ∷ []) s₁

  -- Test 3
  unfoldable pub maximum_test : EchoTest → EchoTest
  maximum_test s =
      let s₁ = record s {
        input_buffer = overwrite s.input_buffer 0 (replicate 256 b'A');
        lines = test_title 3 ∷ s.lines;
      } in
      let (status, s₂) = call_echo (some (take client_max_data_size s₁.input_buffer)) s₁ in
      print
        (if is_success status && s₂.output_size == client_max_data_size
          then passed 3 ∷ []
          else failed_size status s₂.output_size ∷ [])
        s₂

  -- Test 4, which states a size of one byte more than the buffer has; `next_byte` is the byte in
  -- memory behind it.
  unfoldable pub oversized_test : ℕ → EchoTest → EchoTest
  oversized_test next_byte s =
      let memory = s.input_buffer ++ (next_byte ∷ []) in
      let (status, s₁) =
        call_echo (some (take (client_max_data_size + 1) memory)) (print (test_title 4 ∷ []) s) in
      print (if is_invalid_argument status then passed 4 ∷ [] else failed 4 ∷ []) s₁

  -- The buffers and the size are on the stack, with what is there.
  unfoldable pub test_echo_service : ℕ → EchoTest → EchoTest
  test_echo_service next_byte s =
      print (echo_complete ∷ [])
        (oversized_test next_byte (maximum_test (empty_test (basic_test s))))
