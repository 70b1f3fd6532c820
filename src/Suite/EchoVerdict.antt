-- ===== src/Suite/EchoVerdict.antt =====
-- The verdicts of nspe/echo_test_app.c, against the echo partition.
use pico2w_tfm.Common.{
  ℕ, ◌≤◌, ◌≡◌, refl, ap, ◌∙◌, arith, some, [], ◌∷◌, ◌++◌, Bytes, length, replicate, overwrite,
}
use mathlib.Core.Path.{subst}
use pico2w_tfm.Psa.{Env, success}
use pico2w_tfm.Client.Api.{Calls, Framework, tfm_echo_service}
use pico2w_tfm.Client.EndToEnd.{ReachesEcho, tfm_echo_service_echoes}
use pico2w_tfm.Suite.Echo.{
  echo_banner, echo_complete, test_title, passed, input_shown, output_shown, test_string, EchoTest,
  call_echo, basic_verdict, basic_test, empty_test, maximum_test, oversized_test, test_echo_service,
}

overwrite_all : (xs ys : Bytes) → length xs ≡ length ys → overwrite xs 0 ys ≡ ys
overwrite_all [] [] e = refl
overwrite_all [] (y ∷ ys) e = absurd (omega (arith, e))
overwrite_all (x ∷ xs) [] e = absurd (omega (arith, e))
overwrite_all (x ∷ xs) (y ∷ ys) e = ap (◌∷◌ y) (overwrite_all xs ys (omega (arith, e)))

-- The echo of a client whose buffer has the stated length.
echoes_into :
    {psa : Framework} {env : Env} (data' out_data : Bytes) (n out_size : ℕ) (t : Calls)
    → length out_data ≡ n
    → ReachesEcho psa env data' n t
    → length data' ≤ 256
    → length data' ≤ n
    → (tfm_echo_service psa (some data') (some out_data) n (some out_size) t).0
      ≡ (success, some (overwrite out_data 0 data'), some (length data'))
echoes_into {psa} {env} data' out_data n out_size t e echo small room =
    subst
      (λ k.
        ReachesEcho psa env data' k t
        → length data' ≤ k
        → (tfm_echo_service psa (some data') (some out_data) k (some out_size) t).0
          ≡ (success, some (overwrite out_data 0 data'), some (length data')))
      e (λ echo room. tfm_echo_service_echoes psa env data' out_data out_size t echo small room)
      echo room

module _ (psa : Framework) (env : Env) (s : EchoTest) where
  -- the calls that the first test makes
  abbrev pub first_calls : Calls
  first_calls =
      (tfm_echo_service psa (some test_string) (some (replicate 256 0)) 256 (some s.output_size)
        s.calls).1

  basic_test-passed :
      ReachesEcho psa env test_string 256 s.calls
      → basic_test psa s ≡ record {
        input_buffer = test_string ++ replicate 231 0;
        output_buffer = test_string ++ replicate 231 0;
        output_size = 25;
        lines =
            passed 1
            ∷ output_shown test_string 25
            ∷ input_shown test_string 25
            ∷ test_title 1
            ∷ echo_banner
            ∷ s.lines;
        calls = first_calls;
      }
  unfolding basic_test basic_verdict call_echo
  basic_test-passed echo =
      let sent =
        tfm_echo_service_echoes psa env test_string (replicate 256 0) s.output_size s.calls echo
          (omega arith) (omega arith) in
      rw (sent, ap (λ r. r.0) sent) refl

  empty_test-passed : empty_test psa s ≡ record s { lines = passed 2 ∷ test_title 2 ∷ s.lines }
  unfolding empty_test call_echo tfm_echo_service
  empty_test-passed = refl

  maximum_test-passed :
      ReachesEcho psa env (replicate 256 b'A') 256 s.calls
      → length s.input_buffer ≡ 256
      → length s.output_buffer ≡ 256
      → maximum_test psa s ≡ record {
        input_buffer = replicate 256 b'A';
        output_buffer = replicate 256 b'A';
        output_size = 256;
        lines = passed 3 ∷ test_title 3 ∷ s.lines;
        calls =
            (tfm_echo_service psa
              (some (replicate 256 b'A'))
              (some s.output_buffer)
              256
              (some s.output_size)
              s.calls).1;
      }
  unfolding maximum_test call_echo
  maximum_test-passed echo input output =
      let all' : Bytes = replicate 256 b'A' in
      let filled : overwrite s.input_buffer 0 all' ≡ all' =
        overwrite_all s.input_buffer all' input in
      let back : overwrite s.output_buffer 0 all' ≡ all' =
        overwrite_all s.output_buffer all' output in
      let sent : (tfm_echo_service psa (some all') (some s.output_buffer) 256 (some s.output_size)
            s.calls).0
          ≡ (success, some all', some 256) =
        echoes_into all' s.output_buffer 256 s.output_size s.calls output echo (omega arith)
          (omega arith)
        ∙ ap (λ b. (success, some b, some 256)) back in
      rw (filled, sent, ap (λ r. r.0) sent) refl

  oversized_test-passed :
      (next_byte : ℕ)
      → s.input_buffer ≡ replicate 256 b'A'
      → oversized_test psa next_byte s ≡ record s { lines = passed 4 ∷ test_title 4 ∷ s.lines }
  unfolding oversized_test call_echo tfm_echo_service
  oversized_test-passed next_byte same = rw same refl

module _ (psa : Framework) (env : Env) (s : EchoTest) where
  -- Against the echo partition all four echo tests pass. If the framework carries the two requests of
  -- the tests with valid data to the partition and its answers back, then `test_echo_service` prints
  -- that the tests 1 to 4 have passed, and prints nothing else but its titles, the string that it
  -- sends and the same string as the one that it gets; whatever is on the stack before, the byte
  -- behind the input buffer included.
  pub test_echo_service-passed :
      (next_byte : ℕ)
      → ReachesEcho psa env test_string 256 s.calls
      → ReachesEcho psa env (replicate 256 b'A') 256 (first_calls psa env s)
      → (test_echo_service psa next_byte s).lines
        ≡ echo_complete
          ∷ passed 4
          ∷ test_title 4
          ∷ passed 3
          ∷ test_title 3
          ∷ passed 2
          ∷ test_title 2
          ∷ passed 1
          ∷ output_shown test_string 25
          ∷ input_shown test_string 25
          ∷ test_title 1
          ∷ echo_banner
          ∷ s.lines
  unfolding test_echo_service
  test_echo_service-passed next_byte first second =
      let s₁ : EchoTest = record {
        input_buffer = test_string ++ replicate 231 0;
        output_buffer = test_string ++ replicate 231 0;
        output_size = 25;
        lines =
            passed 1
            ∷ output_shown test_string 25
            ∷ input_shown test_string 25
            ∷ test_title 1
            ∷ echo_banner
            ∷ s.lines;
        calls = first_calls psa env s;
      } in
      let s₂ : EchoTest = record s₁ { lines = passed 2 ∷ test_title 2 ∷ s₁.lines } in
      let s₃ : EchoTest = record {
        input_buffer = replicate 256 b'A';
        output_buffer = replicate 256 b'A';
        output_size = 256;
        lines = passed 3 ∷ test_title 3 ∷ s₂.lines;
        calls =
            (tfm_echo_service psa (some (replicate 256 b'A')) (some s₂.output_buffer) 256 (some 25)
              s₂.calls).1;
      } in
      let up_to_2 : empty_test psa (basic_test psa s) ≡ s₂ =
        ap (empty_test psa) (basic_test-passed psa env s first) ∙ empty_test-passed psa env s₁ in
      let up_to_3 : maximum_test psa (empty_test psa (basic_test psa s)) ≡ s₃ =
        ap (maximum_test psa) up_to_2 ∙ maximum_test-passed psa env s₂ second refl refl in
      ap (λ x. echo_complete ∷ (oversized_test psa next_byte x).lines) up_to_3
      ∙ ap (λ x. echo_complete ∷ x.lines) (oversized_test-passed psa env s₃ next_byte refl)
