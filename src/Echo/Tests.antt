-- ===== src/Echo/Tests.antt =====
-- The echo partition on concrete messages.
use pico2w_tfm.Common.{ℕ, ◌≡◌, refl, ◌∷◌, [], ◌++◌, All, take, replicate, ltb, if◌then◌else◌}
use pico2w_tfm.Psa.{
  success, communication_failure, buffer_too_small, invalid_argument, ipc_connect, ipc_call, Msg,
  psa_wait, psa_get, psa_read, psa_write, psa_reply, tm_ok, Trace, Env,
}
use pico2w_tfm.History.{received}
use pico2w_tfm.Echo.Service.{Echo, dispatch, serve, round, echo_call}
use pico2w_tfm.Echo.Serving.{IsValid, IsBounded, dispatch_lem, dispatch-IsBounded}

-- a request to echo three bytes
abbrev hello : Msg
hello = record { type = ipc_call 0; handle = 5; in_size = 3; out_size = 8 }

-- a client that connects and then sends its request again and again
abbrev client : Env
client = record {
  get_status = λ t. success;
  message = λ t. if ltb 0 (received t) then hello else record hello { type = ipc_connect };
  read_bytes = λ handle vec n t. take n (104 ∷ 105 ∷ 33 ∷ []);
  crypto_status = λ c t. success;
  filled = λ c t. [];
  key_id = λ t. 1;
  engine_status = λ c t. tm_ok;
  Float = ℕ;
  gt = λ a b. ltb b a;
  zero_float = 0;
  scores = λ t. [];
}

abbrev started : Echo
started = record { input_buffer = replicate 256 0; output_buffer = replicate 256 0; trace = [] }

started-IsValid : IsValid started
started-IsValid = record { input_length = refl; output_length = refl }

serve-started :
    (serve client 2 started).trace
    ≡ psa_reply 5 success
      ∷ psa_write 5 0 (104 ∷ 105 ∷ 33 ∷ [])
      ∷ psa_read 5 0 3 (104 ∷ 105 ∷ 33 ∷ [])
      ∷ psa_get success
      ∷ psa_wait
      ∷ psa_reply 5 success
      ∷ psa_get success
      ∷ psa_wait
      ∷ []
unfolding serve round dispatch echo_call
serve-started = refl

dispatch-short :
    (dispatch client (record hello { in_size = 4 }) started).trace
    ≡ psa_reply 5 communication_failure ∷ psa_read 5 0 4 (104 ∷ 105 ∷ 33 ∷ []) ∷ []
unfolding dispatch echo_call
dispatch-short = refl

dispatch-no_room :
    (dispatch client (record hello { out_size = 2 }) started).trace
    ≡ psa_reply 5 buffer_too_small ∷ []
unfolding dispatch echo_call
dispatch-no_room = refl

dispatch-too_long :
    (dispatch client (record hello { in_size = 257; out_size = 300 }) started).trace
    ≡ psa_reply 5 invalid_argument ∷ []
unfolding dispatch echo_call
dispatch-too_long = refl

dispatch_lem_example :
    (dispatch client hello started).trace
    ≡ psa_reply 5 success
      ∷ psa_write 5 0 (104 ∷ 105 ∷ 33 ∷ [])
      ∷ psa_read 5 0 3 (104 ∷ 105 ∷ 33 ∷ [])
      ∷ []
dispatch_lem_example = dispatch_lem client hello started started-IsValid

dispatch-IsBounded_example :
    (q : Trace) × ((dispatch client hello started).trace ≡ q ++ []) × All (IsBounded hello) q
dispatch-IsBounded_example = dispatch-IsBounded client hello started started-IsValid
