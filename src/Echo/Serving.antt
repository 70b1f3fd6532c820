-- ===== src/Echo/Serving.antt =====
-- The echo partition answers every message that it receives, exactly once, with the client's own
-- bytes or with the error that the request deserves.
use pico2w_tfm.Common.{
  ℕ, zero, suc, ◌≤◌, All, ◌≡◌, refl, ◌∷◌, ◌++◌, [], arith, ltb, ◌==◌, if◌then◌else◌, length, take,
  overwrite, Bytes, Bool-cases, inl, inr, length-overwrite, take-overwrite,
}
use pico2w_tfm.Psa.{
  Status, success, not_supported, invalid_argument, buffer_too_small, communication_failure,
  MsgType, ipc_connect, ipc_disconnect, ipc_call, Msg, Event, psa_wait, psa_get, psa_read,
  psa_write, psa_reply, Trace, Env,
}
use pico2w_tfm.History.{
  Extends, here, step, Answers, received, replies, received-Answers, replies-Answers,
}
use pico2w_tfm.Echo.Service.{Echo, echo_call, reply, dispatch_type, dispatch, round, serve}

-- Both buffers have the length that the source declares.
pub record IsValid (e : Echo) : Type 0 where
  pub input_length : length e.input_buffer ≡ 256
  pub output_length : length e.output_buffer ≡ 256

-- The calls that a request deserves, latest first, stated with no buffer: what `psa_read` brought
-- is `got`.
abbrev pub requested : Msg → Bytes → Trace
requested msg got =
    if ltb 256 msg.in_size
    then psa_reply msg.handle invalid_argument ∷ []
    else if ltb msg.out_size msg.in_size
    then psa_reply msg.handle buffer_too_small ∷ []
    else if length got == msg.in_size
    then psa_reply msg.handle success
      ∷ psa_write msg.handle 0 got
      ∷ psa_read msg.handle 0 msg.in_size got
      ∷ []
    else psa_reply msg.handle communication_failure ∷ psa_read msg.handle 0 msg.in_size got ∷ []

-- The same for a message of any type.
abbrev pub deserved : MsgType → Msg → Bytes → Trace
deserved ipc_connect msg got = psa_reply msg.handle success ∷ []
deserved ipc_disconnect msg got = psa_reply msg.handle success ∷ []
deserved (ipc_call n) msg got =
    if n == 0 then requested msg got else psa_reply msg.handle not_supported ∷ []

-- A call within the partition's two buffers of 256 bytes, and a write within the client's output.
abbrev pub IsBounded : Msg → Event → Type 0
IsBounded msg (psa_read _ _ n _) = n ≤ 256
IsBounded msg (psa_write _ _ bytes) = (length bytes ≤ 256) × (length bytes ≤ msg.out_size)
IsBounded msg _ = Unit

module _ (env : Env) where
  -- A copy through both buffers gives back the bytes.
  copied :
      (e : Echo) (got : Bytes)
      → IsValid e
      → length got ≤ 256
      → take
          (length got)
          (overwrite e.output_buffer 0 (take (length got) (overwrite e.input_buffer 0 got)))
        ≡ got
  copied e got v h =
      rw (take-overwrite e.input_buffer got (omega arith))
        (take-overwrite e.output_buffer got (omega arith))

  echo_call_lem :
      (msg : Msg) (e : Echo)
      → IsValid e
      → (reply env msg (echo_call env msg e)).trace
        ≡ requested msg (env.read_bytes msg.handle 0 msg.in_size e.trace) ++ e.trace
  unfolding echo_call
  echo_call_lem msg e v =
      ground (arith, copied e (env.read_bytes msg.handle 0 msg.in_size e.trace) v)

  -- While both buffers have their declared length, a message of any type causes exactly the calls
  -- that it deserves: a request of type 0 is refused if it is longer than 256 bytes or than the
  -- client's output, is answered with a communication failure if fewer bytes can be read, and else
  -- gets back the very bytes that were read; connections are accepted, other types refused.
  pub dispatch_lem :
      (msg : Msg) (e : Echo)
      → IsValid e
      → (dispatch env msg e).trace
        ≡ deserved msg.type msg (env.read_bytes msg.handle 0 msg.in_size e.trace) ++ e.trace
  unfolding dispatch
  dispatch_lem msg e v = by_type msg.type
    where
      by_type :
          (m : MsgType)
          → (dispatch_type env m msg e).trace
            ≡ deserved m msg (env.read_bytes msg.handle 0 msg.in_size e.trace) ++ e.trace
      by_type ipc_connect = refl
      by_type ipc_disconnect = refl
      by_type (ipc_call n) = elim (Bool-cases (n == 0)) [
        | inl call ↦ rw call (echo_call_lem msg e v)
        | inr unknown ↦ rw unknown
      ]

  echo_call-Extends : (msg : Msg) (e : Echo) → Extends e.trace (echo_call env msg e).1.trace
  unfolding echo_call
  echo_call-Extends msg e = grind (arith, here, step)

  echo_call-IsValid : (msg : Msg) (e : Echo) → IsValid e → IsValid (echo_call env msg e).1
  unfolding echo_call
  echo_call-IsValid msg e v =
      let got = env.read_bytes msg.handle 0 msg.in_size e.trace in
      ground (
        arith,
        length-overwrite e.input_buffer 0 got,
        length-overwrite e.output_buffer 0 (take (length got) (overwrite e.input_buffer 0 got)),
      )

  pub dispatch-Answers :
      (msg : Msg) (e : Echo)
      → (s : Status) × Answers msg.handle s e.trace (dispatch env msg e).trace
  unfolding dispatch
  dispatch-Answers msg e = go msg.type
    where
      go :
          (m : MsgType)
          → (s : Status) × Answers msg.handle s e.trace (dispatch_type env m msg e).trace
      go ipc_connect = (success, record { before = e.trace; quiet = here; answered = refl })
      go ipc_disconnect = (success, record { before = e.trace; quiet = here; answered = refl })
      go (ipc_call n) = elim (Bool-cases (n == 0)) [
        | inl call ↦ rw call (
          (echo_call env msg e).0,
          record {
            before = (echo_call env msg e).1.trace;
            quiet = echo_call-Extends msg e;
            answered = refl;
          },
        )
        | inr unknown ↦
            rw unknown (not_supported, record { before = e.trace; quiet = here; answered = refl })
      ]

  deserved-IsBounded :
      (m : MsgType) (msg : Msg) (got : Bytes) → All (IsBounded msg) (deserved m msg got)
  deserved-IsBounded m msg got = ground arith

  -- While both buffers have their declared length, whatever a message says and whatever is read for
  -- it: the calls of its handling ask for at most 256 bytes, and write at most 256 bytes and at most
  -- what the client's output holds.
  pub dispatch-IsBounded :
      (msg : Msg) (e : Echo)
      → IsValid e
      → (q : Trace) × ((dispatch env msg e).trace ≡ q ++ e.trace) × All (IsBounded msg) q
  dispatch-IsBounded msg e v =
      let got = env.read_bytes msg.handle 0 msg.in_size e.trace in
      (deserved msg.type msg got, dispatch_lem msg e v, deserved-IsBounded msg.type msg got)

  dispatch-IsValid : (msg : Msg) (e : Echo) → IsValid e → IsValid (dispatch env msg e)
  unfolding dispatch
  dispatch-IsValid msg e v = ground (arith, echo_call-IsValid msg e v)

  round-IsValid : (e : Echo) → IsValid e → IsValid (round env e)
  unfolding round
  round-IsValid e v =
      let waiting = psa_wait ∷ e.trace in
      let got = record e { trace = psa_get (env.get_status waiting) ∷ waiting } in
      ground (arith, dispatch-IsValid (env.message waiting) got)

  -- Both buffers keep their declared length for as long as the service runs.
  pub serve-IsValid : (n : ℕ) (e : Echo) → IsValid e → IsValid (serve env n e)
  unfolding serve
  serve-IsValid zero e v = v
  serve-IsValid (suc n) e v = serve-IsValid n (round env e) (round-IsValid e v)

  round_answers :
      (e : Echo)
      → replies e.trace ≡ received e.trace
      → replies (round env e).trace ≡ received (round env e).trace
  unfolding round
  round_answers e h =
      let waiting = psa_wait ∷ e.trace in
      let got = record e { trace = psa_get (env.get_status waiting) ∷ waiting } in
      let (s, a) = dispatch-Answers (env.message waiting) got in
      ground (arith, received-Answers a, replies-Answers a)

  -- After any number of rounds the service has answered as many messages as it has received,
  -- if that was so at the start.
  pub echo_answers_all :
      (n : ℕ) (e : Echo)
      → replies e.trace ≡ received e.trace
      → replies (serve env n e).trace ≡ received (serve env n e).trace
  unfolding serve
  echo_answers_all zero e h = h
  echo_answers_all (suc n) e h = echo_answers_all n (round env e) (round_answers e h)
