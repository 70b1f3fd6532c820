-- ===== src/Echo/Service.antt =====
-- `echo_service_entry`: the two buffers that live across messages, the handling of one message, and
-- the service loop.
use pico2w_tfm.Common.{ℕ, zero, suc, Bytes, ◌∷◌, ltb, ◌==◌, if◌then◌else◌, length, take, overwrite}
use pico2w_tfm.Psa.{
  Status, success, not_supported, invalid_argument, buffer_too_small, communication_failure,
  MsgType, ipc_connect, ipc_disconnect, ipc_call, Msg, psa_wait, psa_get, psa_read, psa_write,
  psa_reply, Trace, Env, is_success,
}

abbrev pub max_data_size : ℕ
max_data_size = 256

-- The locals of the entry point that outlive a message, and the calls made so far.
pub record Echo : Type 0 where
  pub input_buffer : Bytes
  pub output_buffer : Bytes
  pub trace : Trace

-- `echo_service_init`
abbrev pub echo_service_init : Status
echo_service_init = success

module _ (env : Env) where
  -- The body of `case PSA_IPC_CALL` up to its reply.
  unfoldable pub echo_call : Msg → Echo → Status × Echo
  echo_call msg e =
      if ltb max_data_size msg.in_size
      then (invalid_argument, e)
      else if ltb msg.out_size msg.in_size
      then (buffer_too_small, e)
      else (let got = env.read_bytes msg.handle 0 msg.in_size e.trace in
          let bytes_read = length got in
          let input = overwrite e.input_buffer 0 got in
          let seen = psa_read msg.handle 0 msg.in_size got ∷ e.trace in
          if bytes_read == msg.in_size
          then (let output = overwrite e.output_buffer 0 (take bytes_read input) in
              (
                success,
                record {
                  input_buffer = input;
                  output_buffer = output;
                  trace = psa_write msg.handle 0 (take bytes_read output) ∷ seen;
                },
              ))
          else (communication_failure, record e { input_buffer = input; trace = seen }))

  -- `psa_reply(msg.handle, status)`
  abbrev pub reply : Msg → Status × Echo → Echo
  reply msg (status, e) = record e { trace = psa_reply msg.handle status ∷ e.trace }

  abbrev pub dispatch_type : MsgType → Msg → Echo → Echo
  dispatch_type ipc_connect msg e = reply msg (success, e)
  dispatch_type ipc_disconnect msg e = reply msg (success, e)
  dispatch_type (ipc_call n) msg e =
      if n == 0 then reply msg (echo_call msg e) else reply msg (not_supported, e)

  -- The `switch` on `msg.type`.
  unfoldable pub dispatch : Msg → Echo → Echo
  unfolding echo_call
  dispatch msg e = dispatch_type msg.type msg e

  -- One round of the service loop: a message that cannot be had is skipped.
  unfoldable pub round : Echo → Echo
  round e =
      let waiting = psa_wait ∷ e.trace in
      let status = env.get_status waiting in
      let got = record e { trace = psa_get status ∷ waiting } in
      if is_success status then dispatch (env.message waiting) got else got

  -- The first `n` rounds of `while (1)`.
  unfoldable pub serve : ℕ → Echo → Echo
  serve zero e = e
  serve (suc n) e = serve n (round e)
