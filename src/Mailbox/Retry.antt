-- ===== src/Mailbox/Retry.antt =====
-- The loops of lib/multi_core/tfm_ns_mailbox_rtos_api.c that repeat a call until it succeeds.
use pico2w_tfm.Common.{
  ℕ, zero, suc, ◌≤◌, ◌<◌, ◌≡◌, refl, ◌∙◌, arith, true, false, Option, some, Bytes, ◌∷◌, ◌==◌,
  overwrite, length, length-overwrite, take, take-overwrite, Bool-cases, inl, inr,
}
use pico2w_tfm.Rtos.Cmsis.{
  RtosCall, os_message_queue_put, os_message_queue_get, RtosCalls, Rtos, OsWrapper, os_ok,
  os_wait_forever, call_rtos,
}
use pico2w_tfm.Rtos.Objects.{os_wrapper_msg_queue_send, os_wrapper_msg_queue_receive}
use pico2w_tfm.Mailbox.Os.{
  Mailbox, send_loop, receive_loop, tfm_ns_mailbox_os_mq_send, tfm_ns_mailbox_os_mq_receive,
}

-- the history after `k` calls `c`
abbrev pub repeated : RtosCall → ℕ → RtosCalls → RtosCalls
repeated c zero t = t
repeated c (suc k) t = repeated c k (c ∷ t)

-- The RTOS refuses the call `c` for `k` times in a row after the history, and accepts it then.
pub data AcceptsAfter (rtos : Rtos) (c : RtosCall) : ℕ → RtosCalls → Type 0 where
  now : {t : RtosCalls} → (rtos.returns c t == os_ok) ≡ true → AcceptsAfter rtos c 0 t
  later :
      {k : ℕ} {t : RtosCalls}
      → (rtos.returns c t == os_ok) ≡ false
      → AcceptsAfter rtos c k (c ∷ t)
      → AcceptsAfter rtos c (suc k) t

module _ (rtos : Rtos) (w : OsWrapper) (mb : Mailbox) where
  send_loop-AcceptsAfter :
      (fuel k mq_handle : ℕ) (msg : Bytes) (t : RtosCalls)
      → (w.wrapper_error == w.wrapper_success) ≡ false
      → AcceptsAfter rtos (os_message_queue_put mq_handle msg 0 0) k t
      → k < fuel
      → send_loop rtos w mb fuel mq_handle msg t
        ≡ (some mb.mailbox_success, repeated (os_message_queue_put mq_handle msg 0 0) (suc k) t)
  unfolding send_loop os_wrapper_msg_queue_send call_rtos
  send_loop-AcceptsAfter zero k mq_handle msg t apart a h = absurd (omega arith)
  send_loop-AcceptsAfter (suc fuel) zero mq_handle msg t apart (now good) h = rw good (ground arith)
  send_loop-AcceptsAfter (suc fuel) (suc k) mq_handle msg t apart (later bad more) h =
      let c = os_message_queue_put mq_handle msg 0 0 in
      rw (bad, apart) (send_loop-AcceptsAfter fuel k mq_handle msg (c ∷ t) apart more (omega arith))

  -- A message that the queue accepts gets into it, and once: if the RTOS refuses to put it for `k`
  -- times and accepts it then, then `tfm_ns_mailbox_os_mq_send`, on a handle that is no null pointer,
  -- comes to its end after exactly `k + 1` calls, of which only the last succeeded, and returns
  -- MAILBOX_SUCCESS. The wrapper's two status codes are different, and the fuel is any number of
  -- rounds above `k`.
  pub mq_send-AcceptsAfter :
      (fuel k mq_handle : ℕ) (msg : Bytes) (t : RtosCalls)
      → (w.wrapper_error == w.wrapper_success) ≡ false
      → (mq_handle == 0) ≡ false
      → AcceptsAfter rtos (os_message_queue_put mq_handle msg 0 0) k t
      → k < fuel
      → tfm_ns_mailbox_os_mq_send rtos w mb fuel mq_handle (some msg) t
        ≡ (some mb.mailbox_success, repeated (os_message_queue_put mq_handle msg 0 0) (suc k) t)
  unfolding tfm_ns_mailbox_os_mq_send
  mq_send-AcceptsAfter fuel k mq_handle msg t apart handle a h =
      rw handle (send_loop-AcceptsAfter fuel k mq_handle msg t apart a h)

  send_loop-returns :
      (fuel mq_handle r : ℕ) (msg : Bytes) (t : RtosCalls)
      → (w.wrapper_error == w.wrapper_success) ≡ false
      → (send_loop rtos w mb fuel mq_handle msg t).0 ≡ some r
      → (k : ℕ) × (k < fuel)
        × AcceptsAfter rtos (os_message_queue_put mq_handle msg 0 0) k t
        × (r ≡ mb.mailbox_success)
  unfolding send_loop os_wrapper_msg_queue_send call_rtos
  send_loop-returns zero mq_handle r msg t apart h = absurd (cc h)
  send_loop-returns (suc fuel) mq_handle r msg t apart h =
      let c = os_message_queue_put mq_handle msg 0 0 in
      elim (Bool-cases (rtos.returns c t == os_ok)) [
        | inl good ↦ (0, omega arith, now good, ground arith)
        | inr bad ↦
            let (k, less, a, e) =
              send_loop-returns fuel mq_handle r msg (c ∷ t) apart (ground arith) in
            (suc k, omega arith, later bad a, e)
      ]

  -- `tfm_ns_mailbox_os_mq_send` returns only with a reason. If it comes to its end on a handle that is
  -- no null pointer, whatever the fuel, then it returns MAILBOX_SUCCESS, and the RTOS has accepted
  -- the message after some number of refusals. The wrapper's two status codes are different.
  pub mq_send-returns :
      (fuel mq_handle r : ℕ) (msg : Bytes) (t : RtosCalls)
      → (w.wrapper_error == w.wrapper_success) ≡ false
      → (mq_handle == 0) ≡ false
      → (tfm_ns_mailbox_os_mq_send rtos w mb fuel mq_handle (some msg) t).0 ≡ some r
      → (r ≡ mb.mailbox_success)
        × (k : ℕ) × AcceptsAfter rtos (os_message_queue_put mq_handle msg 0 0) k t
  unfolding tfm_ns_mailbox_os_mq_send
  mq_send-returns fuel mq_handle r msg t apart handle h =
      let (k, less, a, e) = send_loop-returns fuel mq_handle r msg t apart (ground arith) in
      (e, k, a)

  -- The result of a receive: the status, the memory behind the pointer, and the history.
  pub record Delivers (c : RtosCall) (k mq_handle : ℕ) (msg : Bytes) (t : RtosCalls)
      (r : (Option ℕ × Bytes) × RtosCalls) : Type 0 where
    pub status : r.0.0 ≡ some mb.mailbox_success
    pub history : r.1 ≡ repeated c (suc k) t
    pub size : length r.0.1 ≡ length msg
    pub delivered : let m = rtos.message mq_handle (repeated c k t) in take (length m) r.0.1 ≡ m

  receive_loop-Delivers :
      (fuel k mq_handle : ℕ) (msg : Bytes) (t : RtosCalls)
      → (w.wrapper_error == w.wrapper_success) ≡ false
      → AcceptsAfter rtos (os_message_queue_get mq_handle os_wait_forever) k t
      → k < fuel
      → length
          (rtos.message mq_handle (repeated (os_message_queue_get mq_handle os_wait_forever) k t))
        ≤ length msg
      → Delivers
          (os_message_queue_get mq_handle os_wait_forever)
          k
          mq_handle
          msg
          t
          (receive_loop rtos w mb fuel mq_handle msg t)
  unfolding receive_loop os_wrapper_msg_queue_receive call_rtos
  receive_loop-Delivers zero k mq_handle msg t apart a h room = absurd (omega arith)
  receive_loop-Delivers (suc fuel) zero mq_handle msg t apart (now good) h room =
      let m = rtos.message mq_handle t in
      rw good (record {
        status = ground arith;
        history = ground arith;
        size = ground (arith, length-overwrite msg 0 m);
        delivered = ground (arith, take-overwrite msg m room);
      })
  receive_loop-Delivers (suc fuel) (suc k) mq_handle msg t apart (later bad more) h room =
      let c = os_message_queue_get mq_handle os_wait_forever in
      let m = rtos.message mq_handle t in
      let same : length (overwrite msg 0 m) ≡ length msg = length-overwrite msg 0 m in
      let d =
        receive_loop-Delivers fuel k mq_handle (overwrite msg 0 m) (c ∷ t) apart more (omega arith)
          (omega (arith, same)) in
      rw (bad, apart)
        (record {
          status = d.status;
          history = d.history;
          size = d.size ∙ same;
          delivered = d.delivered;
        })

  -- A message that the queue has is received: if the RTOS gives none for `k` times and gives one then,
  -- which the memory behind `msg_ptr` has room for, then `tfm_ns_mailbox_os_mq_receive`, on a handle
  -- that is no null pointer, comes to its end after exactly `k + 1` calls, of which only the last
  -- succeeded, returns MAILBOX_SUCCESS, and leaves the message of that call at the start of the
  -- memory, whose size stays. The wrapper's two status codes are different, and the fuel is any
  -- number of rounds above `k`.
  pub mq_receive-AcceptsAfter :
      (fuel k mq_handle : ℕ) (msg : Bytes) (t : RtosCalls)
      → (w.wrapper_error == w.wrapper_success) ≡ false
      → (mq_handle == 0) ≡ false
      → AcceptsAfter rtos (os_message_queue_get mq_handle os_wait_forever) k t
      → k < fuel
      → length
          (rtos.message mq_handle (repeated (os_message_queue_get mq_handle os_wait_forever) k t))
        ≤ length msg
      → let c = os_message_queue_get mq_handle os_wait_forever in
        let m = rtos.message mq_handle (repeated c k t) in
        let r = tfm_ns_mailbox_os_mq_receive rtos w mb fuel mq_handle (some msg) t in
        (received : Bytes) × (r ≡ ((some mb.mailbox_success, some received), repeated c (suc k) t))
        × (length received ≡ length msg)
        × (take (length m) received ≡ m)
  unfolding tfm_ns_mailbox_os_mq_receive
  mq_receive-AcceptsAfter fuel k mq_handle msg t apart handle a h room =
      let d = receive_loop-Delivers fuel k mq_handle msg t apart a h room in
      let r = receive_loop rtos w mb fuel mq_handle msg t in
      (r.0.1, rw (handle, d.status, d.history) refl, d.size, d.delivered)
