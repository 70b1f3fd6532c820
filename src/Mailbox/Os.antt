-- ===== src/Mailbox/Os.antt =====
-- lib/multi_core/tfm_ns_mailbox_rtos_api.c, in both builds: with the mailbox thread (message queues)
-- and without it (the lock).
use pico2w_tfm.Common.{
  ℕ, zero, suc, Bool, true, false, Option, none, some, Bytes, ◌==◌, if◌then◌else◌,
}
use pico2w_tfm.Rtos.Cmsis.{disable_irq, enable_irq, RtosCalls, Rtos, OsWrapper, call_rtos}
use pico2w_tfm.Rtos.Threads.{
  os_wrapper_thread_get_handle, os_wrapper_thread_wait_flag, os_wrapper_thread_set_flag_isr,
}
use pico2w_tfm.Rtos.Objects.{
  os_wrapper_semaphore_create, os_wrapper_semaphore_acquire, os_wrapper_semaphore_release,
  os_wrapper_msg_queue_create, os_wrapper_msg_queue_send, os_wrapper_msg_queue_receive,
}

-- What TF-M's mailbox headers define: the status codes, and NUM_MAILBOX_QUEUE_SLOT.
pub record Mailbox : Type 0 where
  pub mailbox_success : ℕ
  pub mailbox_inval_params : ℕ
  pub mailbox_generic_error : ℕ
  pub num_slot : ℕ

abbrev pub mailbox_thread_flag : ℕ
mailbox_thread_flag = 0x5fca0000

-- what is stored behind a pointer, if it is not null
abbrev pub is_null : Option Bytes → Bool
is_null none = true
is_null (some _) = false

module _ (rtos : Rtos) (w : OsWrapper) where
  unfoldable pub tfm_ns_mailbox_os_get_task_handle : RtosCalls → ℕ × RtosCalls
  tfm_ns_mailbox_os_get_task_handle t = os_wrapper_thread_get_handle rtos w t

  unfoldable pub tfm_ns_mailbox_os_wait_reply : RtosCalls → RtosCalls
  tfm_ns_mailbox_os_wait_reply t =
      (os_wrapper_thread_wait_flag rtos w mailbox_thread_flag w.wait_forever t).1

  unfoldable pub tfm_ns_mailbox_os_wake_task_isr : ℕ → RtosCalls → RtosCalls
  tfm_ns_mailbox_os_wake_task_isr task_handle t =
      (os_wrapper_thread_set_flag_isr rtos w task_handle mailbox_thread_flag t).1

  unfoldable pub tfm_ns_mailbox_os_spin_lock : RtosCalls → RtosCalls
  tfm_ns_mailbox_os_spin_lock t = (call_rtos rtos disable_irq t).1

  unfoldable pub tfm_ns_mailbox_os_spin_unlock : RtosCalls → RtosCalls
  tfm_ns_mailbox_os_spin_unlock t = (call_rtos rtos enable_irq t).1

module _ (rtos : Rtos) (w : OsWrapper) (mb : Mailbox) where
  unfoldable pub tfm_ns_mailbox_os_mq_create : ℕ → ℕ → RtosCalls → ℕ × RtosCalls
  tfm_ns_mailbox_os_mq_create msg_size msg_count t =
      os_wrapper_msg_queue_create rtos w msg_size msg_count t

  -- `while (1)`, with the number of rounds as fuel: `none` when the fuel is used up.
  unfoldable pub send_loop : ℕ → ℕ → Bytes → RtosCalls → Option ℕ × RtosCalls
  send_loop zero mq_handle msg t = (none, t)
  send_loop (suc fuel) mq_handle msg t =
      let (ret, t') = os_wrapper_msg_queue_send rtos w mq_handle msg t in
      let rest = send_loop fuel mq_handle msg t' in
      if ret == w.wrapper_success then (some mb.mailbox_success, t') else rest

  unfoldable pub tfm_ns_mailbox_os_mq_send : ℕ → ℕ → Option Bytes → RtosCalls → Option ℕ × RtosCalls
  tfm_ns_mailbox_os_mq_send fuel mq_handle none t = (some mb.mailbox_inval_params, t)
  tfm_ns_mailbox_os_mq_send fuel mq_handle (some msg) t =
      let sent = send_loop fuel mq_handle msg t in
      if mq_handle == 0 then (some mb.mailbox_inval_params, t) else sent

  -- The memory behind `msg_ptr` goes in and comes out.
  unfoldable pub receive_loop : ℕ → ℕ → Bytes → RtosCalls → (Option ℕ × Bytes) × RtosCalls
  receive_loop zero mq_handle msg t = ((none, msg), t)
  receive_loop (suc fuel) mq_handle msg t =
      let ((ret, msg'), t') = os_wrapper_msg_queue_receive rtos w mq_handle msg t in
      let rest = receive_loop fuel mq_handle msg' t' in
      if ret == w.wrapper_success then ((some mb.mailbox_success, msg'), t') else rest

  unfoldable pub tfm_ns_mailbox_os_mq_receive :
      ℕ → ℕ → Option Bytes → RtosCalls → (Option ℕ × Option Bytes) × RtosCalls
  tfm_ns_mailbox_os_mq_receive fuel mq_handle none t = ((some mb.mailbox_inval_params, none), t)
  tfm_ns_mailbox_os_mq_receive fuel mq_handle (some msg) t =
      let ((ret, msg'), t') = receive_loop fuel mq_handle msg t in
      if mq_handle == 0
      then ((some mb.mailbox_inval_params, some msg), t)
      else ((ret, some msg'), t')

  -- The status, and `ns_lock_handle`.
  unfoldable pub tfm_ns_mailbox_os_lock_init : RtosCalls → (ℕ × ℕ) × RtosCalls
  tfm_ns_mailbox_os_lock_init t =
      let (ns_lock_handle, t') =
        os_wrapper_semaphore_create rtos w mb.num_slot mb.num_slot none t in
      if ns_lock_handle == 0
      then ((mb.mailbox_generic_error, ns_lock_handle), t')
      else ((mb.mailbox_success, ns_lock_handle), t')

  unfoldable pub tfm_ns_mailbox_os_lock_acquire : ℕ → RtosCalls → ℕ × RtosCalls
  tfm_ns_mailbox_os_lock_acquire ns_lock_handle t =
      os_wrapper_semaphore_acquire rtos w ns_lock_handle w.wait_forever t

  unfoldable pub tfm_ns_mailbox_os_lock_release : ℕ → RtosCalls → ℕ × RtosCalls
  tfm_ns_mailbox_os_lock_release ns_lock_handle t =
      os_wrapper_semaphore_release rtos w ns_lock_handle t
