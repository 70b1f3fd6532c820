-- ===== src/Rtos/Objects.antt =====
-- The semaphores, mutexes and message queues of app_broker/os_wrapper_cmsis_rtos_v2.c.
use pico2w_tfm.Common.{ℕ, not, Option, Bytes, ◌==◌, if◌then◌else◌, overwrite}
use pico2w_tfm.Rtos.Cmsis.{
  os_semaphore_new, os_semaphore_acquire, os_semaphore_release, os_semaphore_delete, os_mutex_new,
  os_mutex_acquire, os_mutex_release, os_mutex_delete, os_message_queue_new, os_message_queue_put,
  os_message_queue_get, RtosCalls, Rtos, OsWrapper, os_ok, os_wait_forever, os_mutex_prio_inherit,
  call_rtos,
}
use pico2w_tfm.Rtos.Threads.{rtos_timeout}

module _ (rtos : Rtos) (w : OsWrapper) where
  unfoldable pub os_wrapper_semaphore_create : ℕ → ℕ → Option Bytes → RtosCalls → ℕ × RtosCalls
  os_wrapper_semaphore_create max_count initial_count name t =
      call_rtos rtos (os_semaphore_new max_count initial_count name) t

  unfoldable pub os_wrapper_semaphore_acquire : ℕ → ℕ → RtosCalls → ℕ × RtosCalls
  os_wrapper_semaphore_acquire handle timeout t =
      let (status, t') = call_rtos rtos (os_semaphore_acquire handle (rtos_timeout w timeout)) t in
      if not (status == os_ok) then (w.wrapper_error, t') else (w.wrapper_success, t')

  unfoldable pub os_wrapper_semaphore_release : ℕ → RtosCalls → ℕ × RtosCalls
  os_wrapper_semaphore_release handle t =
      let (status, t') = call_rtos rtos (os_semaphore_release handle) t in
      if not (status == os_ok) then (w.wrapper_error, t') else (w.wrapper_success, t')

  unfoldable pub os_wrapper_semaphore_delete : ℕ → RtosCalls → ℕ × RtosCalls
  os_wrapper_semaphore_delete handle t =
      let (status, t') = call_rtos rtos (os_semaphore_delete handle) t in
      if not (status == os_ok) then (w.wrapper_error, t') else (w.wrapper_success, t')

  unfoldable pub os_wrapper_mutex_create : RtosCalls → ℕ × RtosCalls
  os_wrapper_mutex_create t = call_rtos rtos (os_mutex_new os_mutex_prio_inherit) t

  unfoldable pub os_wrapper_mutex_acquire : ℕ → ℕ → RtosCalls → ℕ × RtosCalls
  os_wrapper_mutex_acquire handle timeout t =
      let (status, t') = call_rtos rtos (os_mutex_acquire handle (rtos_timeout w timeout)) t in
      if handle == 0
      then (w.wrapper_error, t)
      else (if not (status == os_ok) then (w.wrapper_error, t') else (w.wrapper_success, t'))

  unfoldable pub os_wrapper_mutex_release : ℕ → RtosCalls → ℕ × RtosCalls
  os_wrapper_mutex_release handle t =
      let (status, t') = call_rtos rtos (os_mutex_release handle) t in
      if handle == 0
      then (w.wrapper_error, t)
      else (if not (status == os_ok) then (w.wrapper_error, t') else (w.wrapper_success, t'))

  unfoldable pub os_wrapper_mutex_delete : ℕ → RtosCalls → ℕ × RtosCalls
  os_wrapper_mutex_delete handle t =
      let (status, t') = call_rtos rtos (os_mutex_delete handle) t in
      if handle == 0
      then (w.wrapper_error, t)
      else (if not (status == os_ok) then (w.wrapper_error, t') else (w.wrapper_success, t'))

  unfoldable pub os_wrapper_msg_queue_create : ℕ → ℕ → RtosCalls → ℕ × RtosCalls
  os_wrapper_msg_queue_create msg_size msg_count t =
      call_rtos rtos (os_message_queue_new msg_count msg_size) t

  -- without a timeout, and with the priority 0
  unfoldable pub os_wrapper_msg_queue_send : ℕ → Bytes → RtosCalls → ℕ × RtosCalls
  os_wrapper_msg_queue_send mq_handle msg t =
      let (status, t') = call_rtos rtos (os_message_queue_put mq_handle msg 0 0) t in
      if status == os_ok then (w.wrapper_success, t') else (w.wrapper_error, t')

  -- The memory behind `msg_ptr` goes in and comes out with the message.
  unfoldable pub os_wrapper_msg_queue_receive : ℕ → Bytes → RtosCalls → (ℕ × Bytes) × RtosCalls
  os_wrapper_msg_queue_receive mq_handle msg t =
      let (status, t') = call_rtos rtos (os_message_queue_get mq_handle os_wait_forever) t in
      let msg' = overwrite msg 0 (rtos.message mq_handle t) in
      if status == os_ok then ((w.wrapper_success, msg'), t') else ((w.wrapper_error, msg'), t')
