-- ===== src/Rtos/Requests.antt =====
-- One description of the wrapper's functions that report a status: which call of the RTOS each of
-- them stands for, and what it makes of the answer.
use pico2w_tfm.Common.{
  ℕ, Bool, not, Option, none, some, ◌∷◌, ◌≡◌, ◌==◌, if◌then◌else◌, Bytes, arith,
}
use pico2w_tfm.Rtos.Cmsis.{
  RtosCall, os_semaphore_acquire, os_semaphore_release, os_semaphore_delete, os_mutex_acquire,
  os_mutex_release, os_mutex_delete, os_message_queue_put, os_delay, os_thread_flags_set,
  os_thread_flags_wait, os_flags_wait_all, RtosCalls, Rtos, OsWrapper, os_ok, os_wait_forever,
  call_rtos,
}
use pico2w_tfm.Rtos.Threads.{
  has_flags_error, rtos_timeout, os_wrapper_thread_set_flag, os_wrapper_thread_set_flag_isr,
  os_wrapper_thread_wait_flag, os_wrapper_delay,
}
use pico2w_tfm.Rtos.Objects.{
  os_wrapper_semaphore_acquire, os_wrapper_semaphore_release, os_wrapper_semaphore_delete,
  os_wrapper_mutex_acquire, os_wrapper_mutex_release, os_wrapper_mutex_delete,
  os_wrapper_msg_queue_send,
}

-- A use of the wrapper, with its arguments.
pub data Request : Type 0 where
  acquire_semaphore : ℕ → ℕ → Request
  release_semaphore delete_semaphore : ℕ → Request
  acquire_mutex : ℕ → ℕ → Request
  release_mutex delete_mutex : ℕ → Request
  send_message : ℕ → Bytes → Request
  set_flag set_flag_isr : ℕ → ℕ → Request
  wait_flag : ℕ → ℕ → Request
  delay : ℕ → Request

-- the wrapper's function
abbrev pub perform : Rtos → OsWrapper → Request → RtosCalls → ℕ × RtosCalls
perform rtos w (acquire_semaphore h timeout) t = os_wrapper_semaphore_acquire rtos w h timeout t
perform rtos w (release_semaphore h) t = os_wrapper_semaphore_release rtos w h t
perform rtos w (delete_semaphore h) t = os_wrapper_semaphore_delete rtos w h t
perform rtos w (acquire_mutex h timeout) t = os_wrapper_mutex_acquire rtos w h timeout t
perform rtos w (release_mutex h) t = os_wrapper_mutex_release rtos w h t
perform rtos w (delete_mutex h) t = os_wrapper_mutex_delete rtos w h t
perform rtos w (send_message h msg) t = os_wrapper_msg_queue_send rtos w h msg t
perform rtos w (set_flag h flags) t = os_wrapper_thread_set_flag rtos w h flags t
perform rtos w (set_flag_isr h flags) t = os_wrapper_thread_set_flag_isr rtos w h flags t
perform rtos w (wait_flag flags timeout) t = os_wrapper_thread_wait_flag rtos w flags timeout t
perform rtos w (delay ticks) t = os_wrapper_delay rtos w ticks t

-- waiting as long as asked for, where the two interfaces have their own word for "forever"
abbrev pub waits : OsWrapper → ℕ → ℕ
waits w timeout = if timeout == w.wait_forever then os_wait_forever else timeout

abbrev pub guarded : ℕ → RtosCall → Option RtosCall
guarded h c = if h == 0 then none else some c

-- The call that a request stands for; a mutex that is a null pointer stands for none.
abbrev pub call_of : OsWrapper → Request → Option RtosCall
call_of w (acquire_semaphore h timeout) = some (os_semaphore_acquire h (waits w timeout))
call_of w (release_semaphore h) = some (os_semaphore_release h)
call_of w (delete_semaphore h) = some (os_semaphore_delete h)
call_of w (acquire_mutex h timeout) = guarded h (os_mutex_acquire h (waits w timeout))
call_of w (release_mutex h) = guarded h (os_mutex_release h)
call_of w (delete_mutex h) = guarded h (os_mutex_delete h)
call_of w (send_message h msg) = some (os_message_queue_put h msg 0 0)
call_of w (set_flag h flags) = some (os_thread_flags_set h flags)
call_of w (set_flag_isr h flags) = some (os_thread_flags_set h flags)
call_of w (wait_flag flags timeout) =
    some (os_thread_flags_wait flags os_flags_wait_all (waits w timeout))
call_of w (delay ticks) = some (os_delay ticks)

-- Whether the answer is good: flags come back without the error bit, and all else with 0.
abbrev pub is_good : Request → ℕ → Bool
is_good (set_flag _ _) ret = not (has_flags_error ret)
is_good (set_flag_isr _ _) ret = not (has_flags_error ret)
is_good (wait_flag _ _) ret = not (has_flags_error ret)
is_good _ status = status == os_ok

-- One call and the verdict on its answer; without a call, an error.
abbrev pub asks : Rtos → OsWrapper → Request → Option RtosCall → RtosCalls → ℕ × RtosCalls
asks rtos w r none t = (w.wrapper_error, t)
asks rtos w r (some c) t =
    (if is_good r (rtos.returns c t) then w.wrapper_success else w.wrapper_error, c ∷ t)

-- Each wrapper function that reports a status makes exactly the RTOS call that it stands for, once,
-- with its own word for "forever" replaced by the RTOS's, and reports success exactly if the RTOS's
-- answer is good: 0, or flags without the error bit. On a mutex that is a null pointer it makes no
-- call and reports an error.
pub perform-asks :
    (rtos : Rtos) (w : OsWrapper) (r : Request) (t : RtosCalls)
    → perform rtos w r t ≡ asks rtos w r (call_of w r) t
unfolding os_wrapper_semaphore_acquire os_wrapper_semaphore_release os_wrapper_semaphore_delete
    os_wrapper_mutex_acquire os_wrapper_mutex_release os_wrapper_mutex_delete
    os_wrapper_msg_queue_send os_wrapper_thread_set_flag os_wrapper_thread_set_flag_isr
    os_wrapper_thread_wait_flag os_wrapper_delay rtos_timeout call_rtos
perform-asks rtos w (acquire_semaphore h timeout) t = ground arith
perform-asks rtos w (release_semaphore h) t = ground arith
perform-asks rtos w (delete_semaphore h) t = ground arith
perform-asks rtos w (acquire_mutex h timeout) t = ground arith
perform-asks rtos w (release_mutex h) t = ground arith
perform-asks rtos w (delete_mutex h) t = ground arith
perform-asks rtos w (send_message h msg) t = ground arith
perform-asks rtos w (set_flag h flags) t = ground arith
perform-asks rtos w (set_flag_isr h flags) t = ground arith
perform-asks rtos w (wait_flag flags timeout) t = ground arith
perform-asks rtos w (delay ticks) t = ground arith
