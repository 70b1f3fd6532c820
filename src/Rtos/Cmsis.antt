-- ===== src/Rtos/Cmsis.antt =====
-- CMSIS-RTOS2 as app_broker/os_wrapper_cmsis_rtos_v2.c uses it. The RTOS itself is a parameter.
use pico2w_tfm.Common.{ℕ, Option, Bytes, List, ◌∷◌}

-- `osThreadAttr_t`; the memory that it can name is left to the RTOS in every use.
pub record ThreadAttr : Type 0 where
  pub name : Option Bytes
  pub attr_bits : ℕ
  pub stack_size : ℕ
  pub priority : ℕ
  pub tz_module : ℕ

-- A call of the RTOS, or of the two functions that switch interrupts off and on. A handle is a
-- pointer, and 0 the null pointer; so is a thread's function and its argument.
pub data RtosCall : Type 0 where
  os_thread_new : ℕ → ℕ → ThreadAttr → RtosCall
  os_thread_get_id os_thread_exit os_kernel_get_tick_count : RtosCall
  os_thread_get_priority : ℕ → RtosCall
  os_thread_flags_set : ℕ → ℕ → RtosCall
  os_thread_flags_wait : ℕ → ℕ → ℕ → RtosCall
  os_semaphore_new : ℕ → ℕ → Option Bytes → RtosCall
  os_semaphore_acquire : ℕ → ℕ → RtosCall
  os_semaphore_release os_semaphore_delete : ℕ → RtosCall
  os_mutex_new : ℕ → RtosCall
  os_mutex_acquire : ℕ → ℕ → RtosCall
  os_mutex_release os_mutex_delete : ℕ → RtosCall
  os_message_queue_new : ℕ → ℕ → RtosCall
  os_message_queue_put : ℕ → Bytes → ℕ → ℕ → RtosCall
  os_message_queue_get : ℕ → ℕ → RtosCall
  os_delay : ℕ → RtosCall
  disable_irq enable_irq : RtosCall

-- the calls so far, the latest first
abbrev pub RtosCalls : Type 0
RtosCalls = List RtosCall

-- What the RTOS returns to a call after others, as the word that the caller sees; and the message
-- that it copies out of a queue.
pub record Rtos : Type 0 where
  pub returns : RtosCall → RtosCalls → ℕ
  pub message : ℕ → RtosCalls → Bytes

-- The constants of the wrapper's interface, which TF-M's headers define.
pub record OsWrapper : Type 0 where
  pub wrapper_success : ℕ
  pub wrapper_error : ℕ
  pub wait_forever : ℕ
  pub default_stack_size : ℕ

abbrev pub os_ok : ℕ
os_ok = 0

-- the word of -1
abbrev pub os_priority_error : ℕ
os_priority_error = 0xffffffff

abbrev pub os_wait_forever : ℕ
os_wait_forever = 0xffffffff

abbrev pub os_flags_error : ℕ
os_flags_error = 0x80000000

abbrev pub os_flags_wait_all : ℕ
os_flags_wait_all = 1

abbrev pub os_mutex_prio_inherit : ℕ
os_mutex_prio_inherit = 2

-- A call, with the word that it returns.
unfoldable pub call_rtos : Rtos → RtosCall → RtosCalls → ℕ × RtosCalls
call_rtos rtos c t = (rtos.returns c t, c ∷ t)
