-- ===== src/Rtos/Threads.antt =====
-- The thread functions of app_broker/os_wrapper_cmsis_rtos_v2.c.
use pico2w_tfm.Common.{ℕ, ◌/◌, ◌%◌, Bool, not, Option, none, some, Bytes, ◌==◌, if◌then◌else◌}
use pico2w_tfm.Common.Int.{pattern32}
use pico2w_tfm.Nsid.Threads.{default_nsid, nsid_mgr_get_thread_nsid}
use pico2w_tfm.Rtos.Cmsis.{
  ThreadAttr, os_thread_new, os_thread_get_id, os_thread_exit, os_kernel_get_tick_count,
  os_thread_get_priority, os_thread_flags_set, os_thread_flags_wait, os_delay, RtosCalls, Rtos,
  OsWrapper, os_ok, os_priority_error, os_wait_forever, os_flags_error, os_flags_wait_all,
  call_rtos,
}

-- The build's flags TFM_NS_MANAGE_NSID and PSA_API_TEST_NS.
pub record NsidBuild : Type 0 where
  pub manage_nsid : Bool
  pub psa_api_test : Bool

-- The attributes that `os_wrapper_thread_new` fills in. The stack size is the word of an `int32_t`,
-- and the name may be a null pointer.
unfoldable pub task_attribs : OsWrapper → NsidBuild → Option Bytes → ℕ → ℕ → ThreadAttr
task_attribs w build name stack_size priority = record {
  name = name;
  attr_bits = 0;
  stack_size = if not (stack_size == w.default_stack_size) then stack_size else 0;
  priority = priority;
  tz_module =
      if build.manage_nsid
      then pattern32 (nsid_mgr_get_thread_nsid build.psa_api_test name)
      else pattern32 default_nsid;
}

-- the timeout that is given to the RTOS
unfoldable pub rtos_timeout : OsWrapper → ℕ → ℕ
rtos_timeout w timeout = if timeout == w.wait_forever then os_wait_forever else timeout

-- `ret & osFlagsError`, of a 32-bit word
abbrev pub has_flags_error : ℕ → Bool
has_flags_error ret = ret / os_flags_error % 2 == 1

module _ (rtos : Rtos) (w : OsWrapper) where
  unfoldable pub os_wrapper_thread_new :
      NsidBuild → Option Bytes → ℕ → ℕ → ℕ → ℕ → RtosCalls → ℕ × RtosCalls
  os_wrapper_thread_new build name stack_size func arg priority t =
      call_rtos rtos (os_thread_new func arg (task_attribs w build name stack_size priority)) t

  unfoldable pub os_wrapper_thread_get_handle : RtosCalls → ℕ × RtosCalls
  os_wrapper_thread_get_handle t = call_rtos rtos os_thread_get_id t

  -- The result, and what is stored in `*priority`.
  unfoldable pub os_wrapper_thread_get_priority : ℕ → RtosCalls → (ℕ × Option ℕ) × RtosCalls
  os_wrapper_thread_get_priority handle t =
      let (prio, t') = call_rtos rtos (os_thread_get_priority handle) t in
      if prio == os_priority_error
      then ((w.wrapper_error, none), t')
      else ((w.wrapper_success, some prio), t')

  unfoldable pub os_wrapper_thread_exit : RtosCalls → RtosCalls
  os_wrapper_thread_exit t = (call_rtos rtos os_thread_exit t).1

  unfoldable pub os_wrapper_thread_set_flag : ℕ → ℕ → RtosCalls → ℕ × RtosCalls
  os_wrapper_thread_set_flag handle flags t =
      let (ret, t') = call_rtos rtos (os_thread_flags_set handle flags) t in
      if has_flags_error ret then (w.wrapper_error, t') else (w.wrapper_success, t')

  unfoldable pub os_wrapper_thread_set_flag_isr : ℕ → ℕ → RtosCalls → ℕ × RtosCalls
  os_wrapper_thread_set_flag_isr handle flags t =
      let (ret, t') = call_rtos rtos (os_thread_flags_set handle flags) t in
      if has_flags_error ret then (w.wrapper_error, t') else (w.wrapper_success, t')

  unfoldable pub os_wrapper_thread_wait_flag : ℕ → ℕ → RtosCalls → ℕ × RtosCalls
  os_wrapper_thread_wait_flag flags timeout t =
      let c = os_thread_flags_wait flags os_flags_wait_all (rtos_timeout w timeout) in
      let (ret, t') = call_rtos rtos c t in
      if has_flags_error ret then (w.wrapper_error, t') else (w.wrapper_success, t')

  unfoldable pub os_wrapper_get_tick : RtosCalls → ℕ × RtosCalls
  os_wrapper_get_tick t = call_rtos rtos os_kernel_get_tick_count t

  unfoldable pub os_wrapper_delay : ℕ → RtosCalls → ℕ × RtosCalls
  os_wrapper_delay ticks t =
      let (status, t') = call_rtos rtos (os_delay ticks) t in
      if status == os_ok then (w.wrapper_success, t') else (w.wrapper_error, t')
