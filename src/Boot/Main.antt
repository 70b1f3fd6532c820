-- ===== src/Boot/Main.antt =====
-- app_broker/main_ns.c.
use pico2w_tfm.Common.{ℕ, Bool, not, ◌&&◌, some, List, [], ◌∷◌, leb, ◌==◌, if◌then◌else◌}
use pico2w_tfm.Common.Int.{pattern32}
use pico2w_tfm.Nsid.Threads.{default_nsid}
use pico2w_tfm.Rtos.Cmsis.{ThreadAttr}

-- The lines that are logged.
pub data LogLine : Type 0 where
  platform_initialized co_processor_initialized kernel_initialized : LogLine
  interface_initialized system_starting on_non_secure_core : LogLine
  sync_error mailbox_failed : LogLine

-- The functions that threads run.
pub data ThreadFunc : Type 0 where
  run_all_tests mailbox_thread_runner : ThreadFunc

-- What happens at the start, a call each; `enable_fp` is the write to CPACR.
pub data BootEvent : Type 0 where
  stdio_init stdio_uninit enable_fp : BootEvent
  log_msg : LogLine → BootEvent
  os_kernel_initialize os_kernel_start : BootEvent
  interface_init wait_for_s_cpu_ready mailbox_init : BootEvent
  os_thread_new : ThreadFunc → ThreadAttr → BootEvent

-- the latest first
abbrev pub Boot : Type 0
Boot = List BootEvent

-- The build (TFM_NS_MAILBOX_API, TFM_MULTI_CORE_NS_OS_MAILBOX_THREAD), the functions that a platform
-- can override, and the answers of TF-M's own functions.
pub record Board : Type 0 where
  pub mailbox_api : Bool
  pub mailbox_thread : Bool
  pub platform_init : Boot → ℕ × Boot
  pub cp_init : Boot → ℕ × Boot
  pub s_cpu_ready : Boot → ℕ
  pub mailbox_status : Boot → ℕ
  pub mailbox_success : ℕ

abbrev pub arm_driver_ok : ℕ
arm_driver_ok = 0

abbrev pub thread_attr : ThreadAttr
thread_attr = record {
  name = some (
      b't' ∷ b'i' ∷ b'n' ∷ b'y' ∷ b'm' ∷ b'l' ∷ b'_' ∷ b't' ∷ b'h' ∷ b'r' ∷ b'e' ∷ b'a' ∷ b'd'
      ∷ []);
  attr_bits = 0;
  stack_size = 4096;
  priority = 0;
  tz_module = pattern32 default_nsid;
}

abbrev pub mailbox_thread_attr : ThreadAttr
mailbox_thread_attr = record {
  name = some (
      b'm' ∷ b'a' ∷ b'i' ∷ b'l' ∷ b'b' ∷ b'o' ∷ b'x' ∷ b'_' ∷ b't' ∷ b'h' ∷ b'r' ∷ b'e' ∷ b'a'
      ∷ b'd' ∷ []);
  attr_bits = 0;
  stack_size = 1024;
  priority = 0;
  tz_module = 0;
}

-- The three weak functions; CONFIG_TFM_FLOAT_ABI and whether __GNUC__ is defined are arguments.
unfoldable pub tfm_ns_platform_init : Boot → ℕ × Boot
tfm_ns_platform_init t = (arm_driver_ok, stdio_init ∷ t)

unfoldable pub tfm_ns_platform_uninit : Boot → ℕ × Boot
tfm_ns_platform_uninit t = (arm_driver_ok, stdio_uninit ∷ t)

unfoldable pub tfm_ns_cp_init : ℕ → Bool → Boot → ℕ × Boot
tfm_ns_cp_init float_abi gnuc t =
    (arm_driver_ok, if leb 1 float_abi && gnuc then enable_fp ∷ t else t)

-- A part of the start comes to its end, or to an endless loop.
pub data Reaches : Type 0 where
  continues : Boot → Reaches
  loops : Boot → Reaches

unfoldable pub tfm_ns_multi_core_boot : Board → Boot → Reaches
tfm_ns_multi_core_boot b t =
    let t₁ = wait_for_s_cpu_ready ∷ log_msg on_non_secure_core ∷ t in
    let t₂ = mailbox_init ∷ t₁ in
    if not (b.s_cpu_ready (log_msg on_non_secure_core ∷ t) == 0)
    then loops (log_msg sync_error ∷ t₁)
    else if not (b.mailbox_status t₁ == b.mailbox_success)
    then loops (log_msg mailbox_failed ∷ t₂)
    else continues t₂

-- The last part of `main`: the threads and the kernel. `osKernelStart` returns only in case of an
-- error, and then an endless loop follows.
abbrev pub start_threads : Board → Reaches → Boot
start_threads b (loops t) = t
start_threads b (continues t) =
    let t' =
      if b.mailbox_thread then os_thread_new mailbox_thread_runner mailbox_thread_attr ∷ t else t in
    os_kernel_start ∷ log_msg system_starting ∷ os_thread_new run_all_tests thread_attr ∷ t'

-- What has happened when `main` is in one of its endless loops, or the kernel runs.
unfoldable pub main : Board → Boot
main b =
    let (status, t) = b.platform_init [] in
    let (cp_status, t₁) = b.cp_init (log_msg platform_initialized ∷ t) in
    let t₂ =
      log_msg kernel_initialized ∷ os_kernel_initialize ∷ log_msg co_processor_initialized ∷ t₁ in
    let reached =
      if b.mailbox_api
      then tfm_ns_multi_core_boot b t₂
      else continues (log_msg interface_initialized ∷ interface_init ∷ t₂) in
    if not (status == arm_driver_ok)
    then t
    else if not (cp_status == arm_driver_ok)
    then t₁
    else start_threads b reached
