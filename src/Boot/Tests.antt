-- ===== src/Boot/Tests.antt =====
-- The start of the non-secure side on a concrete board.
use pico2w_tfm.Common.{true, false, ◌∷◌, [], ◌≡◌, refl}
use pico2w_tfm.Boot.Main.{
  Boot, Board, stdio_init, enable_fp, log_msg, platform_initialized, on_non_secure_core,
  kernel_initialized, co_processor_initialized, sync_error, wait_for_s_cpu_ready,
  os_kernel_initialize, tfm_ns_platform_init, tfm_ns_cp_init, tfm_ns_multi_core_boot, main,
}
use pico2w_tfm.Boot.Order.{Adds, adds_none, adds_one, Starts, main-Starts}

-- A board with two cores and the functions of main_ns.c, on which the secure core is not ready.
abbrev board : Board
board = record {
  mailbox_api = true;
  mailbox_thread = false;
  platform_init = tfm_ns_platform_init;
  cp_init = tfm_ns_cp_init 1 true;
  s_cpu_ready = λ t. 1;
  mailbox_status = λ t. 0;
  mailbox_success = 0;
}

platform-Adds : (t : Boot) → Adds t (tfm_ns_platform_init t).1
unfolding tfm_ns_platform_init
platform-Adds t = adds_one refl adds_none

cp-Adds : (t : Boot) → Adds t (tfm_ns_cp_init 1 true t).1
unfolding tfm_ns_cp_init
cp-Adds t = adds_one refl adds_none

main-board :
    main board
    ≡ log_msg sync_error
      ∷ wait_for_s_cpu_ready
      ∷ log_msg on_non_secure_core
      ∷ log_msg kernel_initialized
      ∷ os_kernel_initialize
      ∷ log_msg co_processor_initialized
      ∷ enable_fp
      ∷ log_msg platform_initialized
      ∷ stdio_init
      ∷ []
unfolding main tfm_ns_platform_init tfm_ns_cp_init tfm_ns_multi_core_boot
main-board = refl

-- The kernel is not started.
main-Starts_example : Starts false (main board)
unfolding tfm_ns_platform_init tfm_ns_cp_init
main-Starts_example = main-Starts board platform-Adds cp-Adds
