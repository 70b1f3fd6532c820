-- ===== src/Boot/Order.antt =====
-- The order of events at the start (app_broker/main_ns.c).
use pico2w_tfm.Common.{
  ℕ, suc, Bool, true, false, not, ◌&&◌, ◌||◌, [], ◌∷◌, ◌≡◌, refl, ap, ◌==◌, if◌then◌else◌,
  Bool-cases, inl, inr,
}
use pico2w_tfm.Boot.Main.{
  run_all_tests, BootEvent, stdio_init, stdio_uninit, enable_fp, log_msg, os_kernel_initialize,
  os_kernel_start, interface_init, wait_for_s_cpu_ready, mailbox_init, os_thread_new, Boot, Board,
  arm_driver_ok, continues, interface_initialized, platform_initialized, on_non_secure_core,
  kernel_initialized, co_processor_initialized, start_threads, tfm_ns_multi_core_boot, main,
}

-- how often the kernel was started
abbrev pub starts : Boot → ℕ
starts [] = 0
starts (os_kernel_start ∷ t) = suc (starts t)
starts (_ ∷ t) = starts t

abbrev pub is_initialized : Boot → Bool
is_initialized [] = false
is_initialized (os_kernel_initialize ∷ t) = true
is_initialized (_ ∷ t) = is_initialized t

-- the thread of the application was created
abbrev pub is_created : Boot → Bool
is_created [] = false
is_created (os_thread_new run_all_tests _ ∷ t) = true
is_created (_ ∷ t) = is_created t

-- Threads are created once the kernel is initialised, and the kernel is started once the thread of
-- the application is created.
abbrev pub InOrder : Boot → Type 0
InOrder [] = Unit
InOrder (os_thread_new _ _ ∷ t) = (is_initialized t ≡ true) × InOrder t
InOrder (os_kernel_start ∷ t) = (is_created t ≡ true) × InOrder t
InOrder (_ ∷ t) = InOrder t

-- An event of a platform's own: it is none of the RTOS's.
abbrev pub is_own : BootEvent → Bool
is_own os_kernel_initialize = false
is_own os_kernel_start = false
is_own (os_thread_new _ _) = false
is_own _ = true

-- `t'` is `t` and any number of a platform's own events after it.
pub data Adds (t : Boot) : Boot → Type 0 where
  adds_none : Adds t t
  adds_one : {e : BootEvent} {t' : Boot} → is_own e ≡ true → Adds t t' → Adds t (e ∷ t')

-- No thread and no start yet.
pub record IsEarly (t : Boot) : Type 0 where
  pub never : starts t ≡ 0
  pub ordered : InOrder t

own-IsEarly : (e : BootEvent) (t : Boot) → is_own e ≡ true → IsEarly t → IsEarly (e ∷ t)
own-IsEarly stdio_init t h i = record { never = i.never; ordered = i.ordered }
own-IsEarly stdio_uninit t h i = record { never = i.never; ordered = i.ordered }
own-IsEarly enable_fp t h i = record { never = i.never; ordered = i.ordered }
own-IsEarly (log_msg l) t h i = record { never = i.never; ordered = i.ordered }
own-IsEarly os_kernel_initialize t h i = absurd (cc h)
own-IsEarly os_kernel_start t h i = absurd (cc h)
own-IsEarly interface_init t h i = record { never = i.never; ordered = i.ordered }
own-IsEarly wait_for_s_cpu_ready t h i = record { never = i.never; ordered = i.ordered }
own-IsEarly mailbox_init t h i = record { never = i.never; ordered = i.ordered }
own-IsEarly (os_thread_new f a) t h i = absurd (cc h)

Adds-IsEarly : {t t' : Boot} → Adds t t' → IsEarly t → IsEarly t'
Adds-IsEarly adds_none i = i
Adds-IsEarly (adds_one {e} {t'} h a) i = own-IsEarly e t' h (Adds-IsEarly a i)

-- The history is early, or ends with the one start that the flag allows.
pub record Starts (allowed : Bool) (t : Boot) : Type 0 where
  pub once : starts t ≡ (if allowed then 1 else 0)
  pub ordered : InOrder t

-- The other core is ready and the mailbox initialised.
abbrev pub core_is_ready : Board → Boot → Bool
core_is_ready b t =
    let t₁ = log_msg on_non_secure_core ∷ t in
    b.s_cpu_ready t₁ == 0 && b.mailbox_status (wait_for_s_cpu_ready ∷ t₁) == b.mailbox_success

start_threads-Starts :
    (b : Board) (t : Boot)
    → IsEarly t
    → is_initialized t ≡ true
    → Starts true (start_threads b (continues t))
start_threads-Starts b t i h = elim (Bool-cases b.mailbox_thread) [
  | inl extra ↦ rw extra (record { once = ap suc i.never; ordered = (refl, (h, (h, i.ordered))) })
  | inr plain ↦ rw plain (record { once = ap suc i.never; ordered = (refl, (h, i.ordered)) })
]

multi_core_boot-Starts :
    (b : Board) (t : Boot)
    → IsEarly t
    → is_initialized t ≡ true
    → Starts (core_is_ready b t) (start_threads b (tfm_ns_multi_core_boot b t))
unfolding tfm_ns_multi_core_boot
multi_core_boot-Starts b t i h =
    let t₁ = wait_for_s_cpu_ready ∷ log_msg on_non_secure_core ∷ t in
    let early : IsEarly (mailbox_init ∷ t₁) = record { never = i.never; ordered = i.ordered } in
    elim (Bool-cases (b.s_cpu_ready (log_msg on_non_secure_core ∷ t) == 0)) [
      | inr failed ↦ rw failed (record { once = i.never; ordered = i.ordered })
      | inl ready ↦ elim (Bool-cases (b.mailbox_status t₁ == b.mailbox_success)) [
        | inr failed ↦ rw (ready, failed) (record { once = i.never; ordered = i.ordered })
        | inl fine ↦ rw (ready, fine) (start_threads-Starts b (mailbox_init ∷ t₁) early h)
      ]
    ]

-- The kernel is started exactly if nothing before has failed, and last. Whatever a platform's own
-- initialisation does, short of calling the RTOS itself, when `main` is at its end the kernel was
-- started once if the platform and the co-processor report ARM_DRIVER_OK and, in a build with the
-- mailbox, the secure core is ready and the mailbox is initialised, and otherwise never; and in
-- either case threads were created only after the kernel was initialised, and the kernel was started
-- only after the thread of the application was created.
pub main-Starts :
    (b : Board)
    → ((t : Boot) → Adds t (b.platform_init t).1)
    → ((t : Boot) → Adds t (b.cp_init t).1)
    → let (status, t) = b.platform_init [] in
      let (cp_status, t₁) = b.cp_init (log_msg platform_initialized ∷ t) in
      let t₂ =
        log_msg kernel_initialized ∷ os_kernel_initialize ∷ log_msg co_processor_initialized ∷ t₁ in
      Starts
        (status == arm_driver_ok
          && cp_status == arm_driver_ok
          && (not b.mailbox_api || core_is_ready b t₂))
        (main b)
unfolding main
main-Starts b platform cp =
    let (status, t) = b.platform_init [] in
    let (cp_status, t₁) = b.cp_init (log_msg platform_initialized ∷ t) in
    let t₂ =
      log_msg kernel_initialized ∷ os_kernel_initialize ∷ log_msg co_processor_initialized ∷ t₁ in
    let i : IsEarly t = Adds-IsEarly (platform []) (record { never = refl; ordered = tt }) in
    let i₁ : IsEarly t₁ =
      Adds-IsEarly (cp (log_msg platform_initialized ∷ t))
        (own-IsEarly (log_msg platform_initialized) t refl i) in
    let i₂ : IsEarly t₂ = record { never = i₁.never; ordered = i₁.ordered } in
    elim (Bool-cases (status == arm_driver_ok)) [
      | inr failed ↦ rw failed (record { once = i.never; ordered = i.ordered })
      | inl fine ↦ elim (Bool-cases (cp_status == arm_driver_ok)) [
        | inr failed ↦ rw (fine, failed) (record { once = i₁.never; ordered = i₁.ordered })
        | inl fine' ↦ elim (Bool-cases b.mailbox_api) [
          | inl api ↦
              rw (fine, fine', api)
                (multi_core_boot-Starts (record b { mailbox_api = true }) t₂ i₂ refl)
          | inr single ↦
              rw (fine, fine', single)
                (start_threads-Starts (record b { mailbox_api = false })
                  (log_msg interface_initialized ∷ interface_init ∷ t₂)
                  (record { never = i₂.never; ordered = i₂.ordered }) refl)
        ]
      ]
    ]
