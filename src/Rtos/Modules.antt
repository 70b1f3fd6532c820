-- ===== src/Rtos/Modules.antt =====
-- From the name of a thread to the NSID that its context is loaded with: the wrapper
-- (app_broker/os_wrapper_cmsis_rtos_v2.c) and the shim (lib/nsid_manager/tz_shim_layer.c), in a build
-- with TFM_NS_MANAGE_NSID.
use pico2w_tfm.Common.{ℕ, Bool, true, Option, Bytes, ◌∷◌, ◌≡◌, ◌≢◌, ap, ◌∙◌, arith}
use pico2w_tfm.Common.Int.{ℤ, pos, signed32, IsI32, signed32-pattern32}
use pico2w_tfm.Nsid.Manager.{nsid_mgr_query_nsid}
use pico2w_tfm.Nsid.Slots.{IsValid}
use pico2w_tfm.Nsid.Shim.{
  nsce_load_ctx, Nsce, Shim, group_id_default, tz_alloc_module_context, tz_load_context,
}
use pico2w_tfm.Nsid.Contexts.{tz_load_context-tz_alloc_module_context}
use pico2w_tfm.Nsid.Threads.{
  nsid_mgr_get_thread_nsid, HasNsid, thread_a, thread_b, thread_c, thread_d, seq_task, mid_task,
  pri_task, api_test, other, unnamed, nsid_mgr_get_thread_nsid-HasNsid,
}
use pico2w_tfm.Rtos.Cmsis.{OsWrapper}
use pico2w_tfm.Rtos.Threads.{NsidBuild, task_attribs}

HasNsid-IsI32 :
    {psa_api_test : Bool} {name : Option Bytes} {n : ℤ} → HasNsid psa_api_test name n → IsI32 n
HasNsid-IsI32 thread_a = omega arith
HasNsid-IsI32 thread_b = omega arith
HasNsid-IsI32 thread_c = omega arith
HasNsid-IsI32 thread_d = omega arith
HasNsid-IsI32 seq_task = omega arith
HasNsid-IsI32 mid_task = omega arith
HasNsid-IsI32 pri_task = omega arith
HasNsid-IsI32 (api_test h) = omega arith
HasNsid-IsI32 (other h) = omega arith
HasNsid-IsI32 unnamed = omega arith

tz_module-signed32 :
    (w : OsWrapper) (build : NsidBuild) (name : Option Bytes) (stack_size priority : ℕ)
    → build.manage_nsid ≡ true
    → signed32 (task_attribs w build name stack_size priority).tz_module
      ≡ nsid_mgr_get_thread_nsid build.psa_api_test name
unfolding task_attribs
tz_module-signed32 w build name stack_size priority managed = rw managed (
    signed32-pattern32 (nsid_mgr_get_thread_nsid build.psa_api_test name)
      (HasNsid-IsI32 (nsid_mgr_get_thread_nsid-HasNsid build.psa_api_test name)))

-- A thread runs with the NSID of its name. In a build that manages NSIDs, if the RTOS hands the module
-- of the attributes that `os_wrapper_thread_new` fills in to `TZ_AllocModuleContext_S`, which gives it
-- a context with a token that was not in use, with the table well formed, then `TZ_LoadContext_S` on
-- that context asks the NS client extension for the token and the NSID that the thread is to have:
-- -2 to -8 for the seven test threads, -9 for "psa_api_test" in a build with PSA_API_TEST_NS, and -1
-- for a thread with another name or with none.
pub tz_load_context-task_attribs :
    (nsce : Nsce) (w : OsWrapper) (build : NsidBuild) (name : Option Bytes)
    (stack_size priority : ℕ) (s : Shim)
    → build.manage_nsid ≡ true
    → IsValid nsce.invalid_token s.table
    → nsid_mgr_query_nsid nsce.invalid_token
        (nsce.acquired group_id_default s.thread_id s.history)
        s.table
      ≡ pos 0
    → (tz_alloc_module_context nsce (task_attribs w build name stack_size priority).tz_module s).0
      ≢ 0
    → let attribs = task_attribs w build name stack_size priority in
      let (id, s') = tz_alloc_module_context nsce attribs.tz_module s in
      (nsid : ℤ) × HasNsid build.psa_api_test name nsid
      × ((tz_load_context nsce id s').1.history ≡ nsce_load_ctx id nsid ∷ s'.history)
tz_load_context-task_attribs nsce w build name stack_size priority s managed v fresh h =
    let module' = (task_attribs w build name stack_size priority).tz_module in
    let (id, s') = tz_alloc_module_context nsce module' s in
    (
      nsid_mgr_get_thread_nsid build.psa_api_test name,
      nsid_mgr_get_thread_nsid-HasNsid build.psa_api_test name,
      tz_load_context-tz_alloc_module_context nsce module' s v fresh h
          ∙ ap (λ n. nsce_load_ctx id n ∷ s'.history)
              (tz_module-signed32 w build name stack_size priority managed),
    )
