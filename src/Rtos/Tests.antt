-- ===== src/Rtos/Tests.antt =====
-- The RTOS wrapper on concrete calls.
use pico2w_tfm.Common.{ℕ, true, false, some, Bytes, ◌∷◌, [], ◌≡◌, refl, arith, replicate}
use pico2w_tfm.Nsid.Manager.{
  Table, free_entry, nsid_mgr_query_nsid, nsid_mgr_add_entry, replace_first,
}
use pico2w_tfm.Nsid.Slots.{IsValid}
use pico2w_tfm.Common.Int.{ℤ}
use pico2w_tfm.Nsid.Threads.{HasNsid, nsid_mgr_get_thread_nsid, find_thread, str_cmp}
use pico2w_tfm.Nsid.Shim.{nsce_load_ctx, Nsce, Shim, tz_alloc_module_context, tz_load_context}
use pico2w_tfm.Rtos.Cmsis.{Rtos, OsWrapper}
use pico2w_tfm.Rtos.Threads.{NsidBuild, task_attribs}
use pico2w_tfm.Rtos.Modules.{tz_load_context-task_attribs}

abbrev rtos : Rtos
rtos = record { returns = λ c t. 0; message = λ h t. [] }

abbrev wrapper : OsWrapper
wrapper = record {
  wrapper_success = 0;
  wrapper_error = 0xffffffff;
  wait_forever = 0xffffffff;
  default_stack_size = 0;
}

abbrev build : NsidBuild
build = record { manage_nsid = true; psa_api_test = false }

abbrev thread_a : Bytes
thread_a = b'T' ∷ b'h' ∷ b'r' ∷ b'e' ∷ b'a' ∷ b'd' ∷ b'_' ∷ b'A' ∷ []

abbrev invalid : ℕ
invalid = 0xffffffff

abbrev table : Table
table = replicate 10 (free_entry invalid)

table-IsValid : IsValid invalid table
table-IsValid = record { size = refl; slots = ground arith; distinct = ground arith }

abbrev nsce : Nsce
nsce = record { invalid_token = invalid; acquired = λ group thread t. 100; succeeds = λ c t. true }

abbrev shim : Shim
shim = record { thread_id = 1; table = table; active_token = invalid; history = [] }

tz_load_context-task_attribs_example :
    let attribs = task_attribs wrapper build (some thread_a) 1024 24 in
    let (id, s') = tz_alloc_module_context nsce attribs.tz_module shim in
    (nsid : ℤ) × HasNsid false (some thread_a) nsid
    × ((tz_load_context nsce id s').1.history ≡ nsce_load_ctx id nsid ∷ s'.history)
unfolding task_attribs nsid_mgr_get_thread_nsid find_thread str_cmp tz_alloc_module_context
    nsid_mgr_query_nsid nsid_mgr_add_entry replace_first
tz_load_context-task_attribs_example =
    tz_load_context-task_attribs nsce wrapper build (some thread_a) 1024 24 shim refl table-IsValid
      refl (ground arith)
