-- ===== src/Nsid/Tests.antt =====
-- The NSID manager and the shim on concrete tables.
use pico2w_tfm.Common.{
  List, ℕ, ◌+◌, true, ◌∷◌, [], ◌≡◌, refl, arith, if◌then◌else◌, ◌==◌, replicate,
}
use pico2w_tfm.Common.Int.{pos, negsuc}
use pico2w_tfm.Nsid.Manager.{
  Table, err_invalid_token, nsid_mgr_add_entry, nsid_mgr_remove_entry, nsid_mgr_query_nsid,
  replace_first, free_entry,
}
use pico2w_tfm.Nsid.Slots.{IsValid}
use pico2w_tfm.Nsid.Refines.{nsid_mgr_add_entry_lem, nsid_mgr_remove_entry_lem}
use pico2w_tfm.Nsid.Shim.{
  Nsce, Shim, nsce_load_ctx, tz_alloc_module_context, tz_load_context, tz_free_module_context,
  call_nsce,
}
use pico2w_tfm.Nsid.Contexts.{
  tz_load_context-tz_alloc_module_context, tz_load_context-tz_free_module_context,
}

-- the token 7 with the NSID -2, and nine free slots; -1 as a `uint32_t` is the invalid token
abbrev invalid : ℕ
invalid = 0xffffffff

abbrev table : Table
table = record { token = 7; nsid = negsuc 1 } ∷ replicate 9 (free_entry invalid)

table-IsValid : IsValid invalid table
table-IsValid = record { size = refl; slots = ground arith; distinct = ground arith }

nsid_mgr_query_nsid-table : nsid_mgr_query_nsid invalid 7 table ≡ negsuc 1
unfolding nsid_mgr_query_nsid
nsid_mgr_query_nsid-table = refl

nsid_mgr_remove_entry-unknown : (nsid_mgr_remove_entry invalid 8 table).0 ≡ err_invalid_token
unfolding nsid_mgr_remove_entry replace_first
nsid_mgr_remove_entry-unknown = refl

nsid_mgr_add_entry_lem_example :
    let t' = (nsid_mgr_add_entry invalid (negsuc 2) 8 table).1 in
    IsValid invalid t'
    × ((k : ℕ)
        → nsid_mgr_query_nsid invalid k t'
          ≡ (if k == 8 then negsuc 2 else nsid_mgr_query_nsid invalid k table))
unfolding nsid_mgr_add_entry nsid_mgr_query_nsid replace_first
nsid_mgr_add_entry_lem_example =
    nsid_mgr_add_entry_lem invalid (negsuc 2) 8 table table-IsValid refl refl

nsid_mgr_remove_entry_lem_example :
    let t' = (nsid_mgr_remove_entry invalid 7 table).1 in
    IsValid invalid t'
    × ((k : ℕ)
        → nsid_mgr_query_nsid invalid k t'
          ≡ (if k == 7 then pos 0 else nsid_mgr_query_nsid invalid k table))
unfolding nsid_mgr_remove_entry nsid_mgr_query_nsid replace_first
nsid_mgr_remove_entry_lem_example = nsid_mgr_remove_entry_lem invalid 7 table table-IsValid refl

-- an extension that gives out the tokens 101, 102, …
abbrev nsce : Nsce
nsce = record {
  invalid_token = invalid;
  acquired = λ group thread t. 100 + thread;
  succeeds = λ c t. true;
}

abbrev shim : Shim
shim = record { thread_id = 1; table = table; active_token = invalid; history = [] }

-- 4294967293 stands for -3
tz_load_context-tz_alloc_module_context_example :
    let (id, s') = tz_alloc_module_context nsce 4294967293 shim in
    (tz_load_context nsce id s').1.history ≡ nsce_load_ctx id (negsuc 2) ∷ s'.history
unfolding tz_alloc_module_context nsid_mgr_query_nsid nsid_mgr_add_entry replace_first
tz_load_context-tz_alloc_module_context_example =
    tz_load_context-tz_alloc_module_context nsce 4294967293 shim table-IsValid refl (ground arith)

tz_load_context-tz_free_module_context_example :
    let s' = (tz_free_module_context nsce 7 shim).1 in tz_load_context nsce 7 s' ≡ (0, s')
unfolding tz_free_module_context nsid_mgr_remove_entry replace_first call_nsce
tz_load_context-tz_free_module_context_example =
    tz_load_context-tz_free_module_context nsce 7 shim table-IsValid refl

abbrev seq_task : List ℕ
seq_task = b's' ∷ b'e' ∷ b'q' ∷ b'_' ∷ b't' ∷ b'a' ∷ b's' ∷ b'k' ∷ []
