-- ===== src/Nsid/Shim.antt =====
-- lib/nsid_manager/tz_shim_layer.c, built with TFM_NS_MANAGE_NSID and TEST_NS_MANAGE_NSID.
use pico2w_tfm.Common.{ℕ, suc, Bool, true, false, not, ◌∷◌, List, leb, ◌==◌, if◌then◌else◌}
use pico2w_tfm.Common.Int.{ℤ, ltb_ℤ, signed32}
use pico2w_tfm.Nsid.Manager.{
  Table, NsidMgrErr, err_success, invalid_nsid_min, nsid_mgr_init, nsid_mgr_add_entry,
  nsid_mgr_remove_entry, nsid_mgr_query_nsid,
}

-- A call of TF-M's NS client extension.
pub data NsceCall : Type 0 where
  nsce_init : NsceCall
  nsce_acquire_ctx : ℕ → ℕ → NsceCall
  nsce_release_ctx : ℕ → NsceCall
  nsce_load_ctx : ℕ → ℤ → NsceCall
  nsce_save_ctx : ℕ → NsceCall

abbrev pub History : Type 0
History = List NsceCall

-- The extension, which is TF-M's own code: the invalid token, the token of a new context, and whether
-- a call succeeds.
pub record Nsce : Type 0 where
  pub invalid_token : ℕ
  pub acquired : ℕ → ℕ → History → ℕ
  pub succeeds : NsceCall → History → Bool

-- `nsid_mgr_thread_id`, the manager's table, `current_active_token` and the calls so far.
pub record Shim : Type 0 where
  pub thread_id : ℕ
  pub table : Table
  pub active_token : ℕ
  pub history : History

abbrev pub thread_id_max : ℕ
thread_id_max = 0xff

abbrev pub group_id_default : ℕ
group_id_default = 0

abbrev pub is_mgr_success : NsidMgrErr → Bool
is_mgr_success err_success = true
is_mgr_success _ = false

module _ (nsce : Nsce) where
  -- A call of the extension, with its outcome.
  unfoldable pub call_nsce : NsceCall → Shim → Bool × Shim
  call_nsce c s = (nsce.succeeds c s.history, record s { history = c ∷ s.history })

  unfoldable pub tz_init_context_system : Shim → ℕ × Shim
  tz_init_context_system s =
      let (fine, s₁) = call_nsce nsce_init s in
      if fine
      then (let (e, t) = nsid_mgr_init nsce.invalid_token in
          if is_mgr_success e
          then (1, record s₁ { table = t; active_token = nsce.invalid_token })
          else (0, record s₁ { table = t }))
      else (0, s₁)

  -- The module is a `uint32_t` that stands for an NSID.
  unfoldable pub tz_alloc_module_context : ℕ → Shim → ℕ × Shim
  tz_alloc_module_context module' s =
      let nsid = signed32 module' in
      let c = nsce_acquire_ctx group_id_default s.thread_id in
      let token = nsce.acquired group_id_default s.thread_id s.history in
      let (e, t) = nsid_mgr_add_entry nsce.invalid_token nsid token s.table in
      let s' = record s { thread_id = suc s.thread_id; table = t; history = c ∷ s.history } in
      if leb thread_id_max s.thread_id then (0, s) else (if is_mgr_success e then token else 0, s')

  -- `if (current_active_token != INVALID) current_active_token = INVALID`
  abbrev pub deactivate : Shim → Shim
  deactivate s =
      if not (s.active_token == nsce.invalid_token)
      then record s { active_token = nsce.invalid_token }
      else s

  unfoldable pub tz_free_module_context : ℕ → Shim → ℕ × Shim
  tz_free_module_context token s =
      let (e, t) = nsid_mgr_remove_entry nsce.invalid_token token s.table in
      let s₁ = record s { table = t } in
      if is_mgr_success e
      then (let (fine, s₂) = call_nsce (nsce_release_ctx token) s₁ in
          if fine then (1, deactivate s₂) else (0, s₂))
      else (0, s₁)

  unfoldable pub tz_load_context : ℕ → Shim → ℕ × Shim
  tz_load_context token s =
      let nsid = nsid_mgr_query_nsid nsce.invalid_token token s.table in
      if not (ltb_ℤ nsid invalid_nsid_min)
      then (0, s)
      else (let (fine, s₁) = call_nsce (nsce_load_ctx token nsid) s in
          if fine then (1, record s₁ { active_token = token }) else (0, s₁))

  unfoldable pub tz_store_context : ℕ → Shim → ℕ × Shim
  tz_store_context token s =
      let (fine, s₁) = call_nsce (nsce_save_ctx token) s in
      if fine then (1, deactivate s₁) else (0, s₁)
