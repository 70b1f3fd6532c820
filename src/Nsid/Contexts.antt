-- ===== src/Nsid/Contexts.antt =====
-- The shim's contexts, from their allocation to their release.
use pico2w_tfm.Common.{ℕ, suc, true, ◌∷◌, ◌≡◌, ◌≢◌, ◌<◌, refl, arith, ◌∙◌}
use pico2w_tfm.Common.Int.{ℤ, pos, ltb_ℤ, signed32}
use pico2w_tfm.Nsid.Manager.{
  NsidMgrErr, err_success, nsid_mgr_add_entry, nsid_mgr_remove_entry, nsid_mgr_query_nsid,
}
use pico2w_tfm.Nsid.Slots.{IsValid}
use pico2w_tfm.Nsid.Refines.{add-Replaced, nsid_mgr_add_entry_lem, nsid_mgr_remove_entry_lem}
use pico2w_tfm.Nsid.Shim.{
  nsce_load_ctx, Nsce, Shim, call_nsce, is_mgr_success, group_id_default, tz_alloc_module_context,
  tz_free_module_context, tz_load_context,
}

is_mgr_success_lem : (e : NsidMgrErr) → is_mgr_success e ≡ true → e ≡ err_success
is_mgr_success_lem e h = ground arith

module _ (nsce : Nsce) where
  alloc_success :
      (module' : ℕ) (s : Shim)
      → (tz_alloc_module_context nsce module' s).0 ≢ 0
      → let token = nsce.acquired group_id_default s.thread_id s.history in
        let (e, t) = nsid_mgr_add_entry nsce.invalid_token (signed32 module') token s.table in
        let (id, s') = tz_alloc_module_context nsce module' s in
        (s.thread_id < 255)
        × (e ≡ err_success)
        × (id ≡ token)
        × (s'.table ≡ t)
        × (s'.thread_id ≡ suc s.thread_id)
  unfolding tz_alloc_module_context
  alloc_success module' s h =
      let token = nsce.acquired group_id_default s.thread_id s.history in
      let (e, t) = nsid_mgr_add_entry nsce.invalid_token (signed32 module') token s.table in
      ground (arith, is_mgr_success_lem e)

  load_known :
      (id : ℕ) (nsid : ℤ) (s : Shim)
      → nsid_mgr_query_nsid nsce.invalid_token id s.table ≡ nsid
      → ltb_ℤ nsid (pos 0) ≡ true
      → (tz_load_context nsce id s).1.history ≡ nsce_load_ctx id nsid ∷ s.history
  unfolding tz_load_context call_nsce
  load_known id nsid s e negative = rw e (ground arith)

  load_unknown :
      (id : ℕ) (s : Shim)
      → nsid_mgr_query_nsid nsce.invalid_token id s.table ≡ pos 0
      → tz_load_context nsce id s ≡ (0, s)
  unfolding tz_load_context
  load_unknown id s e = rw e refl

  free_success :
      (token : ℕ) (s : Shim)
      → (tz_free_module_context nsce token s).0 ≡ 1
      → let (e, t) = nsid_mgr_remove_entry nsce.invalid_token token s.table in
        (e ≡ err_success) × ((tz_free_module_context nsce token s).1.table ≡ t)
  unfolding tz_free_module_context call_nsce
  free_success token s h =
      let (e, t) = nsid_mgr_remove_entry nsce.invalid_token token s.table in
      ground (arith, is_mgr_success_lem e)

  -- A context that was allocated for an NSID, with a token that was not in use, is loaded with that
  -- NSID: with the table well formed, `TZ_LoadContext_S` on what `TZ_AllocModuleContext_S` has
  -- returned, if that is not 0, asks the NS client extension for exactly this token and NSID.
  pub tz_load_context-tz_alloc_module_context :
      (module' : ℕ) (s : Shim)
      → IsValid nsce.invalid_token s.table
      → nsid_mgr_query_nsid nsce.invalid_token
          (nsce.acquired group_id_default s.thread_id s.history)
          s.table
        ≡ pos 0
      → (tz_alloc_module_context nsce module' s).0 ≢ 0
      → let (id, s') = tz_alloc_module_context nsce module' s in
        (tz_load_context nsce id s').1.history ≡ nsce_load_ctx id (signed32 module') ∷ s'.history
  tz_load_context-tz_alloc_module_context module' s v fresh h =
      let token = nsce.acquired group_id_default s.thread_id s.history in
      let (id, s') = tz_alloc_module_context nsce module' s in
      let (room, e, same, table, next) = alloc_success module' s h in
      let (negative, valid, r) =
        add-Replaced nsce.invalid_token (signed32 module') token s.table e in
      let (v', known) =
        nsid_mgr_add_entry_lem nsce.invalid_token (signed32 module') token s.table v fresh e in
      load_known id (signed32 module') s' (rw (table, same) (known token ∙ ground arith)) negative

  -- After a release that succeeds, with the table well formed, the context cannot be loaded:
  -- `TZ_LoadContext_S` fails, and changes nothing.
  pub tz_load_context-tz_free_module_context :
      (token : ℕ) (s : Shim)
      → IsValid nsce.invalid_token s.table
      → (tz_free_module_context nsce token s).0 ≡ 1
      → let s' = (tz_free_module_context nsce token s).1 in tz_load_context nsce token s' ≡ (0, s')
  tz_load_context-tz_free_module_context token s v h =
      let (e, table) = free_success token s h in
      let (v', gone) = nsid_mgr_remove_entry_lem nsce.invalid_token token s.table v e in
      load_unknown token (tz_free_module_context nsce token s).1
        (rw table (gone token ∙ ground arith))
