-- ===== src/Nsid/Manager.antt =====
-- lib/nsid_manager/tfm_nsid_manager.c: the table of tokens and NSIDs.
use pico2w_tfm.Common.{ℕ, not, Option, none, some, List, [], ◌∷◌, ◌==◌, if◌then◌else◌, replicate}
use pico2w_tfm.Common.Int.{ℤ, pos, ltb_ℤ}

-- `struct nsid_token_pair`
pub record Entry : Type 0 where
  pub token : ℕ
  pub nsid : ℤ

abbrev pub Table : Type 0
Table = List Entry

-- The error codes of tfm_nsid_manager.h.
pub data NsidMgrErr : Type 0 where
  err_success err_invalid_nsid err_invalid_token err_no_free_entry : NsidMgrErr

abbrev pub thread_num_max : ℕ
thread_num_max = 10

abbrev pub invalid_nsid_min : ℤ
invalid_nsid_min = pos 0

abbrev pub cons_to : Entry → Option Table → Option Table
cons_to e none = none
cons_to e (some t) = some (e ∷ t)

-- `invalid_token` is TFM_NS_CLIENT_INVALID_TOKEN, which TF-M's own headers define.
module _ (invalid_token : ℕ) where
  abbrev pub free_entry : Entry
  free_entry = record { token = invalid_token; nsid = invalid_nsid_min }

  unfoldable pub nsid_mgr_init : NsidMgrErr × Table
  nsid_mgr_init = (err_success, replicate thread_num_max free_entry)

  -- The loop over the table: the first entry with the token `old` is replaced.
  unfoldable pub replace_first : ℕ → Entry → Table → Option Table
  replace_first old new [] = none
  replace_first old new (e ∷ t) =
      let rest = replace_first old new t in
      if e.token == old then some (new ∷ t) else cons_to e rest

  abbrev pub or_error : NsidMgrErr → Table → Option Table → NsidMgrErr × Table
  or_error error t none = (error, t)
  or_error error t (some t') = (err_success, t')

  unfoldable pub nsid_mgr_add_entry : ℤ → ℕ → Table → NsidMgrErr × Table
  nsid_mgr_add_entry nsid token t =
      if not (ltb_ℤ nsid invalid_nsid_min)
      then (err_invalid_nsid, t)
      else if token == invalid_token
      then (err_invalid_token, t)
      else or_error err_no_free_entry t
          (replace_first invalid_token (record { token = token; nsid = nsid }) t)

  unfoldable pub nsid_mgr_remove_entry : ℕ → Table → NsidMgrErr × Table
  nsid_mgr_remove_entry token t =
      if token == invalid_token
      then (err_invalid_token, t)
      else or_error err_invalid_token t (replace_first token free_entry t)

  -- The loop of the query.
  unfoldable pub find_nsid : ℕ → Table → ℤ
  find_nsid token [] = invalid_nsid_min
  find_nsid token (e ∷ t) =
      let rest = find_nsid token t in if e.token == token then e.nsid else rest

  unfoldable pub nsid_mgr_query_nsid : ℕ → Table → ℤ
  unfolding find_nsid
  nsid_mgr_query_nsid token t =
      if token == invalid_token then invalid_nsid_min else find_nsid token t
