-- ===== src/Mailbox/Stats.antt =====
-- lib/multi_core/tfm_ns_mailbox_test.c: how many mailbox slots are in use on average.
use pico2w_tfm.Common.{
  ℕ, zero, suc, ◌+◌, ◌-◌, ◌*◌, ◌/◌, ◌%◌, ◌^◌, Bool, Option, none, some, not, ◌||◌, ◌==◌,
  if◌then◌else◌,
}
use pico2w_tfm.Rtos.Cmsis.{RtosCalls, Rtos, OsWrapper}
use pico2w_tfm.Mailbox.Os.{Mailbox, tfm_ns_mailbox_os_spin_lock, tfm_ns_mailbox_os_spin_unlock}

-- The fields of `struct ns_mailbox_queue_t` that the statistics use: a bit for each empty slot, and
-- two counters.
pub record NsMailboxQueue : Type 0 where
  pub empty_slots : ℕ
  pub nr_tx : ℕ
  pub nr_used_slots : ℕ

-- `stats_queue_ptr`, and the memory that it points into; 0 is the null pointer.
pub record StatsState : Type 0 where
  pub stats_queue_ptr : ℕ
  pub memory : ℕ → NsMailboxQueue

-- `struct ns_mailbox_stats_res_t`
pub record StatsRes : Type 0 where
  pub avg_nr_slots : ℕ
  pub avg_nr_slots_tenths : ℕ

abbrev pub store : ℕ → NsMailboxQueue → (ℕ → NsMailboxQueue) → ℕ → NsMailboxQueue
store p q memory = λ p'. if p' == p then q else memory p'

unfoldable pub tfm_ns_mailbox_tx_stats_init : ℕ → StatsState → StatsState
tfm_ns_mailbox_tx_stats_init ns_queue s =
    let q = record (s.memory ns_queue) { nr_tx = 0; nr_used_slots = 0 } in
    if ns_queue == 0
    then s
    else record { stats_queue_ptr = ns_queue; memory = store ns_queue q s.memory }

-- whether `empty_status & (0x1UL << idx)` is not 0
abbrev pub has_slot : ℕ → ℕ → Bool
has_slot empty_status idx = empty_status / 2 ^ idx % 2 == 1

-- The loop over the slots: `left` of them are to come, from `idx` on.
unfoldable pub count_empty : ℕ → ℕ → ℕ → ℕ → ℕ
count_empty zero idx empty_status nr_empty = nr_empty
count_empty (suc left') idx empty_status nr_empty =
    count_empty left' (suc idx) empty_status
      (if has_slot empty_status idx then (nr_empty + 1) % 256 else nr_empty)

module _ (mb : Mailbox) where
  -- The count of the empty slots, of the word that the first critical section of an update reads.
  unfoldable pub count_slots : NsMailboxQueue → ℕ
  count_slots q = if not (q.empty_slots == 0) then count_empty mb.num_slot 0 q.empty_slots 0 else 0

  -- The status, and the state.
  unfoldable pub tfm_ns_mailbox_tx_stats_reinit : StatsState → ℕ × StatsState
  tfm_ns_mailbox_tx_stats_reinit s =
      let p = s.stats_queue_ptr in
      let q = record (s.memory p) { nr_tx = 0; nr_used_slots = 0 } in
      if p == 0
      then (mb.mailbox_inval_params, s)
      else (mb.mailbox_success, record s { memory = store p q s.memory })

  -- The second critical section of the update.
  unfoldable pub add_used : ℕ → NsMailboxQueue → NsMailboxQueue
  add_used nr_empty q = record q {
    nr_used_slots = (q.nr_used_slots + (mb.num_slot - nr_empty)) % 2 ^ 32;
    nr_tx = (q.nr_tx + 1) % 2 ^ 32;
  }

  unfoldable pub tfm_ns_mailbox_tx_stats_update :
      Rtos → OsWrapper → StatsState × RtosCalls → StatsState × RtosCalls
  tfm_ns_mailbox_tx_stats_update rtos w (s, t) =
      let p = s.stats_queue_ptr in
      let t₁ = tfm_ns_mailbox_os_spin_lock rtos w t in
      let t₂ = tfm_ns_mailbox_os_spin_unlock rtos w t₁ in
      let nr_empty = count_slots (s.memory p) in
      let t₃ = tfm_ns_mailbox_os_spin_lock rtos w t₂ in
      let q = add_used nr_empty (s.memory p) in
      let t₄ = tfm_ns_mailbox_os_spin_unlock rtos w t₃ in
      if p == 0 then (s, t) else (record s { memory = store p q s.memory }, t₄)

-- What is written to `*stats_res`: `none` when nothing is, for a null pointer. A division by zero,
-- which C leaves undefined, is the second `none`.
unfoldable pub tfm_ns_mailbox_stats_avg_slot : ℕ → StatsState → Option (Option StatsRes)
tfm_ns_mailbox_stats_avg_slot stats_res s =
    let nr_used_slots = (s.memory s.stats_queue_ptr).nr_used_slots in
    let nr_tx = (s.memory s.stats_queue_ptr).nr_tx in
    if s.stats_queue_ptr == 0 || stats_res == 0
    then none
    else (if nr_tx == 0
        then some none
        else some (
            some (record {
              avg_nr_slots = nr_used_slots / nr_tx;
              avg_nr_slots_tenths = nr_used_slots % nr_tx * 10 % 2 ^ 32 / nr_tx;
            })))
