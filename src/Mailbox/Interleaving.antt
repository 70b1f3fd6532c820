-- ===== src/Mailbox/Interleaving.antt =====
-- The statistics of lib/multi_core/tfm_ns_mailbox_test.c when updates of several threads overlap. An
-- update has two critical sections, with interrupts off on the only core that runs them: each is one
-- step, and anything can happen between them.
use pico2w_tfm.Common.{ℕ, suc, ◌+◌, ◌-◌, ◌%◌, ◌^◌, ◌≤◌, ◌≡◌, refl, ap, arith, List, [], ◌∷◌, length}
use pico2w_tfm.Mailbox.Os.{Mailbox}
use pico2w_tfm.Mailbox.Stats.{NsMailboxQueue, count_slots, add_used}
use pico2w_tfm.Mailbox.Counts.{total_used, count_slots_lem}

-- `ns'` is `ns` without one `n`.
pub data Takes (n : ℕ) : List ℕ → List ℕ → Type 0 where
  takes_first : {ns : List ℕ} → Takes n (n ∷ ns) ns
  takes_later : {k : ℕ} {ns ns' : List ℕ} → Takes n ns ns' → Takes n (k ∷ ns) (k ∷ ns')

-- The queue, and what is counted of the updates that are between their two sections.
pub record System : Type 0 where
  pub queue : NsMailboxQueue
  pub pending : List ℕ

-- A queue whose counters are cleared, with no update under way.
abbrev pub cleared : ℕ → System
cleared e = record {
  queue = record { empty_slots = e; nr_tx = 0; nr_used_slots = 0 };
  pending = [];
}

-- The systems that are reached by steps, with the states of the slots in which updates have found
-- the queue, the latest first.
pub data Reaches (mb : Mailbox) : List ℕ → System → Type 0 where
  starts : (e : ℕ) → Reaches mb [] (cleared e)
  -- other code takes and frees slots
  fills :
      {es : List ℕ} {s : System} (e : ℕ)
      → Reaches mb es s
      → Reaches mb es (record s { queue = record (s.queue) { empty_slots = e } })
  -- the first section of an update
  arrives :
      {es : List ℕ} {s : System}
      → Reaches mb es s
      → Reaches mb
          (s.queue.empty_slots ∷ es)
          (record s { pending = count_slots mb s.queue ∷ s.pending })
  -- the second section of one of the updates under way
  adds :
      {es : List ℕ} {s : System} (n : ℕ) (rest : List ℕ)
      → Reaches mb es s
      → Takes n s.pending rest
      → Reaches mb es (record { queue = add_used mb n s.queue; pending = rest })

module _ (mb : Mailbox) where
  -- the slots in use that the updates under way have seen
  abbrev pending_used : List ℕ → ℕ
  pending_used [] = 0
  pending_used (n ∷ ns) = (mb.num_slot - n) + pending_used ns

  Takes-length : {n : ℕ} {ns ns' : List ℕ} → Takes n ns ns' → length ns ≡ suc (length ns')
  Takes-length takes_first = refl
  Takes-length (takes_later t) = omega (arith, Takes-length t)

  Takes-used :
      {n : ℕ} {ns ns' : List ℕ}
      → Takes n ns ns'
      → pending_used ns ≡ (mb.num_slot - n) + pending_used ns'
  Takes-used takes_first = refl
  Takes-used (takes_later t) = omega (arith, Takes-used t)

  -- What is in the counters and what is under way make what has arrived.
  record Accounted (es : List ℕ) (s : System) : Type 0 where
    tx : (s.queue.nr_tx + length s.pending) % 2 ^ 32 ≡ length es % 2 ^ 32
    used : (s.queue.nr_used_slots + pending_used s.pending) % 2 ^ 32 ≡ total_used mb es % 2 ^ 32
    small :
        (s.queue.nr_tx % 2 ^ 32 ≡ s.queue.nr_tx)
        × (s.queue.nr_used_slots % 2 ^ 32 ≡ s.queue.nr_used_slots)

  Reaches-Accounted :
      {es : List ℕ} {s : System} → mb.num_slot ≤ 32 → Reaches mb es s → Accounted es s
  unfolding add_used
  Reaches-Accounted slots (starts e) = record { tx = refl; used = refl; small = (refl, refl) }
  Reaches-Accounted slots (fills e r) =
      let a = Reaches-Accounted slots r in record { tx = a.tx; used = a.used; small = a.small }
  Reaches-Accounted slots (arrives {es} {s} r) =
      let a = Reaches-Accounted slots r in
      record {
        tx = omega (arith, a.tx);
        used = omega (arith, a.used, count_slots_lem mb s.queue slots);
        small = a.small;
      }
  Reaches-Accounted slots (adds {es} {s} n rest r t) =
      let a = Reaches-Accounted slots r in
      record {
        tx = omega (arith, a.tx, Takes-length t);
        used = omega (arith, a.used, Takes-used t);
        small = (omega arith, omega arith);
      }

  -- No update is lost, however updates overlap. From cleared counters, after any interleaving of the
  -- two critical sections of any number of updates, with slots taken and freed at any point in
  -- between, when no update is under way any more `nr_tx` is the number of updates and
  -- `nr_used_slots` is the sum of the slots in use that each has found, both modulo 2 ^ 32. There are
  -- at most 32 slots.
  pub Reaches-no_update_lost :
      (es : List ℕ) (s : System)
      → mb.num_slot ≤ 32
      → Reaches mb es s
      → s.pending ≡ []
      → (s.queue.nr_tx ≡ length es % 2 ^ 32) × (s.queue.nr_used_slots ≡ total_used mb es % 2 ^ 32)
  Reaches-no_update_lost es s slots r done =
      let a = Reaches-Accounted slots r in
      let none' : length s.pending ≡ 0 = ap length done in
      let none_used : pending_used s.pending ≡ 0 = ap pending_used done in
      (omega (arith, a.tx, a.small.0), omega (arith, a.used, a.small.1))
