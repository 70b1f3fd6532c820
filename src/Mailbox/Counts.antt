-- ===== src/Mailbox/Counts.antt =====
-- What the statistics of lib/multi_core/tfm_ns_mailbox_test.c add up to.
use pico2w_tfm.Common.{
  ℕ, zero, suc, ◌+◌, ◌*◌, ◌/◌, ◌%◌, ◌^◌, ◌≤◌, ◌<◌, ◌≡◌, refl, ap, sym, ◌∙◌, arith, true, false, not,
  List, [], ◌∷◌, ◌==◌, if◌then◌else◌, length, Bool-cases, inl, inr, some,
}
use native.Mathlib.Nat.{zero-div, mod-lt, mod-add-div', add-mul-div_right, div-lt_iff_lt-mul}
use pico2w_tfm.Rtos.Cmsis.{RtosCalls, Rtos, OsWrapper}
use pico2w_tfm.Mailbox.Os.{Mailbox}
use pico2w_tfm.Mailbox.Stats.{
  NsMailboxQueue, StatsState, StatsRes, store, has_slot, count_empty, add_used, count_slots,
  tfm_ns_mailbox_tx_stats_init, tfm_ns_mailbox_tx_stats_update, tfm_ns_mailbox_stats_avg_slot,
}

-- Of the first `n` slots, those whose bit is set, and those whose bit is not.
abbrev pub empty_slots_of : ℕ → ℕ → ℕ
empty_slots_of zero s = 0
empty_slots_of (suc n) s = if has_slot s n then empty_slots_of n s + 1 else empty_slots_of n s

abbrev pub used_slots_of : ℕ → ℕ → ℕ
used_slots_of zero s = 0
used_slots_of (suc n) s = if has_slot s n then used_slots_of n s else used_slots_of n s + 1

empty_and_used : (n s : ℕ) → empty_slots_of n s + used_slots_of n s ≡ n
empty_and_used zero s = refl
empty_and_used (suc n) s = ground (arith, empty_and_used n s)

empty_small : (n s : ℕ) → empty_slots_of n s ≤ n
empty_small n s = omega (arith, empty_and_used n s)

count_empty_lem :
    (left' idx n s nr_empty : ℕ)
    → n ≡ left' + idx
    → n < 256
    → nr_empty ≡ empty_slots_of idx s
    → count_empty left' idx s nr_empty ≡ empty_slots_of n s
unfolding count_empty
count_empty_lem zero idx n s nr_empty e h same =
    same ∙ ap (λ k. empty_slots_of k s) (sym (e ∙ omega arith))
count_empty_lem (suc left') idx n s nr_empty e h same =
    let small : nr_empty < 255 = omega (arith, empty_small idx s) in
    elim (Bool-cases (has_slot s idx)) [
      | inl empty' ↦ rw empty' (
          count_empty_lem left' (suc idx) n s ((nr_empty + 1) % 256) (omega arith) h
            (rw empty' (omega arith)))
      | inr used' ↦
          rw used' (count_empty_lem left' (suc idx) n s nr_empty (omega arith) h (rw used' same))
    ]

no_slot : (n : ℕ) → has_slot 0 n ≡ false
no_slot n = rw (zero-div (2 ^ n)) refl

empty_slots_of_zero : (n : ℕ) → empty_slots_of n 0 ≡ 0
empty_slots_of_zero zero = refl
empty_slots_of_zero (suc n) = rw (no_slot n) (empty_slots_of_zero n)

-- What the update counts.
nr_empty_lem :
    (n s : ℕ) → n < 256 → (if not (s == 0) then count_empty n 0 s 0 else 0) ≡ empty_slots_of n s
nr_empty_lem n s h = elim (Bool-cases (s == 0)) [
  | inl none' ↦ let zero' : s ≡ 0 = ground arith in rw zero' (sym (empty_slots_of_zero n))
  | inr some' ↦ rw some' (count_empty_lem n 0 n s 0 (omega arith) h refl)
]

tenths : (m d : ℕ) → 0 < d → (m / d * 10 + m % d * 10 / d ≡ m * 10 / d) × (m % d * 10 / d < 10)
tenths m d h =
    let split' : m * 10 ≡ m % d * 10 + m / d * 10 * d = omega (arith, mod-add-div' m d) in
    (
      rw (split', add-mul-div_right (m % d * 10) (m / d * 10) h) (omega arith),
      (div-lt_iff_lt-mul h).1 (omega (arith, mod-lt m h)),
    )

-- Other code fills and frees slots of the queue between the updates.
abbrev pub set_empty_slots : ℕ → StatsState × RtosCalls → StatsState × RtosCalls
set_empty_slots e (s, t) =
    let p = s.stats_queue_ptr in
    (record s { memory = store p (record (s.memory p) { empty_slots = e }) s.memory }, t)

module _ (mb : Mailbox) where
  -- the slots that are in use at each update, added up
  abbrev pub total_used : List ℕ → ℕ
  total_used [] = 0
  total_used (e ∷ es) = used_slots_of mb.num_slot e + total_used es

  pub count_slots_lem :
      (q : NsMailboxQueue)
      → mb.num_slot ≤ 32
      → count_slots mb q + used_slots_of mb.num_slot q.empty_slots ≡ mb.num_slot
  unfolding count_slots
  count_slots_lem q slots =
      rw (nr_empty_lem mb.num_slot q.empty_slots (omega arith))
        (empty_and_used mb.num_slot q.empty_slots)

  total_used_small : (es : List ℕ) → mb.num_slot ≤ 32 → total_used es ≤ 32 * length es
  total_used_small [] slots = omega arith
  total_used_small (e ∷ es) slots =
      omega (arith, total_used_small es slots, empty_and_used mb.num_slot e)

  module _ (rtos : Rtos) (w : OsWrapper) where
    -- an update for each state of the slots
    abbrev pub updates : List ℕ → StatsState × RtosCalls → StatsState × RtosCalls
    updates [] x = x
    updates (e ∷ es) x = updates es (tfm_ns_mailbox_tx_stats_update mb rtos w (set_empty_slots e x))

    -- The counters of the queue that the statistics are about.
    pub record Counts (n m : ℕ) (s : StatsState) : Type 0 where
      pub pointer : (s.stats_queue_ptr == 0) ≡ false
      pub tx : (s.memory s.stats_queue_ptr).nr_tx ≡ n % 2 ^ 32
      pub used : (s.memory s.stats_queue_ptr).nr_used_slots ≡ m % 2 ^ 32

    update-Counts :
        (n m e : ℕ) (s : StatsState) (t : RtosCalls)
        → mb.num_slot ≤ 32
        → Counts n m s
        → Counts
            (n + 1)
            (m + used_slots_of mb.num_slot e)
            (tfm_ns_mailbox_tx_stats_update mb rtos w (set_empty_slots e (s, t))).0
    unfolding tfm_ns_mailbox_tx_stats_update add_used
    update-Counts n m e s t slots c =
        let same : (s.stats_queue_ptr == s.stats_queue_ptr) ≡ true = ground arith in
        let q = record (s.memory s.stats_queue_ptr) { empty_slots = e } in
        rw (c.pointer, same)
          (record {
            pointer = c.pointer;
            tx = rw same (omega (arith, c.tx));
            used = rw same (omega (arith, c.used, count_slots_lem q slots));
          })

    updates-Counts :
        (n m : ℕ) (es : List ℕ) (s : StatsState) (t : RtosCalls)
        → mb.num_slot ≤ 32
        → Counts n m s
        → Counts (n + length es) (m + total_used es) (updates es (s, t)).0
    updates-Counts n m [] s t slots c = record {
      pointer = c.pointer;
      tx = omega (arith, c.tx);
      used = omega (arith, c.used);
    }
    updates-Counts n m (e ∷ es) s t slots c =
        let (s', t') = tfm_ns_mailbox_tx_stats_update mb rtos w (set_empty_slots e (s, t)) in
        let d =
          updates-Counts (n + 1) (m + used_slots_of mb.num_slot e) es s' t' slots
            (update-Counts n m e s t slots c) in
        record { pointer = d.pointer; tx = omega (arith, d.tx); used = omega (arith, d.used) }

    -- The statistics count every update and every slot in use. After `tfm_ns_mailbox_tx_stats_init`
    -- on a queue and one update for each of `es`, the states in which other code has left the slots
    -- by then, `nr_tx` of the queue is the number of updates and `nr_used_slots` is the number of
    -- slots of whose bits are clear, added up over the updates, both modulo 2 ^ 32. There are at most
    -- 32 slots, the bits of a word.
    pub updates_count :
        (ns_queue : ℕ) (es : List ℕ) (s : StatsState) (t : RtosCalls)
        → mb.num_slot ≤ 32
        → (ns_queue == 0) ≡ false
        → Counts
            (length es)
            (total_used es)
            (updates es (tfm_ns_mailbox_tx_stats_init ns_queue s, t)).0
    unfolding tfm_ns_mailbox_tx_stats_init
    updates_count ns_queue es s t slots q =
        let same : (ns_queue == ns_queue) ≡ true = ground arith in
        let c =
          updates-Counts 0 0 es (tfm_ns_mailbox_tx_stats_init ns_queue s) t slots
            (rw q (record { pointer = q; tx = rw same refl; used = rw same refl })) in
        record { pointer = c.pointer; tx = omega (arith, c.tx); used = omega (arith, c.used) }

    -- The average that is reported is the average. After an initialisation and at least one and fewer
    -- than 2 ^ 26 updates, with at most 32 slots, `tfm_ns_mailbox_stats_avg_slot` stores the average
    -- number of slots in use, rounded down to tenths: ten times the whole part and the tenths make
    -- ten times the total divided by the number of updates, and the tenths are a digit. No counter
    -- overflows on the way, and nothing is divided by zero.
    pub avg_slot-updates :
        (ns_queue stats_res : ℕ) (es : List ℕ) (s : StatsState) (t : RtosCalls)
        → mb.num_slot ≤ 32
        → (ns_queue == 0) ≡ false
        → (stats_res == 0) ≡ false
        → 0 < length es
        → length es < 2 ^ 26
        → let s' = (updates es (tfm_ns_mailbox_tx_stats_init ns_queue s, t)).0 in
          (r : StatsRes) × (tfm_ns_mailbox_stats_avg_slot stats_res s' ≡ some (some r))
          × (r.avg_nr_slots * 10 + r.avg_nr_slots_tenths ≡ total_used es * 10 / length es)
          × (r.avg_nr_slots_tenths < 10)
    unfolding tfm_ns_mailbox_stats_avg_slot
    avg_slot-updates ns_queue stats_res es s t slots q res some' few =
        let c = updates_count ns_queue es s t slots q in
        let small = total_used_small es slots in
        let n = length es in
        let m = total_used es in
        let tx : n % 2 ^ 32 ≡ n = omega arith in
        let used : m % 2 ^ 32 ≡ m = omega arith in
        let none' : (n == 0) ≡ false = ground arith in
        let room : m % n * 10 % 2 ^ 32 ≡ m % n * 10 = omega (arith, mod-lt m some') in
        let (whole, digit) = tenths m n some' in
        (
          record { avg_nr_slots = m / n; avg_nr_slots_tenths = m % n * 10 / n },
          rw (c.pointer, res, c.tx, c.used, tx, used, none', room) refl,
          whole,
          digit,
        )
