-- ===== src/Mailbox/Tests.antt =====
-- The mailbox on a concrete RTOS.
use pico2w_tfm.Common.{
  ℕ, ◌%◌, ◌^◌, ◌+◌, ◌*◌, ◌/◌, ◌<◌, ◌≡◌, refl, arith, none, some, Bytes, [], ◌∷◌, length, take,
}
use pico2w_tfm.Rtos.Cmsis.{
  RtosCall, os_message_queue_put, os_message_queue_get, RtosCalls, Rtos, OsWrapper, os_wait_forever,
}
use pico2w_tfm.Mailbox.Os.{Mailbox, tfm_ns_mailbox_os_mq_send, tfm_ns_mailbox_os_mq_receive}
use pico2w_tfm.Mailbox.Retry.{
  AcceptsAfter, now, later, mq_send-AcceptsAfter, mq_receive-AcceptsAfter,
}
use pico2w_tfm.Mailbox.Interleaving.{
  takes_first, takes_later, System, Reaches, starts, fills, arrives, adds, Reaches-no_update_lost,
}
use pico2w_tfm.Mailbox.Stats.{
  count_slots, count_empty, add_used, NsMailboxQueue, StatsState, StatsRes,
  tfm_ns_mailbox_tx_stats_init, tfm_ns_mailbox_stats_avg_slot,
}
use pico2w_tfm.Mailbox.Counts.{updates, avg_slot-updates}

-- An RTOS whose queues are busy at every second call.
abbrev answers_even : RtosCalls → ℕ
answers_even [] = 0
answers_even (c ∷ []) = 1
answers_even (c ∷ d ∷ t) = answers_even t

abbrev rtos : Rtos
rtos = record { returns = λ c t. answers_even t; message = λ h t. 7 ∷ 8 ∷ [] }

abbrev wrapper : OsWrapper
wrapper = record {
  wrapper_success = 0;
  wrapper_error = 0xffffffff;
  wait_forever = 0xffffffff;
  default_stack_size = 0;
}

abbrev mailbox : Mailbox
mailbox = record {
  mailbox_success = 0;
  mailbox_inval_params = 2;
  mailbox_generic_error = 3;
  num_slot = 4;
}

abbrev message : Bytes
message = 1 ∷ 2 ∷ []

abbrev put : RtosCall
put = os_message_queue_put 5 message 0 0

abbrev get : RtosCall
get = os_message_queue_get 5 os_wait_forever

put-AcceptsAfter : AcceptsAfter rtos put 1 (put ∷ [])
put-AcceptsAfter = later refl (now refl)

get-AcceptsAfter : AcceptsAfter rtos get 1 (put ∷ [])
get-AcceptsAfter = later refl (now refl)

mq_send-AcceptsAfter_example :
    tfm_ns_mailbox_os_mq_send rtos wrapper mailbox 2 5 (some message) (put ∷ [])
    ≡ (some 0, put ∷ put ∷ put ∷ [])
mq_send-AcceptsAfter_example =
    mq_send-AcceptsAfter rtos wrapper mailbox 2 1 5 message (put ∷ []) refl refl put-AcceptsAfter
      (omega arith)

mq_receive-AcceptsAfter_example :
    let r =
      tfm_ns_mailbox_os_mq_receive rtos wrapper mailbox 2 5 (some (0 ∷ 0 ∷ 0 ∷ [])) (put ∷ []) in
    (received : Bytes) × (r ≡ ((some 0, some received), get ∷ get ∷ put ∷ []))
    × (length received ≡ 3)
    × (take 2 received ≡ 7 ∷ 8 ∷ [])
mq_receive-AcceptsAfter_example =
    mq_receive-AcceptsAfter rtos wrapper mailbox 2 1 5 (0 ∷ 0 ∷ 0 ∷ []) (put ∷ []) refl refl
      get-AcceptsAfter (omega arith) (omega arith)

abbrev queue : NsMailboxQueue
queue = record { empty_slots = 15; nr_tx = 9; nr_used_slots = 9 }

abbrev before : StatsState
before = record { stats_queue_ptr = 0; memory = λ p. queue }

avg_slot-updates_example :
    let s' =
      (updates mailbox rtos wrapper
        (5 ∷ 15 ∷ 5 ∷ [])
        (tfm_ns_mailbox_tx_stats_init 100 before, [])).0 in
    (r : StatsRes) × (tfm_ns_mailbox_stats_avg_slot 200 s' ≡ some (some r))
    × (r.avg_nr_slots * 10 + r.avg_nr_slots_tenths ≡ 40 / 3)
    × (r.avg_nr_slots_tenths < 10)
avg_slot-updates_example =
    avg_slot-updates mailbox rtos wrapper 100 200 (5 ∷ 15 ∷ 5 ∷ []) before [] (omega arith) refl
      refl (omega arith) (omega arith)

-- Before the first update the average divides by zero.
avg_slot_empty :
    tfm_ns_mailbox_stats_avg_slot 200 (tfm_ns_mailbox_tx_stats_init 100 before) ≡ some none
unfolding tfm_ns_mailbox_stats_avg_slot tfm_ns_mailbox_tx_stats_init
avg_slot_empty = refl

-- Two updates, of which the second begins before the first has added its count.
abbrev finished : System
finished = record { queue = record { empty_slots = 7; nr_tx = 2; nr_used_slots = 3 }; pending = [] }

overlapping : Reaches mailbox (7 ∷ 5 ∷ []) finished
unfolding count_slots count_empty add_used
overlapping =
    adds 3 [] (adds 2 (3 ∷ []) (arrives (fills 7 (arrives (starts 5)))) (takes_later takes_first))
      takes_first

Reaches-no_update_lost_example :
    (finished.queue.nr_tx ≡ 2 % 2 ^ 32) × (finished.queue.nr_used_slots ≡ 3 % 2 ^ 32)
Reaches-no_update_lost_example =
    Reaches-no_update_lost mailbox (7 ∷ 5 ∷ []) finished (omega arith) overlapping refl
