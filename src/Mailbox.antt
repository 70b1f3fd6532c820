-- ===== src/Mailbox.antt =====
-- lib/multi_core: the RTOS side of the non-secure mailbox, and its statistics.
mod Os
mod Retry
mod Stats
mod Counts
mod Interleaving
mod Tests
