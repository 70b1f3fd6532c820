-- ===== src/Boot.antt =====
-- app_broker/main_ns.c: the start of the non-secure side.
mod Main
mod Order
mod Tests
