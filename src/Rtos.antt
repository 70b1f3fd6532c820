-- ===== src/Rtos.antt =====
-- app_broker/os_wrapper_cmsis_rtos_v2.c: the thin layer over CMSIS-RTOS2.
pub mod Cmsis
pub mod Threads
pub mod Objects
pub mod Requests
pub mod Modules
mod Tests
