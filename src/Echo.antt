-- ===== src/Echo.antt =====
-- The echo partition, partitions/echo_service/echo_service.c.
pub mod Service
pub mod Serving
mod Tests
