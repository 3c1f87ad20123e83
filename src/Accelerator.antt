-- ===== src/Accelerator.antt =====
-- tcp_accelerator/tcp_accelerator.c: a splicing TCP proxy.
pub mod Buffer
pub mod Session
pub mod Create
pub mod Handlers
pub mod Runs
pub mod Loop
pub mod Main
mod Tests
