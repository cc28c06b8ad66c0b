-- ===== src/Asynchronous.antt =====
-- The directory src/asynchronous, and the queue of the crossbeam_queue crate that it is built on.
pub mod ArrayQueue
pub mod Timer
pub mod Executor
