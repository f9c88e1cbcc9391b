-- ===== src/Blocking.antt =====
-- zephyr/src/blocking.rs: the pool of worker threads for blocking calls.  Every shared access is one
-- step of a future or of a worker, in any order; a section under a slot's spin lock is one step, as
-- is a call of the kernel's queue.  The two halves are `Future` and `Worker`.
pub mod Slot
pub mod Future
pub mod Worker
pub mod System
pub mod Invariant
pub mod Safety
pub mod Once
pub mod Dropped
mod Examples
