-- ===== src/Blocking/Invariant.antt =====
-- The invariant of the pool, true at the start and kept by every step.
pub mod Defs
pub mod Frame
pub mod Served
pub mod Futures
pub mod FutureMoves
pub mod FutureFacts
pub mod FuturePolls
pub mod FutureSteps
pub mod Workers
pub mod WorkerMoves
pub mod WorkerSteps
