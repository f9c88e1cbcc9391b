-- ===== src/Channel.antt =====
-- zephyr/src/sync/channel.rs: channels over Zephyr queues, bounded and unbounded.  A send or a
-- receive takes the number of ticks that it has waited so far, and waits (`waits`) while its queue
-- is empty and its timeout has not expired.
pub mod Message
pub mod Counter
pub mod Bounded
pub mod Unbounded
mod Examples
