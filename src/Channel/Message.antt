-- ===== src/Channel/Message.antt =====
-- zephyr/src/sync/channel.rs: the messages, the errors, and memory cells found by their address.
use zephyr_lang_rust.Prelude.{ℕ, Option, ◌==◌, if◌then◌else◌}

-- `struct Message<T>`: `private` is the word that the kernel uses while the message is queued.
pub record Message (T : Type 0) : Type 0 where
  pub private : ℕ
  pub payload : T

abbrev pub message_new : {T : Type 0} → T → Message T
message_new m = record { private = 0; payload = m }

-- `struct SendError<T>(pub T)` and `struct RecvError`
pub data SendError (T : Type 0) : Type 0 where
  send_error : T → SendError T

pub data RecvError : Type 0 where
  recv_error : RecvError

-- Memory by address.  A cell with no message is not initialised, or not allocated.
abbrev pub Memory : Type 0 → Type 0
Memory T = ℕ → Option (Message T)

abbrev pub update : {T : Type 0} → Memory T → ℕ → Option (Message T) → Memory T
update m a v b = if a == b then v else m b
