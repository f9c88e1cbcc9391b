-- ===== src/Channel/Bounded.antt =====
-- zephyr/src/sync/channel.rs: the bounded flavour.  The slots stand in one box; the pointer to a
-- slot is its index, and each slot is in the `free` queue or in the `chan` queue.
pub mod Fifo
pub mod Valid
pub mod Refine
pub mod Runs
pub mod Threads
use zephyr_lang_rust.Prelude.{
  ℕ, zero, suc, ◌+◌, ◌==◌, Bool, true, false, Option, none, some, if◌then◌else◌,
}
use zephyr_lang_rust.Prelude.Outcome.{
  Outcome, ret, panic, Result, ok, err, Call, done, waits, undefined,
}
use zephyr_lang_rust.Time.{Timeout, from_forever, from_no_wait}
use zephyr_lang_rust.Queue.{KQueue}
use zephyr_lang_rust.Queue
use zephyr_lang_rust.Channel.Message.{
  Message, message_new, SendError, send_error, RecvError, recv_error, Memory, update,
}

module _ (k : KQueue) (T : Type 0) where
  open k use {Q}

  -- `struct Bounded<T>`, with the length of `_slots`
  pub record Bounded : Type 0 where
    pub cap : ℕ
    pub slots : Memory T
    pub free : Q
    pub chan : Q

  abbrev pub Sent : Type 0
  Sent = Call (Result (Unit {0}) (SendError T)) Bounded

  abbrev pub Received : Type 0
  Received = Call (Result T RecvError) Bounded

module _ (k : KQueue) where
  open k use {Q}

  -- `for slot in slots { free.send(slot) }`, for `n` slots from slot `i` on
  pub send_slots : ℕ → ℕ → Q → Q
  send_slots zero i free = free
  send_slots (suc n) i free = send_slots n (i + 1) (Queue.send k free i)

module _ (k : KQueue) {T : Type 0} where
  -- `Bounded::new`
  pub bounded_new : ℕ → Bounded k T
  bounded_new cap = record {
    cap = cap;
    slots = λ a. none;
    free = send_slots k cap 0 (Queue.new k);
    chan = Queue.new k;
  }

  -- `bounded`: a capacity of zero panics
  pub bounded : ℕ → Outcome (Bounded k T)
  bounded cap = if cap == 0 then panic else ret (bounded_new cap)

  -- `Sender::send_timeout`, after the receive from the free list
  pub send_buf : Bounded k T → T → Option ℕ → k.Q → Sent k T
  send_buf b msg none free = done (err (send_error msg)) (record b { free = free })
  send_buf b msg (some buf) free = done (ok tt) (record b {
    slots = update b.slots buf (some (message_new msg));
    free = free;
    chan = Queue.send k b.chan buf;
  })

  pub send_timeout : Bounded k T → T → Timeout → ℕ → Sent k T
  unfolding send_buf
  send_timeout b msg timeout e = elim (Queue.recv k b.free timeout e) [
    | done buf free ↦ send_buf b msg buf free
    | waits ↦ waits
    | undefined ↦ undefined
  ]

  -- Reading a slot that was never written is undefined behaviour.
  pub read_buf : Bounded k T → ℕ → k.Q → Option (Message T) → Received k T
  read_buf b buf chan none = undefined
  read_buf b buf chan (some msg) =
      done (ok msg.payload) (record b { chan = chan; free = Queue.send k b.free buf })

  -- `Receiver::recv_timeout`, after the receive from the queue of messages
  pub recv_buf : Bounded k T → Option ℕ → k.Q → Received k T
  unfolding read_buf
  recv_buf b none chan = done (err recv_error) (record b { chan = chan })
  recv_buf b (some buf) chan = read_buf b buf chan (b.slots buf)

  pub recv_timeout : Bounded k T → Timeout → ℕ → Received k T
  unfolding recv_buf
  recv_timeout b timeout e = elim (Queue.recv k b.chan timeout e) [
    | done buf chan ↦ recv_buf b buf chan
    | waits ↦ waits
    | undefined ↦ undefined
  ]

  pub send_forever : Bounded k T → T → ℕ → Sent k T
  unfolding send_timeout
  send_forever b msg e = send_timeout b msg from_forever e

  pub try_send : Bounded k T → T → Sent k T
  unfolding send_timeout
  try_send b msg = send_timeout b msg from_no_wait 0

  pub recv_forever : Bounded k T → ℕ → Received k T
  unfolding recv_timeout
  recv_forever b e = recv_timeout b from_forever e

  pub try_recv : Bounded k T → Received k T
  unfolding recv_timeout
  try_recv b = recv_timeout b from_no_wait 0
