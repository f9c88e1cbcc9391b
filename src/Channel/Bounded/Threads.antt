-- ===== src/Channel/Bounded/Threads.antt =====
-- zephyr/src/sync/channel.rs: threads that send and receive on a bounded channel, a shared access at a
-- time: the call of one queue, the write or the read of the slot, and the call of the other queue.
pub mod Held
pub mod Moves
pub mod Order
mod Examples
use zephyr_lang_rust.Prelude.{
  ℕ, Bool, true, false, Option, none, some, List, [], ◌∷◌, ◌++◌, ◌==◌, if◌then◌else◌,
}
use zephyr_lang_rust.Prelude.Outcome.{Call, done, waits, undefined}
use zephyr_lang_rust.Time.{Timeout}
use zephyr_lang_rust.Queue.{KQueue}
use zephyr_lang_rust.Queue
use zephyr_lang_rust.Channel.Message.{message_new, update}
use zephyr_lang_rust.Channel.Bounded.{Bounded, bounded_new}

-- Where a thread stands in `send_timeout` or `recv_timeout`.
pub data Pc (T : Type 0) : Type 0 where
  idle : Pc T
  filling : ℕ → T → Pc T  -- has a slot of the free list, for a message
  filled : ℕ → T → Pc T  -- the message is written
  emptying : ℕ → T → Pc T  -- has a slot of the queue, and what it held then
  emptied : ℕ → T → T → Pc T  -- the same, with the message that was read

pub data Act (T : Type 0) : Type 0 where
  sends : T → Timeout → ℕ → Act T
  receives : Timeout → ℕ → Act T
  goes_on : Act T

abbrev pub at : {A : Type 0} → (ℕ → A) → ℕ → A → ℕ → A
at f t a u = if u == t then a else f u

module _ (k : KQueue) (T : Type 0) where
  -- The channel and the threads; which messages were put into the queue and taken from it, in order; and
  -- whether a slot was read that was never written.
  pub record Threads : Type 0 where
    pub chan : Bounded k T
    pub pc : ℕ → Pc T
    pub sent : List T
    pub got : List T
    pub fault : Bool

  abbrev pub start : ℕ → Threads
  start cap = record {
    chan = bounded_new k cap;
    pc = λ t. idle;
    sent = [];
    got = [];
    fault = false;
  }

  -- After `free.recv(timeout)`; with none, the send has failed.
  unfoldable pub after_free : Threads → ℕ → T → Call (Option ℕ) k.Q → Threads
  after_free s t msg (done none q) = record s { chan = record s.chan { free = q } }
  after_free s t msg (done (some a) q) = record s {
    chan = record s.chan { free = q };
    pc = at s.pc t (filling a msg);
  }
  after_free s t msg waits = s
  after_free s t msg undefined = record s { fault = true }

  -- After `chan.recv(timeout)`.
  unfoldable pub after_chan : Threads → ℕ → Call (Option ℕ) k.Q → Threads
  after_chan s t (done none q) = record s { chan = record s.chan { chan = q } }
  after_chan s t (done (some a) q) = elim (s.chan.slots a) [
    | none ↦ record s { fault = true }
    | some m ↦ record s {
      chan = record s.chan { chan = q };
      pc = at s.pc t (emptying a m.payload);
      got = s.got ++ m.payload ∷ [];
    }
  ]
  after_chan s t waits = s
  after_chan s t undefined = record s { fault = true }

  -- The accesses of `send_timeout` that follow: the write of the slot, and `chan.send(buf)`.
  unfoldable pub send_on : Pc T → Threads → ℕ → Threads
  send_on (filling a msg) s t = record s {
    chan = record s.chan { slots = update s.chan.slots a (some (message_new msg)) };
    pc = at s.pc t (filled a msg);
  }
  send_on (filled a msg) s t = record s {
    chan = record s.chan { chan = Queue.send k s.chan.chan a };
    pc = at s.pc t idle;
    sent = s.sent ++ msg ∷ [];
  }
  send_on _ s t = s

  -- Those of `recv_timeout`: the read of the slot, and `free.send(buf)`.
  unfoldable pub receive_on : Pc T → Threads → ℕ → Threads
  receive_on (emptying a v) s t = elim (s.chan.slots a) [
    | none ↦ record s { fault = true }
    | some m ↦ record s { pc = at s.pc t (emptied a v m.payload) }
  ]
  receive_on (emptied a v w) s t = record s {
    chan = record s.chan { free = Queue.send k s.chan.free a };
    pc = at s.pc t idle;
  }
  receive_on _ s t = s

  unfoldable pub go_on : Pc T → Threads → ℕ → Threads
  unfolding send_on receive_on
  go_on idle s t = s
  go_on (filling a msg) s t = send_on (filling a msg) s t
  go_on (filled a msg) s t = send_on (filled a msg) s t
  go_on (emptying a v) s t = receive_on (emptying a v) s t
  go_on (emptied a v w) s t = receive_on (emptied a v w) s t

  unfoldable pub begin_send : Pc T → Threads → ℕ → T → Timeout → ℕ → Threads
  unfolding after_free
  begin_send idle s t msg timeout e = after_free s t msg (Queue.recv k s.chan.free timeout e)
  begin_send _ s t msg timeout e = s

  unfoldable pub begin_receive : Pc T → Threads → ℕ → Timeout → ℕ → Threads
  unfolding after_chan
  begin_receive idle s t timeout e = after_chan s t (Queue.recv k s.chan.chan timeout e)
  begin_receive _ s t timeout e = s

  unfoldable pub step : Threads → ℕ → Act T → Threads
  unfolding begin_send begin_receive go_on
  step s t (sends msg timeout e) = begin_send (s.pc t) s t msg timeout e
  step s t (receives timeout e) = begin_receive (s.pc t) s t timeout e
  step s t goes_on = go_on (s.pc t) s t

  -- Any threads, in any order.
  unfoldable pub run : Threads → List (ℕ × Act T) → Threads
  unfolding step
  run s [] = s
  run s ((t, a) ∷ acts) = run (step s t a) acts
