-- ===== src/Channel/Unbounded.antt =====
-- zephyr/src/sync/channel.rs: the unbounded flavour.  Each message is a box of its own, whose
-- pointer the queue holds.  The allocator gives the addresses in order, none of them twice.
pub mod Valid
pub mod Refine
use zephyr_lang_rust.Prelude.{ℕ, ◌+◌, Option, none, some}
use zephyr_lang_rust.Prelude.Outcome.{Result, ok, err, Call, done, waits, undefined}
use zephyr_lang_rust.Time.{Timeout}
use zephyr_lang_rust.Queue.{KQueue}
use zephyr_lang_rust.Queue
use zephyr_lang_rust.Channel.Message.{
  Message, message_new, SendError, RecvError, recv_error, Memory, update,
}

-- The boxes that are allocated; a cell with no message is free.
pub record Heap (T : Type 0) : Type 0 where
  pub next : ℕ
  pub boxes : Memory T

-- `Box::into_raw(Box::new(m))` and `*Box::from_raw(p)`
pub box_into_raw : {T : Type 0} → Heap T → Message T → ℕ × Heap T
box_into_raw h m = (h.next, record { next = h.next + 1; boxes = update h.boxes h.next (some m) })

pub box_from_raw : {T : Type 0} → Heap T → ℕ → Option (Message T × Heap T)
box_from_raw h p = elim (h.boxes p) [
  | none ↦ none
  | some m ↦ some (m, record h { boxes = update h.boxes p none })
]

module _ (k : KQueue) (T : Type 0) where
  -- `SenderFlavor::Unbounded { queue }`, with the boxes of the messages
  pub record Unbounded : Type 0 where
    pub queue : k.Q
    pub heap : Heap T

module _ (k : KQueue) {T : Type 0} where
  -- `unbounded_from(Queue::new())`, beside boxes that others have allocated and freed
  pub unbounded : ℕ → Unbounded k T
  unbounded used = record { queue = Queue.new k; heap = record { next = used; boxes = λ a. none } }

  -- `Sender::send_timeout`
  pub send_timeout :
      Unbounded k T → T → Timeout → ℕ → Call (Result (Unit {0}) (SendError T)) (Unbounded k T)
  unfolding box_into_raw
  send_timeout c msg timeout e =
      let (p, heap) = box_into_raw c.heap (message_new msg) in
      done (ok tt) (record { queue = Queue.send k c.queue p; heap = heap })

  -- `Receiver::recv_timeout`, after the receive from the queue
  pub recv_box : Unbounded k T → Option ℕ → k.Q → Call (Result T RecvError) (Unbounded k T)
  unfolding box_from_raw
  recv_box c none queue = done (err recv_error) (record c { queue = queue })
  recv_box c (some p) queue = elim (box_from_raw c.heap p) [
    | none ↦ undefined
    | some r ↦ done (ok r.0.payload) (record { queue = queue; heap = r.1 })
  ]

  pub recv_timeout : Unbounded k T → Timeout → ℕ → Call (Result T RecvError) (Unbounded k T)
  unfolding recv_box
  recv_timeout c timeout e = elim (Queue.recv k c.queue timeout e) [
    | done p queue ↦ recv_box c p queue
    | waits ↦ waits
    | undefined ↦ undefined
  ]
