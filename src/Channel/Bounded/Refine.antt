-- ===== src/Channel/Bounded/Refine.antt =====
-- The bounded channel implements the first-in first-out queue, and keeps its slots in place.
use zephyr_lang_rust.Prelude.{
  ℕ, ◌<◌, ◌≡◌, refl, some, List, [], ◌∷◌, ◌++◌, count, count-append, length, length-append, arith,
  Option-cases, inl, inr,
}
use zephyr_lang_rust.Prelude.Outcome.{map_state, Leaves}
use zephyr_lang_rust.Time.{Timeout}
use zephyr_lang_rust.Queue.{KQueue, Found, empty, first, found}
use zephyr_lang_rust.Queue
use zephyr_lang_rust.Channel.Message.{message_new, update}
use zephyr_lang_rust.Channel.Bounded.{Bounded, send_timeout, read_buf, recv_timeout}
use zephyr_lang_rust.Channel.Bounded.Fifo.{fifo_send, fifo_recv}
use zephyr_lang_rust.Channel.Bounded.Valid.{
  payloads, free_slots, sent_slots, messages, IsValid, payloads-append, payloads-update,
  length-payloads,
}

module _ (k : KQueue) {T : Type 0} (b : Bounded k T) (valid : IsValid b) where
  open valid use {placed, written, total}

  length-messages : length (messages b) ≡ length (sent_slots b)
  length-messages = length-payloads b.slots (sent_slots b) written

  -- A slot that was taken from `free` is not in `chan`.
  free_not_sent :
      (a : ℕ) (r : List ℕ)
      → free_slots b ≡ a ∷ r
      → (count a (sent_slots b) ≡ 0) × (length (sent_slots b) < b.cap)
  free_not_sent a r h = ground (arith, placed a)

  -- The messages after a send into slot `a`.
  messages_sent :
      (msg : T) (a : ℕ)
      → count a (sent_slots b) ≡ 0
      → payloads (update b.slots a (some (message_new msg))) (k.items (Queue.send k b.chan a))
        ≡ messages b ++ msg ∷ []
  unfolding payloads
  messages_sent msg a h = rw k.items_append (
      rw payloads-append
        (rw (payloads-update b.slots a (some (message_new msg)) _ h) (ground arith)))

  send-Found :
      (msg : T) (t : Timeout) (e : ℕ)
      → Found k b.free t e
      → map_state messages (send_timeout k b msg t e)
        ≡ fifo_send k.expired b.cap (messages b) msg t e
  unfolding send_timeout
  send-Found msg t e (empty none_free got) = ground (arith, got, length-messages, total)
  send-Found msg t e (first a r free' is got rest) =
      ground (arith, got, length-messages, messages_sent msg a, free_not_sent a r)

  send-Found-IsValid :
      (msg : T) (t : Timeout) (e : ℕ)
      → Found k b.free t e
      → Leaves (λ b'. IsValid b' × (b'.cap ≡ b.cap)) (send_timeout k b msg t e)
  unfolding send_timeout
  send-Found-IsValid msg t e (empty none_free got) = ground (arith, got, valid)
  send-Found-IsValid msg t e (first a r free' is got rest) =
      rw (got, send_timeout)
        (
          record {
            placed = λ i.
                ground (
                  arith,
                  placed i,
                  k.items_append b.chan a,
                  count-append i (sent_slots b) (a ∷ []),
                );
            written = λ i h.
                ground (
                  arith,
                  written i,
                  k.items_append b.chan a,
                  count-append i (sent_slots b) (a ∷ []),
                );
            total =
                ground
                  (arith, total, k.items_append b.chan a, length-append (sent_slots b) (a ∷ []));
          },
          refl,
        )

  -- The slot that a receive takes holds the first message.
  recv-Found :
      (t : Timeout) (e : ℕ)
      → Found k b.chan t e
      → map_state messages (recv_timeout k b t e) ≡ fifo_recv k.expired (messages b) t e
  unfolding recv_timeout payloads
  recv-Found t e (empty none_sent got) = ground (arith, got)
  recv-Found t e (first a r chan' is got rest) = ground (arith, got, written a)

  recv-Found-IsValid :
      (t : Timeout) (e : ℕ)
      → Found k b.chan t e
      → Leaves (λ b'. IsValid b' × (b'.cap ≡ b.cap)) (recv_timeout k b t e)
  unfolding recv_timeout
  recv-Found-IsValid t e (empty none_sent got) = ground (arith, got, valid)
  recv-Found-IsValid t e (first a r chan' is got rest) = elim (Option-cases (b.slots a)) [
    | inl none_there ↦ absurd (written a (ground arith) none_there)
    | inr (msg, there) ↦
        rw (got, recv_timeout)
          (rw (there, read_buf)
            (
              record {
                placed = λ i. ground (
                  arith,
                  placed i,
                  k.items_append b.free a,
                  count-append i (free_slots b) (a ∷ []),
                );
                written = λ i h. ground (arith, written i);
                total =
                    ground (
                      arith,
                      total,
                      k.items_append b.free a,
                      length-append (free_slots b) (a ∷ []),
                    );
              },
              refl,
            ))
  ]

-- On a valid channel, `send_timeout` does to the messages what the queue's send does, and returns or
-- waits as it does: the message joins the end if there is room; else the call waits while its
-- timeout has not expired, and then gives the message back and leaves the messages as they were.
pub send_timeout_refines :
    (k : KQueue) {T : Type 0} (b : Bounded k T) (msg : T) (t : Timeout) (e : ℕ)
    → IsValid b
    → map_state messages (send_timeout k b msg t e) ≡ fifo_send k.expired b.cap (messages b) msg t e
send_timeout_refines k b msg t e valid = send-Found k b valid msg t e (found k b.free t e)

-- On a valid channel, `recv_timeout` does to the messages what the queue's receive does, and returns
-- or waits as it does: it takes the first message; without one it waits while its timeout has not
-- expired, and then fails.  It never reads a slot that was not written.
pub recv_timeout_refines :
    (k : KQueue) {T : Type 0} (b : Bounded k T) (t : Timeout) (e : ℕ)
    → IsValid b
    → map_state messages (recv_timeout k b t e) ≡ fifo_recv k.expired (messages b) t e
recv_timeout_refines k b t e valid = recv-Found k b valid t e (found k b.chan t e)

pub recv_timeout-IsValid :
    (k : KQueue) {T : Type 0} (b : Bounded k T) (t : Timeout) (e : ℕ)
    → IsValid b
    → Leaves (λ b'. IsValid b' × (b'.cap ≡ b.cap)) (recv_timeout k b t e)
recv_timeout-IsValid k b t e valid = recv-Found-IsValid k b valid t e (found k b.chan t e)

-- A send and a receive on a valid channel, if they return, leave it valid: each slot in just one
-- queue, once, those in `chan` written, and the capacity as it was.
pub bounded_keeps :
    (k : KQueue) {T : Type 0} (b : Bounded k T) (msg : T) (t : Timeout) (e : ℕ)
    → IsValid b
    → Leaves (λ b'. IsValid b' × (b'.cap ≡ b.cap)) (send_timeout k b msg t e)
      × Leaves (λ b'. IsValid b' × (b'.cap ≡ b.cap)) (recv_timeout k b t e)
bounded_keeps k b msg t e valid =
    (send-Found-IsValid k b valid msg t e (found k b.free t e), recv_timeout-IsValid k b t e valid)
