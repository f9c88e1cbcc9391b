-- ===== src/Channel/Unbounded/Refine.antt =====
-- The unbounded channel implements a first-in first-out queue, and frees each box once.
use zephyr_lang_rust.Prelude.{
  ℕ, ◌≡◌, none, some, [], ◌∷◌, ◌++◌, count, count-append, arith, Option-cases, inl, inr,
}
use zephyr_lang_rust.Prelude.Outcome.{ok, done, map_state, Leaves}
use zephyr_lang_rust.Time.{Timeout}
use zephyr_lang_rust.Queue.{KQueue, Found, empty, first, found}
use zephyr_lang_rust.Queue
use zephyr_lang_rust.Channel.Message.{message_new, update}
use zephyr_lang_rust.Channel.Unbounded.{Unbounded, send_timeout, recv_timeout, recv_box}
use zephyr_lang_rust.Channel.Unbounded.Valid.{queued, messages, IsValid}
use zephyr_lang_rust.Channel.Bounded.Valid.{payloads, payloads-append, payloads-update}
use zephyr_lang_rust.Channel.Bounded.Fifo.{fifo_recv}

module _ (k : KQueue) {T : Type 0} (c : Unbounded k T) (valid : IsValid c) where
  open valid use {owned, fresh}

  next_not_queued : count c.heap.next (queued c) ≡ 0
  next_not_queued = ground (arith, owned c.heap.next, fresh c.heap.next)

  send-messages :
      (msg : T)
      → payloads
          (update c.heap.boxes c.heap.next (some (message_new msg)))
          (k.items (Queue.send k c.queue c.heap.next))
        ≡ messages c ++ msg ∷ []
  unfolding payloads
  send-messages msg = rw k.items_append (
      rw payloads-append (
        rw (payloads-update c.heap.boxes c.heap.next (some (message_new msg)) _ next_not_queued)
          (ground arith)))

  recv-Found :
      (t : Timeout) (e : ℕ)
      → Found k c.queue t e
      → map_state messages (recv_timeout k c t e) ≡ fifo_recv k.expired (messages c) t e
  unfolding recv_timeout payloads
  recv-Found t e (empty none_sent got) = ground (arith, got)
  recv-Found t e (first a r queue is got rest) =
      ground (arith, got, owned a, payloads-update c.heap.boxes a none r)

  send-IsValid : (msg : T) (t : Timeout) (e : ℕ) → Leaves IsValid (send_timeout k c msg t e)
  unfolding send_timeout
  send-IsValid msg t e = record {
    owned = λ i. ground (
      arith,
      owned i,
      next_not_queued,
      k.items_append c.queue c.heap.next,
      count-append i (queued c) (c.heap.next ∷ []),
    );
    fresh = λ i h. ground (arith, fresh i);
  }

  recv-Found-IsValid :
      (t : Timeout) (e : ℕ) → Found k c.queue t e → Leaves IsValid (recv_timeout k c t e)
  unfolding recv_timeout
  recv-Found-IsValid t e (empty none_sent got) = ground (arith, got, owned, fresh)
  recv-Found-IsValid t e (first a r queue is got rest) = elim (Option-cases (c.heap.boxes a)) [
    | inl none_there ↦ absurd (ground (arith, owned a))
    | inr (msg, there) ↦
        rw (got, recv_timeout)
          (rw (there, recv_box)
            (record {
              owned = λ i. ground (arith, owned i);
              fresh = λ i h. ground (arith, fresh i);
            }))
  ]

-- On a valid unbounded channel a send returns at once and the message joins the end, whatever its
-- timeout; a receive does to the messages what the queue's receive does, and returns or waits as it
-- does.
pub unbounded_refines :
    (k : KQueue) {T : Type 0} (c : Unbounded k T) (msg : T) (t : Timeout) (e : ℕ)
    → IsValid c
    → (map_state messages (send_timeout k c msg t e) ≡ done (ok tt) (messages c ++ msg ∷ []))
      × (map_state messages (recv_timeout k c t e) ≡ fifo_recv k.expired (messages c) t e)
unfolding send_timeout
unbounded_refines k c msg t e valid =
    (ground (arith, send-messages k c valid msg), recv-Found k c valid t e (found k c.queue t e))

-- A send and a receive on a valid unbounded channel, if they return, leave it valid: each box that
-- is allocated stands in the queue just once, and none that is freed.  So no box is leaked, freed
-- twice or read after it was freed.
pub unbounded_keeps :
    (k : KQueue) {T : Type 0} (c : Unbounded k T) (msg : T) (t : Timeout) (e : ℕ)
    → IsValid c
    → Leaves IsValid (send_timeout k c msg t e) × Leaves IsValid (recv_timeout k c t e)
unbounded_keeps k c msg t e valid =
    (send-IsValid k c valid msg t e, recv-Found-IsValid k c valid t e (found k c.queue t e))
