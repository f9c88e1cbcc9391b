-- ===== src/Channel/Unbounded/Valid.antt =====
-- The boxes of an unbounded channel are those in its queue.
use zephyr_lang_rust.Prelude.{ℕ, ◌<◌, ◌≡◌, Option, none, some, List, count, arith}
use zephyr_lang_rust.Queue.{KQueue}
use zephyr_lang_rust.Channel.Message.{Message}
use zephyr_lang_rust.Channel.Unbounded.{Unbounded, unbounded}
use zephyr_lang_rust.Channel.Bounded.Valid.{payloads}

abbrev pub allocated : {T : Type 0} → Option (Message T) → ℕ
allocated none = 0
allocated (some _) = 1

module _ {k : KQueue} {T : Type 0} where
  abbrev pub queued : Unbounded k T → List ℕ
  queued c = k.items c.queue

  abbrev pub messages : Unbounded k T → List T
  messages c = payloads c.heap.boxes (queued c)

  -- A box stands in the queue once while it is allocated, and not once it is freed; the allocator
  -- has not given the addresses from `next` on.
  pub record IsValid (c : Unbounded k T) : Type 0 where
    pub owned : (a : ℕ) → count a (queued c) ≡ allocated (c.heap.boxes a)
    pub fresh : (a : ℕ) → allocated (c.heap.boxes a) ≡ 1 → a < c.heap.next

module _ (k : KQueue) {T : Type 0} where
  pub unbounded-IsValid : (used : ℕ) → IsValid (unbounded k {T = T} used)
  unfolding unbounded
  unbounded-IsValid used = record {
    owned = λ a. ground (arith, k.items_init);
    fresh = λ a h. absurd (omega arith);
  }
