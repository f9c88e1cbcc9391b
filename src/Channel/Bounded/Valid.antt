-- ===== src/Channel/Bounded/Valid.antt =====
-- Where the slots of a bounded channel are, and the messages that its queue holds.
use zephyr_lang_rust.Prelude.{
  ℕ, zero, suc, ◌+◌, ◌<◌, ◌≡◌, ◌≢◌, refl, Option, none, some, List, [], ◌∷◌, ◌++◌, ltb, leb, ◌&&◌,
  if◌then◌else◌, count, count-append, length, length-append, arith,
}
use zephyr_lang_rust.Queue.{KQueue}
use zephyr_lang_rust.Queue
use zephyr_lang_rust.Channel.Message.{Message, Memory, update}
use zephyr_lang_rust.Channel.Bounded.{Bounded, bounded_new, send_slots}

-- The messages in the cells of a list of addresses.
unfoldable pub payloads : {T : Type 0} → Memory T → List ℕ → List T
payloads m [] = []
payloads m (a ∷ l) = elim (m a) [ none ↦ payloads m l | some msg ↦ msg.payload ∷ payloads m l ]

module _ {k : KQueue} {T : Type 0} where
  abbrev pub free_slots : Bounded k T → List ℕ
  free_slots b = k.items b.free

  abbrev pub sent_slots : Bounded k T → List ℕ
  sent_slots b = k.items b.chan

  -- The abstract view of a channel.
  abbrev pub messages : Bounded k T → List T
  messages b = payloads b.slots (sent_slots b)

  -- Each slot is in just one of the two queues, once, and those in `chan` were written.
  pub record IsValid (b : Bounded k T) : Type 0 where
    pub placed :
        (i : ℕ) → count i (free_slots b) + count i (sent_slots b) ≡ (if ltb i b.cap then 1 else 0)
    pub written : (i : ℕ) → 0 < count i (sent_slots b) → b.slots i ≢ none
    pub total : length (free_slots b) + length (sent_slots b) ≡ b.cap

module _ {T : Type 0} where
  pub payloads-append :
      (m : Memory T) (xs ys : List ℕ) → payloads m (xs ++ ys) ≡ payloads m xs ++ payloads m ys
  unfolding payloads
  payloads-append m [] ys = refl
  payloads-append m (x ∷ xs) ys = ground (arith, payloads-append m xs ys)

  -- A write to a cell that is not in the list changes nothing.
  pub payloads-update :
      (m : Memory T) (a : ℕ) (v : Option (Message T)) (xs : List ℕ)
      → count a xs ≡ 0
      → payloads (update m a v) xs ≡ payloads m xs
  unfolding payloads
  payloads-update m a v [] h = refl
  payloads-update m a v (x ∷ xs) h = ground (arith, payloads-update m a v xs)

  -- One message for each cell, if all are written.
  pub length-payloads :
      (m : Memory T) (xs : List ℕ)
      → ((i : ℕ) → 0 < count i xs → m i ≢ none)
      → length (payloads m xs) ≡ length xs
  unfolding payloads
  length-payloads m [] h = refl
  length-payloads m (x ∷ xs) h =
      ground (arith, h x, length-payloads m xs (λ i p. h i (omega arith)))

module _ (k : KQueue) where
  -- `send_slots` adds `i`, `i + 1`, … to a queue.
  pub count-send_slots :
      (n i : ℕ) (q : k.Q) (a : ℕ)
      → count a (k.items (send_slots k n i q))
        ≡ count a (k.items q) + (if leb i a && ltb a (i + n) then 1 else 0)
  unfolding send_slots
  count-send_slots zero i q a = ground arith
  count-send_slots (suc n) i q a = ground (
    arith,
    count-send_slots n (i + 1) (Queue.send k q i) a,
    k.items_append q i,
    count-append a (k.items q) (i ∷ []),
  )

  pub length-send_slots :
      (n i : ℕ) (q : k.Q) → length (k.items (send_slots k n i q)) ≡ length (k.items q) + n
  unfolding send_slots
  length-send_slots zero i q = ground arith
  length-send_slots (suc n) i q = ground (
    arith,
    length-send_slots n (i + 1) (Queue.send k q i),
    k.items_append q i,
    length-append (k.items q) (i ∷ []),
  )

module _ (k : KQueue) {T : Type 0} where
  -- A new channel is valid and empty.
  pub bounded_new-IsValid : (cap : ℕ) → IsValid (bounded_new k {T = T} cap)
  unfolding bounded_new
  bounded_new-IsValid cap = record {
    placed = λ i. ground (arith, count-send_slots k cap 0 k.k_queue_init i, k.items_init);
    written = λ i h. absurd (ground (arith, k.items_init));
    total = ground (arith, length-send_slots k cap 0 k.k_queue_init, k.items_init);
  }

  pub messages-bounded_new : (cap : ℕ) → messages (bounded_new k {T = T} cap) ≡ []
  unfolding bounded_new payloads
  messages-bounded_new cap = rw (k.items_init, payloads)
