-- ===== src/Channel/Bounded/Threads/Moves.antt =====
-- Every access of a thread keeps the invariant.
use zephyr_lang_rust.Prelude.{
  ℕ, ◌≡◌, refl, sym, ap, ◌∙◌, some, Option-cases, Bool-cases, inl, inr, List, [], ◌∷◌, ◌++◌,
  append_assoc, count, ℕ_discrete, arith,
}
use zephyr_lang_rust.Time.{Timeout}
use zephyr_lang_rust.Queue.{KQueue, Found, found, empty, first}
use zephyr_lang_rust.Queue
use zephyr_lang_rust.Queue.Counts.{count-send}
use zephyr_lang_rust.Channel.Message.{Message, message_new}
use zephyr_lang_rust.Channel.Bounded.Valid.{payloads, payloads-append, payloads-update}
use zephyr_lang_rust.Channel.Bounded.Threads.{
  idle, filling, filled, emptying, emptied, at, Threads, after_free, after_chan, receive_on, go_on,
}
use zephyr_lang_rust.Channel.Bounded.Threads.Held.{
  slot_of, payloads-cons, Inv, Inv-moved, head-count, tail-count,
}

module _ (k : KQueue) (T : Type 0) where
  -- A slot is taken from the free list.
  take_free-Inv :
      (s : Threads k T) (t a : ℕ) (r : List ℕ) (q : k.Q) (msg : T)
      → Inv k T s
      → k.items s.chan.free ≡ a ∷ r
      → k.items q ≡ r
      → Inv k T (record s { chan = record s.chan { free = q }; pc = at s.pc t (filling a msg) })
  take_free-Inv s t a r q msg i h h' =
      let counts = λ (b : ℕ). tail-count k T s.chan.free q a b r h h' in
      Inv-moved k T s
        (record s { chan = record s.chan { free = q }; pc = at s.pc t (filling a msg) }) t
        (filling a msg) i refl (λ b. ground (arith, counts b, i.once b))
        (λ b e. let d : a ≡ b = cc in ground (arith, counts b, i.once b, d))
        (λ u b n e. ground (arith, counts b, i.away u b e))
        (λ u b n e d. let same : a ≡ b = cc in ground (arith, counts b, i.away u b e, same))
        (λ u b n e. refl) tt i.written i.fifo i.no_fault

  pub write-Inv :
      (s : Threads k T) (t a : ℕ) (msg : T)
      → Inv k T s
      → s.pc t ≡ filling a msg
      → Inv k T (go_on k T (filling a msg) s t)
  unfolding go_on
  write-Inv s t a msg i e =
      let mine : slot_of (s.pc t) ≡ some a = rw e refl in
      let none_there = i.away t a mine in
      let unqueued : count a (k.items s.chan.chan) ≡ 0 = omega (arith, none_there) in
      Inv-moved k T s (go_on k T (filling a msg) s t) t (filled a msg) i refl i.once
        (λ b d. i.away t b (mine ∙ d)) (λ u b n d. i.away u b d)
        (λ u b n d d'. n (i.alone u t b d (mine ∙ d')))
        (λ u b n d. elim (ℕ_discrete a b) [
          | yes same ↦ absurd (n (i.alone u t b d (mine ∙ ap some same)))
          | no other ↦ ground (arith, other)
        ])
        (ground arith) (λ b c. ground (arith, i.written b c))
        (ap (λ l. s.got ++ l)
            (payloads-update s.chan.slots a (some (message_new msg)) (k.items s.chan.chan) unqueued)
          ∙ i.fifo)
        i.no_fault

  pub append-Inv :
      (s : Threads k T) (t a : ℕ) (msg : T)
      → Inv k T s
      → s.pc t ≡ filled a msg
      → Inv k T (go_on k T (filled a msg) s t)
  unfolding go_on payloads
  append-Inv s t a msg i e =
      let mine : slot_of (s.pc t) ≡ some a = rw e refl in
      let own = i.fits t in
      let wrote : s.chan.slots a ≡ some (message_new msg) = rw e at own in
      let counts = λ (b : ℕ). count-send k s.chan.chan a b in
      let one_more : payloads s.chan.slots (a ∷ []) ≡ msg ∷ [] =
        payloads-cons s.chan.slots a [] (message_new msg) wrote in
      Inv-moved k T s (go_on k T (filled a msg) s t) t idle i refl
        (λ b. elim (ℕ_discrete a b) [
          | yes same ↦ ground (arith, counts b, i.away t a mine, same)
          | no other ↦ ground (arith, counts b, i.once b, other)
        ])
        (λ b d. absurd (cc))
        (λ u b n d. elim (ℕ_discrete a b) [
          | yes same ↦ absurd (n (i.alone u t b d (mine ∙ ap some same)))
          | no other ↦ ground (arith, counts b, i.away u b d, other)
        ])
        (λ u b n d d'. absurd (cc)) (λ u b n d. refl) tt
        (λ b c. elim (ℕ_discrete a b) [
          | yes same ↦ λ z. cc (z, wrote, same)
          | no other ↦ i.written b (ground (arith, counts b, c, other))
        ])
        (rw
          (
            k.items_append s.chan.chan a,
            payloads-append s.chan.slots (k.items s.chan.chan) (a ∷ []),
            one_more,
          )
          (sym (append_assoc s.got (payloads s.chan.slots (k.items s.chan.chan)) (msg ∷ []))
            ∙ ap (λ l. l ++ msg ∷ []) i.fifo))
        i.no_fault

  take_chan-Inv :
      (s : Threads k T) (t a : ℕ) (r : List ℕ) (q : k.Q) (m : Message T)
      → Inv k T s
      → k.items s.chan.chan ≡ a ∷ r
      → k.items q ≡ r
      → s.chan.slots a ≡ some m
      → Inv k T (record s {
        chan = record s.chan { chan = q };
        pc = at s.pc t (emptying a m.payload);
        got = s.got ++ m.payload ∷ [];
      })
  unfolding payloads
  take_chan-Inv s t a r q m i h h' held =
      let counts = λ (b : ℕ). tail-count k T s.chan.chan q a b r h h' in
      let first_out : payloads s.chan.slots (k.items s.chan.chan)
          ≡ m.payload ∷ payloads s.chan.slots r =
        rw h (payloads-cons s.chan.slots a r m held) in
      Inv-moved k T s
        (record s {
          chan = record s.chan { chan = q };
          pc = at s.pc t (emptying a m.payload);
          got = s.got ++ m.payload ∷ [];
        })
        t (emptying a m.payload) i refl (λ b. ground (arith, counts b, i.once b))
        (λ b e. let d : a ≡ b = cc in ground (arith, counts b, i.once b, d))
        (λ u b n e. ground (arith, counts b, i.away u b e))
        (λ u b n e d. let same : a ≡ b = cc in ground (arith, counts b, i.away u b e, same))
        (λ u b n e. refl) (m, held, refl) (λ b c. i.written b (ground (arith, counts b, c)))
        (rw h' (
          append_assoc s.got (m.payload ∷ []) (payloads s.chan.slots r)
          ∙ ap (λ l. s.got ++ l) (sym first_out)
          ∙ i.fifo))
        i.no_fault

  pub give_back-Inv :
      (s : Threads k T) (t a : ℕ) (v w : T)
      → Inv k T s
      → s.pc t ≡ emptied a v w
      → Inv k T (go_on k T (emptied a v w) s t)
  unfolding go_on
  give_back-Inv s t a v w i e =
      let mine : slot_of (s.pc t) ≡ some a = rw e refl in
      let counts = λ (b : ℕ). count-send k s.chan.free a b in
      Inv-moved k T s (go_on k T (emptied a v w) s t) t idle i refl
        (λ b. elim (ℕ_discrete a b) [
          | yes same ↦ ground (arith, counts b, i.away t a mine, same)
          | no other ↦ ground (arith, counts b, i.once b, other)
        ])
        (λ b d. absurd (cc))
        (λ u b n d. elim (ℕ_discrete a b) [
          | yes same ↦ absurd (n (i.alone u t b d (mine ∙ ap some same)))
          | no other ↦ ground (arith, counts b, i.away u b d, other)
        ])
        (λ u b n d d'. absurd (cc)) (λ u b n d. refl) tt i.written i.fifo i.no_fault

  pub read-Inv :
      (s : Threads k T) (t a : ℕ) (v : T)
      → Inv k T s
      → s.pc t ≡ emptying a v
      → Inv k T (go_on k T (emptying a v) s t)
  unfolding go_on receive_on
  read-Inv s t a v i e =
      let mine : slot_of (s.pc t) ≡ some a = rw e refl in
      let own = i.fits t in
      let (m, held, same) = rw e at own in
      rw (held, go_on, receive_on)
        (Inv-moved k T s (record s { pc = at s.pc t (emptied a v m.payload) }) t
          (emptied a v m.payload) i refl i.once (λ b d. i.away t b (mine ∙ d))
          (λ u b n d. i.away u b d) (λ u b n d d'. n (i.alone u t b d (mine ∙ d')))
          (λ u b n d. refl) (sym same) i.written i.fifo i.no_fault)

  -- A queue that is as it was changes nothing.
  same_free-Inv :
      (s : Threads k T) (q : k.Q)
      → Inv k T s
      → q ≡ s.chan.free
      → Inv k T (record s { chan = record s.chan { free = q } })
  same_free-Inv s q i e = rw e (record {
    once = i.once;
    away = i.away;
    alone = i.alone;
    written = i.written;
    fits = i.fits;
    fifo = i.fifo;
    no_fault = i.no_fault;
  })

  same_chan-Inv :
      (s : Threads k T) (q : k.Q)
      → Inv k T s
      → q ≡ s.chan.chan
      → Inv k T (record s { chan = record s.chan { chan = q } })
  same_chan-Inv s q i e = rw e (record {
    once = i.once;
    away = i.away;
    alone = i.alone;
    written = i.written;
    fits = i.fits;
    fifo = i.fifo;
    no_fault = i.no_fault;
  })

  pub send-Inv :
      (s : Threads k T) (t : ℕ) (msg : T) (timeout : Timeout) (e : ℕ)
      → Inv k T s
      → Inv k T (after_free k T s t msg (Queue.recv k s.chan.free timeout e))
  unfolding after_free
  send-Inv s t msg timeout e i = elim (found k s.chan.free timeout e) [
    | first a r q h got rest ↦ rw got (take_free-Inv s t a r q msg i h rest)
    | empty h got ↦ elim (Bool-cases (k.expired timeout e)) [
      | inl over ↦ rw got (rw over (same_free-Inv s s.chan.free i refl))
      | inr early ↦ rw got (rw early i)
    ]
  ]

  pub receive-Inv :
      (s : Threads k T) (t : ℕ) (timeout : Timeout) (e : ℕ)
      → Inv k T s
      → Inv k T (after_chan k T s t (Queue.recv k s.chan.chan timeout e))
  unfolding after_chan
  receive-Inv s t timeout e i = elim (found k s.chan.chan timeout e) [
    | first a r q h got rest ↦ elim (Option-cases (s.chan.slots a)) [
      | inl unwritten ↦ absurd (i.written a (head-count k T s.chan.chan a r h) unwritten)
      | inr (m, held) ↦ rw got (rw (held, after_chan) (take_chan-Inv s t a r q m i h rest held))
    ]
    | empty h got ↦ elim (Bool-cases (k.expired timeout e)) [
      | inl over ↦ rw got (rw over (same_chan-Inv s s.chan.chan i refl))
      | inr early ↦ rw got (rw early i)
    ]
  ]
