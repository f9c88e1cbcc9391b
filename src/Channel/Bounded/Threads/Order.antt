-- ===== src/Channel/Bounded/Threads/Order.antt =====
-- Whatever threads do on a bounded channel, the messages come out in the order in which they went in.
use zephyr_lang_rust.Prelude.{ℕ, ◌≡◌, refl, false, List, [], ◌∷◌, ◌++◌, arith}
use zephyr_lang_rust.Time.{Timeout}
use zephyr_lang_rust.Queue.{KQueue}
use zephyr_lang_rust.Channel.Bounded.Valid.{payloads, bounded_new-IsValid, messages-bounded_new}
use zephyr_lang_rust.Channel.Bounded.Threads.{
  Pc, idle, filling, filled, emptying, emptied, Act, sends, receives, goes_on, Threads, start,
  go_on, begin_send, begin_receive, step, run,
}
use zephyr_lang_rust.Channel.Bounded.Threads.Held.{Inv, Returns, Fits-Returns}
use zephyr_lang_rust.Channel.Bounded.Threads.Moves.{
  write-Inv, append-Inv, read-Inv, give_back-Inv, send-Inv, receive-Inv,
}

module _ (k : KQueue) (T : Type 0) where
  go_on-Inv :
      (p : Pc T) (s : Threads k T) (t : ℕ) → s.pc t ≡ p → Inv k T s → Inv k T (go_on k T p s t)
  go_on-Inv idle s t e i = unfold go_on in i
  go_on-Inv (filling a msg) s t e i = write-Inv k T s t a msg i e
  go_on-Inv (filled a msg) s t e i = append-Inv k T s t a msg i e
  go_on-Inv (emptying a v) s t e i = read-Inv k T s t a v i e
  go_on-Inv (emptied a v w) s t e i = give_back-Inv k T s t a v w i e

  begin_send-Inv :
      (p : Pc T) (s : Threads k T) (t : ℕ) (msg : T) (timeout : Timeout) (e : ℕ)
      → Inv k T s
      → Inv k T (begin_send k T p s t msg timeout e)
  unfolding begin_send
  begin_send-Inv idle s t msg timeout e i = send-Inv k T s t msg timeout e i
  begin_send-Inv (filling a m) s t msg timeout e i = i
  begin_send-Inv (filled a m) s t msg timeout e i = i
  begin_send-Inv (emptying a v) s t msg timeout e i = i
  begin_send-Inv (emptied a v w) s t msg timeout e i = i

  begin_receive-Inv :
      (p : Pc T) (s : Threads k T) (t : ℕ) (timeout : Timeout) (e : ℕ)
      → Inv k T s
      → Inv k T (begin_receive k T p s t timeout e)
  unfolding begin_receive
  begin_receive-Inv idle s t timeout e i = receive-Inv k T s t timeout e i
  begin_receive-Inv (filling a m) s t timeout e i = i
  begin_receive-Inv (filled a m) s t timeout e i = i
  begin_receive-Inv (emptying a v) s t timeout e i = i
  begin_receive-Inv (emptied a v w) s t timeout e i = i

  run-Inv : (s : Threads k T) (acts : List (ℕ × Act T)) → Inv k T s → Inv k T (run k T s acts)
  unfolding run step
  run-Inv s [] i = i
  run-Inv s ((t, sends msg timeout e) ∷ acts) i =
      run-Inv (begin_send k T (s.pc t) s t msg timeout e) acts
        (begin_send-Inv (s.pc t) s t msg timeout e i)
  run-Inv s ((t, receives timeout e) ∷ acts) i =
      run-Inv (begin_receive k T (s.pc t) s t timeout e) acts
        (begin_receive-Inv (s.pc t) s t timeout e i)
  run-Inv s ((t, goes_on) ∷ acts) i =
      run-Inv (go_on k T (s.pc t) s t) acts (go_on-Inv (s.pc t) s t refl i)

  start-Inv : (cap : ℕ) → Inv k T (start k T cap)
  start-Inv cap =
      let v = bounded_new-IsValid k {T = T} cap in
      record {
        once = λ a. ground (arith, v.placed a);
        away = λ t a h. absurd (cc);
        alone = λ t u a h g. absurd (cc);
        written = v.written;
        fits = λ t. tt;
        fifo = messages-bounded_new k cap;
        no_fault = refl;
      }

  -- However threads send and receive on a new bounded channel, and wherever they come between one
  -- another's calls of its two queues and accesses of its slots: no slot is read that was not written;
  -- the messages taken from the queue, in order, and then those that it holds are the messages that
  -- were put into it, in order; and what a thread reads from its slot is the message that it took.
  pub run-fifo :
      (cap : ℕ) (acts : List (ℕ × Act T)) (t : ℕ)
      → let s = run k T (start k T cap) acts in
        (s.fault ≡ false)
        × (s.got ++ payloads s.chan.slots (k.items s.chan.chan) ≡ s.sent)
        × Returns (s.pc t)
  run-fifo cap acts t =
      let s = run k T (start k T cap) acts in
      let i = run-Inv (start k T cap) acts (start-Inv cap) in
      (i.no_fault, i.fifo, Fits-Returns s.chan.slots (s.pc t) (i.fits t))
