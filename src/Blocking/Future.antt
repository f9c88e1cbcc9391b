-- ===== src/Blocking/Future.antt =====
-- zephyr/src/blocking.rs: `SlotPool::claim` and `release`, `poll` and `drop` of `BlockingFuture`,
-- and `start_workers_once`, a shared access at a time.
use zephyr_lang_rust.Prelude.{ℕ, ◌+◌, true, false, Option, none, some, ltb, if◌then◌else◌}
use zephyr_lang_rust.Queue
use zephyr_lang_rust.Blocking.Slot.{SlotState, is_free, is_done, Env, Mem, FutPc, update, wake_all}

-- What is done with a future: its task polls it, or drops it.  A poll or a drop that has begun goes
-- on with either.
pub data Act : Type 0 where
  poll drop : Act

module _ (env : Env) where
  abbrev Next : Type 0
  Next = Mem env × FutPc

  abbrev pub set_state : Mem env → ℕ → SlotState → Mem env
  set_state m s st = record m {
    slots = update m.slots s (let slot = m.slots s in record slot { state = st });
  }

  -- `slot.waker.register`
  unfoldable pub register_waker : Mem env → ℕ → ℕ → Mem env
  unfolding wake_all
  register_waker m s f =
      let slot = m.slots s in
      let r = env.atomic.register slot.waker f in
      record m {
        slots = update m.slots s (record slot { waker = r.0 });
        woken = wake_all r.1 m.woken;
      }

  -- One turn of `claim`, with the lock of the waiters held: try slot `i`, or, at the end of the
  -- slots, register the waker.
  unfoldable pub claim_step : Mem env → ℕ → ℕ → Next
  claim_step m f i =
      let r = env.multi.register m.waiters f in
      if ltb i env.slot_count
      then if is_free (m.slots i).state
        then (record (set_state m i SlotState.claimed) { locked = false }, FutPc.claimed i)
        else (m, FutPc.scanning (i + 1))
      else (record m { waiters = r.0; woken = wake_all r.1 m.woken; locked = false }, FutPc.fresh)

  -- The second half of `release`: wake the waiters, when their lock is free.
  unfoldable pub release_wake : Mem env → Option (Mem env)
  release_wake m =
      let r = env.multi.wake m.waiters in
      if m.locked then none else some (record m { waiters = r.0; woken = wake_all r.1 m.woken })

  -- `*slot.shared.get() = …; *slot.runner.get() = …`, after the waker is registered
  unfoldable pub wire : Mem env → ℕ → ℕ → Mem env
  unfolding register_waker
  wire m f s =
      let m' = register_waker m s f in
      let slot = m'.slots s in
      record m' { slots = update m'.slots s (record slot { shared = some f; runner = some f }) }

  -- `poll` takes the result of a slot that is `Done`, and panics if there is none.
  unfoldable pub take_result : Mem env → ℕ → ℕ → Next
  take_result m f s = elim (m.result f) [
    | none ↦ (m, FutPc.panicked)
    | some r ↦ (record m { result = update m.result f none }, FutPc.took s r)
  ]

  unfoldable pub free_future : Mem env → ℕ → Mem env
  free_future m f = record m { alive = update m.alive f false }

  -- `cancel`: out of the queue, if no worker has received the slot
  unfoldable pub cancel_queued : Mem env → ℕ → Next
  cancel_queued m s =
      let r = Queue.remove env.kernel m.queue s in
      let m' = record m { queue = r.1 } in
      if r.0 then (m', FutPc.giving s) else (m', FutPc.cancelling s)

  -- `cancel`, the section under the slot's lock
  unfoldable pub cancel_locked : Mem env → ℕ → ℕ → Next
  unfolding free_future
  cancel_locked m f s =
      let slot = m.slots s in
      if is_done slot.state then (m, FutPc.giving s) else (
        free_future
            (record m {
              slots = update m.slots s (record slot { shared = none; state = SlotState.orphaned });
            })
            f,
        FutPc.gone,
      )

  -- A step of future `f`.
  unfoldable pub future_step : Mem env → ℕ → FutPc → Act → Next
  unfolding claim_step wire take_result cancel_queued cancel_locked release_wake free_future
      register_waker
  future_step m f FutPc.fresh poll =
      if m.locked
      then (m, FutPc.fresh)
      else (record m { locked = true; woken = update m.woken f false }, FutPc.scanning 0)
  future_step m f FutPc.fresh drop = (free_future m f, FutPc.gone)
  future_step m f (FutPc.scanning i) a = claim_step m f i
  future_step m f (FutPc.claimed s) a = (wire m f s, FutPc.wired s)
  future_step m f (FutPc.wired s) a = (record m { started = true }, FutPc.begun s)
  future_step m f (FutPc.begun s) a = (set_state m s SlotState.queued, FutPc.stored s)
  future_step m f (FutPc.stored s) a =
      (record m { queue = Queue.send env.kernel m.queue s }, FutPc.waiting s)
  future_step m f (FutPc.waiting s) poll =
      (register_waker (record m { woken = update m.woken f false }) s f, FutPc.checking s)
  future_step m f (FutPc.waiting s) drop = cancel_queued m s
  future_step m f (FutPc.checking s) a =
      if is_done (m.slots s).state then (m, FutPc.taking s) else (m, FutPc.waiting s)
  future_step m f (FutPc.taking s) a = take_result m f s
  future_step m f (FutPc.took s r) a = (set_state m s SlotState.free, FutPc.told r)
  future_step m f (FutPc.told r) a = elim (release_wake m) [
    | none ↦ (m, FutPc.told r)
    | some m' ↦ (m', FutPc.ready r)
  ]
  future_step m f (FutPc.ready r) poll = (m, FutPc.ready r)
  future_step m f (FutPc.ready r) drop = (free_future m f, FutPc.gone)
  future_step m f (FutPc.cancelling s) a = cancel_locked m f s
  future_step m f (FutPc.giving s) a = (set_state m s SlotState.free, FutPc.telling)
  future_step m f FutPc.telling a = elim (release_wake m) [
    | none ↦ (m, FutPc.telling)
    | some m' ↦ (free_future m' f, FutPc.gone)
  ]
  future_step m f FutPc.gone a = (m, FutPc.gone)
  future_step m f FutPc.panicked a = (m, FutPc.panicked)
