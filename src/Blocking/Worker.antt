-- ===== src/Blocking/Worker.antt =====
-- zephyr/src/blocking.rs: `worker` and `run_op`, a shared access at a time.
use zephyr_lang_rust.Prelude.{ℕ, Bool, false, Option, none, some, ◌==◌, ◌&&◌, if◌then◌else◌}
use zephyr_lang_rust.Prelude.Outcome.{done, waits, undefined}
use zephyr_lang_rust.Time.{from_forever}
use zephyr_lang_rust.Queue
use zephyr_lang_rust.Blocking.Slot.{SlotState, is_orphaned, Env, Mem, WorkPc, update, wake_all}
use zephyr_lang_rust.Blocking.Future.{set_state, release_wake}

module _ (env : Env) where
  abbrev Next : Type 0
  Next = Mem env × WorkPc

  -- The item as a slot; a null pointer would be dereferenced.
  unfoldable pub receive : Mem env → Option ℕ → Next
  receive m none = (m, WorkPc.corrupt)
  receive m (some s) = (m, WorkPc.got s)

  -- `QUEUE.recv(Forever)`, once the workers have been started.
  unfoldable pub recv_item : Mem env → Next
  unfolding receive
  recv_item m = elim (Queue.recv env.kernel m.queue from_forever 0) [
    | done item queue ↦ receive (record m { queue = queue }) item
    | waits ↦ (m, WorkPc.idle)
    | undefined ↦ (m, WorkPc.corrupt)
  ]

  -- `(*slot.runner.get()).expect(…)`
  unfoldable pub read_runner : Mem env → ℕ → Next
  read_runner m s = elim (m.slots s).runner [
    | none ↦ (m, WorkPc.panicked)
    | some f ↦ (m, WorkPc.starting s f)
  ]

  -- `&*(*slot.shared.get() as *const Shared<F, R>)` may be used: it points to a future that is
  -- there, of the types of the runner.
  unfoldable pub valid_shared : Mem env → ℕ → ℕ → Bool
  valid_shared m s f = elim (m.slots s).shared [ none ↦ false | some g ↦ m.alive g && g == f ]

  -- `run_op`, the first section under the slot's lock
  unfoldable pub take_op : Mem env → ℕ → ℕ → Next
  unfolding valid_shared
  take_op m s f =
      let m' = record m { op = update m.op f false } in
      if is_orphaned (m.slots s).state
      then (m, WorkPc.releasing s)
      else if valid_shared m s f
      then if m.op f then (m', WorkPc.running s f) else (m', WorkPc.releasing s)
      else (m, WorkPc.corrupt)

  -- `run_op`, the second section under the slot's lock
  unfoldable pub publish : Mem env → ℕ → ℕ → ℕ → Next
  unfolding valid_shared
  publish m s f r =
      if is_orphaned (m.slots s).state
      then (m, WorkPc.releasing s)
      else if valid_shared m s f
      then (
        record (set_state env m s SlotState.done) { result = update m.result f (some r) },
        WorkPc.waking s,
      )
      else (m, WorkPc.corrupt)

  -- `slot.waker.wake()`
  unfoldable pub wake_slot : Mem env → ℕ → Mem env
  unfolding wake_all
  wake_slot m s =
      let slot = m.slots s in
      let r = env.atomic.wake slot.waker in
      record m {
        slots = update m.slots s (record slot { waker = r.0 });
        woken = wake_all r.1 m.woken;
      }

  -- A step of a worker.
  unfoldable pub worker_step : Mem env → WorkPc → Next
  unfolding recv_item read_runner take_op publish wake_slot release_wake
  worker_step m WorkPc.idle = if m.started then recv_item m else (m, WorkPc.idle)
  worker_step m (WorkPc.got s) = read_runner m s
  worker_step m (WorkPc.starting s f) = take_op m s f
  worker_step m (WorkPc.running s f) = (m, WorkPc.finished s f (env.outcome f))
  worker_step m (WorkPc.finished s f r) = publish m s f r
  worker_step m (WorkPc.waking s) = (wake_slot m s, WorkPc.idle)
  worker_step m (WorkPc.releasing s) = (set_state env m s SlotState.free, WorkPc.notifying)
  worker_step m WorkPc.notifying = elim (release_wake env m) [
    | none ↦ (m, WorkPc.notifying)
    | some m' ↦ (m', WorkPc.idle)
  ]
  worker_step m WorkPc.panicked = (m, WorkPc.panicked)
  worker_step m WorkPc.corrupt = (m, WorkPc.corrupt)
