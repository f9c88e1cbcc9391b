-- ===== src/Blocking/Slot.antt =====
-- zephyr/src/blocking.rs: the slots, the data that a future shares with a worker, and where each
-- future and each worker stands.
use zephyr_lang_rust.Prelude.{ℕ, Bool, true, false, Option, List, [], ◌∷◌, ◌==◌, if◌then◌else◌}
use zephyr_lang_rust.Queue.{KQueue}

-- `enum SlotState`
pub data SlotState : Type 0 where
  free claimed queued done orphaned : SlotState

abbrev pub is_free : SlotState → Bool
is_free free = true
is_free _ = false

abbrev pub is_done : SlotState → Bool
is_done done = true
is_done _ = false

abbrev pub is_orphaned : SlotState → Bool
is_orphaned orphaned = true
is_orphaned _ = false

-- A set of wakers of the `embassy_sync` crate: `AtomicWaker` and `MultiWakerRegistration`.  Tasks
-- are numbers.  `register` and `wake` also return the tasks that they wake.
pub record WakerSet : Type 1 where
  pub Wakers : Type 0
  pub empty : Wakers
  pub register : Wakers → ℕ → Wakers × List ℕ
  pub wake : Wakers → Wakers × List ℕ

-- What the module takes from outside: the kernel's queues, the two kinds of waker sets, the number
-- of slots from Kconfig, and the value that the closure of each future returns.
pub record Env : Type 1 where
  pub kernel : KQueue
  pub atomic : WakerSet
  pub multi : WakerSet
  pub slot_count : ℕ
  pub outcome : ℕ → ℕ

-- Where a future stands, between two steps of `poll` and of `drop`.  Futures are numbers.
pub data FutPc : Type 0 where
  fresh : FutPc  -- no slot yet
  scanning : ℕ → FutPc  -- in `claim`, at this slot, with the lock of the waiters
  claimed : ℕ → FutPc  -- `claim` returned this slot
  wired : ℕ → FutPc  -- `shared` and `runner` are written
  begun : ℕ → FutPc  -- `STARTED` is set
  stored : ℕ → FutPc  -- the state is `Queued`
  waiting : ℕ → FutPc  -- `poll` returned `Pending`, with a slot
  checking : ℕ → FutPc  -- polled again, the waker is registered
  taking : ℕ → FutPc  -- the state was `Done`
  took : ℕ → ℕ → FutPc  -- the result is taken, the slot is to be released
  told : ℕ → FutPc  -- the slot is free, the waiters are to be woken
  ready : ℕ → FutPc  -- `poll` returned `Ready`
  cancelling : ℕ → FutPc  -- dropped, the slot was not in the queue
  giving : ℕ → FutPc  -- dropped, the slot is to be released
  telling : FutPc  -- dropped, the waiters are to be woken
  gone : FutPc  -- dropped, its memory is freed
  panicked : FutPc

-- Where a worker stands, between two steps of `worker` and `run_op`.
pub data WorkPc : Type 0 where
  idle : WorkPc  -- at `QUEUE.recv`
  got : ℕ → WorkPc  -- this slot was received
  starting : ℕ → ℕ → WorkPc  -- in `run_op`, instantiated for this future
  running : ℕ → ℕ → WorkPc  -- the operation is taken
  finished : ℕ → ℕ → ℕ → WorkPc  -- the operation returned this value
  waking : ℕ → WorkPc  -- the result is published
  releasing : ℕ → WorkPc  -- the slot is to be released
  notifying : WorkPc  -- the slot is free, the waiters are to be woken
  panicked : WorkPc
  corrupt : WorkPc  -- a read or write through a null, dangling or mistyped pointer

module _ (env : Env) where
  -- `struct Slot`; a pointer to a `Shared` is the number of its future, and a runner the number of
  -- the future for whose types it is instantiated.
  pub record Slot : Type 0 where
    pub state : SlotState
    pub shared : Option ℕ
    pub runner : Option ℕ
    pub waker : env.atomic.Wakers

  -- The statics `SLOT_POOL`, `QUEUE` and `STARTED`, and of each future the closure (`op`, until it
  -- is taken), the result, whether its memory is still there, and whether it was woken.
  pub record Mem : Type 0 where
    pub slots : ℕ → Slot
    pub waiters : env.multi.Wakers
    pub locked : Bool
    pub queue : env.kernel.Q
    pub started : Bool
    pub op : ℕ → Bool
    pub result : ℕ → Option ℕ
    pub alive : ℕ → Bool
    pub woken : ℕ → Bool

abbrev pub update {ℓ} : {A : Type ℓ} → (ℕ → A) → ℕ → A → ℕ → A
update g a v b = if a == b then v else g b

-- Each task of a list is woken.
unfoldable pub wake_all : List ℕ → (ℕ → Bool) → ℕ → Bool
wake_all [] woken = woken
wake_all (t ∷ ts) woken = wake_all ts (update woken t true)
