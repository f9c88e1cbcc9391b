-- ===== src/Lib.antt =====
-- The core of zephyr-lang-rust: Rust on the Zephyr kernel, and the build of its devicetree.
--
-- The parts and the files that model them:
--   Error          zephyr/src/error.rs: `to_result`, `to_result_void`
--   Time           zephyr/src/time.rs: `Timeout` and its `From` conversions, `checked_cast`
--   Queue          zephyr/src/sys/queue.rs: the kernel's queue, a record `KQueue` of the four calls and
--                  their documented laws, which Queue/Lists.antt meets with lists
--   Channel        zephyr/src/sync/channel.rs and channel/counter.rs: Bounded and Unbounded (the two
--                  flavours, on a `KQueue`, a whole call at a time), Bounded/Threads (the bounded one
--                  by any threads, an access at a time), Counter (the handles, their `Clone` and `Drop`)
--   Blocking       zephyr/src/blocking.rs: the pool of slots and workers for blocking calls.  `poll`
--                  and `drop` of a future (Future) and `worker` with `run_op` (Worker) go a shared
--                  access at a time; a run (System) is any list of choices of a thread, with any
--                  number of futures and workers
--   Printk         zephyr/src/printk.rs: the buffer before the console
--   Object         zephyr/src/object.rs: initialization on first use and `init_once`, by any threads,
--                  and the flag and constructor of zephyr/src/device.rs and device/gpio.rs
--   Simpletls      zephyr/src/simpletls.rs: the sorted vector of thread-local values
--   Gpio           zephyr/src/device/gpio.rs: the interrupt handler and `GpioWait`
--   Embassy        zephyr/src/embassy/time_driver.rs: the alarm of Embassy's time driver, on a record
--                  `TimerQueue` of what its queue is documented to do; zephyr/src/embassy/executor.rs:
--                  the loop of the executor, on a record `RawExecutor` (Executor)
--   Timer          zephyr/src/timer.rs: `SimpleTimer` (Simple) and `CallbackTimer` with its interrupt
--                  (Machine), on a record `KTimer` of the kernel's calls
--   Mutex          zephyr/src/sync/mutex.rs and sys/sync/mutex.rs: `Mutex`, its guard and
--                  `Condvar::wait` by any threads, an access at a time, on a record `KMutex`
--   Semaphore      zephyr/src/sys/sync/semaphore.rs: `new`, `take` and `give`, on a record `KSem`, which Semaphore/Pairs meets
--   I2c            zephyr/src/device/i2c/controller.rs: the messages of a transfer; target.rs: the
--                  trampolines and the registration of a target, on a record `Driver` (Target)
--   Work           zephyr/src/work.rs: submission and the references to a work item, on a record
--                  `KWork`; the builder of work queues and the queue of a thread (Queues)
--   Thread         zephyr/src/thread.rs: the pools of static threads, with the entry function that
--                  zephyr-macros/src/task.rs generates
--   Devicetree     zephyr-build/src/devicetree.rs with ordmap.rs (Ordmap), parse.rs (Parse, Walk),
--                  output.rs (Output) and augment.rs (Augment); Resolve has the references and parents,
--                  Query what a node is asked, Tokens the words of a property
--
-- How they interact: channels and the blocking pool call the queue, and give it timeouts; a channel is
-- valid while each of its slots is in one queue.  In the pool, futures and workers share the slots, the
-- queue and the futures' cells, and Blocking/Invariant says who holds what.  The mutex and the work
-- items read the kernel's codes by Error, and the queue of a thread is in a vector of Simpletls;
-- the executor sleeps on a semaphore, and an I2C target gives its errors to the driver as codes that
-- Error reads.  The devicetree is scanned, built, resolved and written in that order, with the code of
-- its augments.
--
-- Numbers are natural numbers, with the bounds of the machine's integers written out.  Each recursion
-- is structural, but for the loop of the alarm in Embassy, which has fuel: one round more than the
-- queue has entries, since each round that finds its time passed drops one.  Panics are values
-- (`Outcome`), as are calls that wait (`Call`).  Not modelled: the kernel itself and its bindings, the
-- rest of the macros, `reset` of a semaphore, the other devices, spin mutexes, signals,
-- `sys/thread.rs`, logging, and what the `pest`, `regex`, `quote`, `serde`, `fugit` and
-- `embassy_sync` crates do, which is an argument where it is used.  Atomics are single steps: weak
-- memory orders are not modelled.  Of the wakers only which tasks are woken is kept.
pub mod Prelude
pub mod Error
pub mod Time
pub mod Queue
pub mod Channel
pub mod Blocking
pub mod Printk
pub mod Object
pub mod Simpletls
pub mod Devicetree
pub mod Gpio
pub mod Embassy
pub mod Timer
pub mod Mutex
pub mod Work
pub mod Thread
pub mod Semaphore
pub mod I2c
mod Examples
