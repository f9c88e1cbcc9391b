-- ===== src/Embassy.antt =====
-- zephyr/src/embassy/time_driver.rs: the alarm of Embassy's time driver.  `Queue` of the crate
-- `embassy_time_queue_utils` is the parameter `TimerQueue`, with what that crate documents of it.  The
-- critical section makes each call one step.  The clock is read many times in a call: `now i` is its
-- reading number `i`.  `checks` says whether overflow of arithmetic is checked.
pub mod Alarm
pub mod Target
pub mod Executor
pub mod Polled
mod Examples
use zephyr_lang_rust.Prelude.{
  ℕ, zero, suc, ◌+◌, ◌-◌, ◌^◌, ◌≡◌, Bool, true, false, Option, none, some, List, [], ◌∷◌, ltb, leb,
  if◌then◌else◌,
}
use zephyr_lang_rust.Prelude.Int.{ℤ, pos, negsuc}
use zephyr_lang_rust.Prelude.Outcome.{Outcome, ret, panic, ◌>>=◌}
use zephyr_lang_rust.Time.{Timeout, k_forever}

-- `u64::MAX`
abbrev pub u64_max : ℕ
u64_max = 2 ^ 64 - 1

-- The entries, each a time and a waker, that expire after a time, and the first time of all.
abbrev pub later : ℕ → List (ℕ × ℕ) → List (ℕ × ℕ)
later now [] = []
later now ((at, waker) ∷ es) =
    let rest = later now es in if leb at now then rest else (at, waker) ∷ rest

abbrev pub earliest : List (ℕ × ℕ) → ℕ
earliest [] = u64_max
earliest ((at, waker) ∷ es) = let rest = earliest es in if ltb at rest then at else rest

-- `next_expiration` wakes and drops what has expired, and gives the first time that is left;
-- `schedule_wake` says whether it has changed anything.
pub record TimerQueue : Type 1 where
  pub Q : Type 0
  pub entries : Q → List (ℕ × ℕ)
  pub schedule_wake : Q → ℕ → ℕ → Q × Bool
  pub next_expiration : Q → ℕ → Q × ℕ
  pub schedule_same :
      (q : Q) (at waker : ℕ)
      → (schedule_wake q at waker).1 ≡ false
      → entries (schedule_wake q at waker).0 ≡ entries q
  pub expiration_kept :
      (q : Q) (now : ℕ) → entries (next_expiration q now).0 ≡ later now (entries q)
  pub expiration_first :
      (q : Q) (now : ℕ) → (next_expiration q now).1 ≡ earliest (later now (entries q))

-- A call of the kernel's timer.
pub data TimerCall : Type 0 where
  init : TimerCall
  start : Timeout → Timeout → TimerCall

-- `struct ZTimer`, with the calls of its `k_timer`, the latest first.
pub record ZTimer : Type 0 where
  pub initialized : Bool
  pub calls : List TimerCall

-- `x as i64`
unfoldable pub as_i64 : ℕ → ℤ
as_i64 x = if ltb x (2 ^ 63) then pos x else negsuc (2 ^ 64 - 1 - x)

-- `next - now + 1` on a `u64`, where `now` is before `next`
unfoldable pub delta : Bool → ℕ → ℕ → Outcome ℕ
delta checks next now =
    if ltb (next - now) u64_max then ret (next - now + 1) else if checks then panic else ret 0

unfoldable pub initialize : ZTimer → ZTimer
initialize z = if z.initialized then z else record { initialized = true; calls = init ∷ z.calls }

unfoldable pub set_alarm : Bool → ZTimer → ℕ → ℕ → Outcome (ZTimer × Bool)
unfolding initialize delta
set_alarm checks z next now = if leb next now then ret (z, false) else do
  let z' = initialize z
  d ← delta checks next now
  ret (record z' { calls = start (record { ticks = as_i64 d }) k_forever ∷ z'.calls }, true)

module _ (k : TimerQueue) (checks : Bool) (now : ℕ → ℕ) where
  -- `struct ZephyrTimeDriver`, and how often the clock has been read.
  pub record Driver : Type 0 where
    pub queue : k.Q
    pub timer : ZTimer
    pub reads : ℕ

  -- `queue.next_expiration(self.now())`
  unfoldable pub expire : Driver → Driver × ℕ
  expire d =
      let (q, next) = k.next_expiration d.queue (now d.reads) in
      (record d { queue = q; reads = suc d.reads }, next)

  -- `while !timer.set_alarm(next, self.now())`, on fuel: `none` is out of fuel.
  unfoldable pub alarm_loop : ℕ → Driver → ℕ → Outcome (Option Driver)
  unfolding set_alarm expire
  alarm_loop zero d next = ret none
  alarm_loop (suc fuel) d next = set_alarm checks d.timer next (now d.reads) >>= λ (z, set).
      let (d', next') = expire (record d { timer = z; reads = suc d.reads }) in
      let rest = alarm_loop fuel d' next' in
      if set then ret (some (record d { timer = z; reads = suc d.reads })) else rest

  unfoldable pub check_alarm : ℕ → Driver → Outcome (Option Driver)
  unfolding alarm_loop expire
  check_alarm fuel d = let (d', next) = expire d in alarm_loop fuel d' next

  -- `Driver::schedule_wake`
  unfoldable pub schedule_wake : ℕ → Driver → ℕ → ℕ → Outcome (Option Driver)
  unfolding check_alarm
  schedule_wake fuel d at waker =
      let (q, changed) = k.schedule_wake d.queue at waker in
      if changed
      then check_alarm fuel (record d { queue = q })
      else ret (some (record d { queue = q }))
