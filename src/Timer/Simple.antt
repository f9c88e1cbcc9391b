-- ===== src/Timer/Simple.antt =====
-- zephyr/src/timer.rs: `SimpleTimer`, a running timer without a callback.  `item` is there until the
-- timer is stopped.
use zephyr_lang_rust.Prelude.{ℕ, Bool, true, false, Option, none, some, if◌then◌else◌}
use zephyr_lang_rust.Prelude.Outcome.{Outcome, ret, panic, Call, done}
use zephyr_lang_rust.Time.{Timeout}
use zephyr_lang_rust.Timer.{KTimer, Timer, k_start, k_stop}

module _ (k : KTimer) where
  -- `struct SimpleTimer`, on the timer that its `item` is: whether `item` is there.
  pub record SimpleTimer : Type 0 where
    pub timer : Timer k
    pub item : Bool

  -- `start_simple` and `restart`
  unfoldable pub start : Timer k → Timeout → Timeout → SimpleTimer
  start t delay period = record { timer = k_start k t delay period; item = true }

  -- `item_ptr`, with a call on the timer that it gives
  abbrev pub on_item {ℓ} : {A : Type ℓ} → SimpleTimer → A → Outcome A
  on_item s a = if s.item then ret a else panic

  unfoldable pub restart : SimpleTimer → Timeout → Timeout → Outcome SimpleTimer
  restart s delay period = on_item s (record s { timer = k_start k s.timer delay period })

  unfoldable pub read_count : SimpleTimer → Outcome (ℕ × SimpleTimer)
  read_count s =
      let (n, kernel) = k.k_timer_status_get s.timer.kernel in
      on_item s (n, record s { timer = record s.timer { kernel = kernel } })

  abbrev pub waited : SimpleTimer → Call ℕ k.K → Outcome (Option (ℕ × SimpleTimer))
  waited s (done n kernel) = ret (some (n, record s { timer = record s.timer { kernel = kernel } }))
  waited s other = ret none

  -- `none` is a call that still waits.
  unfoldable pub read_count_wait : SimpleTimer → Outcome (Option (ℕ × SimpleTimer))
  read_count_wait s = if s.item then waited s (k.k_timer_status_sync s.timer.kernel) else panic

  -- `raw_stop`: what `item` was is returned
  unfoldable pub raw_stop : SimpleTimer → SimpleTimer × Bool
  raw_stop s =
      if s.item then (record { timer = k_stop k s.timer; item = false }, true) else (s, false)

  -- `drop`
  abbrev pub drop : SimpleTimer → Timer k
  unfolding raw_stop
  drop s = (raw_stop s).0.timer

  -- `stop`, at whose end the timer itself is dropped
  unfoldable pub stop : SimpleTimer → Outcome (Timer k)
  unfolding raw_stop
  stop s = let (s', item) = raw_stop s in if item then ret (drop s') else panic
