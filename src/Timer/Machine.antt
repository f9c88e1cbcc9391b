-- ===== src/Timer/Machine.antt =====
-- zephyr/src/timer.rs: a timer, its owner and its interrupt.  The interrupt may come between any two
-- accesses of the timer, so a call of `CallbackTimer` is a step for each of them.  A box of a
-- `CallbackTimer` is a number, the address of its `expiry`; a callback with its data is a number too.
use zephyr_lang_rust.Prelude.{
  ℕ, suc, Bool, true, false, Option, none, some, List, [], ◌∷◌, ◌==◌, if◌then◌else◌,
}
use zephyr_lang_rust.Prelude.Outcome.{Outcome, ret, panic}
use zephyr_lang_rust.Time.{Timeout, k_no_wait}
use zephyr_lang_rust.Timer.{KTimer, Timer, new, k_start, k_stop}
use zephyr_lang_rust.Timer.Simple

-- Who has the timer, and how far the owner is in a call.
pub data Pc : Type 0 where
  stopped : Pc  -- a `StoppedTimer`
  simple : Pc  -- a `SimpleTimer`
  pinned : ℕ → Pc  -- in `CallbackTimer::new`, the box allocated
  with_expiry : ℕ → Pc  -- `expiry_fn` set
  with_data : ℕ → Pc  -- the user data set
  callback : ℕ → Pc  -- a `CallbackTimer` in its box
  halted : ℕ → Bool → Pc  -- in `raw_stop` of `stop` (true) or `drop`, the timer stopped
  cleared : ℕ → Bool → Pc  -- `expiry_fn` cleared
  gone : Pc  -- dropped

-- What a program does next, or the interrupt of the timer.
pub data Choice : Type 0 where
  start_simple : Timeout → Timeout → Choice
  start_callback : ℕ → Timeout → Timeout → Choice
  restart : Timeout → Timeout → Choice
  read_count : Choice
  read_count_wait : Choice
  stop : Choice
  drop : Choice
  go_on : Choice
  expires : Choice

abbrev pub put : (ℕ → Option ℕ) → ℕ → Option ℕ → ℕ → Option ℕ
put box b v c = if c == b then v else box c

module _ (k : KTimer) where
  -- The timer, whether the owner's `item` is there, the owner, the boxes that are allocated with their callbacks, the number of the next
  -- one, the timeouts of the call of `start_callback`, which callbacks have been run, the latest first,
  -- and whether freed memory was read or a call has panicked.
  pub record World : Type 0 where
    pub timer : Timer k
    pub item : Bool
    pub pc : Pc
    pub box : ℕ → Option ℕ
    pub next : ℕ
    pub delay : Timeout
    pub period : Timeout
    pub ran : List ℕ
    pub fault : Bool

  unfoldable pub begin : World
  begin = record {
    timer = new k;
    item = true;
    pc = stopped;
    box = λ b. none;
    next = 0;
    delay = k_no_wait;
    period = k_no_wait;
    ran = [];
    fault = false;
  }

  -- `timer_expiry`, which runs the callback that the user data points to
  unfoldable pub timer_expiry : World → World
  timer_expiry w = elim w.timer.user_data [
    | none ↦ w
    | some b ↦ elim (w.box b) [
      | none ↦ record w { fault = true }
      | some call ↦ record w { ran = call ∷ w.ran }
    ]
  ]

  -- The timer expires: the kernel counts it and calls `expiry_fn`.
  unfoldable pub expire : World → World
  unfolding timer_expiry
  expire w =
      if k.running w.timer.kernel
      then (if w.timer.expiry_fn
          then timer_expiry
              (record w { timer = record w.timer { kernel = k.expires w.timer.kernel } })
          else record w { timer = record w.timer { kernel = k.expires w.timer.kernel } })
      else w

  -- `item_ptr` of a `CallbackTimer`, with what is done at the timer that it gives
  abbrev pub at_item : World → World → World
  at_item w next = if w.item then next else record w { fault = true }

  -- `CallbackTimer::new` by its accesses, which takes `item_ptr` at the first; `raw_stop` after the
  -- timer is stopped; and the end of `stop` and `drop`, at which the box is freed.  The drop that ends
  -- `stop` finds no `item`.
  unfoldable pub resume : Pc → World → World
  resume (pinned b) w =
      at_item w (record w { timer = record w.timer { expiry_fn = true }; pc = with_expiry b })
  resume (with_expiry b) w = record w {
    timer = record w.timer { user_data = some b };
    pc = with_data b;
  }
  resume (with_data b) w = record w { timer = k_start k w.timer w.delay w.period; pc = callback b }
  resume (halted b keep) w = record w {
    timer = record w.timer { expiry_fn = false };
    pc = cleared b keep;
  }
  resume (cleared b keep) w = record w {
    box = put w.box b none;
    pc = if keep then stopped else gone;
  }
  resume _ w = w

  -- What a call leaves of a `SimpleTimer`.
  abbrev pub after_simple : World → Outcome (Simple.SimpleTimer k) → World
  after_simple w (ret s) = record w { timer = s.timer; item = s.item }
  after_simple w panic = record w { fault = true }

  -- A call on a `SimpleTimer`.
  abbrev pub on_simple : Pc → World → Outcome (Simple.SimpleTimer k) → World
  on_simple simple w o = after_simple w o
  on_simple _ w o = w

  abbrev pub timer_read : Outcome (ℕ × Simple.SimpleTimer k) → Outcome (Simple.SimpleTimer k)
  timer_read (ret (n, s)) = ret s
  timer_read panic = panic

  -- A call that still waits has changed nothing yet.
  abbrev pub timer_waited :
      Simple.SimpleTimer k
      → Outcome (Option (ℕ × Simple.SimpleTimer k))
      → Outcome (Simple.SimpleTimer k)
  timer_waited s (ret (some (n, s'))) = ret s'
  timer_waited s (ret none) = ret s
  timer_waited s panic = panic

  -- The `SimpleTimer` that the owner has.
  abbrev pub as_simple : World → Simple.SimpleTimer k
  as_simple w = record { timer = w.timer; item = w.item }

  -- `SimpleTimer::stop`, which gives the timer back, and its drop
  abbrev pub simple_stopped : World → Outcome (Timer k) → World
  simple_stopped w (ret t) = record w { timer = t; pc = stopped }
  simple_stopped w panic = record w { fault = true }

  unfoldable pub begin_simple : Pc → World → Timeout → Timeout → World
  begin_simple stopped w delay period = record w {
    timer = (Simple.start k w.timer delay period).timer;
    item = (Simple.start k w.timer delay period).item;
    pc = simple;
  }
  begin_simple _ w delay period = w

  unfoldable pub begin_callback : Pc → World → ℕ → Timeout → Timeout → World
  begin_callback stopped w call delay period = record w {
    item = true;
    pc = pinned w.next;
    box = put w.box w.next (some call);
    next = suc w.next;
    delay = delay;
    period = period;
  }
  begin_callback _ w call delay period = w

  -- `stop` and `drop`: of a `CallbackTimer`, `raw_stop` up to the stop of the timer that it has taken
  unfoldable pub begin_stop : Pc → World → World
  begin_stop (callback b) w =
      if w.item
      then record w { timer = k_stop k w.timer; item = false; pc = halted b true }
      else record w { fault = true }
  begin_stop simple w = simple_stopped w (Simple.stop k (as_simple w))
  begin_stop _ w = w

  unfoldable pub begin_drop : Pc → World → World
  begin_drop stopped w = record w { pc = gone }
  begin_drop (callback b) w =
      if w.item
      then record w { timer = k_stop k w.timer; item = false; pc = halted b false }
      else record w { box = put w.box b none; pc = gone }
  begin_drop simple w = record w { timer = Simple.drop k (as_simple w); pc = gone }
  begin_drop _ w = w

  -- A call that the owner cannot make changes nothing.
  unfoldable pub step : Choice → World → World
  unfolding expire resume begin_simple begin_callback begin_stop begin_drop
  step (start_simple delay period) w = begin_simple w.pc w delay period
  step (start_callback call delay period) w = begin_callback w.pc w call delay period
  step (restart delay period) w = on_simple w.pc w (Simple.restart k (as_simple w) delay period)
  step read_count w = on_simple w.pc w (timer_read (Simple.read_count k (as_simple w)))
  step read_count_wait w =
      on_simple w.pc w (timer_waited (as_simple w) (Simple.read_count_wait k (as_simple w)))
  step stop w = begin_stop w.pc w
  step drop w = begin_drop w.pc w
  step go_on w = resume w.pc w
  step expires w = expire w

  unfoldable pub run : List Choice → World → World
  unfolding step
  run [] w = w
  run (c ∷ cs) w = run cs (step c w)
