-- ===== src/I2c/Target.antt =====
-- zephyr/src/device/i2c/target.rs: an `I2cTargetData`, its trampolines, and threads that register and
-- unregister it, a shared access at a time.  A device is a number, and an address is one, zero where
-- none is.  The driver's two calls and where it has the target are the parameter `Driver`, with what
-- Zephyr documents of them.  `checks` is as in `Error`.
pub mod Codes
pub mod Owned
pub mod Registered
mod Examples
use zephyr_lang_rust.Prelude.{
  ℕ, ◌-◌, ◌+◌, ◌^◌, ◌≡◌, Bool, true, false, Option, none, some, List, [], ◌∷◌, ltb, ◌==◌,
  if◌then◌else◌,
}
use zephyr_lang_rust.Prelude.Int.{ℤ, pos, negsuc}
use zephyr_lang_rust.Prelude.Outcome.{Outcome, ret, panic, ◌>>=◌, Result, ok, err}
use zephyr_lang_rust.Error.{Error, c_int_bound, to_result_void}

-- `e.0 as c_int`, of a `u32`
unfoldable pub as_c_int : ℕ → ℤ
as_c_int e = if ltb e c_int_bound then pos e else negsuc (2 ^ 32 - 1 - e)

-- `-code` of a `c_int`
unfoldable pub negate : Bool → ℤ → Outcome ℤ
negate checks (pos n) = ret (if n == 0 then pos 0 else negsuc (n - 1))
negate checks (negsuc n) =
    if ltb (n + 1) c_int_bound then ret (pos (n + 1)) else if checks then panic else ret (negsuc n)

-- `I2cTargetCallbacks`, of a state that its own locks guard; a call returns its result and the state
pub record I2cTargetCallbacks (T : Type 0) : Type 0 where
  pub write_requested : T → Result (Unit {0}) Error × T
  pub write_received : T → ℕ → Result (Unit {0}) Error × T
  pub read_requested : T → Result ℕ Error × T
  pub read_processed : T → Result ℕ Error × T
  pub stop : T → Result (Unit {0}) Error × T

-- The methods that the trait provides.
unfoldable pub provided : {T : Type 0} → I2cTargetCallbacks T
provided = record {
  write_requested = λ t. (ok tt, t);
  write_received = λ t val. (ok tt, t);
  read_requested = λ t. (ok 0, t);
  read_processed = λ t. (ok 0, t);
  stop = λ t. (ok tt, t);
}

-- The C functions that the driver is given.
pub data Trampoline : Type 0 where
  on_write_requested on_read_requested on_write_received on_read_processed on_stop : Trampoline

-- The code of a callback's result
unfoldable pub code_of_void : Bool → Result (Unit {0}) Error → Outcome ℤ
unfolding as_c_int negate
code_of_void checks (ok _) = ret (pos 0)
code_of_void checks (err e) = negate checks (as_c_int e.errno)

-- The code of the result of a read, and what `*val` is after it
unfoldable pub code_of_byte : Bool → Result ℕ Error → ℕ → Outcome (ℤ × ℕ)
unfolding as_c_int negate
code_of_byte checks (ok byte) val = ret (pos 0, byte)
code_of_byte checks (err e) val = negate checks (as_c_int e.errno) >>= λ c. ret (c, val)

-- What a trampoline returns, what its `val` is after it, and the state that it leaves.  The ones for
-- a write and for a stop leave `val` as it is.
unfoldable pub trampoline :
    {T : Type 0} → I2cTargetCallbacks T → Bool → Trampoline → T → ℕ → Outcome (ℤ × ℕ) × T
unfolding code_of_void code_of_byte
trampoline cb checks on_write_requested t val =
    let (r, t') = cb.write_requested t in (code_of_void checks r >>= λ c. ret (c, val), t')
trampoline cb checks on_write_received t val =
    let (r, t') = cb.write_received t val in (code_of_void checks r >>= λ c. ret (c, val), t')
trampoline cb checks on_read_requested t val =
    let (r, t') = cb.read_requested t in (code_of_byte checks r val, t')
trampoline cb checks on_read_processed t val =
    let (r, t') = cb.read_processed t in (code_of_byte checks r val, t')
trampoline cb checks on_stop t val =
    let (r, t') = cb.stop t in (code_of_void checks r >>= λ c. ret (c, val), t')

-- `i2c_target_callbacks`
pub record Callbacks : Type 0 where
  pub write_requested : Option Trampoline
  pub read_requested : Option Trampoline
  pub write_received : Option Trampoline
  pub read_processed : Option Trampoline
  pub stop : Option Trampoline

-- `i2c_target_config` without its list node
pub record Config : Type 0 where
  pub flags : ℕ
  pub address : ℕ
  pub callbacks : ℕ

-- The driver of a bus: the devices on which it has the target, the last registered first.
pub record Driver : Type 1 where
  pub B : Type 0
  pub on : B → List ℕ
  pub idle_bus : B
  pub i2c_target_register : B → ℕ → ℤ × B
  pub i2c_target_unregister : B → ℕ → ℤ × B
  pub idle_on : on idle_bus ≡ []
  pub register_ok : (b b' : B) (d n : ℕ) → i2c_target_register b d ≡ (pos n, b') → on b' ≡ d ∷ on b
  pub register_err : (b b' : B) (d n : ℕ) → i2c_target_register b d ≡ (negsuc n, b') → on b' ≡ on b
  pub unregister_ok :
      (b b' : B) (d n : ℕ) (l : List ℕ)
      → on b ≡ d ∷ l
      → i2c_target_unregister b d ≡ (pos n, b')
      → on b' ≡ l
  pub unregister_err :
      (b b' : B) (d n : ℕ) → i2c_target_unregister b d ≡ (negsuc n, b') → on b' ≡ on b

-- Where a call of `register`, and the handle that it returns, stand.
pub data Pc : Type 0 where
  idle : Pc
  busy : Pc  -- `EBUSY` is returned
  claimed : ℕ → Pc  -- the swap has found `registered` clear
  written : ℕ → Pc  -- the callbacks are written
  linked : ℕ → Pc  -- the config is written
  failed : Pc  -- `i2c_target_register` has failed
  handle : ℕ → Pc  -- an `I2cTarget` of a device
  removed : Pc  -- in `unregister`, `i2c_target_unregister` has succeeded
  lost : Pc  -- `unregister` has returned an error, its handle gone, or a negation has panicked

-- A call, or the next access of the call that a thread is in.
pub data Act : Type 0 where
  registers : ℕ → Act
  goes_on : Act

abbrev pub at : {A : Type 0} → (ℕ → A) → ℕ → A → ℕ → A
at f t a u = if u == t then a else f u

unfoldable pub trampolines : Callbacks
trampolines = record {
  write_requested = some on_write_requested;
  read_requested = some on_read_requested;
  write_received = some on_write_received;
  read_processed = some on_read_processed;
  stop = some on_stop;
}

module _ (k : Driver) (checks : Bool) (cbs_addr : ℕ) where
  -- `struct I2cTargetData<T>` without its data, the bus, and where the threads stand
  pub record Target : Type 0 where
    pub config : Config
    pub cbs : Callbacks
    pub registered : Bool
    pub bus : k.B
    pub pc : ℕ → Pc

  -- `I2cTargetData::new`
  unfoldable pub new : ℕ → Target
  new address = record {
    config = record { flags = 0; address = address; callbacks = 0 };
    cbs = record {
      write_requested = none;
      read_requested = none;
      write_received = none;
      read_processed = none;
      stop = none;
    };
    registered = false;
    bus = k.idle_bus;
    pc = λ t. idle;
  }

  -- The places after a call of the driver that succeeded, that failed and that panicked.
  abbrev pub after : Target → ℕ → Outcome (Result (Unit {0}) Error) → k.B → Pc → Pc → Target
  after s t (ret (ok _)) b won fell = record s { bus = b; pc = at s.pc t won }
  after s t (ret (err _)) b won fell = record s { bus = b; pc = at s.pc t fell }
  after s t panic b won fell = record s { bus = b; pc = at s.pc t lost }

  -- `register`, its swap of `registered`
  unfoldable pub begin_register : Pc → Target → ℕ → ℕ → Target
  begin_register idle s t d = record s {
    registered = true;
    pc = at s.pc t (if s.registered then busy else claimed d);
  }
  begin_register _ s t d = s

  -- `unregister`
  unfoldable pub unregister : Pc → Target → ℕ → Target
  unregister (handle d) s t =
      let (c, b) = k.i2c_target_unregister s.bus d in
      after s t (to_result_void checks c) b removed lost
  unregister removed s t = record s { registered = false; pc = at s.pc t idle }
  unregister _ s t = s

  -- The next access of the call that a thread is in; the ones of `register` are written out.
  unfoldable pub go_on : Pc → Target → ℕ → Target
  unfolding trampolines unregister
  go_on (claimed d) s t = record s { cbs = trampolines; pc = at s.pc t (written d) }
  go_on (written d) s t = record s {
    config = record s.config { callbacks = cbs_addr };
    pc = at s.pc t (linked d);
  }
  go_on (linked d) s t =
      let (c, b) = k.i2c_target_register s.bus d in
      after s t (to_result_void checks c) b (handle d) failed
  go_on failed s t = record s { registered = false; pc = at s.pc t idle }
  go_on (handle d) s t = unregister (handle d) s t
  go_on removed s t = unregister removed s t
  go_on busy s t = record s { pc = at s.pc t idle }
  go_on _ s t = s

  unfoldable pub step : Target → ℕ → Act → Target
  unfolding begin_register go_on
  step s t (registers d) = begin_register (s.pc t) s t d
  step s t goes_on = go_on (s.pc t) s t

  -- Any threads, in any order.
  unfoldable pub run : Target → List (ℕ × Act) → Target
  unfolding step
  run s [] = s
  run s ((t, a) ∷ acts) = run (step s t a) acts
