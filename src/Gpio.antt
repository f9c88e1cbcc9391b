-- ===== src/Gpio.antt =====
-- zephyr/src/device/gpio.rs: waiting for a pin of a controller.  A 32-bit mask is the function from a
-- bit's number to the bit; the wakers are the `embassy_sync` crate's.
use zephyr_lang_rust.Prelude.{
  ℕ, zero, suc, ◌+◌, Bool, true, false, Option, none, some, List, ◌==◌, if◌then◌else◌,
}
use zephyr_lang_rust.Blocking.Slot.{WakerSet, update}
pub mod Fired
mod Examples

module _ (atomic : WakerSet) where
  -- `struct GpioStatic`, how often the callback was added, and the mode of each pin's interrupt.
  pub record GpioStatic : Type 0 where
    pub wakers : ℕ → atomic.Wakers
    pub fired : ℕ → Bool
    pub installed : Bool
    pub pin_mask : ℕ → Bool
    pub added : ℕ
    pub mode : ℕ → Option ℕ

  -- `GpioStatic::new`
  unfoldable pub new : GpioStatic
  new = record {
    wakers = λ i. atomic.empty;
    fired = λ i. false;
    installed = false;
    pin_mask = λ i. false;
    added = 0;
    mode = λ i. none;
  }

  unfoldable pub install : GpioStatic → GpioStatic
  install s =
      if s.installed
      then s
      else record s { installed = true; pin_mask = λ i. false; added = s.added + 1 }

  unfoldable pub fast_install : GpioStatic → GpioStatic
  unfolding install
  fast_install s = if s.installed then s else install s

  unfoldable pub register : GpioStatic → ℕ → ℕ → GpioStatic
  register s pin task = record s {
    wakers = update s.wakers pin (atomic.register (s.wakers pin) task).0;
    pin_mask = update s.pin_mask pin true;
  }

  -- What `callback_handler` does for a pin.
  unfoldable pub handle_pin : GpioStatic → ℕ → GpioStatic
  handle_pin s pin = record s {
    mode = update s.mode pin none;
    pin_mask = update s.pin_mask pin false;
    fired = update s.fired pin true;
    wakers = update s.wakers pin (atomic.wake (s.wakers pin)).0;
  }

  -- Its loop: the pins of the mask from pin `i` on, `n` at most, the lowest first.
  unfoldable pub handle_pins : ℕ → ℕ → (ℕ → Bool) → GpioStatic → GpioStatic
  unfolding handle_pin
  handle_pins zero i pins s = s
  handle_pins (suc n) i pins s = handle_pins n (suc i) pins (if pins i then handle_pin s i else s)

  unfoldable pub callback_handler : (ℕ → Bool) → GpioStatic → GpioStatic
  unfolding handle_pins
  callback_handler pins s = handle_pins 32 0 pins s

  -- `has_fired`: what it returns, and the mask after it
  unfoldable pub has_fired : GpioStatic → ℕ → Bool × GpioStatic
  has_fired s pin = (s.fired pin, record s { fired = update s.fired pin false })

  -- `poll` of `GpioWait` up to the configuration of the interrupt: whether it is ready at once.
  unfoldable pub poll_start : GpioStatic → ℕ → ℕ → ℕ → Bool × GpioStatic
  unfolding fast_install has_fired register
  poll_start s pin level task =
      let (fired, s') = has_fired (fast_install s) pin in
      let s'' = register s' pin task in
      if fired then (true, s') else (false, record s'' { mode = update s''.mode pin (some level) })

  -- The rest of `poll`, after any interrupts: whether it is ready.
  unfoldable pub poll_end : GpioStatic → ℕ → Bool × GpioStatic
  unfolding has_fired
  poll_end s pin = has_fired s pin
