-- ===== src/Gpio/Fired.antt =====
-- An interrupt is seen by the next look at its pin, and by that alone.
use zephyr_lang_rust.Prelude.{
  ℕ, zero, suc, ◌+◌, ◌<◌, ◌≡◌, refl, Bool, true, false, ◌||◌, ◌&&◌, ltb, leb, ◌==◌, if◌then◌else◌,
  arith, Bool-cases, inl, inr,
}
use zephyr_lang_rust.Blocking.Slot.{WakerSet}
use zephyr_lang_rust.Gpio.{GpioStatic, handle_pin, handle_pins, callback_handler, has_fired}

module _ (atomic : WakerSet) where
  handle_pins-fired :
      (n i : ℕ) (pins : ℕ → Bool) (s : GpioStatic atomic) (j : ℕ)
      → (handle_pins atomic n i pins s).fired j
        ≡ (if leb i j && (ltb j (i + n) && pins j) then true else s.fired j)
  unfolding handle_pins
  handle_pins-fired zero i pins s j = ground arith
  handle_pins-fired (suc n) i pins s j = elim (Bool-cases (pins i)) [
    | inl on ↦ ground (arith, handle_pins-fired n (suc i) pins (handle_pin atomic s i) j)
    | inr off ↦ ground (arith, handle_pins-fired n (suc i) pins s j)
  ]

  handler-pins :
      (pins : ℕ → Bool) (s : GpioStatic atomic)
      → callback_handler atomic pins s ≡ handle_pins atomic 32 0 pins s
  unfolding callback_handler
  handler-pins pins s = refl

  handler-fired :
      (pins : ℕ → Bool) (s : GpioStatic atomic) (pin : ℕ)
      → pin < 32
      → (callback_handler atomic pins s).fired pin ≡ (pins pin || s.fired pin)
  handler-fired pins s pin h =
      let e = handle_pins-fired 32 0 pins s pin in
      rw (handler-pins pins s)
        (elim (Bool-cases (pins pin)) [ inl on ↦ ground (arith, e) | inr off ↦ ground (arith, e) ])

  looked :
      (s : GpioStatic atomic) (pin : ℕ)
      → (has_fired atomic (has_fired atomic s pin).1 pin).0 ≡ false
  unfolding has_fired
  looked s pin = ground arith

  -- After an interrupt for some pins, a pin below 32 is seen as fired just if the interrupt was for it
  -- or it had fired before and was not looked at; a second look does not see it again, and the look
  -- leaves every other pin as it was.
  pub callback_handler-has_fired :
      (pins : ℕ → Bool) (s : GpioStatic atomic) (pin : ℕ)
      → pin < 32
      → ((has_fired atomic (callback_handler atomic pins s) pin).0 ≡ (pins pin || s.fired pin))
        × ((has_fired atomic (has_fired atomic (callback_handler atomic pins s) pin).1 pin).0
            ≡ false)
        × ((other : ℕ)
            → (has_fired atomic (callback_handler atomic pins s) pin).1.fired other
              ≡ (if pin == other then false else (callback_handler atomic pins s).fired other))
  unfolding has_fired
  callback_handler-has_fired pins s pin h =
      (handler-fired pins s pin h, looked (callback_handler atomic pins s) pin, λ other. refl)
