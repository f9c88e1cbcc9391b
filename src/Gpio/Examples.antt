-- ===== src/Gpio/Examples.antt =====
-- An interrupt for pins 3 and 5.
use zephyr_lang_rust.Prelude.{ℕ, ◌≡◌, Bool, false, ◌||◌, List, [], ◌∷◌, ◌==◌, if◌then◌else◌, arith}
use zephyr_lang_rust.Blocking.Slot.{WakerSet}
use zephyr_lang_rust.Gpio.{new, has_fired, callback_handler}
use zephyr_lang_rust.Gpio.Fired.{callback_handler-has_fired}

abbrev wakers : WakerSet
wakers = record { Wakers = List ℕ; empty = []; register = λ w t. (t ∷ [], []); wake = λ w. ([], w) }

abbrev two_pins : ℕ → Bool
two_pins i = (i == 3) || (i == 5)

callback_handler-has_fired_example :
    ((has_fired wakers (callback_handler wakers two_pins (new wakers)) 5).0
      ≡ (two_pins 5 || (new wakers).fired 5))
    × ((has_fired wakers (has_fired wakers (callback_handler wakers two_pins (new wakers)) 5).1 5).0
        ≡ false)
    × ((other : ℕ)
        → (has_fired wakers (callback_handler wakers two_pins (new wakers)) 5).1.fired other ≡ (
            if 5 == other
            then false
            else (callback_handler wakers two_pins (new wakers)).fired other))
callback_handler-has_fired_example =
    callback_handler-has_fired wakers two_pins (new wakers) 5 (omega arith)
