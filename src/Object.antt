-- ===== src/Object.antt =====
-- zephyr/src/object.rs: kernel objects that are initialized on first use, by any thread, and static
-- objects that are initialized once.  An address is a number, zero where none is.
use zephyr_lang_rust.Prelude.{
  ℕ, ◌≡◌, Bool, true, false, Option, none, some, List, [], ◌∷◌, ◌++◌, ◌==◌, if◌then◌else◌,
}
pub mod Once
pub mod Single
mod Examples

-- `struct ZephyrObject<T>` at its address, and the addresses that `ObjectInit::init` was called with.
pub record ZephyrObject : Type 0 where
  pub state : ℕ
  pub addr : ℕ
  pub inits : List ℕ

-- `new_raw`, and the address that it comes to lie at
unfoldable pub new_raw : ℕ → ZephyrObject
new_raw addr = record { state = 0; addr = addr; inits = [] }

-- Where a thread stands in `get`.
pub data GetPc : Type 0 where
  reading : GetPc  -- at the first load
  entering : GetPc  -- at the critical section
  returned : ℕ → GetPc
  panicked : GetPc

-- The first load.
unfoldable pub get_fast : ZephyrObject → GetPc
get_fast o =
    if o.state == 0 then entering else if o.state == o.addr then returned o.addr else panicked

-- The critical section.
unfoldable pub get_slow : ZephyrObject → ZephyrObject × GetPc
get_slow o =
    if o.state == o.addr
    then (o, returned o.addr)
    else if o.state == 0
    then (record { state = o.addr; addr = o.addr; inits = o.inits ++ o.addr ∷ [] }, returned o.addr)
    else (o, panicked)

-- A step of a thread in `get`; one that has returned may call it again.
unfoldable pub get_step : ZephyrObject → GetPc → ZephyrObject × GetPc
unfolding get_fast get_slow
get_step o reading = (o, get_fast o)
get_step o entering = get_slow o
get_step o (returned a) = (o, reading)
get_step o panicked = (o, panicked)

pub record Threads : Type 0 where
  pub object : ZephyrObject
  pub pc : ℕ → GetPc

unfoldable pub step : Threads → ℕ → Threads
unfolding get_step
step s t =
    let (o, p) = get_step s.object (s.pc t) in
    record { object = o; pc = λ u. if u == t then p else s.pc u }

-- Any threads, in any order.
unfoldable pub run : Threads → List ℕ → Threads
unfolding step
run s [] = s
run s (t ∷ ts) = run (step s t) ts

-- `KOBJ_UNINITIALIZED`, `KOBJ_INITING` and `KOBJ_INITIALIZED`
abbrev pub kobj_uninitialized : ℕ
kobj_uninitialized = 0

abbrev pub kobj_initing : ℕ
kobj_initing = 1

abbrev pub kobj_initialized : ℕ
kobj_initialized = 2

-- Where a call of `StaticKernelObject::init_once` stands, and what it returns: whether there is an
-- instance.
pub data OncePc : Type 0 where
  calling : OncePc
  initing : OncePc  -- in `get_wrapped`
  result : Bool → OncePc

-- A step of a call of `init_once`.
unfoldable pub init_once : ℕ → OncePc → ℕ × OncePc
init_once init calling =
    if init == kobj_uninitialized then (kobj_initing, initing) else (init, result false)
init_once init initing = (kobj_initialized, result true)
init_once init (result b) = (init, result b)

-- `Unique::once` of zephyr/src/device.rs: the flag after it, and what it returns
unfoldable pub once : Bool → Bool × Bool
once flag = (true, (if flag then false else true))

-- The constructors of the devices: an instance, if the device's `Unique` allows it.
unfoldable pub gpio_new : {G : Type 0} → Bool → G → Bool × Option G
unfolding once
gpio_new flag gpio = let (flag', first) = once flag in (flag', (if first then some gpio else none))
