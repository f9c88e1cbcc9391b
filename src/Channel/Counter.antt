-- ===== src/Channel/Counter.antt =====
-- zephyr/src/sync/channel/counter.rs and the `Clone` and `Drop` of zephyr/src/sync/channel.rs: the
-- count of the handles of a channel.  The atomics are single steps, and `usize` is the number of
-- values of the machine's `usize`.
pub mod Handles
use zephyr_lang_rust.Prelude.{ℕ, ◌+◌, ◌-◌, ◌/◌, ◌%◌, Bool, true, false, ltb, ◌==◌, if◌then◌else◌}
use zephyr_lang_rust.Prelude.Outcome.{Outcome, ret, panic, ◌>>=◌}

-- `struct Counter<C>`; `live` says that the box of the counter has not been freed.
pub record Counter (C : Type 0) : Type 0 where
  pub senders : ℕ
  pub receivers : ℕ
  pub destroy : Bool
  pub chan : C
  pub live : Bool

-- `counter::new`
unfoldable pub new : {C : Type 0} → C → Counter C
new chan = record { senders = 1; receivers = 1; destroy = false; chan = chan; live = true }

-- `destroy.swap(true)`, and the drop of the box if it was set
pub destroy_swap : {C : Type 0} → Counter C → Counter C
destroy_swap c = if c.destroy then record c { live = false } else record c { destroy = true }

module _ (usize : ℕ) where
  -- `isize::MAX`
  abbrev pub isize_max : ℕ
  isize_max = usize / 2 - 1

  -- `fetch_add(1)` and `fetch_sub(1)` wrap.
  abbrev pub fetch_add_one : ℕ → ℕ
  fetch_add_one n = (n + 1) % usize

  abbrev pub fetch_sub_one : ℕ → ℕ
  fetch_sub_one n = (n + usize - 1) % usize

module _ (usize : ℕ) {C : Type 0} where
  -- `Sender::acquire` and `Receiver::acquire`
  pub acquire_sender : Counter C → Outcome (Counter C)
  acquire_sender c =
      let count = c.senders in
      let c' = record c { senders = fetch_add_one usize count } in
      if ltb (isize_max usize) count then panic else ret c'

  pub acquire_receiver : Counter C → Outcome (Counter C)
  acquire_receiver c =
      let count = c.receivers in
      let c' = record c { receivers = fetch_add_one usize count } in
      if ltb (isize_max usize) count then panic else ret c'

  -- `Sender::release` and `Receiver::release`
  pub release_sender : (C → Outcome Bool) → Counter C → Outcome (Counter C)
  unfolding destroy_swap
  release_sender disconnect c =
      let count = c.senders in
      let c' = record c { senders = fetch_sub_one usize count } in
      if count == 1 then disconnect c.chan >>= (λ _. ret (destroy_swap c')) else ret c'

  pub release_receiver : (C → Outcome Bool) → Counter C → Outcome (Counter C)
  unfolding destroy_swap
  release_receiver disconnect c =
      let count = c.receivers in
      let c' = record c { receivers = fetch_sub_one usize count } in
      if count == 1 then disconnect c.chan >>= (λ _. ret (destroy_swap c')) else ret c'

  -- `Clone` and `Drop` of a channel's `Sender` and `Receiver`; both flavours do the same.
  pub clone_sender : Counter C → Outcome (Counter C)
  unfolding acquire_sender
  clone_sender c = acquire_sender c

  pub clone_receiver : Counter C → Outcome (Counter C)
  unfolding acquire_receiver
  clone_receiver c = acquire_receiver c

  pub drop_sender : Counter C → Outcome (Counter C)
  unfolding release_sender
  drop_sender c = release_sender (λ _. panic) c

  pub drop_receiver : Counter C → Outcome (Counter C)
  unfolding release_receiver
  drop_receiver c = release_receiver (λ _. panic) c
