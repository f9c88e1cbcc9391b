-- ===== src/Simpletls/Sorted.antt =====
-- The vector stays sorted, and is a map.
use zephyr_lang_rust.Prelude.{
  ℕ, suc, ◌<◌, ◌≡◌, refl, Option, none, some, [], ◌∷◌, ltb, ◌==◌, if◌then◌else◌, arith,
}
use zephyr_lang_rust.Simpletls.{SimpleTls, insert, get}

module _ {T : Type 0} where
  -- Each thread is above those before it, and above `k`.
  abbrev pub Above : ℕ → SimpleTls T → Type 0
  Above k [] = Unit
  Above k ((id, x) ∷ map) = (k < id) × Above id map

  -- The same, from the first thread on.
  abbrev pub Sorted : SimpleTls T → Type 0
  Sorted [] = Unit
  Sorted ((id, x) ∷ map) = Above id map

  -- Both calls, thread by thread.
  abbrev place : SimpleTls T → ℕ → T → SimpleTls T
  place [] t v = (t, v) ∷ []
  place ((id, x) ∷ map) t v =
      let rest = (id, x) ∷ place map t v in
      if id == t then (t, v) ∷ map else if ltb t id then (t, v) ∷ (id, x) ∷ map else rest

  abbrev seek : SimpleTls T → ℕ → Option T
  seek [] t = none
  seek ((id, x) ∷ map) t =
      let rest = seek map t in if id == t then some x else if ltb t id then none else rest

  insert-place : (map : SimpleTls T) (t : ℕ) (v : T) → insert map t v ≡ place map t v
  unfolding insert
  insert-place [] t v = refl
  insert-place ((id, x) ∷ map) t v = ground (arith, insert-place map t v)

  get-seek : (map : SimpleTls T) (t : ℕ) → get map t ≡ seek map t
  unfolding get
  get-seek [] t = refl
  get-seek ((id, x) ∷ map) t = ground (arith, get-seek map t)

  place-Above :
      (map : SimpleTls T) (k t : ℕ) (v : T) → k < t → Above k map → Above k (place map t v)
  place-Above [] k t v h w = (h, tt)
  place-Above ((id, x) ∷ map) k t v h w = ground (arith, place-Above map id t v)

  -- Nothing is found below the first thread.
  seek-Above : (map : SimpleTls T) (k t : ℕ) → t < suc k → Above k map → seek map t ≡ none
  seek-Above [] k t h w = refl
  seek-Above ((id, x) ∷ map) k t h w = ground arith

  seek-place :
      (map : SimpleTls T) (k t u : ℕ) (v : T)
      → Above k map
      → seek (place map t v) u ≡ (if t == u then some v else seek map u)
  seek-place [] k t u v w = ground arith
  seek-place ((id, x) ∷ map) k t u v w =
      ground (arith, seek-place map id t u v, seek-Above map id u)

  place-Sorted : (map : SimpleTls T) (t : ℕ) (v : T) → Sorted map → Sorted (place map t v)
  place-Sorted [] t v w = tt
  place-Sorted ((id, x) ∷ map) t v w = ground (arith, place-Above map id t v)

  seek-placed :
      (map : SimpleTls T) (t u : ℕ) (v : T)
      → Sorted map
      → seek (place map t v) u ≡ (if t == u then some v else seek map u)
  seek-placed [] t u v w = ground arith
  seek-placed ((id, x) ∷ map) t u v w = ground (arith, seek-place map id t u v, seek-Above map id u)

  -- Inserting into a sorted vector keeps it sorted; after it the thread has that value, in place of
  -- any that it had, and every other thread has what it had.
  pub insert-get :
      (map : SimpleTls T) (t u : ℕ) (v : T)
      → Sorted map
      → Sorted (insert map t v) × (get (insert map t v) u ≡ (if t == u then some v else get map u))
  insert-get map t u v w =
      rw (insert-place map t v, get-seek, get-seek map u)
        (place-Sorted map t v w, seek-placed map t u v w)
