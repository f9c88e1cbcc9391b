-- ===== src/Devicetree/Augment/Instances.antt =====
-- The devices that the code of an augmentation refers to.
use zephyr_lang_rust.Prelude.{
  ℕ, zero, suc, ◌-◌, ◌<◌, ◌≡◌, refl, sym, ap, ◌∙◌, ◌⊎◌, inl, inr, true, Option, none, some, List,
  [], ◌∷◌, map, get_elem?, lt→ltb, arith, Bool-cases, Option-cases,
}
use zephyr_lang_rust.Prelude.Outcome.{Outcome, ret, panic, ◌>>=◌, ret-inj, bind-ret}
use zephyr_lang_rust.Devicetree.{Text, Phandle, Word, Node, head}
use zephyr_lang_rust.Devicetree.Query.{get_words}
use zephyr_lang_rust.Devicetree.Output.{route_to_rust}
use zephyr_lang_rust.Devicetree.Augment.{
  Place, ArgInfo, myself, parent, phandle, Code, raw_device, instance_of, own, super, route,
  is_enabled, has_device, static_or, unless_disabled, unwrap, first, all_args, climb, numbers,
  target_of, raw_generate,
}
use zephyr_lang_rust.Devicetree.Augment.Accepted.{at_level}

climb-first : (n : ℕ) (up : List Node) → first (climb n up) ≡ get_elem? up n
unfolding climb
climb-first zero [] = refl
climb-first zero (above ∷ up) = refl
climb-first (suc n) [] = refl
climb-first (suc n) (above ∷ up) = climb-first n up

numbers-map : (ws : List Word) (ns : List ℕ) → numbers ws ≡ ret ns → ws ≡ map Word.number ns
unfolding numbers
numbers-map [] ns h = rw (← ret-inj h) refl
numbers-map (Word.number n ∷ ws) ns h =
    let (ms, went, e) = bind-ret (numbers ws) (λ r. ret (n ∷ r)) ns h in
    rw (← ret-inj e) (ap (λ r. Word.number n ∷ r) (numbers-map ws ms went))
numbers-map (Word.phandle ph ∷ ws) ns h = absurd (cc)

-- The two matches on a status agree.
has_device-is_enabled : (n : Node) → has_device n ≡ is_enabled n
unfolding has_device is_enabled
has_device-is_enabled n = refl

module _ (to_uppercase : Text → Text) (routes : ℕ → List Text) where
  abbrev made : ℕ → List ArgInfo → Place → Text → Option Text → Option Text → Outcome (List Code)
  made level args p type s cfg =
      all_args args p >>= λ vs. ret (instance_of type (static_or s) (super level) vs cfg ∷ [])

  climb-at_level : (n : ℕ) (p : Place) → first (climb (suc n - 1) p.up) ≡ at_level p (suc n)
  climb-at_level n p = let e : suc n - 1 ≡ n = omega arith in rw e (climb-first n p.up)

  parent-made :
      (n : ℕ) (args : List ArgInfo) (p : Place) (type : Text) (s cfg : Option Text)
      → raw_generate to_uppercase routes (parent (suc n) args) p type s cfg
        ≡ unless_disabled (at_level p (suc n)) (made (suc n) args p type s cfg)
  unfolding raw_generate
  parent-made n args p type s cfg =
      rw (climb-at_level n p) (rw (lt→ltb 0 (suc n) (omega arith)) refl)

  myself-made :
      (a : Node) (up : List Node) (type : Text) (s cfg : Option Text)
      → is_enabled a ≡ true
      → raw_generate to_uppercase routes myself (record { node = a; up = up }) type s cfg
        ≡ ret (raw_device (head a).ord cfg ∷ instance_of type (static_or s) own [] cfg ∷ [])
  unfolding raw_generate
  myself-made a up type s cfg h = rw h refl

  parent-zero :
      (args : List ArgInfo) (p : Place) (type : Text) (s cfg : Option Text)
      → raw_generate to_uppercase routes (parent 0 args) p type s cfg ≡ panic
  unfolding raw_generate
  parent-zero args p type s cfg = refl

  -- A node is not there, or a `Myself` action on it gives it the `get_instance_raw` of its own device.
  abbrev pub Backed : Option Node → List Node → Text → Option Text → Option Text → Type 0
  Backed o up type s cfg =
      (o ≡ none)
      ⊎ (a : Node) × (rest : List Code) × (o ≡ some a)
        × (raw_generate to_uppercase routes myself (record { node = a; up = up }) type s cfg
            ≡ ret (raw_device (head a).ord cfg ∷ rest))

  made-Backed :
      (o : Option Node) (up : List Node) (type : Text) (s cfg : Option Text)
      (m : Outcome (List Code)) (code : Code) (codes : List Code)
      → unless_disabled o m ≡ ret (code ∷ codes)
      → (m ≡ ret (code ∷ codes)) × Backed o up type s cfg
  made-Backed none up type s cfg m code codes h = (h, inl refl)
  made-Backed (some a) up type s cfg m code codes h = elim (Bool-cases (has_device a)) [
    | inl on ↦ (
      rw on at h,
      inr (a, _, refl, myself-made a up type s cfg (sym (has_device-is_enabled a) ∙ on)),
    )
    | inr off ↦ absurd (cc (rw off at h))
  ]

  -- If a `Parent` action gives code for a node, it is one instance alone, of the device of the node that
  -- many levels up, which is not the node itself; and that node is not there, or a `Myself` action on
  -- it gives it the `get_instance_raw` that the instance calls.
  pub parent-raw_device :
      (level : ℕ) (args : List ArgInfo) (p : Place) (type : Text) (s cfg : Option Text)
      (up : List Node) (type' : Text) (s' cfg' : Option Text) (code : Code) (codes : List Code)
      → raw_generate to_uppercase routes (parent level args) p type s cfg ≡ ret (code ∷ codes)
      → (0 < level)
        × ((vs : List ℕ) × (code ≡ instance_of type (static_or s) (super level) vs cfg)
            × (codes ≡ []))
        × Backed (at_level p level) up type' s' cfg'
  parent-raw_device zero args p type s cfg up type' s' cfg' code codes h =
      absurd (cc (parent-zero args p type s cfg, h))
  parent-raw_device (suc n) args p type s cfg up type' s' cfg' code codes h =
      let (e, backed) =
        made-Backed (at_level p (suc n)) up type' s' cfg' (made (suc n) args p type s cfg) code
          codes (rw (parent-made n args p type s cfg) at h) in
      let (vs, went, r) =
        bind-ret (all_args args p)
          (λ vs. ret (instance_of type (static_or s) (super (suc n)) vs cfg ∷ [])) (code ∷ codes)
          e in
      (omega arith, (vs, cc, cc), backed)

  target_of-ret :
      (ws : List Word) (n : ℕ) (rest : List Word)
      → target_of ws ≡ ret (n, rest)
      → (ph : Phandle) × (ws ≡ Word.phandle ph ∷ rest) × (ph.node ≡ some n)
  target_of-ret [] n rest h = absurd (cc)
  target_of-ret (Word.number m ∷ ws) n rest h = absurd (cc)
  target_of-ret (Word.phandle ph ∷ ws) n rest h = elim (Option-cases ph.node) [
    | inl e ↦ absurd (cc (rw e at h))
    | inr (m, e) ↦ let q : (m, ws) ≡ (n, rest) = ret-inj (rw e at h) in (ph, cc q, e ∙ cc q)
  ]

  phandle-steps :
      (pname : Text) (p : Place) (type : Text) (s cfg : Option Text)
      → raw_generate to_uppercase routes (phandle pname) p type s cfg ≡ (
          unwrap (get_words (head p.node).properties pname) >>= λ words.
          target_of words >>= λ found. numbers found.1 >>= λ args.
          ret
            (instance_of type (static_or s) (route (route_to_rust (routes found.0))) args cfg ∷ []))
  unfolding raw_generate
  phandle-steps pname p type s cfg = refl

  unwrap-ret : {A : Type 0} (o : Option A) (a : A) → unwrap o ≡ ret a → o ≡ some a
  unwrap-ret none a h = absurd (cc)
  unwrap-ret (some b) a h = cc

  -- If a `Phandle` action returns, its property is one value of words: a reference that is resolved,
  -- and then numbers alone; and the code is one instance of the device of that reference's node, by
  -- the node's route, with these numbers.
  pub phandle-instance :
      (pname : Text) (p : Place) (type : Text) (s cfg : Option Text) (codes : List Code)
      → raw_generate to_uppercase routes (phandle pname) p type s cfg ≡ ret codes
      → (ph : Phandle) × (target : ℕ) × (ns : List ℕ) × (get_words (head p.node).properties pname
          ≡ some (Word.phandle ph ∷ map (λ n. Word.number n) ns))
        × (ph.node ≡ some target)
        × (codes
            ≡ instance_of type (static_or s) (route (route_to_rust (routes target))) ns cfg ∷ [])
  phandle-instance pname p type s cfg codes h =
      let (words, got, h1) =
        bind-ret (unwrap (get_words (head p.node).properties pname)) _ codes
          (rw (phandle-steps pname p type s cfg) at h) in
      let ((target, rest), found, h2) = bind-ret (target_of words) _ codes h1 in
      let (ns, read, h3) = bind-ret (numbers rest) _ codes h2 in
      let (ph, split, node) = target_of-ret words target rest found in
      (
        ph,
        target,
        ns,
        unwrap-ret _ words got
            ∙ ap (λ ws. some ws) (split ∙ ap (λ r. Word.phandle ph ∷ r) (numbers-map rest ns read)),
        node,
        sym (ret-inj h3),
      )
