-- ===== src/Devicetree/Augment/Accepted.antt =====
-- What the rules of an augmentation accept.
use zephyr_lang_rust.Prelude.{
  ℕ, zero, suc, ◌≡◌, refl, ◌⊎◌, inl, inr, Bool, true, false, ◌&&◌, ◌||◌, Option, some, List, [],
  ◌∷◌, ◌++◌, map, ap, get_elem?, any, arith, Bool-cases,
}
use zephyr_lang_rust.Prelude.Outcome.{ret, panic, Outcome-cases}
use zephyr_lang_rust.Devicetree.{Text, Property, Node, head}
use zephyr_lang_rust.Devicetree.Query.{is_compatible, has_prop}
use zephyr_lang_rust.Devicetree.Output.{fix_id, dt_to_upper_id, route_to_rust}
use zephyr_lang_rust.Devicetree.Augment.{
  Place, Rule, or, and, has_property, compatible, root, Rules, no_rules, and_rule,
  parent_compatible, rule_compatible, any_compatible, all_compatible, is_none, Augmentation,
  RawInfo, Action, Code, raw_property, raw_generate, raw_values, label_modules, action_generate,
  generate, augment,
}

-- The node so many levels up, this one at level zero.
abbrev pub at_level : Place → ℕ → Option Node
at_level p level = get_elem? (p.node ∷ p.up) level

-- One of the names is a compatible one of the node at the level, which is there.
pub record Named (p : Place) (names : List Text) (level : ℕ) : Type 0 where
  pub node : Node
  pub there : at_level p level ≡ some node
  pub named : any (is_compatible (head node).properties) names ≡ true

-- What each rule says of a node in its place.
mutual
  pub data Accepts (p : Place) : Rule → Type 0 where
    by_one : {rs : Rules} → AcceptsOne p rs → Accepts p (or rs)
    by_all : {rs : Rules} → AcceptsAll p rs → Accepts p (and rs)
    by_property :
        {name : Text}
        → has_prop (head p.node).properties name ≡ true
        → Accepts p (has_property name)
    by_name :
        {names : List Text} {level : ℕ} → Named p names level → Accepts p (compatible names level)
    at_root : p.up ≡ [] → Accepts p root

  pub data AcceptsOne (p : Place) : Rules → Type 0 where
    this : {r : Rule} {rs : Rules} → Accepts p r → AcceptsOne p (and_rule r rs)
    another : {r : Rule} {rs : Rules} → AcceptsOne p rs → AcceptsOne p (and_rule r rs)

  pub data AcceptsAll (p : Place) : Rules → Type 0 where
    none_left : AcceptsAll p no_rules
    and_all : {r : Rule} {rs : Rules} → Accepts p r → AcceptsAll p rs → AcceptsAll p (and_rule r rs)

parent_compatible-Named :
    (n : Node) (up : List Node) (names : List Text) (level : ℕ)
    → parent_compatible n up names level ≡ true
    → Named (record { node = n; up = up }) names level
unfolding parent_compatible
parent_compatible-Named n up names zero h = record { node = n; there = refl; named = h }
parent_compatible-Named n [] names (suc level) h = absurd (cc)
parent_compatible-Named n (above ∷ up) names (suc level) h =
    let found = parent_compatible-Named above up names level h in
    record { node = found.node; there = found.there; named = found.named }

Named-parent_compatible :
    (n : Node) (up : List Node) (names : List Text) (level : ℕ)
    → Named (record { node = n; up = up }) names level
    → parent_compatible n up names level ≡ true
unfolding parent_compatible
Named-parent_compatible n up names zero found = ground (arith, found.there, found.named)
Named-parent_compatible n [] names (suc level) found = absurd (cc found.there)
Named-parent_compatible n (above ∷ up) names (suc level) found =
    Named-parent_compatible above up names level
      (record { node = found.node; there = found.there; named = found.named })

or_true : (a b : Bool) → (a || b) ≡ true → (a ≡ true) ⊎ (b ≡ true)
or_true true b h = inl refl
or_true false b h = inr h

and_true : (a b : Bool) → (a && b) ≡ true → (a ≡ true) × (b ≡ true)
and_true true b h = (refl, h)
and_true false b h = absurd (cc)

root-up : (up : List Node) → is_none up ≡ true → up ≡ []
root-up [] h = refl
root-up (n ∷ up) h = absurd (cc)

mutual
  unfolding rule_compatible

  accepts : (r : Rule) (p : Place) → rule_compatible r p ≡ true → Accepts p r
  accepts (or rs) p h = by_one (accepts_one rs p h)
  accepts (and rs) p h = by_all (accepts_all rs p h)
  accepts (has_property name) p h = by_property h
  accepts (compatible names level) p h = by_name (parent_compatible-Named p.node p.up names level h)
  accepts root p h = at_root (root-up p.up h)

  accepts_one : (rs : Rules) (p : Place) → any_compatible rs p ≡ true → AcceptsOne p rs
  accepts_one no_rules p h = absurd (cc)
  accepts_one (and_rule r rs) p h = elim (or_true (rule_compatible r p) (any_compatible rs p) h) [
    | inl this_one ↦ this (accepts r p this_one)
    | inr rest ↦ another (accepts_one rs p rest)
  ]

  accepts_all : (rs : Rules) (p : Place) → all_compatible rs p ≡ true → AcceptsAll p rs
  accepts_all no_rules p h = none_left
  accepts_all (and_rule r rs) p h =
      let (x, y) = and_true (rule_compatible r p) (all_compatible rs p) h in
      and_all (accepts r p x) (accepts_all rs p y)

mutual
  unfolding rule_compatible

  accepted : (r : Rule) (p : Place) → Accepts p r → rule_compatible r p ≡ true
  accepted (or rs) p (by_one h) = accepted_one rs p h
  accepted (and rs) p (by_all h) = accepted_all rs p h
  accepted (has_property name) p (by_property h) = h
  accepted (compatible names level) p (by_name h) =
      Named-parent_compatible p.node p.up names level h
  accepted root p (at_root h) = rw h refl

  accepted_one : (rs : Rules) (p : Place) → AcceptsOne p rs → any_compatible rs p ≡ true
  accepted_one no_rules p h = elim h [ ]
  accepted_one (and_rule r rs) p (this h) = rw (accepted r p h) refl
  accepted_one (and_rule r rs) p (another h) = ground (arith, accepted_one rs p h)

  accepted_all : (rs : Rules) (p : Place) → AcceptsAll p rs → all_compatible rs p ≡ true
  accepted_all no_rules p none_left = refl
  accepted_all (and_rule r rs) p (and_all h k) = rw (accepted r p h) (accepted_all rs p k)

module _ (to_uppercase : Text → Text) (routes : ℕ → List Text) where
  -- The code of an action: what its `raw_generate` gives, a module for each label, or a constant for
  -- each property.
  pub data Gives (ls : List (Text × ℕ)) (cfg : Option Text) (p : Place)
      : Action → List Code → Type 0 where
    gives_device :
        {raw : RawInfo} {type : Text} {s : Option Text} {code : List Code}
        → raw_generate to_uppercase routes raw p type s cfg ≡ ret code
        → Gives ls cfg p (Action.device raw type s) code
    gives_labels :
        Gives ls cfg p Action.labels
          (map (λ l. Code.label (fix_id l.0) (route_to_rust (routes l.1))) ls)
    gives_properties : Gives ls cfg p Action.raw_properties (
        map
          (λ q.
            raw_property (82 ∷ 65 ∷ 87 ∷ 95 ∷ dt_to_upper_id to_uppercase routes q.name) q.value)
          (head p.node).properties)

  -- The code of every action, in order.
  pub data GivesAll (ls : List (Text × ℕ)) (cfg : Option Text) (p : Place)
      : List Action → List Code → Type 0 where
    no_code : GivesAll ls cfg p [] []
    and_code :
        {a : Action} {as_ : List Action} {code codes : List Code}
        → Gives ls cfg p a code
        → GivesAll ls cfg p as_ codes
        → GivesAll ls cfg p (a ∷ as_) (code ++ codes)

  -- The device of some action panics.
  pub data Fails (ls : List (Text × ℕ)) (cfg : Option Text) (p : Place) : List Action → Type 0 where
    fails_here :
        {raw : RawInfo} {type : Text} {s : Option Text} {as_ : List Action}
        → raw_generate to_uppercase routes raw p type s cfg ≡ panic
        → Fails ls cfg p (Action.device raw type s ∷ as_)
    fails_later : {a : Action} {as_ : List Action} → Fails ls cfg p as_ → Fails ls cfg p (a ∷ as_)

  -- All actions give their code, or some device panics and so does the augmentation.
  abbrev pub Generates : List (Text × ℕ) → Augmentation → Place → Type 0
  Generates ls a p =
      ((codes : List Code) × (augment to_uppercase routes ls a p ≡ ret codes)
        × GivesAll ls a.cfg p a.actions codes)
      ⊎ (augment to_uppercase routes ls a p ≡ panic) × Fails ls a.cfg p a.actions

  label_modules-map :
      (ls : List (Text × ℕ))
      → label_modules to_uppercase routes ls
        ≡ map (λ l. Code.label (fix_id l.0) (route_to_rust (routes l.1))) ls
  unfolding label_modules
  label_modules-map [] = refl
  label_modules-map (l ∷ ls) =
      ap (λ c. Code.label (fix_id l.0) (route_to_rust (routes l.1)) ∷ c) (label_modules-map ls)

  raw_values-map :
      (qs : List Property)
      → raw_values to_uppercase routes qs
        ≡ map
            (λ q.
              raw_property (82 ∷ 65 ∷ 87 ∷ 95 ∷ dt_to_upper_id to_uppercase routes q.name) q.value)
            qs
  unfolding raw_values
  raw_values-map [] = refl
  raw_values-map (q ∷ qs) =
      ap
        (λ c.
          raw_property (82 ∷ 65 ∷ 87 ∷ 95 ∷ dt_to_upper_id to_uppercase routes q.name) q.value ∷ c)
        (raw_values-map qs)

  -- What an action comes to.
  action-Gives :
      (ls : List (Text × ℕ)) (cfg : Option Text) (a : Action) (as_ : List Action) (p : Place)
      → ((code : List Code) × (action_generate to_uppercase routes ls cfg a p ≡ ret code)
          × Gives ls cfg p a code)
        ⊎ (action_generate to_uppercase routes ls cfg a p ≡ panic) × Fails ls cfg p (a ∷ as_)
  unfolding action_generate
  action-Gives ls cfg (Action.device raw type s) as_ p =
      elim (Outcome-cases (raw_generate to_uppercase routes raw p type s cfg)) [
        | inl (code, e) ↦ inl (code, e, gives_device e)
        | inr e ↦ inr (e, fails_here e)
      ]
  action-Gives ls cfg Action.labels as_ p = inl (_, ap ret (label_modules-map ls), gives_labels)
  action-Gives ls cfg Action.raw_properties as_ p =
      inl (_, ap ret (raw_values-map (head p.node).properties), gives_properties)

  generate-GivesAll :
      (ls : List (Text × ℕ)) (cfg : Option Text) (as_ : List Action) (p : Place)
      → ((codes : List Code) × (generate to_uppercase routes ls cfg as_ p ≡ ret codes)
          × GivesAll ls cfg p as_ codes)
        ⊎ (generate to_uppercase routes ls cfg as_ p ≡ panic) × Fails ls cfg p as_
  unfolding generate
  generate-GivesAll ls cfg [] p = inl ([], refl, no_code)
  generate-GivesAll ls cfg (a ∷ as_) p = elim (action-Gives ls cfg a as_ p) [
    | inr (e, f) ↦ inr (rw e refl, f)
    | inl (code, e, g) ↦ elim (generate-GivesAll ls cfg as_ p) [
      | inl (codes, e', g') ↦ inl (code ++ codes, rw (e, e') refl, and_code g g')
      | inr (e', f) ↦ inr (rw (e, e') refl, fails_later f)
    ]
  ]

  augment-Generates :
      (ls : List (Text × ℕ)) (a : Augmentation) (p : Place)
      → all_compatible a.rules p ≡ true
      → Generates ls a p
  unfolding augment
  augment-Generates ls a p h = rw h (generate-GivesAll ls a.cfg a.actions p)

  -- A node that every rule of an augmentation accepts gets the code of each of its actions, in order,
  -- unless the device of one panics, with which the augmentation panics; any other node gets none.  A
  -- rule accepts if one or all of its rules do, if the node has the property, if the node that many
  -- levels up is there and has a compatible name, or if there is no node above.
  pub augment-Accepts :
      (ls : List (Text × ℕ)) (a : Augmentation) (p : Place)
      → AcceptsAll p a.rules × Generates ls a p
        ⊎ (¬ AcceptsAll p a.rules) × (augment to_uppercase routes ls a p ≡ ret [])
  unfolding augment
  augment-Accepts ls a p = elim (Bool-cases (all_compatible a.rules p)) [
    | inl all_hold ↦ inl (accepts_all a.rules p all_hold, augment-Generates ls a p all_hold)
    | inr not_all ↦ inr (λ h. cc (accepted_all a.rules p h, not_all), rw not_all refl)
  ]
