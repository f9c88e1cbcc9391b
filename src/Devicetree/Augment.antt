-- ===== src/Devicetree/Augment.antt =====
-- zephyr-build/src/devicetree/augment.rs: the rules that say which nodes get code, and the code that
-- they get.  What the code is in tokens is of the `quote` crate: here it is the data that goes into it.
pub mod Accepted
pub mod Instances
mod Examples
use zephyr_lang_rust.Prelude.{
  ℕ, zero, suc, ◌-◌, ◌%◌, ◌^◌, Bool, true, false, ◌&&◌, ◌||◌, Option, none, some, List, [], ◌∷◌,
  ◌++◌, ltb, any, if◌then◌else◌,
}
use zephyr_lang_rust.Prelude.Outcome.{Outcome, ret, panic, ◌>>=◌, ◌>>◌, assert}
use zephyr_lang_rust.Devicetree.{Text, eq_text, Word, Value, Property, Node, head}
use zephyr_lang_rust.Devicetree.Query.{
  is_compatible, has_prop, get_words, get_numbers, get_single_string, child_index,
}
use zephyr_lang_rust.Devicetree.Output.{fix_id, dt_to_upper_id, route_to_rust}

-- A node with the nodes above it, its parent first.
pub record Place : Type 0 where
  pub node : Node
  pub up : List Node

-- `enum Rule`
mutual
  pub data Rule : Type 0 where
    or : Rules → Rule
    and : Rules → Rule
    has_property : Text → Rule
    compatible : List Text → ℕ → Rule
    root : Rule

  pub data Rules : Type 0 where
    no_rules : Rules
    and_rule : Rule → Rules → Rules

unfoldable pub parent_compatible : Node → List Node → List Text → ℕ → Bool
unfolding is_compatible
parent_compatible n up names zero = any (is_compatible (head n).properties) names
parent_compatible n [] names (suc level) = false
parent_compatible n (above ∷ up) names (suc level) = parent_compatible above up names level

abbrev pub is_none {ℓ} : {A : Type ℓ} → List A → Bool
is_none [] = true
is_none (x ∷ xs) = false

unfoldable mutual
  unfolding parent_compatible has_prop

  -- `Rule::is_compatible`
  pub rule_compatible : Rule → Place → Bool
  rule_compatible (or rules) p = any_compatible rules p
  rule_compatible (and rules) p = all_compatible rules p
  rule_compatible (has_property name) p = has_prop (head p.node).properties name
  rule_compatible (compatible names level) p = parent_compatible p.node p.up names level
  rule_compatible root p = is_none p.up

  -- `rules.iter().any(…)` and `all(…)`
  pub any_compatible : Rules → Place → Bool
  any_compatible no_rules p = false
  any_compatible (and_rule r rs) p = rule_compatible r p || any_compatible rs p

  pub all_compatible : Rules → Place → Bool
  all_compatible no_rules p = true
  all_compatible (and_rule r rs) p = rule_compatible r p && all_compatible rs p

-- `enum ArgInfo`
pub data ArgInfo : Type 0 where
  reg child_idx : ArgInfo

-- `enum RawInfo`
pub data RawInfo : Type 0 where
  myself : RawInfo
  parent : ℕ → List ArgInfo → RawInfo
  phandle : Text → RawInfo

-- `enum Action`
pub data Action : Type 0 where
  device : RawInfo → Text → Option Text → Action
  labels : Action
  raw_properties : Action

-- `struct Augmentation`, without `name`, which no code that it generates has
pub record Augmentation : Type 0 where
  pub rules : Rules
  pub actions : List Action
  pub cfg : Option Text

-- The module of which `get_instance_raw` is called: this one, one above it, or one by its route.
pub data Target : Type 0 where
  own : Target
  super : ℕ → Target
  route : List Text → Target

-- What is generated: `get_instance_raw` of a device, `get_instance` of a type with its static, from
-- the target's raw device and with further arguments, a label's module, or the values of a property.
pub data Code : Type 0 where
  raw_device : ℕ → Option Text → Code
  instance_of : Text → Text → Target → List ℕ → Option Text → Code
  label : Text → List Text → Code
  raw_property : Text → List Value → Code

-- `okay`, `ok`, `status`, `reg` and `crate::device::NoStatic`
abbrev pub okay : Text
okay = 111 ∷ 107 ∷ 97 ∷ 121 ∷ []

abbrev pub ok : Text
ok = 111 ∷ 107 ∷ []

abbrev pub status : Text
status = 115 ∷ 116 ∷ 97 ∷ 116 ∷ 117 ∷ 115 ∷ []

abbrev pub reg_name : Text
reg_name = 114 ∷ 101 ∷ 103 ∷ []

abbrev pub no_static : Text
no_static =
    99 ∷ 114 ∷ 97 ∷ 116 ∷ 101 ∷ 58 ∷ 58 ∷ 100 ∷ 101 ∷ 118 ∷ 105 ∷ 99 ∷ 101 ∷ 58 ∷ 58 ∷ 78 ∷ 111 ∷ 83
    ∷ 116 ∷ 97 ∷ 116 ∷ 105 ∷ 99 ∷ []

-- The `match` of `Myself` on the node's status.
unfoldable pub is_enabled : Node → Bool
unfolding get_single_string eq_text
is_enabled n = elim (get_single_string (head n).properties status) [
  | none ↦ true
  | some s ↦ eq_text s okay || eq_text s ok
]

-- The `match` on an ancestor's status: it has a `get_instance_raw`.
unfoldable pub has_device : Node → Bool
unfolding get_single_string eq_text
has_device n = elim (get_single_string (head n).properties status) [
  | some s ↦ eq_text s okay || eq_text s ok
  | none ↦ true
]

abbrev pub static_or : Option Text → Text
static_or none = no_static
static_or (some t) = t

abbrev pub unwrap {ℓ} : {A : Type ℓ} → Option A → Outcome A
unwrap none = panic
unwrap (some a) = ret a

abbrev pub first : List Node → Option Node
first [] = none
first (n ∷ ns) = some n

-- `ArgInfo::args`
unfoldable pub arg_values : ArgInfo → Place → Outcome (List ℕ)
unfolding get_numbers child_index
arg_values reg p = unwrap (get_numbers (head p.node).properties reg_name)
arg_values child_idx p =
    child_index (first p.up) (head p.node).id >>= λ index. ret (index % 2 ^ 32 ∷ [])

unfoldable pub all_args : List ArgInfo → Place → Outcome (List ℕ)
unfolding arg_values
all_args [] p = ret []
all_args (a ∷ as_) p = arg_values a p >>= λ v. all_args as_ p >>= λ vs. ret (v ++ vs)

-- The walk to the ancestor: so many steps up from a node's ancestors.
unfoldable pub climb : ℕ → List Node → List Node
climb zero up = up
climb (suc n) [] = []
climb (suc n) (above ∷ up) = climb n up

-- The code of a device that an ancestor has: none if the ancestor is there and disabled.
abbrev pub unless_disabled : Option Node → Outcome (List Code) → Outcome (List Code)
unless_disabled none made = made
unless_disabled (some ancestor) made = if has_device ancestor then made else ret []

-- `words[1..].iter().map(|n| n.as_number().unwrap())`
unfoldable pub numbers : List Word → Outcome (List ℕ)
numbers [] = ret []
numbers (Word.number n ∷ ws) = numbers ws >>= λ ns. ret (n ∷ ns)
numbers (Word.phandle ph ∷ ws) = panic

-- The first word, as the node that it refers to.
abbrev pub target_of : List Word → Outcome (ℕ × List Word)
target_of (Word.phandle ph ∷ ws) = unwrap ph.node >>= λ n. ret (n, ws)
target_of _ = panic

-- Upper case, and the route of the node of each number.
module _ (to_uppercase : Text → Text) (routes : ℕ → List Text) where
  -- `RawInfo::generate`
  unfoldable pub raw_generate :
      RawInfo → Place → Text → Option Text → Option Text → Outcome (List Code)
  unfolding get_words numbers all_args route_to_rust
  raw_generate myself p type static_type cfg =
      if is_enabled p.node
      then ret (
          raw_device (head p.node).ord cfg
          ∷ instance_of type (static_or static_type) own [] cfg
          ∷ [])
      else ret []
  raw_generate (phandle pname) p type static_type cfg = do
    words ← unwrap (get_words (head p.node).properties pname)
    (target, rest) ← target_of words
    args ← numbers rest
    ret (
        instance_of type (static_or static_type) (route (route_to_rust (routes target))) args cfg
        ∷ [])
  raw_generate (parent level args) p type static_type cfg = do
    assert (ltb 0 level)
    unless_disabled (first (climb (level - 1) p.up)) (
        all_args args p >>= λ vs.
        ret (instance_of type (static_or static_type) (super level) vs cfg ∷ []))

  -- `RAW_` before the property's name
  unfoldable pub raw_values : List Property → List Code
  unfolding fix_id
  raw_values [] = []
  raw_values (q ∷ qs) =
      raw_property (82 ∷ 65 ∷ 87 ∷ 95 ∷ dt_to_upper_id to_uppercase routes q.name) q.value
      ∷ raw_values qs

  unfoldable pub label_modules : List (Text × ℕ) → List Code
  unfolding fix_id route_to_rust
  label_modules [] = []
  label_modules ((name, target) ∷ ls) =
      label (fix_id name) (route_to_rust (routes target)) ∷ label_modules ls

  -- `Action::generate`, given the labels of the tree in their order
  unfoldable pub action_generate :
      List (Text × ℕ) → Option Text → Action → Place → Outcome (List Code)
  unfolding raw_generate raw_values label_modules
  action_generate ls cfg (device raw type static_type) p = raw_generate raw p type static_type cfg
  action_generate ls cfg labels p = ret (label_modules ls)
  action_generate ls cfg raw_properties p = ret (raw_values (head p.node).properties)

  -- `Augmentation::generate`
  unfoldable pub generate :
      List (Text × ℕ) → Option Text → List Action → Place → Outcome (List Code)
  unfolding action_generate
  generate ls cfg [] p = ret []
  generate ls cfg (a ∷ actions) p = action_generate ls cfg a p >>= λ code.
      generate ls cfg actions p >>= λ codes. ret (code ++ codes)

  -- `Augment::augment`
  unfoldable pub augment : List (Text × ℕ) → Augmentation → Place → Outcome (List Code)
  unfolding generate rule_compatible
  augment ls a p = if all_compatible a.rules p then generate ls a.cfg a.actions p else ret []
