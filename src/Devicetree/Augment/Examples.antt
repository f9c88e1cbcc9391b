-- ===== src/Devicetree/Augment/Examples.antt =====
-- A controller that is enabled, a device below it with a `reg`, and a led that refers to a gpio.
use zephyr_lang_rust.Prelude.{ℕ, ◌<◌, ◌≡◌, refl, ◌⊎◌, none, some, List, [], ◌∷◌, map}
use zephyr_lang_rust.Prelude.Outcome.{ret}
use zephyr_lang_rust.Devicetree.{Text, Phandle, Word, Value, Node, node, no_nodes, and_node, head}
use zephyr_lang_rust.Devicetree.Query.{get_words}
use zephyr_lang_rust.Devicetree.Output.{route_to_rust}
use zephyr_lang_rust.Devicetree.Augment.{
  Place, Rule, no_rules, and_rule, ArgInfo, reg, child_idx, parent, phandle, Action, Augmentation,
  Code, instance_of, super, route, has_device, climb, okay, status, reg_name, static_or,
  raw_generate, augment,
}
use zephyr_lang_rust.Devicetree.Augment.Accepted.{AcceptsAll, Generates, augment-Accepts}
use zephyr_lang_rust.Devicetree.Augment.Instances.{Backed, parent-raw_device, phandle-instance}

-- `gpio`, and the type `Pin`
abbrev gpio : Text
gpio = 103 ∷ 112 ∷ 105 ∷ 111 ∷ []

abbrev pin : Text
pin = 80 ∷ 105 ∷ 110 ∷ []

abbrev below : Node
below =
    node
      (record {
        id = 2;
        name = pin;
        path = pin;
        route = pin ∷ [];
        ord = 7;
        labels = [];
        properties =
            record { name = reg_name; value = Value.words (Word.number 3 ∷ []) ∷ [] }
            ∷ record {
              name = gpio;
              value =
                  Value.words
                    (Word.phandle (record { name = gpio; node = some 1 }) ∷ Word.number 4 ∷ [])
                  ∷ [];
            }
            ∷ [];
      })
      no_nodes

abbrev controller : Node
controller =
    node
      (record {
        id = 1;
        name = gpio;
        path = gpio;
        route = gpio ∷ [];
        ord = 5;
        labels = [];
        properties = record { name = status; value = Value.string okay ∷ [] } ∷ [];
      })
      (and_node below no_nodes)

abbrev place : Place
place = record { node = below; up = controller ∷ [] }

abbrev as_is : Text → Text
as_is t = t

abbrev routes : ℕ → List Text
routes n = gpio ∷ []

abbrev with_args : List ArgInfo
with_args = reg ∷ child_idx ∷ []

parent_generates :
    raw_generate as_is routes (parent 1 with_args) place pin none none
    ≡ ret (instance_of pin (static_or none) (super 1) (3 ∷ 0 ∷ []) none ∷ [])
unfolding raw_generate has_device climb
parent_generates = refl

parent-raw_device_example :
    (0 < 1)
    × ((vs : List ℕ) × (instance_of pin (static_or none) (super 1) (3 ∷ 0 ∷ []) none
          ≡ instance_of pin (static_or none) (super 1) vs none)
        × (◌≡◌ {A = List Code} [] []))
    × Backed as_is routes (some controller) [] pin none none
parent-raw_device_example =
    parent-raw_device as_is routes 1 with_args place pin none none [] pin none none
      (instance_of pin (static_or none) (super 1) (3 ∷ 0 ∷ []) none) [] parent_generates

phandle_generates :
    raw_generate as_is routes (phandle gpio) place pin none none
    ≡ ret (instance_of pin (static_or none) (route (gpio ∷ [])) (4 ∷ []) none ∷ [])
unfolding raw_generate
phandle_generates = refl

phandle-instance_example :
    (ph : Phandle) × (target : ℕ) × (ns : List ℕ) × (get_words (head below).properties gpio
      ≡ some (Word.phandle ph ∷ map (λ n. Word.number n) ns))
    × (ph.node ≡ some target)
    × (instance_of pin (static_or none) (route (gpio ∷ [])) (4 ∷ []) none ∷ []
        ≡ instance_of pin (static_or none) (route (route_to_rust (routes target))) ns none ∷ [])
phandle-instance_example =
    phandle-instance as_is routes gpio place pin none none
      (instance_of pin (static_or none) (route (gpio ∷ [])) (4 ∷ []) none ∷ []) phandle_generates

abbrev on_gpio : Augmentation
on_gpio = record {
  rules = and_rule (Rule.has_property gpio) (and_rule (Rule.compatible (pin ∷ []) 1) no_rules);
  actions = Action.device (phandle gpio) pin none ∷ [];
  cfg = none;
}

augment-Accepts_example :
    AcceptsAll place on_gpio.rules × Generates as_is routes [] on_gpio place
    ⊎ (¬ AcceptsAll place on_gpio.rules) × (augment as_is routes [] on_gpio place ≡ ret [])
augment-Accepts_example = augment-Accepts as_is routes [] on_gpio place
