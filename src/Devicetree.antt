-- ===== src/Devicetree.antt =====
-- zephyr-build/src/devicetree.rs: the devicetree of a build.  An `Rc<Node>` is the number that the
-- node was given when it was made, so that `ptr::eq` compares numbers; a cell that is filled in later
-- is an option.
use zephyr_lang_rust.Prelude.{
  ℕ, suc, ◌≡◌, Bool, true, false, ◌&&◌, Option, none, some, List, [], ◌∷◌, ◌++◌, ◌==◌,
  if◌then◌else◌,
}
pub mod Ordmap
pub mod Parse
pub mod Walk
pub mod Resolve
pub mod Query
pub mod Tokens
pub mod Output
pub mod Augment
mod Examples

-- Text is the list of its characters.
abbrev pub Text : Type 0
Text = List ℕ

unfoldable pub eq_text : Text → Text → Bool
eq_text [] [] = true
eq_text [] (d ∷ t) = false
eq_text (c ∷ s) [] = false
eq_text (c ∷ s) (d ∷ t) = (c == d) && eq_text s t

-- A `BTreeMap` from text; what was inserted last is found first.
unfoldable pub lookup {ℓ} : {A : Type ℓ} → Text → List (Text × A) → Option A
unfolding eq_text
lookup k [] = none
lookup k ((k', a) ∷ m) = let rest = lookup k m in if eq_text k k' then some a else rest

-- `struct Phandle`
pub record Phandle : Type 0 where
  pub name : Text
  pub node : Option ℕ

-- `enum Word`
pub data Word : Type 0 where
  number : ℕ → Word
  phandle : Phandle → Word

-- `enum Value`
pub data Value : Type 0 where
  words : List Word → Value
  bytes : List ℕ → Value
  phandle : Phandle → Value
  string : Text → Value

-- `struct Property`
pub record Property : Type 0 where
  pub name : Text
  pub value : List Value

-- The fields of `struct Node` but its children and its parent, and the node's number.
pub record Head : Type 0 where
  pub id : ℕ
  pub name : Text
  pub path : Text
  pub route : List Text
  pub ord : ℕ
  pub labels : List Text
  pub properties : List Property

mutual
  pub data Node : Type 0 where
    node : Head → Nodes → Node

  pub data Nodes : Type 0 where
    no_nodes : Nodes
    and_node : Node → Nodes → Nodes

abbrev pub head : Node → Head
head (node h cs) = h

abbrev pub children : Node → Nodes
children (node h cs) = cs

-- `children.push`
unfoldable pub push_node : Nodes → Node → Nodes
push_node no_nodes n = and_node n no_nodes
push_node (and_node m ms) n = and_node m (push_node ms n)

-- `struct DeviceTree`
pub record DeviceTree : Type 0 where
  pub root : Node
  pub labels : List (Text × ℕ)
