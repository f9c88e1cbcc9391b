-- ===== src/Devicetree/Resolve/Total.antt =====
-- When every reference has its label, resolving the tree does not panic and leaves none open.
use zephyr_lang_rust.Prelude.{
  ℕ, ◌≡◌, ◌≢◌, inl, inr, refl, sym, Option-cases, none, some, List, [], ◌∷◌, arith,
}
use zephyr_lang_rust.Prelude.Outcome.{Outcome, ret, each}
use zephyr_lang_rust.Devicetree.{
  Text, lookup, Phandle, Word, Value, Property, Node, node, Nodes, no_nodes, and_node,
}
use zephyr_lang_rust.Devicetree.Resolve.{
  phandle_resolve, word_walk, value_walk, property_walk, phandle_walk, phandle_walk_all,
}

abbrev pub All {ℓ κ} : {A : Type ℓ} → (A → Type κ) → List A → Type κ
All P [] = Unit
All P (a ∷ l) = P a × All P l

-- What holds of every reference of a word, a value, a property and a tree.
module _ (P : Phandle → Type 0) where
  abbrev pub InWord : Word → Type 0
  InWord (Word.number n) = Unit
  InWord (Word.phandle ph) = P ph

  abbrev pub InValue : Value → Type 0
  InValue (Value.words ws) = All InWord ws
  InValue (Value.phandle ph) = P ph
  InValue _ = Unit

  abbrev pub InProperty : Property → Type 0
  InProperty p = All InValue p.value

  unfoldable mutual
    pub InNode : Node → Type 0
    InNode (node h cs) = All InProperty h.properties × InNodes cs

    pub InNodes : Nodes → Type 0
    InNodes no_nodes = Unit
    InNodes (and_node n ns) = InNode n × InNodes ns

abbrev pub Labelled : List (Text × ℕ) → Phandle → Type 0
Labelled labels ph = (id : ℕ) × (lookup ph.name labels ≡ some id)

-- What holds of each element of a list and the one in its place in another.
abbrev pub All2 {ℓ} : {A : Type ℓ} → (A → A → Type 0) → List A → List A → Type 0
All2 R [] [] = Unit
All2 R (a ∷ l) (b ∷ k) = R a b × All2 R l k
All2 R _ _ = ⊥

abbrev Returns {ℓ κ} : {A : Type ℓ} → Outcome A → (A → Type κ) → Type (ℓ ⊔ κ)
Returns {A} o Q = (a : A) × (o ≡ ret a) × Q a

each-Returns {ℓ κ} :
    {A : Type ℓ} (f : A → Outcome A) (P : A → Type κ) (Q : A → A → Type 0)
    → ((a : A) → P a → Returns (f a) (Q a))
    → (l : List A) → All P l
    → Returns (each f l) (All2 Q l)
each-Returns f P Q one [] w = ([], refl, tt)
each-Returns f P Q one (a ∷ l) (p, w) =
    let (b, e, q) = one a p in
    let (l', e', w') = each-Returns f P Q one l w in (b ∷ l', rw (e, e') refl, (q, w'))

-- A tree and the same with its references resolved: the same shape, names and numbers throughout.
module _ (labels : List (Text × ℕ)) where
  -- A reference that was filled is as before; one that was open has the node of its label.
  abbrev pub Resolved : Phandle → Phandle → Type 0
  Resolved ph ph' =
      (ph'.name ≡ ph.name)
      × (elim ph.node [ some id ↦ ph'.node ≡ some id | none ↦ ph'.node ≡ lookup ph.name labels ])
      × (ph'.node ≢ none)

  abbrev pub ResolvedWord : Word → Word → Type 0
  ResolvedWord (Word.number n) w = w ≡ Word.number n
  ResolvedWord (Word.phandle ph) (Word.phandle ph') = Resolved ph ph'
  ResolvedWord (Word.phandle ph) (Word.number n) = ⊥

  abbrev pub ResolvedValue : Value → Value → Type 0
  ResolvedValue (Value.words ws) (Value.words ws') = All2 ResolvedWord ws ws'
  ResolvedValue (Value.phandle ph) (Value.phandle ph') = Resolved ph ph'
  ResolvedValue (Value.bytes bs) v = v ≡ Value.bytes bs
  ResolvedValue (Value.string t) v = v ≡ Value.string t
  ResolvedValue _ _ = ⊥

  abbrev pub ResolvedProperty : Property → Property → Type 0
  ResolvedProperty p p' = (p'.name ≡ p.name) × All2 ResolvedValue p.value p'.value

  unfoldable mutual
    pub ResolvedNode : Node → Node → Type 0
    ResolvedNode (node h cs) (node h' cs') =
        (h' ≡ record h { properties = h'.properties })
        × All2 ResolvedProperty h.properties h'.properties
        × ResolvedNodes cs cs'

    pub ResolvedNodes : Nodes → Nodes → Type 0
    ResolvedNodes no_nodes no_nodes = Unit
    ResolvedNodes (and_node n ns) (and_node n' ns') = ResolvedNode n n' × ResolvedNodes ns ns'
    ResolvedNodes _ _ = ⊥

  resolve_open :
      (ph : Phandle) (id : ℕ)
      → ph.node ≡ none
      → lookup ph.name labels ≡ some id
      → phandle_resolve labels ph ≡ ret (record { name = ph.name; node = some id })
  unfolding phandle_resolve
  resolve_open ph id n e = ground arith

  resolve_one :
      (ph : Phandle) → Labelled labels ph → Returns (phandle_resolve labels ph) (Resolved ph)
  unfolding phandle_resolve
  resolve_one ph (id, e) = elim (Option-cases ph.node) [
    | inl open_cell ↦ (
      record { name = ph.name; node = some id },
      resolve_open ph id open_cell e,
      (refl, rw open_cell (sym e), λ d. cc),
    )
    | inr (i, filled) ↦ (ph, rw filled refl, (refl, rw filled filled, λ d. cc (d, filled)))
  ]

  resolve_word :
      (w : Word) → InWord (Labelled labels) w → Returns (word_walk labels w) (ResolvedWord w)
  unfolding word_walk
  resolve_word (Word.number n) h = (Word.number n, refl, refl)
  resolve_word (Word.phandle ph) h =
      let (ph', e, r) = resolve_one ph h in (Word.phandle ph', rw e refl, r)

  resolve_value :
      (v : Value) → InValue (Labelled labels) v → Returns (value_walk labels v) (ResolvedValue v)
  unfolding value_walk
  resolve_value (Value.phandle ph) h =
      let (ph', e, r) = resolve_one ph h in (Value.phandle ph', rw e refl, r)
  resolve_value (Value.words ws) h =
      let (ws', e, r) = each-Returns (word_walk labels) _ ResolvedWord resolve_word ws h in
      (Value.words ws', rw e refl, r)
  resolve_value (Value.bytes bs) h = (Value.bytes bs, refl, refl)
  resolve_value (Value.string t) h = (Value.string t, refl, refl)

  resolve_property :
      (p : Property)
      → InProperty (Labelled labels) p
      → Returns (property_walk labels p) (ResolvedProperty p)
  unfolding property_walk
  resolve_property p h =
      let (vs, e, r) = each-Returns (value_walk labels) _ ResolvedValue resolve_value p.value h in
      (record { name = p.name; value = vs }, rw e refl, (refl, r))

  mutual
    unfolding phandle_walk InNode ResolvedNode

    walk_total :
        (n : Node)
        → InNode (Labelled labels) n
        → (n' : Node) × (phandle_walk labels n ≡ ret n') × ResolvedNode n n'
    walk_total (node h cs) (w, v) =
        let (ps, e, r) =
          each-Returns (property_walk labels) _ ResolvedProperty resolve_property h.properties w in
        let (cs', e', r') = walk_all_total cs v in
        (node (record h { properties = ps }) cs', rw (e, e') refl, (refl, r, r'))

    walk_all_total :
        (ns : Nodes)
        → InNodes (Labelled labels) ns
        → (ns' : Nodes) × (phandle_walk_all labels ns ≡ ret ns') × ResolvedNodes ns ns'
    walk_all_total no_nodes w = (no_nodes, refl, tt)
    walk_all_total (and_node n ns) (w, v) =
        let (n', e, r) = walk_total n w in
        let (ns', e', r') = walk_all_total ns v in (and_node n' ns', rw (e, e') refl, (r, r'))

  -- When the name of every reference is a label, resolving a tree returns the same tree but for its
  -- references, and each of those has a target: the one that it had, or the node of its label.
  pub phandle_walk-total :
      (n : Node)
      → InNode (Labelled labels) n
      → (n' : Node) × (phandle_walk labels n ≡ ret n') × ResolvedNode n n'
  phandle_walk-total n w = walk_total n w
