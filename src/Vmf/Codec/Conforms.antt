-- ===== src/Vmf/Codec/Conforms.antt =====
-- What a message has to be for `decode` to understand what `encode` writes: every node that the
-- dictionary names stands there once, a repeated one at least once, and the indicators tell what
-- follows. With it go the values in the order they are written and the nodes in the dictionary's
-- order.
use wargame.Prelude.{
  ℕ, suc, ◌≡◌, true, false, ◌||◌, String, List, [], ◌∷◌, ◌++◌, none, some, str_eq, ap, refl,
}
use wargame.Vmf.BitStream.Writer.{Fits}
use wargame.Vmf.Codec.Tree.{
  Numerals, XmlNode, node, no_nodes, of_nodes, Spec, spec, Specs, no_specs, then_spec,
  is_value_node, child, find_instances, read_node_value, presence_tag, repeat_tag, FieldLayout,
}
use wargame.Vmf.Codec.Decode.{value_head, container_head, max_count}

-- The values of a message, each with the dictionary's node for it.
abbrev pub Values : Type 0
Values = List (Spec × ℕ)

-- The names and values of the fields.
unfoldable pub told : List FieldLayout → List (String × ℕ)
told [] = []
told (f ∷ fs) = (f.name, f.value) ∷ told fs

unfoldable pub names : Values → List (String × ℕ)
names [] = []
names ((s, v) ∷ vs) = (s.name, v) ∷ names vs

pub told-append : (fs gs : List FieldLayout) → told (fs ++ gs) ≡ told fs ++ told gs
unfolding told
told-append [] gs = refl
told-append (f ∷ fs) gs = ap (λ l. (f.name, f.value) ∷ l) (told-append fs gs)

pub names-append : (vs vs' : Values) → names (vs ++ vs') ≡ names vs ++ names vs'
unfolding names
names-append [] vs' = refl
names-append ((s, v) ∷ vs) vs' = ap (λ l. (s.name, v) ∷ l) (names-append vs vs')

-- What is told of: the children of a node, under the tag of its presence indicator; a container;
-- or the instances of a repeated one, with the greatest number of them.
pub data Part : Type 0 where
  below : String → Specs → XmlNode → Part
  inside : Spec → Specs → XmlNode → Part
  instances : ℕ → String → Spec → Specs → List XmlNode → Part

-- No node that the dictionary names stands in the message.
abbrev pub Lacks : Specs → XmlNode → Type 0
Lacks no_specs a = Unit {0}
Lacks (then_spec (spec s cs) rest) a = (find_instances s a ≡ []) × Lacks rest a

module _ (m : Numerals) where
  abbrev pub value_node : Spec → ℕ → XmlNode
  value_node s v = node (value_head m s v) no_nodes

  abbrev pub container_node : Spec → List XmlNode → XmlNode
  container_node s kids = node (container_head s) (of_nodes kids)

  -- The first node of a tag has the value.
  abbrev pub Reads : String → List XmlNode → ℕ → Type 0
  Reads tag kids v = (n : XmlNode) × (child tag kids ≡ some n) × (read_node_value m n ≡ some v)

  -- The one match of a value node, and its value.
  abbrev pub Single : Spec → XmlNode → ℕ → Type 0
  Single s a v =
      (n : XmlNode) × (find_instances s a ≡ n ∷ []) × (read_node_value m n ≡ some v) × Fits v s.bits

  pub data Conforms : Part → Values → List XmlNode → Type 0 where
    done : {outer : String} {a : XmlNode} → Conforms (below outer no_specs a) [] []
    item :
        {outer : String} {s : Spec} {cs rest : Specs} {a : XmlNode} {v : ℕ} {vs : Values}
        {kids : List XmlNode}
        → is_value_node s cs ≡ true
        → Single s a v
        → Conforms (below outer rest a) vs kids
        → Conforms
            (below outer (then_spec (spec s cs) rest) a)
            ((s, v) ∷ vs)
            (value_node s v ∷ kids)
    once :
        {outer : String} {s : Spec} {cs rest : Specs} {a n : XmlNode} {vs vs' : Values}
        {kids kids' : List XmlNode}
        → is_value_node s cs ≡ false
        → s.repeatable ≡ false
        → find_instances s a ≡ n ∷ []
        → Conforms (inside s cs n) vs kids
        → Conforms (below outer rest a) vs' kids'
        → Conforms
            (below outer (then_spec (spec s cs) rest) a)
            (vs ++ vs')
            (container_node s kids ∷ kids')
    many :
        {outer : String} {s : Spec} {cs rest : Specs} {a : XmlNode} {vs vs' : Values}
        {kids kids' : List XmlNode}
        → is_value_node s cs ≡ false
        → s.repeatable ≡ true
        → (str_eq s.tag "Group" || str_eq s.tag "Field") ≡ true
        → Conforms (instances (max_count s) outer s cs (find_instances s a)) vs kids
        → Conforms (below outer rest a) vs' kids'
        → Conforms (below outer (then_spec (spec s cs) rest) a) (vs ++ vs') (kids ++ kids')
    last :
        {left : ℕ} {outer : String} {s : Spec} {cs : Specs} {n : XmlNode} {vs : Values}
        {kids : List XmlNode}
        → Conforms (inside s cs n) vs kids
        → Reads (repeat_tag s) kids 0
        → Conforms (instances (suc left) outer s cs (n ∷ [])) vs (container_node s kids ∷ [])
    last_absent :
        {left : ℕ} {outer : String} {s : Spec} {cs : Specs} {n : XmlNode} {vs : Values}
        {kids : List XmlNode}
        → Conforms (inside s cs n) vs kids
        → child (repeat_tag s) kids ≡ none
        → s.selectable ≡ true
        → Reads outer kids 0
        → Conforms (instances (suc left) outer s cs (n ∷ [])) vs (container_node s kids ∷ [])
    next :
        {left : ℕ} {outer : String} {s : Spec} {cs : Specs} {n n' : XmlNode} {ns : List XmlNode}
        {vs vs' : Values} {kids kids' : List XmlNode}
        → Conforms (inside s cs n) vs kids
        → Reads (repeat_tag s) kids 1
        → Conforms (instances left outer s cs (n' ∷ ns)) vs' kids'
        → Conforms
            (instances (suc left) outer s cs (n ∷ n' ∷ ns))
            (vs ++ vs')
            (container_node s kids ∷ kids')
    plain :
        {s : Spec} {cs : Specs} {n : XmlNode} {vs : Values} {kids : List XmlNode}
        → s.selectable ≡ false
        → Conforms (below (presence_tag s) cs n) vs kids
        → Conforms (inside s cs n) vs kids
    present :
        {s t : Spec} {ts rest : Specs} {n : XmlNode} {vs : Values} {kids : List XmlNode}
        → s.selectable ≡ true
        → str_eq t.tag (presence_tag s) ≡ true
        → is_value_node t ts ≡ true
        → Single t n 1
        → Conforms (below (presence_tag s) rest n) vs kids
        → Conforms (inside s (then_spec (spec t ts) rest) n) ((t, 1) ∷ vs) (value_node t 1 ∷ kids)
    absent :
        {s t : Spec} {ts rest : Specs} {n : XmlNode}
        → s.selectable ≡ true
        → str_eq t.tag (presence_tag s) ≡ true
        → is_value_node t ts ≡ true
        → Single t n 0
        → Lacks rest n
        → Conforms (inside s (then_spec (spec t ts) rest) n) ((t, 0) ∷ []) (value_node t 0 ∷ [])
