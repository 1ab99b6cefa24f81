-- ===== src/Vmf/Codec/Tree.antt =====
-- `XmlNode` and `SpecNode`, the search for a node's children, and the values that texts stand for.
use wargame.Prelude.{
  ℕ, Bool, true, not, ◌&&◌, ◌||◌, String, List, [], ◌∷◌, Option, none, some, ltb, str_eq, ◌≡◌,
  is_empty, if◌then◌else◌,
}

-- What `parseUnsigned` and `QString::number` take from Qt.
pub record Numerals : Type 0 where
  pub trimmed : String → String
  -- `startsWith("0x", Qt::CaseInsensitive)` and `mid(2)`.
  pub is_hex : String → Bool
  pub without_prefix : String → String
  -- `toULongLong(&ok, base)`; `none` where it is not ok.
  pub to_ulonglong : String → ℕ → Option ℕ
  pub number : ℕ → String

pub record Head : Type 0 where
  pub tag : String
  pub attributes : List (String × String)
  pub text : String

mutual
  pub data XmlNode : Type 0 where
    node : Head → Nodes → XmlNode

  pub data Nodes : Type 0 where
    no_nodes : Nodes
    then_node : XmlNode → Nodes → Nodes

abbrev pub head_of : XmlNode → Head
head_of (node h kids) = h

abbrev pub nodes_of : Nodes → List XmlNode
nodes_of no_nodes = []
nodes_of (then_node n ns) = n ∷ nodes_of ns

abbrev pub of_nodes : List XmlNode → Nodes
of_nodes [] = no_nodes
of_nodes (n ∷ ns) = then_node n (of_nodes ns)

abbrev pub children_of : XmlNode → List XmlNode
children_of (node h kids) = nodes_of kids

-- The fields of a `SpecNode` but for its children; `max_repeat` is 0 where the source has -1.
pub record Spec : Type 0 where
  pub tag : String
  pub name : String
  pub dfi : String
  pub dui : String
  pub bits : ℕ
  pub repeatable : Bool
  pub selectable : Bool
  pub max_repeat : ℕ

mutual
  pub data SpecNode : Type 0 where
    spec : Spec → Specs → SpecNode

  pub data Specs : Type 0 where
    no_specs : Specs
    then_spec : SpecNode → Specs → Specs

-- `attributes.value(key)`.
unfoldable pub attribute : List (String × String) → String → String
attribute [] key = ""
attribute ((k, v) ∷ rest) key = if str_eq k key then v else attribute rest key

unfoldable pub is_value_node : Spec → Specs → Bool
is_value_node s no_specs =
    str_eq s.tag "DataUnit"
    || str_eq s.tag "GRI"
    || str_eq s.tag "FRI"
    || str_eq s.tag "GPI"
    || str_eq s.tag "FPI"
    || str_eq s.tag "Field"
is_value_node s (then_spec c cs) =
    str_eq s.tag "DataUnit"
    || str_eq s.tag "GRI"
    || str_eq s.tag "FRI"
    || str_eq s.tag "GPI"
    || str_eq s.tag "FPI"

-- The test of `child` and `children`: the tag, and the name where one is asked for.
unfoldable pub is_named : String → String → XmlNode → Bool
is_named tag name n =
    str_eq (head_of n).tag tag
    && (is_empty name || str_eq (attribute (head_of n).attributes "name") name)

unfoldable pub children : String → String → List XmlNode → List XmlNode
children tag name [] = []
children tag name (n ∷ ns) =
    if is_named tag name n then n ∷ children tag name ns else children tag name ns

-- `child(parent, tag)`.
unfoldable pub child : String → List XmlNode → Option XmlNode
child tag [] = none
child tag (n ∷ ns) = if str_eq (head_of n).tag tag then some n else child tag ns

-- The test of `findInstances` for a data unit.
unfoldable pub is_unit : Spec → XmlNode → Bool
is_unit s n =
    str_eq (head_of n).tag "DataUnit"
    && ((not (is_empty s.name) && str_eq (attribute (head_of n).attributes "name") s.name)
        || (str_eq (attribute (head_of n).attributes "DFI") s.dfi
            && str_eq (attribute (head_of n).attributes "DUI") s.dui))

unfoldable pub units_of : Spec → List XmlNode → List XmlNode
units_of s [] = []
units_of s (n ∷ ns) = if is_unit s n then n ∷ units_of s ns else units_of s ns

unfoldable pub find_instances : Spec → XmlNode → List XmlNode
find_instances s n =
    if str_eq s.tag "DataUnit"
    then units_of s (children_of n)
    else children s.tag s.name (children_of n)

module _ (m : Numerals) where
  unfoldable pub parse_unsigned : String → Option ℕ
  parse_unsigned raw =
      let input = m.trimmed raw in
      if is_empty input
      then none
      else if m.is_hex input
      then m.to_ulonglong (m.without_prefix input) 16
      else m.to_ulonglong input 10

  unfoldable pub read_node_value : XmlNode → Option ℕ
  read_node_value n = parse_unsigned (head_of n).text

  -- What the code relies on: a number below 2 ^ 64 that Qt prints is read back.
  abbrev pub ReadsBack : Type 0
  ReadsBack = (v : ℕ) → ltb v 18446744073709551616 ≡ true → parse_unsigned (m.number v) ≡ some v

-- The tags of the indicators of a container.
unfoldable pub presence_tag : Spec → String
presence_tag s = if str_eq s.tag "Group" then "GPI" else "FPI"

unfoldable pub repeat_tag : Spec → String
repeat_tag s = if str_eq s.tag "Group" then "GRI" else "FRI"

-- `MessageXml` but for the case id.
pub record MessageXml : Type 0 where
  pub message : String
  pub header : XmlNode
  pub body : XmlNode

-- `FieldLayout` but for its path.
pub record FieldLayout : Type 0 where
  pub tag : String
  pub name : String
  pub dfi : String
  pub dui : String
  pub value : ℕ
  pub bit_offset : ℕ
  pub bits : ℕ

abbrev pub layout_of : Spec → ℕ → ℕ → FieldLayout
layout_of s value offset = record {
  tag = s.tag;
  name = s.name;
  dfi = s.dfi;
  dui = s.dui;
  value = value;
  bit_offset = offset;
  bits = s.bits;
}
