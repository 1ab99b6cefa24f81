-- ===== src/Vmf/Codec/Decode.antt =====
-- `decodeContainer`, `decodeRoot`, and the part of `Codec::decode` in front of the validation, over
-- any reader of values. A call that adds a diagnostic and fails is `none`.
use wargame.Prelude.{
  ℕ, zero, suc, ◌+◌, ◌*◌, ◌/◌, Bool, true, false, not, ◌&&◌, ◌||◌, String, List, [], ◌∷◌, ◌++◌,
  Option, none, some, ltb, ◌==◌, str_eq, is_empty, length, if◌then◌else◌,
}
use wargame.Vmf.BitStream.{BitReader, new_reader, read, remaining_bits_are_zero}
use wargame.Vmf.Codec.Tree.{
  Numerals, Head, XmlNode, node, no_nodes, of_nodes, Spec, spec, Specs, no_specs, then_spec,
  is_value_node, child, read_node_value, presence_tag, repeat_tag, FieldLayout, layout_of,
  MessageXml,
}

-- What decoding asks of a reader: `read` and `offset`.
pub record Reader : Type 1 where
  pub State : Type 0
  pub read_value : ℕ → State → Option (ℕ × State)
  pub position : State → ℕ

abbrev pub bit_reader : Reader
bit_reader = record { State = BitReader; read_value = read; position = λ r. r.offset }

-- The attributes of a node that was not empty in the dictionary.
unfoldable pub given : String → String → List (String × String) → List (String × String)
given key v rest = if is_empty v then rest else (key, v) ∷ rest

unfoldable pub value_head : Numerals → Spec → ℕ → Head
value_head m s value = record {
  tag = s.tag;
  attributes = given "name" s.name (given "DFI" s.dfi (given "DUI" s.dui []));
  text = m.number value;
}

unfoldable pub container_head : Spec → Head
container_head s = record { tag = s.tag; attributes = given "name" s.name []; text = "" }

unfoldable pub max_count : Spec → ℕ
max_count s = if s.max_repeat == 0 then 1024 else s.max_repeat

module _ (m : Numerals) where
  -- `readNodeValue`, which leaves a 0 where it fails.
  unfoldable pub value_or_zero : XmlNode → ℕ
  value_or_zero n = elim (read_node_value m n) [ none ↦ 0 | some v ↦ v ]

  -- The last instance of a repeated container, where its repeat indicator is missing: it ends the
  -- sequence if the tag of the outer presence indicator stands in it with a 0.
  unfoldable pub ends_absent : String → Spec → List XmlNode → Bool
  ends_absent outer s kids = elim (child outer kids) [
    | none ↦ false
    | some optional ↦
        s.selectable && elim (read_node_value m optional) [ none ↦ false | some v ↦ v == 0 ]
  ]

  -- What an instance says of the next one: `none` is a failure.
  unfoldable pub follows : String → Spec → List XmlNode → Option Bool
  follows outer s kids = elim (child (repeat_tag s) kids) [
    | none ↦ if ends_absent outer s kids then some false else none
    | some indicator ↦ elim (read_node_value m indicator) [
      | none ↦ none
      | some v ↦ if ltb 1 v then none else some (v == 1)
    ]
  ]

module _ (m : Numerals) (r : Reader) where
  -- The reader and the fields so far.
  pub record Reading : Type 0 where
    pub reader : r.State
    pub fields : List FieldLayout

  -- The children of a container, with what is left to read.
  abbrev pub Decoded : Type 0
  Decoded = Option (List XmlNode × Reading)

  unfoldable pub decode_value : Spec → List XmlNode → Reading → Decoded
  decode_value s kids st = elim (r.read_value s.bits st.reader) [
    | none ↦ none
    | some (value, reader) ↦ some (
      kids ++ node (value_head m s value) no_nodes ∷ [],
      record {
        reader = reader;
        fields = st.fields ++ layout_of s value (r.position st.reader) ∷ [];
      },
    )
  ]

  -- Behind the presence indicator: its value decides whether the rest of the container follows.
  unfoldable pub after_presence :
      String → (List XmlNode → Reading → Decoded) → List XmlNode → Reading → Decoded
  after_presence tag rest kids st = elim (child tag kids) [
    | none ↦ none
    | some indicator ↦
        let value = value_or_zero m indicator in
        if not (value == 0) && not (value == 1)
        then none
        else if value == 1
        then rest kids st
        else some (kids, st)
  ]

  -- A container with the functions that decode all its children, and all but the first.
  unfoldable pub enter :
      Spec
      → Specs
      → (List XmlNode → Reading → Decoded)
      → (List XmlNode → Reading → Decoded)
      → Reading
      → Decoded
  enter s no_specs all rest st = if s.selectable then none else all [] st
  enter s (then_spec (spec t ts) cs) all rest st =
      if s.selectable
      then if str_eq t.tag (presence_tag s)
        then elim (decode_value t [] st) [
          | none ↦ none
          | some (kids, st') ↦ after_presence (presence_tag s) rest kids st'
        ]
        else none
      else all [] st

  -- The loop over the instances; `left` counts down from the greatest number of them.
  unfoldable pub decode_repeats :
      ℕ → String → Spec → (Reading → Decoded) → List XmlNode → Reading → Decoded
  decode_repeats zero outer s instance_ kids st = none
  decode_repeats (suc left) outer s instance_ kids st = elim (instance_ st) [
    | none ↦ none
    | some (below, st') ↦
        let kids' = kids ++ node (container_head s) (of_nodes below) ∷ [] in
        elim (follows m outer s below) [
          | none ↦ none
          | some true ↦ decode_repeats left outer s instance_ kids' st'
          | some false ↦ some (kids', st')
        ]
  ]

  -- One child of a container, in front of the rest.
  unfoldable pub decode_child :
      String → Bool → Spec → (Reading → Decoded) → List XmlNode → Reading → Decoded
  decode_child outer true s below kids st = decode_value s kids st
  decode_child outer false s below kids st =
      if s.repeatable
      then if str_eq s.tag "Group" || str_eq s.tag "Field"
        then decode_repeats (max_count s) outer s below kids st
        else none
      else elim (below st) [
        | none ↦ none
        | some (inner, st') ↦ some (kids ++ node (container_head s) (of_nodes inner) ∷ [], st')
      ]

  unfoldable mutual
    pub decode_specs : String → Specs → List XmlNode → Reading → Decoded
    decode_specs outer no_specs kids st = some (kids, st)
    decode_specs outer (then_spec (spec s cs) rest) kids st =
        elim (decode_child outer (is_value_node s cs) s
          (enter s cs (decode_specs (presence_tag s) cs) (decode_tail (presence_tag s) cs)) kids
          st) [ none ↦ none | some (kids', st') ↦ decode_specs outer rest kids' st' ]

    pub decode_tail : String → Specs → List XmlNode → Reading → Decoded
    decode_tail outer no_specs kids st = some (kids, st)
    decode_tail outer (then_spec c rest) kids st = decode_specs outer rest kids st

  unfoldable pub decode_container : Spec → Specs → Reading → Decoded
  decode_container s cs st =
      enter s cs (decode_specs (presence_tag s) cs) (decode_tail (presence_tag s) cs) st

  -- The header and the body, each with its dictionary's node.
  unfoldable pub decode_root :
      Spec → Specs → Spec → Specs → Reading → Option ((List XmlNode × List XmlNode) × Reading)
  decode_root hs header bs body st = elim (decode_container hs header st) [
    | none ↦ none
    | some (above, st') ↦ elim (decode_container bs body st') [
      | none ↦ none
      | some (below, st'') ↦ some ((above, below), st'')
    ]
  ]

abbrev pub root_head : String → Head
root_head tag = record { tag = tag; attributes = []; text = "" }

-- The value of the first field called `length`, or 0.
unfoldable pub declared_length : List FieldLayout → ℕ
declared_length [] = 0
declared_length (f ∷ fs) = if str_eq f.name "length" then f.value else declared_length fs

-- The part of `decode` behind the count of the bits.
unfoldable pub decode_bits :
    (m : Numerals)
    → Spec
    → Specs
    → Spec
    → Specs
    → String
    → List ℕ
    → ℕ
    → Option (MessageXml × Reading m bit_reader)
decode_bits m hs header bs body name bytes bits =
    if bits == 0 || ltb (length bytes * 8) bits
    then none
    else elim (decode_root m bit_reader hs header bs body
        (record { reader = new_reader bytes bits; fields = [] })) [
          | none ↦ none
          | some ((above, below), st) ↦
              if not (remaining_bits_are_zero st.reader)
                || not (declared_length st.fields == (bits + 7) / 8)
              then none
              else some (
                record {
                  message = name;
                  header = node (root_head "Header") (of_nodes above);
                  body = node (root_head "Body") (of_nodes below);
                },
                st,
              )
        ]

-- `actualBits`.
abbrev pub stream_bits : List ℕ → ℕ → ℕ
stream_bits bytes bit_length = if bit_length == 0 then length bytes * 8 else bit_length

unfoldable pub decode :
    (m : Numerals)
    → Spec
    → Specs
    → Spec
    → Specs
    → String
    → List ℕ
    → ℕ
    → Option (MessageXml × Reading m bit_reader)
decode m hs header bs body name bytes bit_length =
    decode_bits m hs header bs body name bytes (stream_bits bytes bit_length)
