-- ===== src/Vmf/Codec/Encode.antt =====
-- `encodeNodes`, and the part of `Codec::encode` behind the validation. A call that adds a
-- diagnostic and fails is `none`.
use wargame.Prelude.{
  ◌+◌, ◌/◌, Bool, true, false, List, [], ◌∷◌, ◌++◌, Option, none, some, str_eq, if◌then◌else◌,
}
use wargame.Vmf.BitStream.{BitWriter, new_writer, write, overwrite}
use wargame.Vmf.Codec.Tree.{
  Numerals, XmlNode, Spec, spec, Specs, no_specs, then_spec, is_value_node, find_instances,
  read_node_value, FieldLayout, layout_of, MessageXml,
}

-- The writer and the fields so far.
pub record Writing : Type 0 where
  pub writer : BitWriter
  pub fields : List FieldLayout

-- A child that is not repeatable stands for its first match only.
unfoldable pub taken : Bool → List XmlNode → List XmlNode
taken true ns = ns
taken false [] = []
taken false (n ∷ ns) = n ∷ []

-- The loop over the matches of one child.
unfoldable pub encode_each :
    (XmlNode → Writing → Option Writing) → List XmlNode → Writing → Option Writing
encode_each f [] w = some w
encode_each f (n ∷ ns) w = elim (f n w) [ none ↦ none | some w' ↦ encode_each f ns w' ]

module _ (m : Numerals) where
  unfoldable pub encode_value : Spec → XmlNode → Writing → Option Writing
  encode_value s n w = elim (read_node_value m n) [
    | none ↦ none
    | some value ↦ elim (write value s.bits w.writer) [
      | none ↦ none
      | some writer ↦ some (record {
        writer = writer;
        fields = w.fields ++ layout_of s value w.writer.bit_length ∷ [];
      })
    ]
  ]

  -- One match of a child: its value, or the nodes below it.
  unfoldable pub encode_node :
      Bool → Spec → (XmlNode → Writing → Option Writing) → XmlNode → Writing → Option Writing
  encode_node true s below n w = encode_value s n w
  encode_node false s below n w = below n w

  unfoldable pub encode_nodes : Specs → XmlNode → Writing → Option Writing
  encode_nodes no_specs actual w = some w
  encode_nodes (then_spec (spec s cs) rest) actual w =
      elim (encode_each (encode_node (is_value_node s cs) s (encode_nodes cs))
        (taken s.repeatable (find_instances s actual)) w) [
          | none ↦ none
          | some w' ↦ encode_nodes rest actual w'
        ]

  unfoldable pub encode_root : Specs → Specs → MessageXml → Option Writing
  encode_root header body message =
      elim (encode_nodes header message.header (record { writer = new_writer; fields = [] })) [
        | none ↦ none
        | some w ↦ encode_nodes body message.body w
      ]

-- The first field called `length` is written over with the number of bytes.
unfoldable pub set_length : List FieldLayout → BitWriter → Option BitWriter
set_length [] w = some w
set_length (f ∷ fs) w =
    if str_eq f.name "length"
    then overwrite f.bit_offset ((w.bit_length + 7) / 8) f.bits w
    else set_length fs w

unfoldable pub encode : Numerals → Specs → Specs → MessageXml → Option Writing
encode m header body message = elim (encode_root m header body message) [
  | none ↦ none
  | some w ↦ elim (set_length w.fields w.writer) [
    | none ↦ none
    | some writer ↦ some (record w { writer = writer })
  ]
]
