-- ===== src/Tests/Codecs.antt =====
-- The VMF codec on a message with a length field, a repeated group of two instances and an
-- optional field that is present.
use wargame.Tests.Data.{strokes, tally}
use wargame.Prelude.{ℕ, ◌≡◌, refl, true, false, String, some, List, [], ◌∷◌, ◌++◌, arith, Bool}
use wargame.Vmf.Codec.Tree.{
  XmlNode, node, no_nodes, of_nodes, Spec, spec, Specs, no_specs, then_spec, MessageXml,
  parse_unsigned, find_instances, child, children, is_unit, units_of, is_named, attribute,
  read_node_value, presence_tag, repeat_tag, is_value_node, layout_of,
}
use wargame.Vmf.Codec.Encode.{Writing, encode, encode_root}
use wargame.Vmf.Codec.Decode.{
  Reading, bit_reader, decode, value_head, container_head, given, max_count, decode_bits,
  decode_root, decode_container, enter, decode_specs, decode_child, decode_value, decode_repeats,
  follows, after_presence, declared_length, decode_tail, ends_absent, value_or_zero,
}
use wargame.Vmf.Codec.Conforms.{
  Values, Conforms, inside, done, item, once, many, last, next, plain, present, told, names,
}
use wargame.Vmf.Codec.Serving.{encode_root-Recorded}
use wargame.Vmf.Codec.RoundTrip.{decode-encode, canonical, total_bits}
use wargame.Vmf.Codec.Length.{length_value}
use wargame.Vmf.Codec.Tiling.{Accepted, decode-Accepted}
use wargame.Vmf.BitStream.{read, new_reader, remaining_bits_are_zero, new_writer}
use wargame.Vmf.BitStream.RoundTrip.{write_all}
use wargame.Vmf.Codec.Recorded.{Sound}
use wargame.Vmf.Codec.Writing.{layout}

zero_reads : parse_unsigned tally (strokes 0) ≡ some 0
unfolding parse_unsigned
zero_reads = refl

one_reads : parse_unsigned tally (strokes 1) ≡ some 1
unfolding parse_unsigned
one_reads = refl

abbrev container : String → String → Bool → Bool → Spec
container tag name repeatable selectable = record {
  tag = tag;
  name = name;
  dfi = "";
  dui = "";
  bits = 0;
  repeatable = repeatable;
  selectable = selectable;
  max_repeat = 4;
}

abbrev unit : String → String → ℕ → Spec
unit tag name bits = record {
  tag = tag;
  name = name;
  dfi = "";
  dui = "";
  bits = bits;
  repeatable = false;
  selectable = false;
  max_repeat = 0;
}

abbrev header_spec : Spec
header_spec = container "Header" "" false false

abbrev header_specs : Specs
header_specs = then_spec (spec (unit "DataUnit" "length" 8) no_specs) no_specs

abbrev track : Spec
track = container "Group" "track" true false

abbrev track_specs : Specs
track_specs =
    then_spec (spec (unit "GRI" "" 1) no_specs)
      (then_spec (spec (unit "DataUnit" "course" 3) no_specs) no_specs)

abbrev note : Spec
note = container "Field" "note" false true

abbrev note_specs : Specs
note_specs =
    then_spec (spec (unit "FPI" "" 1) no_specs)
      (then_spec (spec (unit "DataUnit" "speed" 7) no_specs) no_specs)

abbrev body_spec : Spec
body_spec = container "Body" "" false false

abbrev body_specs : Specs
body_specs = then_spec (spec track track_specs) (then_spec (spec note note_specs) no_specs)

abbrev leaf : String → String → ℕ → XmlNode
leaf tag name v =
    node (record { tag = tag; attributes = ("name", name) ∷ []; text = strokes v }) no_nodes

abbrev branch : String → String → List XmlNode → XmlNode
branch tag name kids =
    node (record { tag = tag; attributes = ("name", name) ∷ []; text = "" }) (of_nodes kids)

abbrev first_track : XmlNode
first_track = branch "Group" "track" (leaf "DataUnit" "course" 5 ∷ leaf "GRI" "" 1 ∷ [])

abbrev second_track : XmlNode
second_track = branch "Group" "track" (leaf "DataUnit" "course" 2 ∷ leaf "GRI" "" 0 ∷ [])

abbrev the_note : XmlNode
the_note = branch "Field" "note" (leaf "FPI" "" 1 ∷ leaf "DataUnit" "speed" 9 ∷ [])

abbrev report : MessageXml
report = record {
  message = "report";
  header = branch "Header" "" (leaf "DataUnit" "length" 3 ∷ []);
  body = branch "Body" "" (the_note ∷ first_track ∷ second_track ∷ []);
}

abbrev header_values : Values
header_values = (unit "DataUnit" "length" 8, 3) ∷ []

abbrev track_values : ℕ → ℕ → Values
track_values more course = (unit "GRI" "" 1, more) ∷ (unit "DataUnit" "course" 3, course) ∷ []

abbrev note_values : Values
note_values = (unit "FPI" "" 1, 1) ∷ (unit "DataUnit" "speed" 7, 9) ∷ []

abbrev read_leaf : String → String → ℕ → XmlNode
read_leaf tag name v = node (value_head tally (unit tag name 0) v) no_nodes

abbrev read_header : List XmlNode
read_header = read_leaf "DataUnit" "length" 3 ∷ []

abbrev read_track : ℕ → ℕ → List XmlNode
read_track more course = read_leaf "GRI" "" more ∷ read_leaf "DataUnit" "course" course ∷ []

abbrev read_note : List XmlNode
read_note = read_leaf "FPI" "" 1 ∷ read_leaf "DataUnit" "speed" 9 ∷ []

header_Conforms :
    Conforms tally (inside header_spec header_specs report.header) header_values read_header
unfolding is_value_node find_instances children is_unit units_of is_named attribute read_node_value
    parse_unsigned presence_tag value_head given
header_Conforms = plain refl (
    item refl (leaf "DataUnit" "length" 3, refl, refl, (omega arith, omega arith, omega arith))
      done)

first_track_Conforms :
    Conforms tally (inside track track_specs first_track) (track_values 1 5) (read_track 1 5)
unfolding is_value_node find_instances children is_unit units_of is_named attribute read_node_value
    parse_unsigned presence_tag value_head given
first_track_Conforms = plain refl (
    item refl (leaf "GRI" "" 1, refl, refl, (omega arith, omega arith, omega arith))
      (item refl (leaf "DataUnit" "course" 5, refl, refl, (omega arith, omega arith, omega arith))
        done))

second_track_Conforms :
    Conforms tally (inside track track_specs second_track) (track_values 0 2) (read_track 0 2)
unfolding is_value_node find_instances children is_unit units_of is_named attribute read_node_value
    parse_unsigned presence_tag value_head given
second_track_Conforms = plain refl (
    item refl (leaf "GRI" "" 0, refl, refl, (omega arith, omega arith, omega arith))
      (item refl (leaf "DataUnit" "course" 2, refl, refl, (omega arith, omega arith, omega arith))
        done))

note_Conforms : Conforms tally (inside note note_specs the_note) note_values read_note
unfolding is_value_node find_instances children is_unit units_of is_named attribute read_node_value
    parse_unsigned presence_tag value_head given
note_Conforms =
    present refl refl refl (leaf "FPI" "" 1, refl, refl, (omega arith, omega arith, omega arith))
      (item refl (leaf "DataUnit" "speed" 9, refl, refl, (omega arith, omega arith, omega arith))
        done)

abbrev body_values : Values
body_values = (track_values 1 5 ++ track_values 0 2) ++ note_values ++ []

abbrev read_body : List XmlNode
read_body =
    branch "Group" "track" (read_track 1 5)
    ∷ branch "Group" "track" (read_track 0 2)
    ∷ branch "Field" "note" read_note
    ∷ []

body_Conforms : Conforms tally (inside body_spec body_specs report.body) body_values read_body
unfolding is_value_node find_instances children is_unit units_of is_named attribute read_node_value
    parse_unsigned presence_tag value_head given container_head max_count repeat_tag child
body_Conforms = plain refl (
    many refl refl refl
      (next first_track_Conforms (read_leaf "GRI" "" 1, refl, refl)
        (last second_track_Conforms (read_leaf "GRI" "" 0, refl, refl)))
      (once refl refl refl note_Conforms done))

decode-encode_example :
    (w : Writing) × (encode tally header_specs body_specs report ≡ some w)
    × ((st : Reading tally bit_reader) × (decode tally header_spec header_specs body_spec body_specs
            "report" w.writer.bytes w.writer.bit_length
          ≡ some (canonical "report" read_header read_body, st))
        × (st.reader.offset ≡ w.writer.bit_length)
        × (told st.fields ≡ names (header_values ++ body_values)))
unfolding total_bits length_value names
decode-encode_example =
    decode-encode tally zero_reads one_reads header_spec body_spec header_specs body_specs report
      header_values body_values read_header read_body header_Conforms body_Conforms (omega arith)
      (omega arith) refl

abbrev report_bytes : List ℕ
report_bytes = 3 ∷ 210 ∷ 137 ∷ []

abbrev report_reading : Reading tally bit_reader
report_reading = record {
  reader = record { bytes = report_bytes; bit_length = 24; offset = 24 };
  fields =
      layout_of (unit "DataUnit" "length" 8) 3 0
      ∷ layout_of (unit "GRI" "" 1) 1 8
      ∷ layout_of (unit "DataUnit" "course" 3) 5 9
      ∷ layout_of (unit "GRI" "" 1) 0 12
      ∷ layout_of (unit "DataUnit" "course" 3) 2 13
      ∷ layout_of (unit "FPI" "" 1) 1 16
      ∷ layout_of (unit "DataUnit" "speed" 7) 9 17
      ∷ [];
}

report_decodes :
    decode tally header_spec header_specs body_spec body_specs "report" report_bytes 0
    ≡ some (canonical "report" read_header read_body, report_reading)
unfolding decode canonical decode_bits decode_root decode_container enter decode_specs decode_child
    is_value_node decode_value read new_reader decode_repeats max_count follows child value_head
    repeat_tag read_node_value remaining_bits_are_zero after_presence container_head declared_length
    decode_tail ends_absent given value_or_zero parse_unsigned presence_tag
report_decodes = refl

decode-Accepted_example : Accepted tally report_bytes 24 report_reading
decode-Accepted_example =
    decode-Accepted tally header_spec body_spec header_specs body_specs "report" report_bytes 0
      (canonical "report" read_header read_body) report_reading report_decodes

encode_root-Recorded_example :
    (w : Writing) × (encode_root tally header_specs body_specs report ≡ some w)
    × (write_all (layout (header_values ++ body_values)) new_writer ≡ some w.writer)
    × (told w.fields ≡ names (header_values ++ body_values))
    × Sound w
encode_root-Recorded_example =
    encode_root-Recorded tally zero_reads one_reads header_spec body_spec header_specs body_specs
      report header_values body_values read_header read_body header_Conforms body_Conforms
