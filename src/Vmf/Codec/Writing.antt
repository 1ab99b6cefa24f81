-- ===== src/Vmf/Codec/Writing.antt =====
-- `encodeNodes` on a conforming node: it writes the values of the node, one after another.
use wargame.Prelude.{ℕ, ◌≡◌, refl, true, false, List, [], ◌∷◌, ◌++◌, Option, some, ◌∙◌, sym, Bool}
use wargame.Vmf.BitStream.{BitWriter, write}
use wargame.Vmf.BitStream.Writer.{Fits-word}
use wargame.Vmf.BitStream.RoundTrip.{Layout, write_all, write_all-cons}
use wargame.Vmf.Codec.Tree.{
  Numerals, XmlNode, Spec, spec, Specs, no_specs, then_spec, is_value_node, find_instances,
  layout_of,
}
use wargame.Vmf.Codec.Encode.{Writing, encode_each, encode_node, encode_nodes, encode_value, taken}
use wargame.Vmf.Codec.Conforms.{
  Values, Part, below, inside, instances, Lacks, Single, Conforms, done, item, once, many, last,
  last_absent, next, plain, present, absent, told, names, told-append, names-append,
}
use mathlib.Core.List.{append_assoc, append-nil}
use wargame.Vmf.Codec.Recorded.{Sound, write-Sound}

-- The values with the widths they are written in.
unfoldable pub layout : Values → Layout
layout [] = []
layout ((s, v) ∷ vs) = (v, s.bits) ∷ layout vs

-- Writing in two goes.
pub write_all-append :
    (vs vs' : Values) (w u : BitWriter)
    → write_all (layout (vs ++ vs')) w ≡ some u
    → (w' : BitWriter) × (write_all (layout vs) w ≡ some w') × (write_all (layout vs') w' ≡ some u)
unfolding layout write_all
write_all-append [] vs' w u e = (w, refl, e)
write_all-append ((s, v) ∷ vs) vs' w u e =
    let (mid, first, rest) = write_all-cons v s.bits (layout (vs ++ vs')) w u e in
    let (w', front, back) = write_all-append vs vs' mid u rest in
    (w', rw (write_all, first) front, back)

pub encode_each-cons :
    (f : XmlNode → Writing → Option Writing) (n : XmlNode) (ns : List XmlNode) (w w' : Writing)
    → f n w ≡ some w'
    → encode_each f (n ∷ ns) w ≡ encode_each f ns w'
unfolding encode_each
encode_each-cons f n ns w w' e = rw (encode_each, e)

taken-single : (b : Bool) (n : XmlNode) → taken b (n ∷ []) ≡ n ∷ []
unfolding taken
taken-single true n = refl
taken-single false n = refl

taken-all : (b : Bool) (ns : List XmlNode) → b ≡ true → taken b ns ≡ ns
unfolding taken
taken-all true ns e = refl
taken-all false ns e = cc

taken-none : (b : Bool) → taken b [] ≡ []
unfolding taken
taken-none true = refl
taken-none false = refl

module _ (m : Numerals) where
  -- What encoding the values leaves: the writer, their names in the fields, and fields that
  -- tell where the values stand.
  pub record Left (vs : Values) (w : Writing) (u : BitWriter) (w' : Writing) : Type 0 where
    pub writer : w'.writer ≡ u
    pub fields : told w'.fields ≡ told w.fields ++ names vs
    pub sound : Sound w → Sound w'

  pub Left-append :
      (vs vs' : Values) (w w' w'' : Writing) (between u : BitWriter)
      → Left vs w between w'
      → Left vs' w' u w''
      → Left (vs ++ vs') w u w''
  Left-append vs vs' w w' w'' between u a b = record {
    writer = b.writer;
    fields =
        rw (b.fields, a.fields, names-append) (append_assoc (told w.fields) (names vs) (names vs'));
    sound = λ h. b.sound (a.sound h);
  }

  abbrev pub Leaves : Option Writing → Values → Writing → BitWriter → Type 0
  Leaves r vs w u = (w' : Writing) × (r ≡ some w') × Left vs w u w'

  abbrev encode_part : Part → Writing → Option Writing
  encode_part (below outer ss a) w = encode_nodes m ss a w
  encode_part (inside s cs n) w = encode_nodes m cs n w
  encode_part (instances left outer s cs ns) w =
      encode_each (encode_node m false s (encode_nodes m cs)) ns w

  abbrev pub Writes : Part → Values → Type 0
  Writes part vs =
      (w : Writing) (u : BitWriter)
      → write_all (layout vs) w.writer ≡ some u
      → Leaves (encode_part part w) vs w u

  -- The one match of a value node.
  encode_match :
      (s : Spec) (cs : Specs) (a : XmlNode) (v : ℕ) (w : Writing) (u : BitWriter)
      → is_value_node s cs ≡ true
      → Single m s a v
      → write v s.bits w.writer ≡ some u
      → Leaves
          (encode_each
            (encode_node m (is_value_node s cs) s (encode_nodes m cs))
            (taken s.repeatable (find_instances s a))
            w)
          ((s, v) ∷ [])
          w
          u
  unfolding encode_each encode_node encode_value names told
  encode_match s cs a v w u is_value (n, found, reads, fits) writes =
      let fields = w.fields ++ layout_of s v w.writer.bit_length ∷ [] in
      let w' : Writing = record { writer = u; fields = fields } in
      let one : encode_value m s n w ≡ some w' = rw (encode_value, reads, writes) in
      (
        w',
        rw (is_value, found, taken-single)
            (encode_each-cons (encode_node m true s (encode_nodes m cs)) n [] w w' one),
        record {
          writer = refl;
          fields = told-append w.fields _;
          sound = write-Sound s v w w' (Fits-word v s.bits fits) writes refl;
        },
      )

  -- The children that the dictionary names and that do not stand there write nothing.
  encode-Lacks :
      (ss : Specs) (a : XmlNode) (w : Writing) → Lacks ss a → encode_nodes m ss a w ≡ some w
  unfolding encode_nodes encode_each taken
  encode-Lacks no_specs a w h = refl
  encode-Lacks (then_spec (spec s cs) rest) a w h =
      rw (encode_nodes, h.0, taken-none) (encode-Lacks rest a w h.1)

  -- The first child, then the others.
  encode-then :
      (s : Spec) (cs rest : Specs) (a : XmlNode) (vs vs' : Values) (w w' : Writing)
      (between u : BitWriter)
      → encode_each
          (encode_node m (is_value_node s cs) s (encode_nodes m cs))
          (taken s.repeatable (find_instances s a))
          w
        ≡ some w'
      → Left vs w between w'
      → Leaves (encode_nodes m rest a w') vs' w' u
      → Leaves (encode_nodes m (then_spec (spec s cs) rest) a w) (vs ++ vs') w u
  unfolding encode_nodes
  encode-then s cs rest a vs vs' w w' between u e first (w'', e', others) =
      (w'', rw (encode_nodes, e) e', Left-append vs vs' w w' w'' between u first others)

  encode_value-then :
      (s : Spec) (cs rest : Specs) (a : XmlNode) (v : ℕ) (vs : Values) (w : Writing) (u : BitWriter)
      → is_value_node s cs ≡ true
      → Single m s a v
      → ((w' : Writing)
          → write_all (layout vs) w'.writer ≡ some u
          → Leaves (encode_nodes m rest a w') vs w' u)
      → write_all (layout ((s, v) ∷ vs)) w.writer ≡ some u
      → Leaves (encode_nodes m (then_spec (spec s cs) rest) a w) ((s, v) ∷ vs) w u
  unfolding layout
  encode_value-then s cs rest a v vs w u is_value single others e =
      let (between, first, back) = write_all-cons v s.bits (layout vs) w.writer u e in
      let (w', front, left) = encode_match s cs a v w between is_value single first in
      encode-then s cs rest a ((s, v) ∷ []) vs w w' between u front left
        (others w' (rw left.writer back))

  -- The last instance of a repeated container.
  encode_last :
      (s : Spec) (cs : Specs) (n : XmlNode) (vs : Values) (w : Writing) (u : BitWriter)
      → Leaves (encode_nodes m cs n w) vs w u
      → Leaves (encode_each (encode_node m false s (encode_nodes m cs)) (n ∷ []) w) vs w u
  unfolding encode_each encode_node
  encode_last s cs n vs w u (w', e, left) =
      (w', encode_each-cons (encode_node m false s (encode_nodes m cs)) n [] w w' e, left)

  -- The one match of a container that is not repeatable.
  encode_once :
      (s : Spec) (cs : Specs) (a n : XmlNode) (w w' : Writing)
      → is_value_node s cs ≡ false
      → s.repeatable ≡ false
      → find_instances s a ≡ n ∷ []
      → encode_nodes m cs n w ≡ some w'
      → encode_each
          (encode_node m (is_value_node s cs) s (encode_nodes m cs))
          (taken s.repeatable (find_instances s a))
          w
        ≡ some w'
  unfolding encode_each taken encode_node
  encode_once s cs a n w w' is_container not_repeated found e =
      rw (is_container, found, taken-single)
        (encode_each-cons (encode_node m false s (encode_nodes m cs)) n [] w w' e)

  encode_many :
      (s : Spec) (cs : Specs) (a : XmlNode) (w w' : Writing)
      → is_value_node s cs ≡ false
      → s.repeatable ≡ true
      → encode_each (encode_node m false s (encode_nodes m cs)) (find_instances s a) w ≡ some w'
      → encode_each
          (encode_node m (is_value_node s cs) s (encode_nodes m cs))
          (taken s.repeatable (find_instances s a))
          w
        ≡ some w'
  unfolding taken
  encode_many s cs a w w' is_container repeated e =
      rw (is_container, taken-all s.repeatable (find_instances s a) repeated) e

  pub Conforms-Writes :
      {part : Part} {vs : Values} {kids : List XmlNode} → Conforms m part vs kids → Writes part vs
  unfolding layout write_all encode_nodes encode_node names
  Conforms-Writes done w u e =
      (w, refl, record { writer = cc; fields = sym (append-nil (told w.fields)); sound = λ h. h })
  Conforms-Writes
        (item {s = s} {cs = cs} {rest = rest} {a = a} {v = v} {vs = vs} is_value single others) w u
        e =
      encode_value-then s cs rest a v vs w u is_value single
        (λ w' e'. Conforms-Writes others w' u e') e
  Conforms-Writes
        (once {s = s} {cs = cs} {rest = rest} {a = a} {n = n} {vs = vs} {vs' = vs'} is_container
          not_repeated found inner others)
        w u e =
      let (mid, front, back) = write_all-append vs vs' w.writer u e in
      let (w', first, left) = Conforms-Writes inner w mid front in
      let all = encode_once s cs a n w w' is_container not_repeated found first in
      encode-then s cs rest a vs vs' w w' mid u all left
        (Conforms-Writes others w' u (rw left.writer back))
  Conforms-Writes
        (many {s = s} {cs = cs} {rest = rest} {a = a} {vs = vs} {vs' = vs'} is_container repeated
          tagged inner others)
        w u e =
      let (mid, front, back) = write_all-append vs vs' w.writer u e in
      let (w', first, left) = Conforms-Writes inner w mid front in
      let all = encode_many s cs a w w' is_container repeated first in
      encode-then s cs rest a vs vs' w w' mid u all left
        (Conforms-Writes others w' u (rw left.writer back))
  Conforms-Writes (last {s = s} {cs = cs} {n = n} {vs = vs} inner reads) w u e =
      encode_last s cs n vs w u (Conforms-Writes inner w u e)
  Conforms-Writes (last_absent {s = s} {cs = cs} {n = n} {vs = vs} inner missing optional reads) w u
        e =
      encode_last s cs n vs w u (Conforms-Writes inner w u e)
  Conforms-Writes
        (next {s = s} {cs = cs} {n = n} {n' = n'} {ns = ns} {vs = vs} {vs' = vs'} inner reads
          others)
        w u e =
      let (mid, front, back) = write_all-append vs vs' w.writer u e in
      let (w', first, left) = Conforms-Writes inner w mid front in
      let (w'', rest, others_left) = Conforms-Writes others w' u (rw left.writer back) in
      (
        w'',
        encode_each-cons (encode_node m false s (encode_nodes m cs)) n (n' ∷ ns) w w' first ∙ rest,
        Left-append vs vs' w w' w'' mid u left others_left,
      )
  Conforms-Writes (plain mandatory inner) w u e = Conforms-Writes inner w u e
  Conforms-Writes
        (present {t = t} {ts = ts} {rest = rest} {n = n} {vs = vs} optional tagged is_value single
          others)
        w u e =
      encode_value-then t ts rest n 1 vs w u is_value single
        (λ w' e'. Conforms-Writes others w' u e') e
  Conforms-Writes
        (absent {t = t} {ts = ts} {rest = rest} {n = n} optional tagged is_value single lacks) w u
        e =
      encode_value-then t ts rest n 0 [] w u is_value single
        (λ w' e'. (
          w',
          encode-Lacks rest n w' lacks,
          record { writer = cc; fields = sym (append-nil (told w'.fields)); sound = λ h. h },
        ))
        e
