-- ===== src/Vmf/Codec/Replay.antt =====
-- The steps of `decodeContainer` on a reader that serves the values: one value, an instance of a
-- repeated container, a presence indicator, a child in front of the others.
use wargame.Prelude.{
  ℕ, suc, ◌≡◌, refl, true, false, String, List, [], ◌∷◌, ◌++◌, none, some, ◌∙◌, str_eq, ltb, ◌||◌,
  if◌then◌else◌, if-true, if-false, ◌==◌, arith, subst, not, ◌&&◌,
}
use wargame.Vmf.Codec.Tree.{
  Numerals, XmlNode, Spec, spec, Specs, no_specs, then_spec, is_value_node, child, presence_tag,
  repeat_tag, layout_of, read_node_value, parse_unsigned,
}
use wargame.Vmf.Codec.Decode.{
  Reader, Reading, Decoded, decode_value, after_presence, enter, ends_absent, follows, max_count,
  decode_repeats, decode_child, decode_specs, decode_tail, value_or_zero, value_head,
}
use wargame.Vmf.Codec.Conforms.{
  Values, Part, below, inside, instances, Reads, value_node, container_node, told, names,
  told-append, names-append,
}
use mathlib.Core.List.{append_assoc}

module _ (m : Numerals) (r : Reader) where
  -- Reading the widths of the values from the first state gives the values and the last state.
  unfoldable pub Serves : Values → r.State → r.State → Type 0
  Serves [] start stop = start ≡ stop
  Serves ((s, v) ∷ vs) start stop =
      (between : r.State) × (r.read_value s.bits start ≡ some (v, between)) × Serves vs between stop

  pub Serves-append :
      (vs vs' : Values) (start stop : r.State)
      → Serves (vs ++ vs') start stop
      → (between : r.State) × Serves vs start between × Serves vs' between stop
  unfolding Serves
  Serves-append [] vs' start stop h = (start, refl, h)
  Serves-append ((s, v) ∷ vs) vs' start stop (first, reads, rest) =
      let (between, front, back) = Serves-append vs vs' first stop rest in
      (between, (first, reads, front), back)

  -- What decoding the values leaves.
  pub record Reached (vs : Values) (st : Reading m r) (stop : r.State) (st' : Reading m r)
      : Type 0 where
    pub reader : st'.reader ≡ stop
    pub fields : told st'.fields ≡ told st.fields ++ names vs

  pub Reached-append :
      (vs vs' : Values) (st st' st'' : Reading m r) (between stop : r.State)
      → Reached vs st between st'
      → Reached vs' st' stop st''
      → Reached (vs ++ vs') st stop st''
  Reached-append vs vs' st st' st'' between stop a b = record {
    reader = b.reader;
    fields =
        rw (b.fields, a.fields, names-append)
          (append_assoc (told st.fields) (names vs) (names vs'));
  }

  abbrev pub Yields : Decoded m r → List XmlNode → Values → Reading m r → r.State → Type 0
  Yields result kids vs st stop =
      (st' : Reading m r) × (result ≡ some (kids, st')) × Reached vs st stop st'

  abbrev pub into : Spec → Specs → Reading m r → Decoded m r
  into s cs st =
      enter m r s cs (decode_specs m r (presence_tag s) cs) (decode_tail m r (presence_tag s) cs) st

  abbrev pub Rebuilds : Part → Values → List XmlNode → Type 0
  Rebuilds (below outer ss a) vs above =
      (kids : List XmlNode) (st : Reading m r) (stop : r.State)
      → Serves vs st.reader stop
      → Yields (decode_specs m r outer ss kids st) (kids ++ above) vs st stop
  Rebuilds (inside s cs n) vs above =
      (st : Reading m r) (stop : r.State)
      → Serves vs st.reader stop
      → Yields (into s cs st) above vs st stop
  Rebuilds (instances left outer s cs ns) vs above =
      (kids : List XmlNode) (st : Reading m r) (stop : r.State)
      → Serves vs st.reader stop
      → Yields (decode_repeats m r left outer s (into s cs) kids st) (kids ++ above) vs st stop

  pub decode_value-Serves :
      (s : Spec) (v : ℕ) (kids : List XmlNode) (st : Reading m r) (between : r.State)
      → r.read_value s.bits st.reader ≡ some (v, between)
      → Yields (decode_value m r s kids st) (kids ++ value_node m s v ∷ []) ((s, v) ∷ []) st between
  unfolding decode_value names told
  decode_value-Serves s v kids st between reads =
      let fields = st.fields ++ layout_of s v (r.position st.reader) ∷ [] in
      let st' : Reading m r = record { reader = between; fields = fields } in
      (st', rw (decode_value, reads), record { reader = refl; fields = told-append st.fields _ })

  -- The first child of a container, then the others.
  pub decode-then :
      (outer : String) (s : Spec) (cs rest : Specs) (kids kids' above : List XmlNode)
      (vs vs' : Values) (st : Reading m r) (between stop : r.State)
      → Yields
          (decode_child m r outer (is_value_node s cs) s (into s cs) kids st)
          kids'
          vs
          st
          between
      → ((st' : Reading m r)
          → st'.reader ≡ between
          → Yields (decode_specs m r outer rest kids' st') above vs' st' stop)
      → Yields
          (decode_specs m r outer (then_spec (spec s cs) rest) kids st)
          above
          (vs ++ vs')
          st
          stop
  unfolding decode_specs
  decode-then outer s cs rest kids kids' above vs vs' st between stop (st', e, first) others =
      let (st'', e', second) = others st' first.reader in
      (st'', rw (decode_specs, e) e', Reached-append vs vs' st st' st'' between stop first second)

  pub follows-Reads :
      (outer : String) (s : Spec) (kids : List XmlNode)
      → (Reads m (repeat_tag s) kids 1 → follows m outer s kids ≡ some true)
        × (Reads m (repeat_tag s) kids 0 → follows m outer s kids ≡ some false)
  unfolding follows
  follows-Reads outer s kids = (
    λ (n, found, reads). rw (follows, found, reads),
    λ (n, found, reads). rw (follows, found, reads),
  )

  pub follows-absent :
      (outer : String) (s : Spec) (kids : List XmlNode)
      → child (repeat_tag s) kids ≡ none
      → s.selectable ≡ true
      → Reads m outer kids 0
      → follows m outer s kids ≡ some false
  unfolding follows ends_absent
  follows-absent outer s kids missing optional (n, found, reads) =
      rw (follows, missing, ends_absent, found, optional, reads)

  -- The last instance of a repeated container, and one that another follows.
  pub repeats-last :
      (left : ℕ) (outer : String) (s : Spec) (cs : Specs) (kids above : List XmlNode) (vs : Values)
      (st : Reading m r) (stop : r.State)
      → follows m outer s above ≡ some false
      → Yields (into s cs st) above vs st stop
      → Yields
          (decode_repeats m r (suc left) outer s (into s cs) kids st)
          (kids ++ container_node m s above ∷ [])
          vs
          st
          stop
  unfolding decode_repeats
  repeats-last left outer s cs kids above vs st stop ends (st', e, reached) =
      (st', rw (decode_repeats, e, ends), reached)

  pub repeats-next :
      (left : ℕ) (outer : String) (s : Spec) (cs : Specs) (kids above later : List XmlNode)
      (vs vs' : Values) (st : Reading m r) (between stop : r.State)
      → follows m outer s above ≡ some true
      → Yields (into s cs st) above vs st between
      → ((st' : Reading m r)
          → st'.reader ≡ between
          → Yields
              (decode_repeats m r left outer s
                (into s cs)
                (kids ++ container_node m s above ∷ [])
                st')
              later
              vs'
              st'
              stop)
      → Yields (decode_repeats m r (suc left) outer s (into s cs) kids st) later (vs ++ vs') st stop
  unfolding decode_repeats
  repeats-next left outer s cs kids above later vs vs' st between stop goes_on (st', e, first)
        others =
      let (st'', e', second) = others st' first.reader in
      (
        st'',
        rw (decode_repeats, e, goes_on) e',
        Reached-append vs vs' st st' st'' between stop first second,
      )

  -- The presence indicator of a container.
  pub enter-indicator :
      (s t : Spec) (ts rest : Specs) (v : ℕ) (kids : List XmlNode) (vs : Values) (st : Reading m r)
      (between stop : r.State)
      → s.selectable ≡ true
      → str_eq t.tag (presence_tag s) ≡ true
      → r.read_value t.bits st.reader ≡ some (v, between)
      → ((st' : Reading m r)
          → st'.reader ≡ between
          → Yields
              (after_presence m r
                (presence_tag s)
                (decode_specs m r (presence_tag s) rest)
                (value_node m t v ∷ [])
                st')
              kids
              vs
              st'
              stop)
      → Yields (into s (then_spec (spec t ts) rest) st) kids ((t, v) ∷ vs) st stop
  unfolding enter decode_tail
  enter-indicator s t ts rest v kids vs st between stop optional tagged reads others =
      let (st', e, first) = decode_value-Serves t v [] st between reads in
      let (st'', e', second) = others st' first.reader in
      (
        st'',
        if-true _ _ optional ∙ if-true _ _ tagged ∙ rw e e',
        Reached-append ((t, v) ∷ []) vs st st' st'' between stop first second,
      )

  -- Behind an indicator, whose value Qt prints and reads back.
  pub after_presence-value :
      (s t : Spec) (v : ℕ) (rest : List XmlNode → Reading m r → Decoded m r) (st : Reading m r)
      → str_eq t.tag (presence_tag s) ≡ true
      → parse_unsigned m (m.number v) ≡ some v
      → ltb v 2 ≡ true
      → after_presence m r (presence_tag s) rest (value_node m t v ∷ []) st
        ≡ (if v == 1 then rest (value_node m t v ∷ []) st else some (value_node m t v ∷ [], st))
  unfolding after_presence child value_or_zero value_head read_node_value
  after_presence-value s t v rest st tagged reads small =
      let found : child (presence_tag s) (value_node m t v ∷ []) ≡ some (value_node m t v) =
        if-true _ _ tagged in
      rw (after_presence, found, value_or_zero, reads)
        (if-false {b = not (v == 0) && not (v == 1)} _ _ (ground (arith, small)))

  pub child_value :
      (outer : String) (s : Spec) (cs : Specs) (v : ℕ) (kids : List XmlNode) (st : Reading m r)
      (between : r.State)
      → is_value_node s cs ≡ true
      → r.read_value s.bits st.reader ≡ some (v, between)
      → Yields
          (decode_child m r outer (is_value_node s cs) s (into s cs) kids st)
          (kids ++ value_node m s v ∷ [])
          ((s, v) ∷ [])
          st
          between
  unfolding decode_child
  child_value outer s cs v kids st between is_value reads =
      let (st', e, reached) = decode_value-Serves s v kids st between reads in
      (st', rw is_value e, reached)

  pub child_once :
      (outer : String) (s : Spec) (cs : Specs) (kids above : List XmlNode) (vs : Values)
      (st : Reading m r) (stop : r.State)
      → is_value_node s cs ≡ false
      → s.repeatable ≡ false
      → Yields (into s cs st) above vs st stop
      → Yields
          (decode_child m r outer (is_value_node s cs) s (into s cs) kids st)
          (kids ++ container_node m s above ∷ [])
          vs
          st
          stop
  unfolding decode_child
  child_once outer s cs kids above vs st stop is_container single (st', e, reached) =
      (st', rw is_container (if-false _ _ single ∙ rw e), reached)

  pub child_many :
      (outer : String) (s : Spec) (cs : Specs) (kids above : List XmlNode) (vs : Values)
      (st : Reading m r) (stop : r.State)
      → is_value_node s cs ≡ false
      → s.repeatable ≡ true
      → (str_eq s.tag "Group" || str_eq s.tag "Field") ≡ true
      → Yields
          (decode_repeats m r (max_count s) outer s (into s cs) kids st)
          (kids ++ above)
          vs
          st
          stop
      → Yields
          (decode_child m r outer (is_value_node s cs) s (into s cs) kids st)
          (kids ++ above)
          vs
          st
          stop
  unfolding decode_child
  child_many outer s cs kids above vs st stop is_container repeated tagged (st', e, reached) =
      (st', rw is_container (if-true _ _ repeated ∙ if-true _ _ tagged ∙ e), reached)

  pub enter-plain :
      (s : Spec) (cs : Specs) (st : Reading m r)
      → s.selectable ≡ false
      → into s cs st ≡ decode_specs m r (presence_tag s) cs [] st
  unfolding enter
  enter-plain s no_specs st mandatory = if-false _ _ mandatory
  enter-plain s (then_spec (spec t ts) rest) st mandatory = if-false _ _ mandatory

  pub regroup :
      {result : Decoded m r} (kids front back : List XmlNode) (vs : Values) (st : Reading m r)
      (stop : r.State)
      → Yields result (kids ++ front ++ back) vs st stop
      → Yields result (kids ++ (front ++ back)) vs st stop
  regroup {result = result} kids front back vs st stop h =
      subst (λ l. Yields result l vs st stop) (append_assoc kids front back) h
