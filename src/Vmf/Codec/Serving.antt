-- ===== src/Vmf/Codec/Serving.antt =====
-- What a conforming message is encoded to serves the decoder: the header and the body, written and
-- read back value by value.
use wargame.Prelude.{ℕ, ◌≡◌, refl, List, [], ◌∷◌, ◌++◌, some, All, Option-cases, inl, inr}
use wargame.Vmf.BitStream.{BitWriter, BitReader, new_writer, read}
use wargame.Vmf.BitStream.Writer.{IsWriter, Fits, write_lem, new_writer-IsWriter, Fits-word}
use wargame.Vmf.BitStream.RoundTrip.{Layout, write_all, read_all, values, widths}
use wargame.Vmf.Codec.Tree.{Numerals, XmlNode, Spec, Specs, MessageXml, parse_unsigned}
use wargame.Vmf.Codec.Encode.{Writing, encode_root}
use wargame.Vmf.Codec.Decode.{Reading, bit_reader, decode_root, decode_container}
use wargame.Vmf.Codec.Conforms.{
  Values, Part, inside, Conforms, item, done, once, many, last, last_absent, next, plain, present,
  absent, told, names,
}
use wargame.Vmf.Codec.Writing.{layout, write_all-append, Conforms-Writes, Left-append}
use wargame.Vmf.Codec.Rebuild.{Conforms-Rebuilds}
use wargame.Vmf.Codec.Replay.{Serves, Reached-append, Serves-append}
use wargame.Vmf.Codec.Recorded.{Sound}

abbrev pub FitsBoth : ℕ × ℕ → Type 0
FitsBoth (value, bits) = Fits value bits

-- Fields that fit are all written.
pub write_all-Fits :
    (fields : Layout) (w : BitWriter)
    → All FitsBoth fields
    → IsWriter w
    → (w' : BitWriter) × (write_all fields w ≡ some w')
unfolding write_all
write_all-Fits [] w h v = (w, refl)
write_all-Fits ((value, bits) ∷ fields) w h v =
    elim (write_lem value bits w (Fits-word value bits h.0) v) [
      | inl (_, (w', e, written)) ↦
          let (w'', e') = write_all-Fits fields w' h.1 written.valid in (w'', rw (write_all, e) e')
      | inr (misfit, _) ↦ absurd (misfit h.0)
    ]

module _ (m : Numerals) where
  pub layout-append-Fits :
      (vs vs' : Values)
      → All FitsBoth (layout vs)
      → All FitsBoth (layout vs')
      → All FitsBoth (layout (vs ++ vs'))
  unfolding layout
  layout-append-Fits [] vs' h h' = h'
  layout-append-Fits ((s, v) ∷ vs) vs' h h' = (h.0, layout-append-Fits vs vs' h.1 h')

  pub Conforms-Fits :
      {part : Part} {vs : Values} {kids : List XmlNode}
      → Conforms m part vs kids
      → All FitsBoth (layout vs)
  unfolding layout
  Conforms-Fits done = tt
  Conforms-Fits (item is_value single others) = (single.3, Conforms-Fits others)
  Conforms-Fits (once {vs = vs} {vs' = vs'} is_container not_repeated found inner others) =
      layout-append-Fits vs vs' (Conforms-Fits inner) (Conforms-Fits others)
  Conforms-Fits (many {vs = vs} {vs' = vs'} is_container repeated tagged inner others) =
      layout-append-Fits vs vs' (Conforms-Fits inner) (Conforms-Fits others)
  Conforms-Fits (last inner reads) = Conforms-Fits inner
  Conforms-Fits (last_absent inner missing optional reads) = Conforms-Fits inner
  Conforms-Fits (next {vs = vs} {vs' = vs'} inner reads others) =
      layout-append-Fits vs vs' (Conforms-Fits inner) (Conforms-Fits others)
  Conforms-Fits (plain mandatory inner) = Conforms-Fits inner
  Conforms-Fits (present optional tagged is_value single others) = (single.3, Conforms-Fits others)
  Conforms-Fits (absent optional tagged is_value single lacks) = (single.3, tt)

  -- The parts of a successful reading of several fields.
  pub read_all-parts :
      (bits value : ℕ) (rest later : List ℕ) (r r' : BitReader)
      → read_all (bits ∷ rest) r ≡ some (value ∷ later, r')
      → (between : BitReader) × (read bits r ≡ some (value, between))
        × (read_all rest between ≡ some (later, r'))
  unfolding read_all
  read_all-parts bits value rest later r r' e = elim (Option-cases (read bits r)) [
    | inl failed ↦ cc (rw (read_all, failed) at e)
    | inr ((x, between), first) ↦ elim (Option-cases (read_all rest between)) [
      | inl failed ↦ cc (rw (read_all, first, failed) at e)
      | inr ((xs, rest_of), others) ↦
          let same : some (x ∷ xs, rest_of) ≡ some (value ∷ later, r') =
            rw (read_all, first, others) at e in
          let h : x ≡ value = cc in
          let t : xs ≡ later = cc in
          let l : rest_of ≡ r' = cc in (between, rw h at first, rw (t, l) at others)
    ]
  ]

  pub read_all-Serves :
      (vs : Values) (r r' : BitReader)
      → read_all (widths (layout vs)) r ≡ some (values (layout vs), r')
      → Serves m bit_reader vs r r'
  unfolding layout widths values read_all Serves
  read_all-Serves [] r r' e = cc
  read_all-Serves ((s, v) ∷ vs) r r' e =
      let (between, first, others) =
        read_all-parts s.bits v (widths (layout vs)) (values (layout vs)) r r' e in
      (between, first, read_all-Serves vs between r' others)

  module _ (zero_reads : parse_unsigned m (m.number 0) ≡ some 0)
      (one_reads : parse_unsigned m (m.number 1) ≡ some 1) where
    -- Header and body decoded from a reader that serves both.
    pub decode_root-Serves :
        (hs bs : Spec) (header body : Specs) (message : MessageXml) (vs vs' : Values)
        (above below_ : List XmlNode) (start stop : BitReader)
        → Conforms m (inside hs header message.header) vs above
        → Conforms m (inside bs body message.body) vs' below_
        → Serves m bit_reader (vs ++ vs') start stop
        → (st : Reading m bit_reader) × (decode_root m bit_reader hs header bs body
              (record { reader = start; fields = [] })
            ≡ some ((above, below_), st))
          × (st.reader ≡ stop)
          × (told st.fields ≡ names (vs ++ vs'))
    unfolding decode_root decode_container told
    decode_root-Serves hs bs header body message vs vs' above below_ start stop h h' serves =
        let fresh : Reading m bit_reader = record { reader = start; fields = [] } in
        let (between, front, back) = Serves-append m bit_reader vs vs' start stop serves in
        let (st, e, first) =
          Conforms-Rebuilds m bit_reader zero_reads one_reads h fresh between front in
        let (st', e', second) =
          Conforms-Rebuilds m bit_reader zero_reads one_reads h' st stop (rw first.reader back) in
        (
          st',
          rw (decode_root, e, e'),
          second.reader,
          (Reached-append m bit_reader vs vs' fresh st st' between stop first second).fields,
        )

    -- A conforming header and body are encoded by writing their values one after another, and each
    -- field that is reported is one of the values, with the place where it stands in the bytes.
    pub encode_root-Recorded :
        (hs bs : Spec) (header body : Specs) (message : MessageXml) (vs vs' : Values)
        (above below_ : List XmlNode)
        → Conforms m (inside hs header message.header) vs above
        → Conforms m (inside bs body message.body) vs' below_
        → (w : Writing) × (encode_root m header body message ≡ some w)
          × (write_all (layout (vs ++ vs')) new_writer ≡ some w.writer)
          × (told w.fields ≡ names (vs ++ vs'))
          × Sound w
    unfolding encode_root told new_writer
    encode_root-Recorded hs bs header body message vs vs' above below_ h h' =
        let fresh : Writing = record { writer = new_writer; fields = [] } in
        let fits = layout-append-Fits vs vs' (Conforms-Fits h) (Conforms-Fits h') in
        let (u, all) = write_all-Fits (layout (vs ++ vs')) new_writer fits new_writer-IsWriter in
        let (between, front, back) = write_all-append vs vs' new_writer u all in
        let (w, e, first) = Conforms-Writes m h fresh between front in
        let (w', e', second) = Conforms-Writes m h' w u (rw first.writer back) in
        let both = Left-append m vs vs' fresh w w' between u first second in
        (
          w',
          rw (encode_root, e, e'),
          rw second.writer all,
          both.fields,
          both.sound (record { valid = new_writer-IsWriter; recorded = tt }),
        )
