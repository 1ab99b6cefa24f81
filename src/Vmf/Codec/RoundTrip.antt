-- ===== src/Vmf/Codec/RoundTrip.antt =====
-- `Codec::decode` behind `Codec::encode`.
use wargame.Prelude.{
  ℕ, ◌+◌, ◌^◌, ◌<◌, ◌≤◌, ◌≡◌, List, [], ◌∷◌, ◌++◌, some, arith, All, ◌∙◌, String, ◌-◌, ◌*◌, true,
  ◌/◌, if◌then◌else◌, ◌==◌, ◌||◌, not, ltb, false, if-false, ap, length,
}
use wargame.Vmf.BitStream.{BitWriter, new_writer, new_reader, remaining_bits_are_zero}
use wargame.Vmf.BitStream.Writer.{IsWriter, new_writer-IsWriter, Fits-word, write-Written}
use wargame.Vmf.BitStream.RoundTrip.{
  Layout, write_all, write_all-read_all, write_all-cons, IsWord, reader_at, new_reader-reader_at,
}
use wargame.Vmf.Codec.Tree.{
  Numerals, XmlNode, Spec, Specs, MessageXml, parse_unsigned, node, of_nodes,
}
use wargame.Vmf.Codec.Encode.{Writing, encode}
use wargame.Vmf.Codec.Decode.{
  Reading, bit_reader, decode_root, decode, decode_bits, root_head, declared_length,
}
use wargame.Vmf.Codec.Conforms.{Values, inside, Conforms, told, names}
use wargame.Vmf.Codec.Writing.{layout}
use wargame.Vmf.Codec.Replay.{Serves}
use wargame.Vmf.Codec.Length.{Serves-SameBits, set_length-same, length_value, declared_length-told}
use wargame.Vmf.BitStream.Reader.{SameBits, remaining_bits_are_zero_iff}
use wargame.Vmf.Codec.Serving.{
  Conforms-Fits, FitsBoth, decode_root-Serves, encode_root-Recorded, layout-append-Fits,
  read_all-Serves,
}

-- The bits that the values take.
unfoldable pub total_bits : Values → ℕ
total_bits [] = 0
total_bits ((s, v) ∷ vs) = s.bits + total_bits vs

total_bits-write_all :
    (vs : Values) (w w' : BitWriter)
    → All FitsBoth (layout vs)
    → IsWriter w
    → write_all (layout vs) w ≡ some w'
    → w'.bit_length ≡ w.bit_length + total_bits vs
unfolding total_bits layout write_all
total_bits-write_all [] w w' h v e = let same : w ≡ w' = cc in rw same (omega arith)
total_bits-write_all ((s, value) ∷ vs) w w' h v e =
    let (between, first, rest) = write_all-cons value s.bits (layout vs) w w' e in
    let (f, r) = write-Written value s.bits w between (Fits-word value s.bits h.0) v first in
    omega (arith, r.longer, total_bits-write_all vs between w' h.1 r.valid rest)

unfoldable pub canonical : String → List XmlNode → List XmlNode → MessageXml
canonical name above below_ = record {
  message = name;
  header = node (root_head "Header") (of_nodes above);
  body = node (root_head "Body") (of_nodes below_);
}

-- A stream that serves a whole message is decoded to it.
decode-Serves :
    (m : Numerals) (hs bs : Spec) (header body : Specs) (name : String) (bytes : List ℕ) (bits : ℕ)
    (above below_ : List XmlNode) (st : Reading m bit_reader)
    → 0 < bits
    → bits ≤ length bytes * 8
    → decode_root m bit_reader hs header bs body
        (record { reader = new_reader bytes bits; fields = [] })
      ≡ some ((above, below_), st)
    → remaining_bits_are_zero st.reader ≡ true
    → declared_length st.fields ≡ (bits + 7) / 8
    → decode m hs header bs body name bytes bits ≡ some (canonical name above below_, st)
unfolding decode decode_bits canonical
decode-Serves m hs bs header body name bytes bits above below_ st some_bits enough e zeros
      declared =
    let given : (if bits == 0 then length bytes * 8 else bits) ≡ bits =
      if-false {b = bits == 0} _ _ (ground arith) in
    let guards : (bits == 0 || ltb (length bytes * 8) bits) ≡ false = ground arith in
    let ends : (not (remaining_bits_are_zero st.reader)
          || not (declared_length st.fields == (bits + 7) / 8))
        ≡ false =
      rw zeros (ground (arith, declared)) in
    ap (λ n. decode_bits m hs header bs body name bytes n) given
    ∙ if-false _ _ guards
    ∙ rw e (if-false _ _ ends)

All-IsWord : (fields : Layout) → All FitsBoth fields → All IsWord fields
All-IsWord [] h = tt
All-IsWord ((value, bits) ∷ fields) h = (Fits-word value bits h.0, All-IsWord fields h.1)

nothing_left : (w : BitWriter) → remaining_bits_are_zero (reader_at w.bit_length w) ≡ true
nothing_left w =
    (remaining_bits_are_zero_iff (reader_at w.bit_length w)).1
      (let none_left : w.bit_length - w.bit_length ≡ 0 = omega arith in rw none_left tt)

module _ (m : Numerals) {hs bs : Spec} {header body : Specs} {a b : XmlNode} {vs vs' : Values}
    {above below_ : List XmlNode} (h : Conforms m (inside hs header a) vs above)
    (h' : Conforms m (inside bs body b) vs' below_) where
  fits-both : All FitsBoth (layout (vs ++ vs'))
  fits-both = layout-append-Fits m vs vs' (Conforms-Fits m h) (Conforms-Fits m h')

  written-total :
      (w : BitWriter)
      → write_all (layout (vs ++ vs')) new_writer ≡ some w
      → w.bit_length ≡ total_bits (vs ++ vs')
  unfolding new_writer
  written-total w all =
      omega (arith, total_bits-write_all (vs ++ vs') new_writer w fits-both new_writer-IsWriter all)

-- What is written is served from any writer with the same bits.
written-Serves :
    (m : Numerals) (vs : Values) (w u : BitWriter)
    → All FitsBoth (layout vs)
    → IsWriter w
    → IsWriter u
    → u.bit_length ≡ w.bit_length
    → SameBits w.bytes u.bytes
    → write_all (layout vs) new_writer ≡ some w
    → Serves m bit_reader vs (new_reader u.bytes u.bit_length) (reader_at u.bit_length u)
written-Serves m vs w u fits v v' same_length same all =
    let words = All-IsWord (layout vs) fits in
    let original = rw (new_reader-reader_at w v) at (
      read_all-Serves m vs (new_reader w.bytes w.bit_length) (reader_at w.bit_length w)
        (write_all-read_all (layout vs) w words all)) in
    rw (new_reader-reader_at u v', same_length)
      (Serves-SameBits m vs (reader_at 0 w) (reader_at w.bit_length w) u.bytes same original)

module _ (m : Numerals) (zero_reads : parse_unsigned m (m.number 0) ≡ some 0)
    (one_reads : parse_unsigned m (m.number 1) ≡ some 1) where
  -- A message that conforms to its dictionary, takes at least one bit and declares the number of
  -- its bytes in its first field called `length` is encoded, and the bytes and the bit length are
  -- decoded, with no bit left over, to the same values in the dictionary's order.
  pub decode-encode :
      (hs bs : Spec) (header body : Specs) (message : MessageXml) (vs vs' : Values)
      (above below_ : List XmlNode)
      → Conforms m (inside hs header message.header) vs above
      → Conforms m (inside bs body message.body) vs' below_
      → 0 < total_bits (vs ++ vs')
      → (total_bits (vs ++ vs') + 7) / 8 < 2 ^ 64
      → length_value (names (vs ++ vs')) ≡ (total_bits (vs ++ vs') + 7) / 8
      → (w : Writing) × (encode m header body message ≡ some w)
        × ((st : Reading m bit_reader) × (decode m hs header bs body message.message w.writer.bytes
                w.writer.bit_length
              ≡ some (canonical message.message above below_, st))
            × (st.reader.offset ≡ w.writer.bit_length)
            × (told st.fields ≡ names (vs ++ vs')))
  unfolding encode
  decode-encode hs bs header body message vs vs' above below_ h h' some_bits word declared =
      let fields = vs ++ vs' in
      let (w, e, all, reported, sound) =
        encode_root-Recorded m zero_reads one_reads hs bs header body message vs vs' above below_ h
          h' in
      let bits : w.writer.bit_length ≡ total_bits fields = written-total m h h' w.writer all in
      let (u, patched, valid, same_length, same) =
        set_length-same w.fields w.writer sound.valid sound.recorded (rw (reported, bits) declared)
          (rw bits word) in
      let serves =
        written-Serves m fields w.writer u (fits-both m h h') sound.valid valid same_length same
          all in
      let (st, decoded, stop, read_fields) =
        decode_root-Serves m zero_reads one_reads hs bs header body message vs vs' above below_
          (new_reader u.bytes u.bit_length) (reader_at u.bit_length u) h h' serves in
      (
        record w { writer = u },
        rw (encode, e, patched),
        (
          st,
          decode-Serves m hs bs header body message.message u.bytes u.bit_length above below_ st
              (rw (same_length, bits) some_bits) (omega (arith, valid.sized)) decoded
              (rw stop (nothing_left u))
              (declared_length-told st.fields ∙ rw (read_fields, same_length, bits) declared),
          ap (λ r. r.offset) stop,
          read_fields,
        ),
      )
