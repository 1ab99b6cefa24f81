-- ===== src/Vmf/Codec/Tiling.antt =====
-- The `FieldLayout`s that `Codec::decode` reports, for any bytes whatever.
use wargame.Prelude.{
  ℕ, ◌+◌, ◌*◌, ◌/◌, ◌≤◌, ◌<◌, ◌≡◌, refl, true, String, List, [], ◌∷◌, ◌++◌, none, some, arith, All,
  All-append, inl, inr, Option-cases, Bool-cases, length, ltb, ◌==◌, ◌||◌, not, if-false, if-true,
  if◌then◌else◌, ◌∙◌, sym, ap, subst,
}
use wargame.Vmf.BitStream.{BitReader, new_reader, read, remaining_bits_are_zero, read_bits}
use wargame.Vmf.Codec.Tree.{
  Numerals, XmlNode, Spec, Specs, FieldLayout, layout_of, MessageXml, node, no_nodes,
}
use wargame.Vmf.Codec.Decode.{
  Reading, bit_reader, decode_value, decode_container, decode_root, decode_bits, decode,
  declared_length, value_head, stream_bits,
}
use wargame.Vmf.Codec.Preserved.{Keeps, decode_container-Keeps}

abbrev pub stream : List ℕ → ℕ → ℕ → BitReader
stream bytes bits offset = record { bytes = bytes; bit_length = bits; offset = offset }

-- The value of the field is what stands at its place in the stream.
abbrev pub InStream : List ℕ → ℕ → FieldLayout → Type 0
InStream bytes bits f =
    read f.bits (stream bytes bits f.bit_offset)
    ≡ some (f.value, stream bytes bits (f.bit_offset + f.bits))

-- The fields cover the bits from `p` to `q` without gap or overlap.
abbrev pub Tile : ℕ → List FieldLayout → ℕ → Type 0
Tile p [] q = p ≡ q
Tile p (f ∷ fs) q = (f.bit_offset ≡ p) × Tile (p + f.bits) fs q

Tile-append :
    (p q : ℕ) (fs : List FieldLayout) (f : FieldLayout)
    → Tile p fs q
    → f.bit_offset ≡ q
    → Tile p (fs ++ f ∷ []) (q + f.bits)
Tile-append p q [] f h e = (e ∙ sym h, ap (λ n. n + f.bits) h)
Tile-append p q (g ∷ gs) f h e = (h.0, Tile-append (p + g.bits) q gs f h.1 e)

module _ (m : Numerals) (bytes : List ℕ) (bits : ℕ) where
  -- What has been read so far.
  pub record Tiled (st : Reading m bit_reader) : Type 0 where
    pub at : st.reader ≡ stream bytes bits st.reader.offset
    pub within : st.reader.offset ≤ bits
    pub tiles : Tile 0 st.fields st.reader.offset
    pub found : All (InStream bytes bits) st.fields

  read-parts :
      (width value : ℕ) (offset : ℕ) (r : BitReader)
      → read width (stream bytes bits offset) ≡ some (value, r)
      → (r ≡ stream bytes bits (offset + width)) × (offset + width ≤ bits)
  unfolding read
  read-parts width value offset r e =
      elim (Bool-cases (width == 0 || ltb 64 width || ltb bits (offset + width))) [
        | inl refused ↦ cc (rw (read, refused) at e)
        | inr enough ↦
            let result = read_bits width bytes offset 0 in
            let moved : some (result, stream bytes bits (offset + width)) ≡ some (value, r) =
              rw (read, enough) at e in
            let same : stream bytes bits (offset + width) ≡ r = cc in
            (sym same, ground (arith, enough))
      ]

  next-Tiled :
      (st : Reading m bit_reader) (s : Spec) (v : ℕ) (r : BitReader)
      → Tiled st
      → read s.bits (stream bytes bits st.reader.offset) ≡ some (v, r)
      → r ≡ stream bytes bits (st.reader.offset + s.bits)
      → st.reader.offset + s.bits ≤ bits
      → Tiled (record { reader = r; fields = st.fields ++ layout_of s v st.reader.offset ∷ [] })
  next-Tiled st s v r t reads moved inside =
      let p = st.reader.offset in
      let f : FieldLayout = layout_of s v p in
      let offset : r.offset ≡ p + s.bits = ap (λ x. x.offset) moved in
      record {
        at = moved ∙ ap (stream bytes bits) (sym offset);
        within = omega arith;
        tiles =
            subst (Tile 0 (st.fields ++ f ∷ [])) (sym offset)
              (Tile-append 0 p st.fields f t.tiles refl);
        found =
            All-append (InStream bytes bits) st.fields (f ∷ []) t.found
              (reads ∙ ap (λ x. some (v, x)) moved, tt);
      }

  decode_value-Tiled :
      (s : Spec) (kids : List XmlNode) (st : Reading m bit_reader)
      → Keeps m bit_reader Tiled (decode_value m bit_reader s kids st) st
  unfolding decode_value
  decode_value-Tiled s kids st kids' st' e t =
      let p = st.reader.offset in
      elim (Option-cases (read s.bits st.reader)) [
        | inl failed ↦ cc (rw (decode_value, failed) at e)
        | inr ((v, r), first) ↦
            let reads = subst (λ x. read s.bits x ≡ some (v, r)) t.at first in
            let (moved, inside) = read-parts s.bits v p r reads in
            let f : FieldLayout = layout_of s v p in
            let next : Reading m bit_reader = record { reader = r; fields = st.fields ++ f ∷ [] } in
            let kids'' = kids ++ node (value_head m s v) no_nodes ∷ [] in
            let done : some (kids'', next) ≡ some (kids', st') = rw (decode_value, first) at e in
            let same : next ≡ st' = cc in
            subst Tiled same (next-Tiled st s v r t reads moved inside)
      ]

  -- Header and body, from the start of the stream.
  decode_root-Tiled :
      (hs bs : Spec) (header body : Specs) (above below_ : List XmlNode)
      (start st : Reading m bit_reader)
      → decode_root m bit_reader hs header bs body start ≡ some ((above, below_), st)
      → Tiled start
      → Tiled st
  unfolding decode_root
  decode_root-Tiled hs bs header body above below_ start st e t =
      let keeps = decode_container-Keeps m bit_reader Tiled decode_value-Tiled in
      elim (Option-cases (decode_container m bit_reader hs header start)) [
        | inl failed ↦ cc (rw (decode_root, failed) at e)
        | inr ((kids, st'), first) ↦
            elim (Option-cases (decode_container m bit_reader bs body st')) [
              | inl failed ↦ cc (rw (decode_root, first, failed) at e)
              | inr ((kids', st''), second) ↦
                  let done : some ((kids, kids'), st'') ≡ some ((above, below_), st) =
                    rw (decode_root, first, second) at e in
                  let same : st'' ≡ st = cc in
                  subst Tiled same
                    (keeps bs body st' kids' st'' second (keeps hs header start kids st' first t))
            ]
      ]

-- What `decode` has made sure of when it returns a message.
pub record Accepted (m : Numerals) (bytes : List ℕ) (bits : ℕ) (st : Reading m bit_reader)
    : Type 0 where
  pub some_bits : 0 < bits
  pub enough : bits ≤ length bytes * 8
  pub tiled : Tiled m bytes bits st
  pub padding : remaining_bits_are_zero st.reader ≡ true
  pub declared : declared_length st.fields ≡ (bits + 7) / 8

new_reader-stream :
    (bytes : List ℕ) (bits : ℕ) → 0 < bits → new_reader bytes bits ≡ stream bytes bits 0
unfolding new_reader
new_reader-stream bytes bits h =
    ap (λ n. stream bytes n 0) (if-false {b = bits == 0} _ _ (ground arith))

fresh-Tiled :
    (m : Numerals) (bytes : List ℕ) (bits : ℕ)
    → 0 < bits
    → Tiled m bytes bits (record { reader = new_reader bytes bits; fields = [] })
fresh-Tiled m bytes bits h =
    subst (λ x. Tiled m bytes bits (record { reader = x; fields = [] }))
      (sym (new_reader-stream bytes bits h))
      (record { at = refl; within = omega arith; tiles = refl; found = tt })

-- The last two tests.
accept :
    (m : Numerals) (bytes : List ℕ) (bits : ℕ) (result : MessageXml × Reading m bit_reader)
    (message : MessageXml) (st : Reading m bit_reader)
    → 0 < bits
    → bits ≤ length bytes * 8
    → Tiled m bytes bits result.1
    → (if not (remaining_bits_are_zero result.1.reader)
          || not (declared_length result.1.fields == (bits + 7) / 8)
        then none
        else some result)
      ≡ some (message, st)
    → Accepted m bytes bits st
accept m bytes bits result message st positive enough tiled e =
    let zeros = remaining_bits_are_zero result.1.reader in
    let declared = declared_length result.1.fields in
    elim (Bool-cases (not zeros || not (declared == (bits + 7) / 8))) [
      | inl refused ↦ cc (sym (if-true _ _ refused) ∙ e)
      | inr fine ↦
          let same_pair : some result ≡ some (message, st) = sym (if-false _ _ fine) ∙ e in
          let same : result.1 ≡ st = cc in
          subst (Accepted m bytes bits) same (record {
            some_bits = positive;
            enough = enough;
            tiled = tiled;
            padding = ground (arith, fine);
            declared = ground (arith, fine);
          })
    ]

decode_bits-Accepted :
    (m : Numerals) (hs bs : Spec) (header body : Specs) (name : String) (bytes : List ℕ) (bits : ℕ)
    (message : MessageXml) (st : Reading m bit_reader)
    → decode_bits m hs header bs body name bytes bits ≡ some (message, st)
    → Accepted m bytes bits st
unfolding decode_bits
decode_bits-Accepted m hs bs header body name bytes bits message st e =
    let start : Reading m bit_reader = record { reader = new_reader bytes bits; fields = [] } in
    elim (Bool-cases (bits == 0 || ltb (length bytes * 8) bits)) [
      | inl refused ↦ cc (sym (if-true _ _ refused) ∙ e)
      | inr fine ↦
          let e' = sym (if-false _ _ fine) ∙ e in
          let positive : 0 < bits = ground arith in
          elim (Option-cases (decode_root m bit_reader hs header bs body start)) [
            | inl failed ↦ cc (rw failed at e')
            | inr (((above, below_), last), done) ↦
                let begun = fresh-Tiled m bytes bits positive in
                let tiled =
                  decode_root-Tiled m bytes bits hs bs header body above below_ start last done
                    begun in
                accept m bytes bits (_, last) message st positive (ground arith) tiled
                  (rw done at e')
          ]
    ]

-- For any bytes and bit length: a decoded message's fields cover the bits from the first to the
-- reader's offset without gap or overlap, none behind the bit length, which the bytes hold; each
-- field's value is what the stream has at its place, the bits that follow are zero, and the first
-- field called `length` is the number of bytes.
pub decode-Accepted :
    (m : Numerals) (hs bs : Spec) (header body : Specs) (name : String) (bytes : List ℕ)
    (bit_length : ℕ) (message : MessageXml) (st : Reading m bit_reader)
    → decode m hs header bs body name bytes bit_length ≡ some (message, st)
    → Accepted m bytes (stream_bits bytes bit_length) st
unfolding decode
decode-Accepted m hs bs header body name bytes bit_length message st =
    decode_bits-Accepted m hs bs header body name bytes (stream_bits bytes bit_length) message st
