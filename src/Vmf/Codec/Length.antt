-- ===== src/Vmf/Codec/Length.antt =====
-- The length field written back: where it holds the number of bytes already, no bit of the stream
-- changes, and a reader of the stream goes through the same steps.
use wargame.Prelude.{
  ℕ, zero, suc, ◌+◌, ◌/◌, ◌^◌, ◌≤◌, ◌<◌, ◌≡◌, refl, String, some, List, [], ◌∷◌, ◌∙◌, sym, arith,
  All, ltb, ◌==◌, str_eq, if◌then◌else◌, inl, inr, Bool-cases, ap, if-true, if-false,
}
use wargame.Vmf.BitStream.{BitWriter, BitReader, bit_at}
use wargame.Vmf.BitStream.Writer.{IsWriter, Stored, Fits}
use wargame.Vmf.BitStream.Overwrite.{overwrite_lem, Overwritten}
use wargame.Vmf.Codec.Tree.{Numerals, FieldLayout}
use wargame.Vmf.Codec.Encode.{set_length}
use wargame.Vmf.Codec.Decode.{declared_length, bit_reader}
use wargame.Vmf.Codec.Recorded.{Recorded}
use wargame.Vmf.Codec.Conforms.{Values, told}
use wargame.Vmf.Codec.Replay.{Serves}
use wargame.Vmf.BitStream.Reader.{SameBits, read-SameBits, over}

-- The value of the first pair called `length`, or 0.
unfoldable pub length_value : List (String × ℕ) → ℕ
length_value [] = 0
length_value ((name, value) ∷ rest) = if str_eq name "length" then value else length_value rest

pub declared_length-told : (fs : List FieldLayout) → declared_length fs ≡ length_value (told fs)
unfolding declared_length length_value told
declared_length-told [] = refl
declared_length-told (f ∷ fs) =
    ap (λ n. if str_eq f.name "length" then f.value else n) (declared_length-told fs)

Stored-bit_at :
    (value : ℕ) (bytes bytes' : List ℕ) (p n q : ℕ)
    → Stored value bytes p n
    → Stored value bytes' p n
    → p ≤ q
    → q < p + n
    → bit_at bytes' q ≡ bit_at bytes q
Stored-bit_at value bytes bytes' p zero q s s' low high = absurd (omega arith)
Stored-bit_at value bytes bytes' p (suc n) q s s' low high = elim (Bool-cases (p == q)) [
  | inl e ↦ let same : p ≡ q = ground arith in rw same at (s'.0 ∙ sym s.0)
  | inr e ↦ Stored-bit_at value bytes bytes' (p + 1) n q s.1 s'.1 (ground arith) (omega arith)
]

-- What stood there already.
Overwritten-SameBits :
    (offset value bits : ℕ) (w w' : BitWriter)
    → Stored value w.bytes offset bits
    → Overwritten offset value bits w w'
    → SameBits w.bytes w'.bytes
Overwritten-SameBits offset value bits w w' s r q = elim (Bool-cases (ltb q offset)) [
  | inl before ↦ r.kept q (inl (ground arith))
  | inr e ↦ elim (Bool-cases (ltb q (offset + bits))) [
    | inl inside ↦
        Stored-bit_at value w.bytes w'.bytes offset bits q s r.stored (ground arith) (ground arith)
    | inr behind ↦ r.kept q (inr (ground arith))
  ]
]

pub set_length-same :
    (fs : List FieldLayout) (w : BitWriter)
    → IsWriter w
    → All (Recorded w) fs
    → length_value (told fs) ≡ (w.bit_length + 7) / 8
    → (w.bit_length + 7) / 8 < 2 ^ 64
    → (w' : BitWriter) × (set_length fs w ≡ some w')
      × IsWriter w'
      × (w'.bit_length ≡ w.bit_length)
      × SameBits w.bytes w'.bytes
unfolding set_length length_value told
set_length-same [] w v h declared word = (w, refl, v, refl, λ q. refl)
set_length-same (f ∷ fs) w v h declared word =
    let bytes = (w.bit_length + 7) / 8 in
    elim (Bool-cases (str_eq f.name "length")) [
      | inr other ↦
          let (w', e, valid, same_length, same) =
            set_length-same fs w v h.1 (sym (if-false _ _ other) ∙ declared) word in
          (w', if-false _ _ other ∙ e, valid, same_length, same)
      | inl named ↦
          let value : f.value ≡ bytes = sym (if-true _ _ named) ∙ declared in
          let fits : Fits bytes f.bits = rw value at h.0.fits in
          let stored = rw value at h.0.stored in
          elim (overwrite_lem f.bit_offset bytes f.bits w word v) [
            | inl (_, (w', e, r)) ↦ (
              w',
              if-true _ _ named ∙ e,
              r.valid,
              r.same_length,
              Overwritten-SameBits f.bit_offset bytes f.bits w w' stored r,
            )
            | inr (misfit, _) ↦ absurd (misfit (fits, h.0.within))
          ]
    ]

pub Serves-SameBits :
    (m : Numerals) (vs : Values) (start stop : BitReader) (bytes : List ℕ)
    → SameBits start.bytes bytes
    → Serves m bit_reader vs start stop
    → Serves m bit_reader vs (over bytes start) (over bytes stop)
unfolding Serves
Serves-SameBits m [] start stop bytes same h = ap (over bytes) h
Serves-SameBits m ((s, v) ∷ vs) start stop bytes same (between, reads, rest) =
    let (reads', kept) = read-SameBits s.bits v start between bytes same reads in
    (over bytes between, reads', Serves-SameBits m vs between stop bytes (rw kept same) rest)
