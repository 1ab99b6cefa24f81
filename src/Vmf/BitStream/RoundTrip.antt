-- ===== src/Vmf/BitStream/RoundTrip.antt =====
-- A message's fields written one after another and read back with the same widths.
use wargame.Prelude.{
  ℕ, zero, suc, ◌+◌, ◌*◌, ◌^◌, ◌≤◌, ◌<◌, ◌≡◌, refl, some, none, Option, arith, ◌==◌, if◌then◌else◌,
  List, [], ◌∷◌, ◌∙◌, length, All, inl, inr, ap, Option-cases, subst,
}
use wargame.Vmf.BitStream.{BitWriter, BitReader, bit_at, new_writer, new_reader, write, read}
use wargame.Vmf.BitStream.Writer.{IsWriter, Stored, write-Written, new_writer-IsWriter}
use wargame.Vmf.BitStream.Reader.{read-Stored}

-- Values with their widths, in the order of the calls of `write`.
abbrev pub Layout : Type 0
Layout = List (ℕ × ℕ)

unfoldable pub write_all : Layout → BitWriter → Option BitWriter
write_all [] w = some w
write_all ((value, bits) ∷ fields) w = elim (write value bits w) [
  | none ↦ none
  | some w' ↦ write_all fields w'
]

unfoldable pub read_all : List ℕ → BitReader → Option (List ℕ × BitReader)
read_all [] r = some ([], r)
read_all (bits ∷ widths) r = elim (read bits r) [
  | none ↦ none
  | some (value, r') ↦ elim (read_all widths r') [
    | none ↦ none
    | some (values, last) ↦ some (value ∷ values, last)
  ]
]

unfoldable pub values : Layout → List ℕ
values [] = []
values ((value, bits) ∷ fields) = value ∷ values fields

unfoldable pub widths : Layout → List ℕ
widths [] = []
widths ((value, bits) ∷ fields) = bits ∷ widths fields

pub Stored-keeps :
    (value : ℕ) (bytes bytes' : List ℕ) (p n : ℕ)
    → ((q : ℕ) → q < p + n → bit_at bytes' q ≡ bit_at bytes q)
    → Stored value bytes p n
    → Stored value bytes' p n
Stored-keeps value bytes bytes' p zero same s = tt
Stored-keeps value bytes bytes' p (suc n) same s = (
  same p (omega arith) ∙ s.0,
  Stored-keeps value bytes bytes' (p + 1) n (λ q h. same q (omega arith)) s.1,
)

-- The stream only grows: what is written stays.
pub record Extends (w w' : BitWriter) : Type 0 where
  pub valid : IsWriter w'
  longer : w.bit_length ≤ w'.bit_length
  kept : (q : ℕ) → q < w.bit_length → bit_at w'.bytes q ≡ bit_at w.bytes q

Extends-refl : (w : BitWriter) → IsWriter w → Extends w w
Extends-refl w v = record { valid = v; longer = omega arith; kept = λ q k. refl }

abbrev pub IsWord : ℕ × ℕ → Type 0
IsWord field = field.0 < 2 ^ 64

abbrev pub reader_at : ℕ → BitWriter → BitReader
reader_at offset w = record { bytes = w.bytes; bit_length = w.bit_length; offset = offset }

-- The first write of several, and the rest.
pub write_all-cons :
    (value bits : ℕ) (fields : Layout) (w w' : BitWriter)
    → write_all ((value, bits) ∷ fields) w ≡ some w'
    → (u : BitWriter) × (write value bits w ≡ some u) × (write_all fields u ≡ some w')
unfolding write_all
write_all-cons value bits fields w w' e = elim (Option-cases (write value bits w)) [
  | inl failed ↦ cc (rw (write_all, failed) at e)
  | inr (u, done) ↦ (u, done, rw (write_all, done) at e)
]

pub write_all-Extends :
    (fields : Layout) (w w' : BitWriter)
    → All IsWord fields
    → IsWriter w
    → write_all fields w ≡ some w'
    → Extends w w'
unfolding write_all
write_all-Extends [] w w' h v e =
    let p : w ≡ w' = cc in subst (λ u. Extends w u) p (Extends-refl w v)
write_all-Extends ((value, bits) ∷ fields) w w' h v e =
    let (u, first, rest) = write_all-cons value bits fields w w' e in
    let (f, r) = write-Written value bits w u h.0 v first in
    let more = write_all-Extends fields u w' h.1 r.valid rest in
    record {
      valid = more.valid;
      longer = omega (arith, r.longer, more.longer);
      kept = λ q k. more.kept q (omega (arith, r.longer)) ∙ r.kept q k;
    }

read_all-cons :
    (bits value : ℕ) (rest values : List ℕ) (r r' last : BitReader)
    → read bits r ≡ some (value, r')
    → read_all rest r' ≡ some (values, last)
    → read_all (bits ∷ rest) r ≡ some (value ∷ values, last)
unfolding read_all
read_all-cons bits value rest values r r' last e e' = rw (read_all, e, e')

write_all-read_all_at :
    (fields : Layout) (w w' : BitWriter)
    → All IsWord fields
    → IsWriter w
    → write_all fields w ≡ some w'
    → read_all (widths fields) (reader_at w.bit_length w')
      ≡ some (values fields, reader_at w'.bit_length w')
unfolding write_all read_all widths values
write_all-read_all_at [] w w' h v e = let p : w ≡ w' = cc in rw p
write_all-read_all_at ((value, bits) ∷ fields) w w' h v e =
    let (u, first, rest) = write_all-cons value bits fields w w' e in
    let (f, r) = write-Written value bits w u h.0 v first in
    let more = write_all-Extends fields u w' h.1 r.valid rest in
    let kept =
      Stored-keeps value u.bytes w'.bytes w.bit_length bits
        (λ q k. more.kept q (omega (arith, r.longer))) r.stored in
    read_all-cons bits value (widths fields) (values fields) (reader_at w.bit_length w')
      (reader_at (w.bit_length + bits) w') (reader_at w'.bit_length w')
      (read-Stored value bits (reader_at w.bit_length w') f h.0
        (omega (arith, r.longer, more.longer)) kept)
      (rw r.longer at (write_all-read_all_at fields u w' h.1 r.valid rest))

pub new_reader-reader_at :
    (w : BitWriter) → IsWriter w → new_reader w.bytes w.bit_length ≡ reader_at 0 w
unfolding new_reader
new_reader-reader_at w v = ap (λ n. record { bytes = w.bytes; bit_length = n; offset = 0 }) whole
  where
    whole : (if w.bit_length == 0 then length w.bytes * 8 else w.bit_length) ≡ w.bit_length
    whole = ground (arith, v.sized)

-- Fields of 64-bit values that are all written to an empty writer are read back, with the same
-- widths, from a reader of its bytes, which then stands at the end of the stream.
pub write_all-read_all :
    (fields : Layout) (w : BitWriter)
    → All IsWord fields
    → write_all fields new_writer ≡ some w
    → read_all (widths fields) (new_reader w.bytes w.bit_length)
      ≡ some (values fields, reader_at w.bit_length w)
unfolding new_writer
write_all-read_all fields w h e =
    let done = write_all-Extends fields new_writer w h new_writer-IsWriter e in
    rw (new_reader-reader_at w done.valid)
      (write_all-read_all_at fields new_writer w h new_writer-IsWriter e)
