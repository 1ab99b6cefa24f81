-- ===== src/Vmf/BitStream/Overwrite.antt =====
-- `BitWriter::set`: the length field written back over its place.
use wargame.Prelude.{
  ℕ, zero, suc, ◌+◌, ◌*◌, ◌/◌, ◌^◌, ◌≤◌, ◌<◌, ◌≡◌, refl, Bool, true, false, some, none, arith, ltb,
  ◌==◌, if◌then◌else◌, List, ◌∙◌, Bool-cases, inl, inr, ◌⊎◌, length, All,
}
use wargame.Vmf.BitStream.{
  BitWriter, bit_at, test_bit, out_of_width, or_bit, clear_bit, set_bits, overwrite,
}
use wargame.Vmf.BitStream.Bits.{
  IsByte, bit_at-or_bit, bit_at-clear_bit, or_bit-octets, clear_bit-octets, length-or_bit,
  length-clear_bit,
}
use wargame.Vmf.BitStream.Writer.{IsWriter, Stored, Fits, digit, digit-test_bit, out_of_width_iff}

-- One round of the loop of `set`.
abbrev put_bit : Bool → ℕ → List ℕ → List ℕ
put_bit b p bytes = if b then or_bit p bytes else clear_bit p bytes

length-put_bit : (b : Bool) (p : ℕ) (bytes : List ℕ) → length (put_bit b p bytes) ≡ length bytes
length-put_bit true p bytes = length-or_bit p bytes
length-put_bit false p bytes = length-clear_bit p bytes

put_bit-octets :
    (b : Bool) (p : ℕ) (bytes : List ℕ) → All IsByte bytes → All IsByte (put_bit b p bytes)
put_bit-octets true p bytes h = or_bit-octets bytes p h
put_bit-octets false p bytes h = clear_bit-octets bytes p h

bit_at-put_bit :
    (b : Bool) (p q : ℕ) (bytes : List ℕ)
    → All IsByte bytes
    → p / 8 < length bytes
    → bit_at (put_bit b p bytes) q ≡ (if p == q then digit b else bit_at bytes q)
bit_at-put_bit true p q bytes h room = bit_at-or_bit bytes p q h room
bit_at-put_bit false p q bytes h room = bit_at-clear_bit bytes p q h room

-- The bits of `bytes` and of `bytes'` agree but for the `n` positions from `p`.
abbrev pub AgreeOutside : ℕ → ℕ → List ℕ → List ℕ → Type 0
AgreeOutside p n bytes bytes' = (q : ℕ) → (q < p) ⊎ (p + n ≤ q) → bit_at bytes' q ≡ bit_at bytes q

record Patched (value p n : ℕ) (bytes bytes' : List ℕ) : Type 0 where
  octets : All IsByte bytes'
  same_length : length bytes' ≡ length bytes
  stored : Stored value bytes' p n
  agree : AgreeOutside p n bytes bytes'

set_bits-Patched :
    (n p value : ℕ) (bytes : List ℕ)
    → All IsByte bytes
    → p + n ≤ length bytes * 8
    → Patched value p n bytes (set_bits n p value bytes)
unfolding set_bits
set_bits-Patched zero p value bytes h room = record {
  octets = h;
  same_length = refl;
  stored = tt;
  agree = λ q out. refl;
}
set_bits-Patched (suc n) p value bytes h room =
    let b = test_bit value n in
    let bytes' = put_bit b p bytes in
    let same = length-put_bit b p bytes in
    let bits = λ (q : ℕ). bit_at-put_bit b p q bytes h (omega arith) in
    let rest = set_bits-Patched n (p + 1) value bytes' (put_bit-octets b p bytes h) (omega arith) in
    record {
      octets = rest.octets;
      same_length = rest.same_length ∙ same;
      stored = (
        rest.agree p (inl (omega arith)) ∙ ground (arith, bits p, digit-test_bit value n),
        rest.stored,
      );
      agree = λ q out. rest.agree q (omega arith) ∙ ground (arith, bits q);
    }

-- What a successful `set` leaves.
pub record Overwritten (offset value bits : ℕ) (w w' : BitWriter) : Type 0 where
  pub valid : IsWriter w'
  pub same_length : w'.bit_length ≡ w.bit_length
  pub stored : Stored value w'.bytes offset bits
  pub kept : AgreeOutside offset bits w.bytes w'.bytes

patched : ℕ → ℕ → ℕ → BitWriter → BitWriter
patched offset value bits w = record w { bytes = set_bits bits offset value w.bytes }

patched-Overwritten :
    (offset value bits : ℕ) (w : BitWriter)
    → IsWriter w
    → offset + bits ≤ w.bit_length
    → Overwritten offset value bits w (patched offset value bits w)
unfolding patched
patched-Overwritten offset value bits w v room =
    let done = set_bits-Patched bits offset value w.bytes v.octets (omega (arith, v.sized)) in
    record {
      valid = record {
        octets = done.octets;
        sized = done.same_length ∙ v.sized;
        padded = λ q h. done.agree q (inr (omega arith)) ∙ v.padded q h;
      };
      same_length = refl;
      stored = done.stored;
      kept = done.agree;
    }

-- `set` fails exactly when the value does not fit the width or the place is not all written yet;
-- otherwise it replaces the digits at the place and leaves every other bit and the length.
pub overwrite_lem :
    (offset value bits : ℕ) (w : BitWriter)
    → value < 2 ^ 64
    → IsWriter w
    → ((Fits value bits × (offset + bits ≤ w.bit_length))
        × ((w' : BitWriter) × (overwrite offset value bits w ≡ some w')
            × Overwritten offset value bits w w'))
      ⊎ (¬ (Fits value bits × (offset + bits ≤ w.bit_length))
          × (overwrite offset value bits w ≡ none))
unfolding overwrite patched
overwrite_lem offset value bits w h v = elim (Bool-cases (ltb w.bit_length (offset + bits))) [
  | inl past ↦ inr (λ f. absurd (ground arith), rw past)
  | inr room ↦ elim (Bool-cases (out_of_width value bits)) [
    | inl e ↦ inr (λ f. cc (e, (out_of_width_iff value bits h).1 f.0), rw (room, e))
    | inr e ↦
        let inside : offset + bits ≤ w.bit_length = ground arith in
        inl (
          ((out_of_width_iff value bits h).0 e, inside),
          (
            patched offset value bits w,
            rw (room, e),
            patched-Overwritten offset value bits w v inside,
          ),
        )
  ]
]
