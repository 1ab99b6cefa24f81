-- ===== src/Vmf/BitStream/Reader.antt =====
-- `BitReader`: what `read` returns for digits that stand in the stream.
use native.Mathlib.Nat.{div-le_self, div-eq_of_lt}
use wargame.Prelude.{
  ℕ, zero, suc, ◌+◌, ◌-◌, ◌*◌, ◌/◌, ◌%◌, ◌^◌, ◌≤◌, ◌<◌, ◌≡◌, refl, true, some, arith, List, ◌∙◌,
  bit_or, ◌↔◌, sym, ap, Bool-cases, inl, inr, if-false, ltb, ◌==◌, ◌||◌,
}
use wargame.Vmf.BitStream.{BitReader, read_bits, read, zero_from, remaining_bits_are_zero, bit_at}
use wargame.Vmf.BitStream.Bytes.{shift_in}
use wargame.Vmf.BitStream.Bits.{div-pow_suc, bit_at-lt}
use wargame.Vmf.BitStream.Writer.{Stored, Fits}

-- One round: the value's digits above the current one, shifted, with the current one put in.
shift_digit :
    (value n : ℕ)
    → value < 2 ^ 64
    → bit_or (value / 2 ^ suc n * 2 % 2 ^ 64) (value / 2 ^ n % 2) ≡ value / 2 ^ n
shift_digit value n h =
    let half = div-pow_suc value n in
    let small = div-le_self value (2 ^ n) in
    let double = value / 2 ^ suc n * 2 in
    let fits : double % 2 ^ 64 ≡ double = omega arith in
    rw fits (shift_in double (value / 2 ^ n % 2) (omega arith) (omega arith) ∙ omega arith)

read_bits-Stored :
    (n : ℕ) (bytes : List ℕ) (p value : ℕ)
    → value < 2 ^ 64
    → Stored value bytes p n
    → read_bits n bytes p (value / 2 ^ n) ≡ value
unfolding read_bits
read_bits-Stored zero bytes p value h s = omega arith
read_bits-Stored (suc n) bytes p value h s =
    rw (s.0, shift_digit value n h) (read_bits-Stored n bytes (p + 1) value h s.1)

-- A reader that stands at the digits of a value that fits returns the value, and moves past it.
pub read-Stored :
    (value bits : ℕ) (r : BitReader)
    → Fits value bits
    → value < 2 ^ 64
    → r.offset + bits ≤ r.bit_length
    → Stored value r.bytes r.offset bits
    → read bits r ≡ some (value, record r { offset = r.offset + bits })
unfolding read
read-Stored value bits r f h room s =
    let zero_digits = div-eq_of_lt f.2 in
    let digits = rw zero_digits at (read_bits-Stored bits r.bytes r.offset value h s) in
    ground (arith, digits)

zero_from_iff : (n : ℕ) (bytes : List ℕ) (p : ℕ) → (zero_from n bytes p ≡ true) ↔ Stored 0 bytes p n
unfolding zero_from
zero_from_iff zero bytes p = (λ e. tt, λ s. refl)
zero_from_iff (suc n) bytes p =
    ground (arith, zero_from_iff n bytes (p + 1), bit_at-lt bytes p, zero-div n)
  where
    zero-div : (n : ℕ) → 0 / 2 ^ n ≡ 0
    zero-div n = omega arith

-- `remainingBitsAreZero` holds exactly when every bit from the offset to the bit length is zero.
pub remaining_bits_are_zero_iff :
    (r : BitReader)
    → (remaining_bits_are_zero r ≡ true) ↔ Stored 0 r.bytes r.offset (r.bit_length - r.offset)
unfolding remaining_bits_are_zero
remaining_bits_are_zero_iff r = zero_from_iff (r.bit_length - r.offset) r.bytes r.offset

-- Streams with the same bits are read alike.
abbrev pub SameBits : List ℕ → List ℕ → Type 0
SameBits bytes bytes' = (q : ℕ) → bit_at bytes' q ≡ bit_at bytes q

read_bits-SameBits :
    (n : ℕ) (bytes bytes' : List ℕ) (p result : ℕ)
    → SameBits bytes bytes'
    → read_bits n bytes' p result ≡ read_bits n bytes p result
unfolding read_bits
read_bits-SameBits zero bytes bytes' p result same = refl
read_bits-SameBits (suc n) bytes bytes' p result same =
    rw (same p) (read_bits-SameBits n bytes bytes' (p + 1) _ same)

abbrev pub over : List ℕ → BitReader → BitReader
over bytes r = record r { bytes = bytes }

pub read-SameBits :
    (bits value : ℕ) (r r' : BitReader) (bytes : List ℕ)
    → SameBits r.bytes bytes
    → read bits r ≡ some (value, r')
    → (read bits (over bytes r) ≡ some (value, over bytes r')) × (r'.bytes ≡ r.bytes)
unfolding read
read-SameBits bits value r r' bytes same e =
    elim (Bool-cases (bits == 0 || ltb 64 bits || ltb r.bit_length (r.offset + bits))) [
      | inl refused ↦ cc (rw (read, refused) at e)
      | inr enough ↦
          let result = read_bits bits r.bytes r.offset 0 in
          let moved : BitReader = record r { offset = r.offset + bits } in
          let done : some (result, moved) ≡ some (value, r') = rw (read, enough) at e in
          let v : result ≡ value = cc in
          let m : moved ≡ r' = cc in
          (
            if-false _ _ enough
                ∙ ap some (
                    ap (λ x. (x, over bytes moved))
                      (read_bits-SameBits bits r.bytes bytes r.offset 0 same ∙ v)
                    ∙ ap (λ x. (value, over bytes x)) m),
            ap (λ x. x.bytes) (sym m),
          )
    ]
