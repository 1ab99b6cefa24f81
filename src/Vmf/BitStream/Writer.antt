-- ===== src/Vmf/BitStream/Writer.antt =====
-- `BitWriter`: its invariant, and the bits that `write` and `set` leave.
use native.Mathlib.Nat.{pow-suc}
use wargame.Prelude.{
  ℕ, zero, suc, ◌+◌, none, ◌/◌, ◌%◌, ◌^◌, ◌≤◌, ◌<◌, ◌≡◌, refl, Bool, true, false, some, arith, ◌==◌,
  if◌then◌else◌, length, All, ◌∙◌, ◌⊎◌, ◌↔◌, inl, inr, Bool-cases, List, ◌-◌,
}
use wargame.Vmf.BitStream.{
  BitWriter, bit_at, test_bit, out_of_width, new_writer, grow, write_bit, write_bits, write,
}
use wargame.Vmf.BitStream.Bits.{
  IsByte, bit_at-or_bit, or_bit-octets, grow-octets, length-or_bit, length-grow, bit_at-grow,
}

-- The bytes are just enough for the bits, and the bits behind the last one are zero.
pub record IsWriter (w : BitWriter) : Type 0 where
  pub octets : All IsByte w.bytes
  pub sized : length w.bytes ≡ (w.bit_length + 7) / 8
  pub padded : (q : ℕ) → w.bit_length ≤ q → bit_at w.bytes q ≡ 0

-- The big-endian digits of `value` stand in the `n` positions from `p`.
abbrev pub Stored : ℕ → List ℕ → ℕ → ℕ → Type 0
Stored value bytes p zero = Unit {0}
Stored value bytes p (suc n) = (bit_at bytes p ≡ value / 2 ^ n % 2) × Stored value bytes (p + 1) n

abbrev pub digit : Bool → ℕ
digit true = 1
digit false = 0

pub digit-test_bit : (value n : ℕ) → digit (test_bit value n) ≡ value / 2 ^ n % 2
digit-test_bit value n = ground arith

pub new_writer-IsWriter : IsWriter new_writer
unfolding new_writer
new_writer-IsWriter = record { octets = tt; sized = refl; padded = λ q h. omega arith }

module _ (w : BitWriter) (v : IsWriter w) where
  grown_room : w.bit_length / 8 < length (grow w.bit_length w.bytes)
  grown_room = omega (arith, length-grow w.bit_length w.bytes v.sized)

  bit_at-write_bit :
      (b : Bool) (q : ℕ)
      → bit_at (write_bit b w).bytes q ≡ (if w.bit_length == q then digit b else bit_at w.bytes q)
  unfolding write_bit
  bit_at-write_bit true q =
      rw
        (bit_at-or_bit (grow w.bit_length w.bytes) w.bit_length q
          (grow-octets w.bytes w.bit_length v.octets) grown_room)
        (rw (bit_at-grow w.bit_length q w.bytes))
  bit_at-write_bit false q = ground (arith, bit_at-grow w.bit_length q w.bytes, v.padded q)

  write_bit-IsWriter : (b : Bool) → IsWriter (write_bit b w)
  unfolding write_bit
  write_bit-IsWriter true = record {
    octets = or_bit-octets _ w.bit_length (grow-octets w.bytes w.bit_length v.octets);
    sized = rw length-or_bit (length-grow w.bit_length w.bytes v.sized);
    padded = λ q h. ground (arith, bit_at-write_bit true q, v.padded q);
  }
  write_bit-IsWriter false = record {
    octets = grow-octets w.bytes w.bit_length v.octets;
    sized = length-grow w.bit_length w.bytes v.sized;
    padded = λ q h. ground (arith, bit_at-write_bit false q, v.padded q);
  }

write_bits-IsWriter : (n value : ℕ) (w : BitWriter) → IsWriter w → IsWriter (write_bits n value w)
unfolding write_bits
write_bits-IsWriter zero value w v = v
write_bits-IsWriter (suc n) value w v =
    write_bits-IsWriter n value (write_bit (test_bit value n) w)
      (write_bit-IsWriter w v (test_bit value n))

bit_length-write_bit : (b : Bool) (w : BitWriter) → (write_bit b w).bit_length ≡ w.bit_length + 1
unfolding write_bit
bit_length-write_bit b w = refl

bit_length-write_bits :
    (n value : ℕ) (w : BitWriter) → (write_bits n value w).bit_length ≡ w.bit_length + n
unfolding write_bits
bit_length-write_bits zero value w = omega arith
bit_length-write_bits (suc n) value w = omega (
  arith,
  bit_length-write_bits n value (write_bit (test_bit value n) w),
  bit_length-write_bit (test_bit value n) w,
)

write_bits-keeps :
    (n value : ℕ) (w : BitWriter)
    → IsWriter w
    → (q : ℕ) → q < w.bit_length
    → bit_at (write_bits n value w).bytes q ≡ bit_at w.bytes q
unfolding write_bits
write_bits-keeps zero value w v q h = refl
write_bits-keeps (suc n) value w v q h =
    let b = test_bit value n in
    let later = bit_length-write_bit b w in
    write_bits-keeps n value (write_bit b w) (write_bit-IsWriter w v b) q (omega arith)
    ∙ ground (arith, bit_at-write_bit w v b q)

write_bits-Stored :
    (n value : ℕ) (w : BitWriter)
    → IsWriter w
    → Stored value (write_bits n value w).bytes w.bit_length n
unfolding write_bits write_bit
write_bits-Stored zero value w v = tt
write_bits-Stored (suc n) value w v =
    let b = test_bit value n in
    let w' = write_bit b w in
    let v' = write_bit-IsWriter w v b in
    let e = bit_length-write_bit b w in
    let first = write_bits-keeps n value w' v' w.bit_length (omega arith) in
    (
      first ∙ ground (arith, bit_at-write_bit w v b w.bit_length, digit-test_bit value n),
      rw e at (write_bits-Stored n value w' v'),
    )

-- What fits: 1 to 64 bits, and a value below their power of two.
abbrev pub Fits : ℕ → ℕ → Type 0
Fits value bits = (0 < bits) × (bits ≤ 64) × (value < 2 ^ bits)

two_pow_pos : (n : ℕ) → 0 < 2 ^ n
two_pow_pos zero = omega arith
two_pow_pos (suc n) = omega (arith, pow-suc 2 n, two_pow_pos n)

out_of_width-Fits :
    (value bits : ℕ) → out_of_width value bits ≡ false → value < 2 ^ 64 → Fits value bits
out_of_width-Fits value bits e h = elim (Bool-cases (bits == 64)) [
  | inl full ↦ let e' : bits ≡ 64 = ground arith in rw e' (omega arith)
  | inr less ↦ ground (arith, two_pow_pos bits)
]

-- For a `quint64` the test of `write` and `set` refuses exactly what does not fit.
pub out_of_width_iff :
    (value bits : ℕ) → value < 2 ^ 64 → (out_of_width value bits ≡ false) ↔ Fits value bits
out_of_width_iff value bits h = (λ e. out_of_width-Fits value bits e h, λ f. ground arith)

two_pow_le : (k n : ℕ) → 2 ^ n ≤ 2 ^ (n + k)
two_pow_le zero n = let e : n + 0 ≡ n = omega arith in rw e (omega arith)
two_pow_le (suc k) n =
    let e : n + suc k ≡ suc (n + k) = omega arith in
    rw e (omega (arith, two_pow_le k n, pow-suc 2 (n + k)))

pub Fits-word : (value bits : ℕ) → Fits value bits → value < 2 ^ 64
Fits-word value bits f =
    let e : bits + (64 - bits) ≡ 64 = omega arith in
    let wide = rw e at (two_pow_le (64 - bits) bits) in omega arith

-- What a successful `write` leaves: the invariant, the new bits behind the old ones.
pub record Written (value bits : ℕ) (w w' : BitWriter) : Type 0 where
  pub valid : IsWriter w'
  pub longer : w'.bit_length ≡ w.bit_length + bits
  pub stored : Stored value w'.bytes w.bit_length bits
  pub kept : (q : ℕ) → q < w.bit_length → bit_at w'.bytes q ≡ bit_at w.bytes q

write_bits-Written :
    (value bits : ℕ) (w : BitWriter) → IsWriter w → Written value bits w (write_bits bits value w)
write_bits-Written value bits w v = record {
  valid = write_bits-IsWriter bits value w v;
  longer = bit_length-write_bits bits value w;
  stored = write_bits-Stored bits value w v;
  kept = write_bits-keeps bits value w v;
}

-- `write` fails exactly when the value does not fit the width, and otherwise appends its digits.
pub write_lem :
    (value bits : ℕ) (w : BitWriter)
    → value < 2 ^ 64
    → IsWriter w
    → (Fits value bits
        × ((w' : BitWriter) × (write value bits w ≡ some w') × Written value bits w w'))
      ⊎ (¬ Fits value bits × (write value bits w ≡ none))
unfolding write
write_lem value bits w h v = elim (Bool-cases (out_of_width value bits)) [
  | inl e ↦ inr (λ f. cc (e, (out_of_width_iff value bits h).1 f), rw e)
  | inr e ↦ inl (
    (out_of_width_iff value bits h).0 e,
    (write_bits bits value w, rw e, write_bits-Written value bits w v),
  )
]

pub write-Written :
    (value bits : ℕ) (w w' : BitWriter)
    → value < 2 ^ 64
    → IsWriter w
    → write value bits w ≡ some w'
    → Fits value bits × Written value bits w w'
write-Written value bits w w' h v e = elim (write_lem value bits w h v) [
  | inl (f, (u, e', r)) ↦ let p : u ≡ w' = cc in (f, rw p at r)
  | inr (_, e') ↦ cc
]
