-- ===== src/Vmf/BitStream/Bits.antt =====
-- Single bits of a byte array: what `or_bit`, `clear_bit` and `grow` do to the bit at each position.
use native.Mathlib.Nat.{pow-suc, div-div-eq-div-mul}
use wargame.Prelude.{
  ℕ, suc, ◌+◌, ◌-◌, ◌/◌, ◌%◌, ◌^◌, ◌<◌, bit_and, bit_or, ◌≡◌, List, [], ◌∷◌, arith, leb, ◌==◌,
  if◌then◌else◌, length, get_or, All, length-set, length-append, get_or-set, get_or-append_default,
  All-get_or, All-set, All-append, inl, inr, Bool-cases,
}
use wargame.Vmf.BitStream.{bit_at, mask_at, or_bit, clear_bit, grow}
use wargame.Vmf.BitStream.Bytes.{or_byte, and_byte}

abbrev pub IsByte : ℕ → Type 0
IsByte b = b < 256

pub bit_at-lt : (bytes : List ℕ) (q : ℕ) → bit_at bytes q < 2
bit_at-lt bytes q = omega arith

module _ (bytes : List ℕ) (p q : ℕ) (octets : All IsByte bytes)
    (inside : p / 8 < length bytes) where
  pub bit_at-or_bit : bit_at (or_bit p bytes) q ≡ (if p == q then 1 else bit_at bytes q)
  unfolding or_bit
  bit_at-or_bit =
      let old = get_or bytes (p / 8) 0 in
      let octet = All-get_or IsByte bytes (p / 8) {d = 0} octets (omega arith) in
      rw (get_or-set bytes (p / 8) (q / 8) (bit_or old (mask_at p)) 0 inside)
        (ground (arith, or_byte old (p % 8) (q % 8) octet))

  pub bit_at-clear_bit : bit_at (clear_bit p bytes) q ≡ (if p == q then 0 else bit_at bytes q)
  unfolding clear_bit
  bit_at-clear_bit =
      let old = get_or bytes (p / 8) 0 in
      let octet = All-get_or IsByte bytes (p / 8) {d = 0} octets (omega arith) in
      rw (get_or-set bytes (p / 8) (q / 8) (bit_and old (255 - mask_at p)) 0 inside)
        (ground (arith, and_byte old (p % 8) (q % 8) octet))

module _ (bytes : List ℕ) (p : ℕ) (octets : All IsByte bytes) where
  pub or_bit-octets : All IsByte (or_bit p bytes)
  unfolding or_bit
  or_bit-octets =
      let octet = All-get_or IsByte bytes (p / 8) {d = 0} octets (omega arith) in
      All-set IsByte bytes (p / 8) octets
        (or_byte (get_or bytes (p / 8) 0) (p % 8) 0 octet (omega arith) (omega arith)).0

  pub clear_bit-octets : All IsByte (clear_bit p bytes)
  unfolding clear_bit
  clear_bit-octets =
      let octet = All-get_or IsByte bytes (p / 8) {d = 0} octets (omega arith) in
      All-set IsByte bytes (p / 8) octets
        (and_byte (get_or bytes (p / 8) 0) (p % 8) 0 octet (omega arith) (omega arith)).0

  pub grow-octets : All IsByte (grow p bytes)
  unfolding grow
  grow-octets = elim (Bool-cases (leb (length bytes) (p / 8))) [
    | inl e ↦ rw e (All-append IsByte bytes (0 ∷ []) octets (omega arith))
    | inr e ↦ rw e octets
  ]

pub length-or_bit : (p : ℕ) (bytes : List ℕ) → length (or_bit p bytes) ≡ length bytes
unfolding or_bit
length-or_bit p bytes = length-set bytes (p / 8) _

pub length-clear_bit : (p : ℕ) (bytes : List ℕ) → length (clear_bit p bytes) ≡ length bytes
unfolding clear_bit
length-clear_bit p bytes = length-set bytes (p / 8) _

-- Where `p` is the next free position, `grow` makes exactly the room that one more bit needs.
pub length-grow :
    (p : ℕ) (bytes : List ℕ) → length bytes ≡ (p + 7) / 8 → length (grow p bytes) ≡ (p + 1 + 7) / 8
unfolding grow
length-grow p bytes e = ground (arith, length-append bytes (0 ∷ []))

pub bit_at-grow : (p q : ℕ) (bytes : List ℕ) → bit_at (grow p bytes) q ≡ bit_at bytes q
unfolding grow
bit_at-grow p q bytes = elim (Bool-cases (leb (length bytes) (p / 8))) [
  | inl e ↦ rw e (rw (get_or-append_default bytes (q / 8) 0))
  | inr e ↦ rw e
]

-- A number's digits: dropping one more bit, and putting it back.
pub div-pow_suc : (value n : ℕ) → value / 2 ^ suc n ≡ value / 2 ^ n / 2
div-pow_suc value n = rw (pow-suc 2 n, ← div-div-eq-div-mul value (2 ^ n) 2)
