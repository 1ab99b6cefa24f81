-- ===== src/Vmf/BitStream/Bytes.antt =====
-- Setting, clearing and shifting in one bit of a byte: the laws of `|`, `&` and `<<` that the
-- streams use, by tables over the bytes and by the digits of a number.
use Prim.Native.Nat.{bit_or-bitwise, digits}
use wargame.Prelude.{
  ℕ, zero, suc, ◌+◌, ◌-◌, ◌/◌, ◌%◌, ◌^◌, ◌≤◌, ◌<◌, max, bit_and, bit_or, ◌≡◌, refl, Bool, true,
  ◌&&◌, arith, ltb, ◌==◌, if◌then◌else◌, &&-true, Bool-cases, inl, inr,
}

-- The test passes for every number below a bound.
every : (ℕ → Bool) → ℕ → Bool
every test zero = true
every test (suc bound) = every test bound && test bound

every-at :
    (test : ℕ → Bool) (bound : ℕ) → every test bound ≡ true → (i : ℕ) → i < bound → test i ≡ true
unfolding every
every-at test zero passed i inside = absurd (omega arith)
every-at test (suc bound) passed i inside =
    let both = &&-true (every test bound) (test bound) passed in
    elim (Bool-cases (i == bound)) [
      | inl last ↦ let e : bound ≡ i = ground arith in rw e at both.1
      | inr earlier ↦ every-at test bound both.0 i (ground arith)
    ]

-- The bit that `7 - q` shifts down, for a byte and a position in it.
abbrev pub bit_of : ℕ → ℕ → ℕ
bit_of byte q = byte / 2 ^ (7 - q) % 2

or_entry : ℕ → ℕ → ℕ → Bool
or_entry byte p q =
    let r = bit_or byte (2 ^ (7 - p)) in
    ltb r 256 && (bit_of r q == (if p == q then 1 else bit_of byte q))

and_entry : ℕ → ℕ → ℕ → Bool
and_entry byte p q =
    let r = bit_and byte (255 - 2 ^ (7 - p)) in
    ltb r 256 && (bit_of r q == (if p == q then 0 else bit_of byte q))

table : (ℕ → ℕ → ℕ → Bool) → Bool
unfolding every
table f = every (λ p. every (λ q. every (λ byte. f byte p q) 256) 8) 8

table_sound :
    (f : ℕ → ℕ → ℕ → Bool)
    → table f ≡ true
    → (byte p q : ℕ) → byte < 256
    → p < 8
    → q < 8
    → f byte p q ≡ true
unfolding table
table_sound f h byte p q hb hp hq =
    let rows = every-at (λ p. every (λ q. every (λ byte. f byte p q) 256) 8) 8 h p hp in
    let row = every-at (λ q. every (λ byte. f byte p q) 256) 8 rows q hq in
    every-at (λ byte. f byte p q) 256 row byte hb

or_table : table or_entry ≡ true
unfolding table or_entry
or_table = refl

and_table : table and_entry ≡ true
unfolding table and_entry
and_table = refl

pub or_byte :
    (byte p q : ℕ)
    → byte < 256
    → p < 8
    → q < 8
    → (bit_or byte (2 ^ (7 - p)) < 256)
      × (bit_of (bit_or byte (2 ^ (7 - p))) q ≡ (if p == q then 1 else bit_of byte q))
unfolding or_entry
or_byte byte p q hb hp hq = ground (arith, table_sound or_entry or_table byte p q hb hp hq)

pub and_byte :
    (byte p q : ℕ)
    → byte < 256
    → p < 8
    → q < 8
    → (bit_and byte (255 - 2 ^ (7 - p)) < 256)
      × (bit_of (bit_and byte (255 - 2 ^ (7 - p))) q ≡ (if p == q then 0 else bit_of byte q))
unfolding and_entry
and_byte byte p q hb hp hq = ground (arith, table_sound and_entry and_table byte p q hb hp hq)

digits_or-zero : (n a : ℕ) → a ≤ n → digits (λ b. b) max n a 0 ≡ a
digits_or-zero zero zero h = refl
digits_or-zero zero (suc a) h = absurd (omega arith)
digits_or-zero (suc n) zero h = refl
digits_or-zero (suc n) (suc a) h = omega (arith, digits_or-zero n (suc a / 2) (omega arith))

-- `(result << 1U) | bit` on numbers.
pub shift_in : (a b : ℕ) → a % 2 ≡ 0 → b < 2 → bit_or a b ≡ a + b
shift_in zero zero e h = refl
shift_in zero (suc zero) e h = refl
shift_in zero (suc (suc b)) e h = absurd (omega arith)
shift_in (suc a) zero e h =
    omega (arith, bit_or-bitwise (suc a) 0, digits_or-zero a (suc a / 2) (omega arith))
shift_in (suc a) (suc zero) e h =
    omega (arith, bit_or-bitwise (suc a) 1, digits_or-zero a (suc a / 2) (omega arith))
shift_in (suc a) (suc (suc b)) e h = absurd (omega arith)
