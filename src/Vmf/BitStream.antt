-- ===== src/Vmf/BitStream.antt =====
-- The bit streams of src/vmf/VmfCodec.cpp: `BitWriter` and `BitReader`. A byte is a number below
-- 256, a `quint64` one below 2 ^ 64, an `int` that the class only counts up is a number.
pub mod Bytes
pub mod Bits
pub mod Writer
pub mod Reader
pub mod Overwrite
pub mod RoundTrip
use wargame.Prelude.{
  ℕ, zero, suc, ◌+◌, ◌-◌, ◌*◌, ◌/◌, ◌%◌, ◌^◌, bit_and, bit_or, Bool, true, not, ◌||◌, ◌&&◌, List,
  [], ◌∷◌, ◌++◌, Option, none, some, ltb, leb, ◌==◌, if◌then◌else◌, length, get_or, set,
}

-- `(value >> index) & 1U`.
abbrev pub test_bit : ℕ → ℕ → Bool
test_bit value index = value / 2 ^ index % 2 == 1

-- `bits <= 0 || bits > 64 || (bits < 64 && value > ((quint64{1} << bits) - 1U))`.
abbrev pub out_of_width : ℕ → ℕ → Bool
out_of_width value bits = bits == 0 || ltb 64 bits || (ltb bits 64 && ltb (2 ^ bits - 1) value)

pub record BitWriter : Type 0 where
  pub bytes : List ℕ
  pub bit_length : ℕ

unfoldable pub new_writer : BitWriter
new_writer = record { bytes = []; bit_length = 0 }

-- `1U << (7 - position % 8)`.
abbrev pub mask_at : ℕ → ℕ
mask_at position = 2 ^ (7 - position % 8)

-- `m_bytes.append(char(0))` where the next bit starts a byte.
pub grow : ℕ → List ℕ → List ℕ
grow position bytes = if leb (length bytes) (position / 8) then bytes ++ 0 ∷ [] else bytes

pub or_bit : ℕ → List ℕ → List ℕ
or_bit position bytes =
    set bytes (position / 8) (bit_or (get_or bytes (position / 8) 0) (mask_at position))

pub clear_bit : ℕ → List ℕ → List ℕ
clear_bit position bytes =
    set bytes (position / 8) (bit_and (get_or bytes (position / 8) 0) (255 - mask_at position))

-- The body of the loop of `write`.
pub write_bit : Bool → BitWriter → BitWriter
write_bit b w =
    let position = w.bit_length in
    let grown = grow position w.bytes in
    record { bytes = if b then or_bit position grown else grown; bit_length = position + 1 }

-- `for (int index = bits - 1; index >= 0; --index)`.
pub write_bits : ℕ → ℕ → BitWriter → BitWriter
write_bits zero value w = w
write_bits (suc index) value w = write_bits index value (write_bit (test_bit value index) w)

-- `none` is the diagnostic ENCODE_RANGE.
unfoldable pub write : ℕ → ℕ → BitWriter → Option BitWriter
unfolding grow or_bit write_bit write_bits
write value bits w = if out_of_width value bits then none else some (write_bits bits value w)

-- The loop of `set`; `left` is `bits - index`.
pub set_bits : ℕ → ℕ → ℕ → List ℕ → List ℕ
set_bits zero position value bytes = bytes
set_bits (suc left) position value bytes =
    set_bits left (position + 1) value
      (if test_bit value left then or_bit position bytes else clear_bit position bytes)

-- `none` is the diagnostic ENCODE_SET.
unfoldable pub overwrite : ℕ → ℕ → ℕ → BitWriter → Option BitWriter
unfolding or_bit clear_bit set_bits
overwrite offset value bits w =
    if ltb w.bit_length (offset + bits) || out_of_width value bits
    then none
    else some (record w { bytes = set_bits bits offset value w.bytes })

pub record BitReader : Type 0 where
  pub bytes : List ℕ
  pub bit_length : ℕ
  pub offset : ℕ

-- `bitLength > 0 ? bitLength : bytes.size() * 8`.
unfoldable pub new_reader : List ℕ → ℕ → BitReader
new_reader bytes bit_length = record {
  bytes = bytes;
  bit_length = if bit_length == 0 then length bytes * 8 else bit_length;
  offset = 0;
}

-- `(byte >> (7 - position % 8)) & 1U`.
abbrev pub bit_at : List ℕ → ℕ → ℕ
bit_at bytes position = get_or bytes (position / 8) 0 / mask_at position % 2

-- The loop of `read`; `result << 1U` drops what leaves the 64 bits.
pub read_bits : ℕ → List ℕ → ℕ → ℕ → ℕ
read_bits zero bytes position result = result
read_bits (suc left) bytes position result =
    read_bits left bytes (position + 1) (bit_or (result * 2 % 2 ^ 64) (bit_at bytes position))

-- `none` is the diagnostic DECODE_RANGE.
unfoldable pub read : ℕ → BitReader → Option (ℕ × BitReader)
unfolding read_bits
read bits r =
    if bits == 0 || ltb 64 bits || ltb r.bit_length (r.offset + bits)
    then none
    else some (read_bits bits r.bytes r.offset 0, record r { offset = r.offset + bits })

-- The loop of `remainingBitsAreZero` over the bits left.
pub zero_from : ℕ → List ℕ → ℕ → Bool
zero_from zero bytes position = true
zero_from (suc left) bytes position =
    not (bit_at bytes position == 1) && zero_from left bytes (position + 1)

unfoldable pub remaining_bits_are_zero : BitReader → Bool
unfolding zero_from
remaining_bits_are_zero r = zero_from (r.bit_length - r.offset) r.bytes r.offset
