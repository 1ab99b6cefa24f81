-- ===== src/Combat/Digits.antt =====
-- The hash stays within 64 bits.
use Prim.Native.Nat.{bit_xor, bit_xor-bitwise, digits, differ}
use native.Mathlib.Nat.{pow-suc}
use wargame.Prelude.{ℕ, zero, suc, ◌+◌, ◌*◌, ◌/◌, ◌%◌, ◌^◌, ◌<◌, arith}
use wargame.Combat.{mix64}

differ-le : (x y : ℕ) → x < 2 → y < 2 → differ x y < 2
differ-le zero y h h' = h'
differ-le (suc zero) zero h h' = omega arith
differ-le (suc zero) (suc y) h h' = omega arith
differ-le (suc (suc x)) y h h' = absurd (omega arith)

digits-lt : (n k a b : ℕ) → a < 2 ^ k → b < 2 ^ k → digits (λ b. b) differ n a b < 2 ^ k
digits-lt zero k a b h h' = h'
digits-lt (suc n) k zero b h h' = h'
digits-lt (suc n) zero (suc a) b h h' = absurd (omega arith)
digits-lt (suc n) (suc k) (suc a) b h h' =
    let double = pow-suc 2 k in
    let upper = digits-lt n k (suc a / 2) (b / 2) (omega arith) (omega arith) in
    let lower = differ-le (suc a % 2) (b % 2) (omega arith) (omega arith) in omega arith

pub bit_xor-lt : (k a b : ℕ) → a < 2 ^ k → b < 2 ^ k → bit_xor a b < 2 ^ k
bit_xor-lt k a b h h' = rw (bit_xor-bitwise a b) (digits-lt a k a b h h')

pub mix64-lt : (value : ℕ) → mix64 value < 2 ^ 64
unfolding mix64
mix64-lt value =
    let a = (value + 11400714819323198485) % 2 ^ 64 in
    let b = bit_xor a (a / 2 ^ 30) * 13787848793156543929 % 2 ^ 64 in
    let c = bit_xor b (b / 2 ^ 27) * 10723151780598845931 % 2 ^ 64 in
    bit_xor-lt 64 c (c / 2 ^ 31) (omega arith) (omega arith)
