-- ===== src/Tests/Data.antt =====
-- Data that the tests share: whole numbers in place of doubles, and texts as they are.
use Prim.Native.String.{String, ◌++◌}
use Prim.Native.String.{len}
use wargame.Prelude.{
  ℕ, ◌+◌, ◌-◌, true, ltb, leb, ◌==◌, List, [], ◌∷◌, zero, suc, false, some, none, if◌then◌else◌,
  ◌*◌, ◌/◌,
}
use wargame.Prelude.Qt.{Qt}
use wargame.Vmf.Codec.Tree.{Numerals}

abbrev first_of : List String → String
first_of [] = ""
first_of (x ∷ xs) = x

abbrev pub nat_qt : Qt
nat_qt = record {
  Double = ℕ;
  zero = 0;
  lt = ltb;
  le = leb;
  add = λ a b. a + b;
  sub = λ a b. a - b;
  mul = λ a b. a * b;
  div = λ a b. a / b;
  hypot = λ a b. a + b;
  is_finite = λ a. true;
  of_nat = λ n. n;
  eq = λ a b. a == b;
  floor = λ a. a;
  to_nat = λ a. a;
  size = len;
  trimmed = λ s. s;
  from_base64 = λ s. [];
  to_base64 = λ bytes. "";
  arg = λ format n. format;
  arg_text = λ format s. s;
  to_utf8 = λ s. len s ∷ [];
  first = first_of;
}

-- A number as one more stroke than it counts.
abbrev pub strokes : ℕ → String
strokes zero = "|"
strokes (suc n) = "|" ++ strokes n

abbrev pub tally : Numerals
tally = record {
  trimmed = λ s. s;
  is_hex = λ s. false;
  without_prefix = λ s. s;
  to_ulonglong = λ s base. if len s == 0 then none else some (len s - 1);
  number = strokes;
}
