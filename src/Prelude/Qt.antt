-- ===== src/Prelude/Qt.antt =====
-- What the program takes from C++ and Qt: `double` and the text functions. They are parameters of
-- the model, and no law of them is assumed here.
use Prim.Native.Nat.{ℕ}
use Prim.Native.String.{String}
use mathlib.Core.Bool.{Bool}
use mathlib.Core.List.{List}
use wargame.Prelude.Tests.{if◌then◌else◌}

pub record Qt : Type 1 where
  pub Double : Type 0
  -- The literal 0.0, `<`, `<=`, `+` and `std::isfinite`.
  pub zero : Double
  pub lt : Double → Double → Bool
  pub le : Double → Double → Bool
  pub add : Double → Double → Double
  pub sub : Double → Double → Double
  -- `*`, `/` and `std::hypot`.
  pub mul : Double → Double → Double
  pub div : Double → Double → Double
  pub hypot : Double → Double → Double
  pub is_finite : Double → Bool
  -- Literals that are whole numbers, `==`, `std::floor` and `static_cast<int>`.
  pub of_nat : ℕ → Double
  pub eq : Double → Double → Bool
  pub floor : Double → Double
  pub to_nat : Double → ℕ
  -- `QString::size` and `QString::trimmed`.
  pub size : String → ℕ
  pub trimmed : String → String
  -- `QByteArray::fromBase64` and `toBase64`.
  pub from_base64 : String → List ℕ
  pub to_base64 : List ℕ → String
  -- `QString(format).arg(n)` and `arg(text)`, and `toUtf8`.
  pub arg : String → ℕ → String
  pub arg_text : String → String → String
  pub to_utf8 : String → List ℕ
  -- `*set.cbegin()`: an element of a hash set, in an order that Qt leaves open.
  pub first : List String → String

-- `std::max(a, b)`.
abbrev pub max_double : (q : Qt) → q.Double → q.Double → q.Double
max_double q a b = if q.lt a b then b else a

-- `std::clamp(v, low, high)`.
abbrev pub clamp : (q : Qt) → q.Double → q.Double → q.Double → q.Double
clamp q v low high = if q.lt v low then low else if q.lt high v then high else v
