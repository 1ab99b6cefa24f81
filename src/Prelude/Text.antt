-- ===== src/Prelude/Text.antt =====
-- `QString` values that are only compared, as native texts.
use Prim.Native.String.{String}
use mathlib.Core.Path.{◌≡◌, refl}
use mathlib.Core.Logic.{◌↔◌}
use mathlib.Core.Bool.{Bool, true, false, not, ◌||◌}
use mathlib.Core.List.{List, [], ◌∷◌, ◌++◌}
pub use Prim.Native.String.{String}
use native.Mathlib.Omega.{arith}
use wargame.Prelude.Tests.{if◌then◌else◌}
use text.Mathlib.Text.{◌==◌}
use text.Mathlib.TextEquality.{eq_iff}

abbrev pub str_eq : String → String → Bool
str_eq a b = a == b

abbrev pub str_ne : String → String → Bool
str_ne a b = not (str_eq a b)

-- `QString::isEmpty`.
abbrev pub is_empty : String → Bool
is_empty s = str_eq s ""

pub str_eq_iff : (a b : String) → (str_eq a b ≡ true) ↔ (a ≡ b)
str_eq_iff a b = eq_iff a b

-- Membership in a `QSet<QString>` kept as a list.
abbrev pub contains : List String → String → Bool
contains [] a = false
contains (x ∷ xs) a = str_eq x a || contains xs a

abbrev pub remove : String → List String → List String
remove a [] = []
remove a (x ∷ xs) = if str_eq x a then remove a xs else x ∷ remove a xs

pub contains-append :
    (xs ys : List String) (a : String) → contains (xs ++ ys) a ≡ (contains xs a || contains ys a)
contains-append [] ys a = refl
contains-append (x ∷ xs) ys a = ground (arith, contains-append xs ys a)
