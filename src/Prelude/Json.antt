-- ===== src/Prelude/Json.antt =====
-- `QJsonValue` and `QJsonObject`, over a type of numbers. An object is its list of members; `insert`
-- keeps one member for each key, as Qt does.
use Prim.Native.String.{String}
use mathlib.Core.Path.{◌≡◌, refl, ap}
use mathlib.Core.List.{List, [], ◌∷◌}
use mathlib.Core.Bool.{Bool, true, false}
use mathlib.Core.Option.{Option, none, some}
use native.Mathlib.Omega.{arith}
use wargame.Prelude.Tests.{if◌then◌else◌}
use wargame.Prelude.Text.{str_eq, str_eq_iff}

mutual
  pub data Json (R : Type 0) : Type 0 where
    null : Json R
    flag : Bool → Json R
    number : R → Json R
    text : String → Json R
    array : Items R → Json R
    object : Fields R → Json R

  pub data Items (R : Type 0) : Type 0 where
    nil : Items R
    cons : Json R → Items R → Items R

  pub data Fields (R : Type 0) : Type 0 where
    end : Fields R
    field : String → Json R → Fields R → Fields R

module _ {R : Type 0} where
  -- `object.value(key)`; `none` is the undefined value.
  unfoldable pub value : Fields R → String → Option (Json R)
  value end k = none
  value (field j v m) k = if str_eq j k then some v else value m k

  unfoldable pub insert : Fields R → String → Json R → Fields R
  insert end k v = field k v end
  insert (field j w m) k v = if str_eq j k then field k v m else field j w (insert m k v)

  -- `value.toString()`, `value.toArray()` and `value.toBool()` with their defaults.
  abbrev pub to_string : Option (Json R) → String
  to_string (some (text s)) = s
  to_string _ = ""

  abbrev pub to_array : Option (Json R) → Items R
  to_array (some (array xs)) = xs
  to_array _ = nil

  abbrev pub is_empty_array : Items R → Bool
  is_empty_array nil = true
  is_empty_array (cons x xs) = false

  abbrev pub is_empty_object : Fields R → Bool
  is_empty_object end = true
  is_empty_object (field k v m) = false

  pub value-insert :
      (m : Fields R) (k j : String) (v : Json R)
      → value (insert m k v) j ≡ (if str_eq k j then some v else value m j)
  unfolding value insert
  value-insert end k j v = refl
  value-insert (field i w m) k j v =
      ground (arith, str_eq_iff k j, str_eq_iff i k, str_eq_iff i j, value-insert m k j v)

  unfoldable pub remove_key : Fields R → String → Fields R
  remove_key end k = end
  remove_key (field j v m) k = if str_eq j k then remove_key m k else field j v (remove_key m k)

  abbrev pub to_bool : Option (Json R) → Bool
  to_bool (some (flag b)) = b
  to_bool _ = false

  abbrev pub to_object : Option (Json R) → Fields R
  to_object (some (object m)) = m
  to_object _ = end

  abbrev pub is_empty_array_value : Option (Json R) → Bool
  is_empty_array_value (some (array nil)) = true
  is_empty_array_value _ = false

  abbrev pub is_string : Option (Json R) → Bool
  is_string (some (text s)) = true
  is_string _ = false

  abbrev pub is_number : Option (Json R) → Bool
  is_number (some (number n)) = true
  is_number _ = false

  abbrev pub is_flag : Option (Json R) → Bool
  is_flag (some (flag b)) = true
  is_flag _ = false

  abbrev pub is_object : Option (Json R) → Bool
  is_object (some (object m)) = true
  is_object _ = false

  abbrev pub is_array : Option (Json R) → Bool
  is_array (some (array xs)) = true
  is_array _ = false

  -- `value.toDouble(otherwise)`.
  abbrev pub to_double : Option (Json R) → R → R
  to_double (some (number n)) otherwise = n
  to_double _ otherwise = otherwise

  -- A `QJsonArray` as a list of its values, and back.
  abbrev pub to_list : Items R → List (Json R)
  to_list nil = []
  to_list (cons x xs) = x ∷ to_list xs

  abbrev pub of_list : List (Json R) → Items R
  of_list [] = nil
  of_list (x ∷ xs) = cons x (of_list xs)

  pub to_list-of_list : (xs : List (Json R)) → to_list (of_list xs) ≡ xs
  to_list-of_list [] = refl
  to_list-of_list (x ∷ xs) = ap (λ ys. x ∷ ys) (to_list-of_list xs)

  -- `object.contains(key)`.
  abbrev pub has_key : Fields R → String → Bool
  has_key m k = elim (value m k) [ none ↦ false | some v ↦ true ]
