-- ===== src/Server/AiPlan.antt =====
-- server/game/AiPlan.h and .cpp: the plan that a planner hands to the server, written as JSON and read
-- back with every test on it.
pub mod RoundTrip
use Prim.Native.String.{String}
use Prim.Native.Char.{code}
use wargame.Prelude.{
  ℕ, ◌==◌, Bool, true, false, not, ◌&&◌, ◌||◌, List, [], ◌∷◌, Option, none, some, str_eq, ltb, leb,
  is_empty, contains, length, if◌then◌else◌,
}
use wargame.Prelude.Qt.{Qt}
use wargame.Prelude.Json.{
  Json, Fields, end, field, text, number, object, array, value, insert, to_string, to_object,
  to_array, to_double, to_list, of_list, is_string, is_number, is_object, is_array, has_key,
  is_empty_object,
}

-- What else the parser takes from Qt: `startsWith`, `QChar::isLetterOrNumber` on a code, and `toInt`
-- and `toInteger`, which are `none` where they are negative.
pub record Reads (q : Qt) : Type 0 where
  pub starts_with : String → String → Bool
  pub is_letter_or_number : ℕ → Bool
  pub to_int : q.Double → Option ℕ
  pub to_integer : q.Double → Option ℕ

-- What `toInt` or `toInteger` gives on a value: 0 where it is no number.
abbrev pub whole : {D : Type 0} → (D → Option ℕ) → Option (Json D) → Option ℕ
whole read (some (number x)) = read x
whole read v = some 0

abbrev pub all_characters : (ℕ → Bool) → String → Bool
all_characters test String.[] = true
all_characters test (String.◌∷◌ c s) = test (code c) && all_characters test s

-- A number that is there and above 0.
abbrev pub is_positive : Option ℕ → Bool
is_positive none = false
is_positive (some n) = not (n == 0)

abbrev pub is_percent : Option ℕ → Bool
is_percent none = false
is_percent (some n) = leb n 100

abbrev pub or_zero : Option ℕ → ℕ
or_zero none = 0
or_zero (some n) = n

unfoldable pub is_ai_objective_action : String → Bool
is_ai_objective_action a =
    str_eq a "defend"
    || str_eq a "withdraw"
    || str_eq a "search"
    || str_eq a "attack"
    || str_eq a "guard"
    || str_eq a "jam"
    || str_eq a "patrol"
    || str_eq a "relocate"

unfoldable pub is_movement : String → Bool
is_movement a =
    str_eq a "search"
    || str_eq a "patrol"
    || str_eq a "guard"
    || str_eq a "jam"
    || str_eq a "relocate"

module _ (q : Qt) (r : Reads q) where
  pub record AiObjective : Type 0 where
    pub action : String
    pub priority : ℕ
    pub seat_id : String
    pub target_id : String
    pub region : Fields q.Double
    pub valid_until : q.Double

  pub record AiPlan : Type 0 where
    pub schema_version : ℕ
    pub request_id : String
    pub match_generation : ℕ
    pub source_state_revision : ℕ
    pub planning_generation : ℕ
    pub objectives : List AiObjective

  -- `_`, `:` and `-` besides letters and numbers.
  unfoldable pub identifier : String → ℕ → Bool
  identifier s maximum =
      not (is_empty s)
      && leb (q.size s) maximum
      && all_characters (λ c. r.is_letter_or_number c || c == 95 || c == 58 || c == 45) s

  unfoldable pub exact_keys : Fields q.Double → List String → Bool
  exact_keys end allowed = true
  exact_keys (field k v m) allowed = contains allowed k && exact_keys m allowed

  unfoldable pub finite_number : Option (Json q.Double) → Bool
  finite_number v = is_number v && q.is_finite (to_double v q.zero)

  unfoldable pub valid_region : Fields q.Double → Bool
  valid_region region =
      not (is_empty_object region)
      && exact_keys region ("x" ∷ "y" ∷ [])
      && finite_number (value region "x")
      && finite_number (value region "y")

  -- The tests on the members of an objective, in the source's order.
  unfoldable pub valid_objective : Fields q.Double → Bool
  valid_objective o =
      let action = to_string (value o "action") in
      let seat = to_string (value o "seatId") in
      let target = to_string (value o "targetId") in
      exact_keys o ("action" ∷ "priority" ∷ "seatId" ∷ "targetId" ∷ "region" ∷ "validUntil" ∷ [])
      && is_string (value o "action")
      && is_ai_objective_action action
      && is_number (value o "priority")
      && is_percent (whole r.to_int (value o "priority"))
      && is_string (value o "seatId")
      && r.starts_with seat "blue_"
      && identifier seat 64
      && (not (is_movement action) || is_object (value o "region"))
      && (not (has_key o "targetId") || is_empty target || identifier target 64)
      && (not (has_key o "region") || valid_region (to_object (value o "region")))
      && finite_number (value o "validUntil")
      && not (q.lt (to_double (value o "validUntil") q.zero) q.zero)

  unfoldable pub parse_objective : Json q.Double → Option AiObjective
  parse_objective v =
      let o = to_object (some v) in
      if is_object (some v) && valid_objective o
      then some (record {
        action = to_string (value o "action");
        priority = or_zero (whole r.to_int (value o "priority"));
        seat_id = to_string (value o "seatId");
        target_id = to_string (value o "targetId");
        region = to_object (value o "region");
        valid_until = to_double (value o "validUntil") q.zero;
      })
      else none

  unfoldable pub parse_objectives : List (Json q.Double) → Option (List AiObjective)
  parse_objectives [] = some []
  parse_objectives (v ∷ vs) = elim (parse_objective v) [
    | none ↦ none
    | some o ↦ elim (parse_objectives vs) [ none ↦ none | some os ↦ some (o ∷ os) ]
  ]

  unfoldable pub valid_envelope : Fields q.Double → Bool
  valid_envelope o =
      exact_keys o (
        "schemaVersion" ∷ "requestId" ∷ "matchGeneration" ∷ "sourceStateRevision"
        ∷ "planningGeneration" ∷ "objectives" ∷ [])
      && or_zero (whole r.to_int (value o "schemaVersion")) == 1
      && is_string (value o "requestId")
      && identifier (to_string (value o "requestId")) 128
      && is_number (value o "matchGeneration")
      && is_positive (whole r.to_integer (value o "matchGeneration"))
      && is_number (value o "sourceStateRevision")
      && is_positive (whole r.to_integer (value o "sourceStateRevision"))
      && (not (has_key o "planningGeneration")
          || (is_number (value o "planningGeneration")
              && is_positive (whole r.to_integer (value o "planningGeneration"))))
      && is_array (value o "objectives")

  unfoldable pub plan_from_json : Fields q.Double → Option AiPlan
  plan_from_json o =
      let values = to_list (to_array (value o "objectives")) in
      if not (valid_envelope o) || ltb 16 (length values)
      then none
      else elim (parse_objectives values) [
        | none ↦ none
        | some objectives ↦ some (record {
          schema_version = 1;
          request_id = to_string (value o "requestId");
          match_generation = or_zero (whole r.to_integer (value o "matchGeneration"));
          source_state_revision = or_zero (whole r.to_integer (value o "sourceStateRevision"));
          planning_generation = or_zero (whole r.to_integer (value o "planningGeneration"));
          objectives = objectives;
        })
      ]

  -- A member that is left out where it is empty.
  unfoldable pub optional : Bool → String → Json q.Double → Fields q.Double → Fields q.Double
  optional true k v m = m
  optional false k v m = insert m k v

  unfoldable pub objective_json : AiObjective → Fields q.Double
  objective_json o =
      let item = field "action" (text o.action) (
        field "priority" (number (q.of_nat o.priority))
          (field "seatId" (text o.seat_id) (field "validUntil" (number o.valid_until) end))) in
      optional (is_empty_object o.region) "region" (object o.region)
        (optional (is_empty o.target_id) "targetId" (text o.target_id) item)

  unfoldable pub objectives_json : List AiObjective → List (Json q.Double)
  objectives_json [] = []
  objectives_json (o ∷ os) = object (objective_json o) ∷ objectives_json os

  unfoldable pub plan_to_json : AiPlan → Fields q.Double
  plan_to_json p =
      optional (p.planning_generation == 0) "planningGeneration"
        (number (q.of_nat p.planning_generation))
        (field "schemaVersion" (number (q.of_nat p.schema_version)) (
          field "requestId" (text p.request_id) (
            field "matchGeneration" (number (q.of_nat p.match_generation)) (
              field "sourceStateRevision" (number (q.of_nat p.source_state_revision))
                (field "objectives" (array (of_list (objectives_json p.objectives))) end)))))
