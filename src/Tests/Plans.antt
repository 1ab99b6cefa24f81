-- ===== src/Tests/Plans.antt =====
-- A plan of two objectives, one with a target and one with a region.
use Prim.Native.String.{String}
use Prim.Native.Char.{code}
use wargame.Prelude.{
  ℕ, ◌≡◌, ◌<◌, ◌^◌, refl, true, false, Bool, arith, ltb, leb, ◌==◌, ◌&&◌, ◌||◌, some, if◌then◌else◌,
  if-true, lt→ltb, [], ◌∷◌,
}
use wargame.Prelude.Json.{end, field, number, value}
use wargame.Server.AiPlan.{
  identifier, is_ai_objective_action, is_movement, valid_region, finite_number, exact_keys, Reads,
  AiObjective, AiPlan, plan_from_json, plan_to_json, identifier, is_ai_objective_action,
  is_movement, valid_region,
}
use wargame.Server.AiPlan.RoundTrip.{IsPlan, plan_from_json-plan_to_json}
use wargame.Tests.Data.{nat_qt}

abbrev starts : String → String → Bool
starts s String.[] = true
starts String.[] (String.◌∷◌ c p) = false
starts (String.◌∷◌ d s) (String.◌∷◌ c p) = code d == code c && starts s p

-- The lower-case letters and the digits; `toInt` gives 0 beyond 31 bits.
abbrev latin : Reads nat_qt
latin = record {
  starts_with = starts;
  is_letter_or_number = λ c. (leb 97 c && leb c 122) || (leb 48 c && leb c 57);
  to_int = λ n. if ltb n (2 ^ 31) then some n else some 0;
  to_integer = λ n. some n;
}

abbrev assault : AiObjective nat_qt latin
assault = record {
  action = "attack";
  priority = 90;
  seat_id = "blue_1";
  target_id = "red_7";
  region = end;
  valid_until = 60;
}

abbrev watch : AiObjective nat_qt latin
watch = record {
  action = "patrol";
  priority = 0;
  seat_id = "blue_2";
  target_id = "";
  region = field "x" (number 3) (field "y" (number 4) end);
  valid_until = 0;
}

abbrev plan : AiPlan nat_qt latin
plan = record {
  schema_version = 1;
  request_id = "plan-1";
  match_generation = 1;
  source_state_revision = 12;
  planning_generation = 0;
  objectives = assault ∷ watch ∷ [];
}

small : (n : ℕ) → n < 2 ^ 31 → latin.to_int n ≡ some n
small n h = if-true _ _ (lt→ltb n (2 ^ 31) h)

plan-IsPlan : IsPlan nat_qt latin plan
unfolding identifier is_ai_objective_action is_movement valid_region finite_number exact_keys value
plan-IsPlan = record {
  version = refl;
  request = refl;
  generation = (omega arith, omega arith);
  revision = (omega arith, omega arith);
  planning = omega arith;
  few = omega arith;
  objectives = (
    record {
      action = refl;
      percent = omega arith;
      seat = (refl, refl);
      target = refl;
      movement = refl;
      region = refl;
      until = (refl, refl);
    },
    (
      record {
        action = refl;
        percent = omega arith;
        seat = (refl, refl);
        target = refl;
        movement = refl;
        region = refl;
        until = (refl, refl);
      },
      tt,
    ),
  );
}

plan_from_json-plan_to_json_example :
    plan_from_json nat_qt latin (plan_to_json nat_qt latin plan) ≡ some plan
plan_from_json-plan_to_json_example =
    plan_from_json-plan_to_json nat_qt latin small (λ n h. refl) plan plan-IsPlan
