-- ===== src/Server/AiPlan/RoundTrip.antt =====
-- server/game/AiPlan.cpp: toJson, then fromJson.
use Prim.Native.Nat.{suc}
use Prim.Native.String.{String}
use wargame.Prelude.{
  ℕ, ◌<◌, ◌^◌, ◌≤◌, ◌==◌, ◌≡◌, refl, Bool, true, false, not, ◌||◌, List, [], ◌∷◌, some, All,
  is_empty, length, arith, str_eq_iff, ap, sym, leb, ltb, ==_iff,
}
use wargame.Prelude.Qt.{Qt}
use wargame.Prelude.Json.{
  Fields, end, field, text, number, object, array, value, insert, is_empty_object, of_list,
  to_list-of_list,
}
use wargame.Server.AiPlan.{
  Reads, AiObjective, AiPlan, identifier, is_ai_objective_action, is_movement, valid_region,
  finite_number, exact_keys, valid_objective, parse_objective, parse_objectives, objective_json,
  objectives_json, plan_to_json, plan_from_json, optional, valid_envelope,
}

module _ (q : Qt) (r : Reads q) where
  -- An objective within the limits of the parser.
  pub record IsObjective (o : AiObjective q r) : Type 0 where
    pub action : is_ai_objective_action o.action ≡ true
    pub percent : o.priority ≤ 100
    pub seat : (r.starts_with o.seat_id "blue_" ≡ true) × (identifier q r o.seat_id 64 ≡ true)
    pub target : (is_empty o.target_id || identifier q r o.target_id 64) ≡ true
    pub movement : (not (is_movement o.action) || not (is_empty_object o.region)) ≡ true
    pub region : (is_empty_object o.region || valid_region q r o.region) ≡ true
    pub until : (q.is_finite o.valid_until ≡ true) × (q.lt o.valid_until q.zero ≡ false)

  -- Likewise a plan; a generation fits the 53 bits of a double; a planning generation of 0 is none.
  pub record IsPlan (p : AiPlan q r) : Type 0 where
    pub version : p.schema_version ≡ 1
    pub request : identifier q r p.request_id 128 ≡ true
    pub generation : (0 < p.match_generation) × (p.match_generation < 2 ^ 53)
    pub revision : (0 < p.source_state_revision) × (p.source_state_revision < 2 ^ 53)
    pub planning : p.planning_generation < 2 ^ 53
    pub few : length p.objectives ≤ 16
    pub objectives : All IsObjective p.objectives

  or_true : (b : Bool) → (b || true) ≡ true
  or_true true = refl
  or_true false = refl

  is_empty→≡ : (s : String) → is_empty s ≡ true → "" ≡ s
  is_empty→≡ s e = sym ((str_eq_iff s "").0 e)

  right : (a b : Bool) → a ≡ false → (a || b) ≡ true → b ≡ true
  right true b e h = cc
  right false b e h = h

  end→≡ : (m : Fields q.Double) → is_empty_object m ≡ true → end ≡ m
  end→≡ end e = refl
  end→≡ (field k v m) e = cc

  leb-true : (n : ℕ) → n ≤ 100 → leb n 100 ≡ true
  leb-true n h = ground arith

  still :
      (o : AiObjective q r)
      → IsObjective o
      → is_empty_object o.region ≡ true
      → is_movement o.action ≡ false
  still o v e = ground (arith, v.movement, e)

  module _ (small : (n : ℕ) → n < 2 ^ 31 → r.to_int (q.of_nat n) ≡ some n) where
    -- The four ways to write an objective.
    written :
        (a b : Bool) (o : AiObjective q r)
        → IsObjective o
        → is_empty o.target_id ≡ a
        → is_empty_object o.region ≡ b
        → parse_objective q r (
            object (
              optional q r b "region" (object o.region) (
                optional q r a "targetId" (text o.target_id) (
                  field "action" (text o.action) (
                    field "priority" (number (q.of_nat o.priority)) (
                      field "seatId"
                        (text o.seat_id)
                        (field "validUntil" (number o.valid_until) end)))))))
          ≡ some o
    unfolding parse_objective valid_objective optional value insert exact_keys finite_number
    written true true o v e1 e2 =
        rw
          (
            parse_objective,
            v.action,
            v.seat.0,
            v.seat.1,
            v.until.0,
            v.until.1,
            small o.priority (omega (arith, v.percent)),
            leb-true o.priority v.percent,
            still o v e2,
          )
          (ap (λ (t, m). some (record o { target_id = t; region = m }))
            (λ i. (is_empty→≡ o.target_id e1 i, end→≡ o.region e2 i)))
    written true false o v e1 e2 =
        rw
          (
            parse_objective,
            v.action,
            v.seat.0,
            v.seat.1,
            v.until.0,
            v.until.1,
            small o.priority (omega (arith, v.percent)),
            leb-true o.priority v.percent,
            or_true (not (is_movement o.action)),
            right _ _ e2 v.region,
          )
          (ap (λ t. some (record o { target_id = t })) (is_empty→≡ o.target_id e1))
    written false true o v e1 e2 =
        rw
          (
            parse_objective,
            v.action,
            v.seat.0,
            v.seat.1,
            v.until.0,
            v.until.1,
            small o.priority (omega (arith, v.percent)),
            leb-true o.priority v.percent,
            still o v e2,
            e1,
            right _ _ e1 v.target,
          )
          (ap (λ m. some (record o { region = m })) (end→≡ o.region e2))
    written false false o v e1 e2 =
        rw
          (
            parse_objective,
            v.action,
            v.seat.0,
            v.seat.1,
            v.until.0,
            v.until.1,
            small o.priority (omega (arith, v.percent)),
            leb-true o.priority v.percent,
            or_true (not (is_movement o.action)),
            right _ _ e2 v.region,
            e1,
            right _ _ e1 v.target,
          )
          refl

    parse-objective_json :
        (o : AiObjective q r)
        → IsObjective o
        → parse_objective q r (object (objective_json q r o)) ≡ some o
    unfolding objective_json
    parse-objective_json o v =
        written (is_empty o.target_id) (is_empty_object o.region) o v refl refl

    parse-objectives_json :
        (os : List (AiObjective q r))
        → All IsObjective os
        → parse_objectives q r (objectives_json q r os) ≡ some os
    unfolding parse_objectives objectives_json
    parse-objectives_json [] v = refl
    parse-objectives_json (o ∷ os) v =
        rw (parse_objectives, parse-objective_json o v.0, parse-objectives_json os v.1)

    length-objectives_json :
        (os : List (AiObjective q r)) → length (objectives_json q r os) ≡ length os
    unfolding objectives_json
    length-objectives_json [] = refl
    length-objectives_json (o ∷ os) = ap suc (length-objectives_json os)

    positive : (n : ℕ) → 0 < n → not (n == 0) ≡ true
    positive n h = ground arith

    few :
        (os : List (AiObjective q r))
        → length os ≤ 16
        → ltb 16 (length (objectives_json q r os)) ≡ false
    few os h = let e = length-objectives_json os in ground (arith, h, e)

    module _ (exact : (n : ℕ) → n < 2 ^ 53 → r.to_integer (q.of_nat n) ≡ some n) where
      enveloped :
          (b : Bool) (p : AiPlan q r)
          → IsPlan p
          → (p.planning_generation == 0) ≡ b
          → plan_from_json q r (
              optional q r b "planningGeneration" (number (q.of_nat p.planning_generation)) (
                field "schemaVersion" (number (q.of_nat p.schema_version)) (
                  field "requestId" (text p.request_id) (
                    field "matchGeneration" (number (q.of_nat p.match_generation)) (
                      field "sourceStateRevision" (number (q.of_nat p.source_state_revision)) (
                        field "objectives"
                          (array (of_list (objectives_json q r p.objectives)))
                          end))))))
            ≡ some p
      unfolding plan_from_json valid_envelope optional value insert exact_keys
      enveloped true p v e =
          rw
            (
              plan_from_json,
              small p.schema_version (omega (arith, v.version)),
              (==_iff p.schema_version 1).1 v.version,
              v.request,
              exact p.match_generation v.generation.1,
              positive p.match_generation v.generation.0,
              exact p.source_state_revision v.revision.1,
              positive p.source_state_revision v.revision.0,
              to_list-of_list (objectives_json q r p.objectives),
              few p.objectives v.few,
              parse-objectives_json p.objectives v.objectives,
            )
            (rw
              (exact p.match_generation v.generation.1, exact p.source_state_revision v.revision.1)
              (ap (λ (n, k). some (record p { schema_version = n; planning_generation = k }))
                (λ i. (sym v.version i, sym ((==_iff p.planning_generation 0).0 e) i))))
      enveloped false p v e =
          rw
            (
              plan_from_json,
              small p.schema_version (omega (arith, v.version)),
              (==_iff p.schema_version 1).1 v.version,
              v.request,
              exact p.match_generation v.generation.1,
              positive p.match_generation v.generation.0,
              exact p.source_state_revision v.revision.1,
              positive p.source_state_revision v.revision.0,
              exact p.planning_generation v.planning,
              positive p.planning_generation (ground (arith, e)),
              to_list-of_list (objectives_json q r p.objectives),
              few p.objectives v.few,
              parse-objectives_json p.objectives v.objectives,
            )
            (rw
              (
                exact p.match_generation v.generation.1,
                exact p.source_state_revision v.revision.1,
                exact p.planning_generation v.planning,
              )
              (ap (λ n. some (record p { schema_version = n })) (sym v.version)))

      -- Where `toInt` reads back whole numbers below 2^31 and `toInteger` those below 2^53, a plan
      -- that meets `IsPlan` is accepted as it was written, with every objective in its place.
      pub plan_from_json-plan_to_json :
          (p : AiPlan q r) → IsPlan p → plan_from_json q r (plan_to_json q r p) ≡ some p
      unfolding plan_to_json
      plan_from_json-plan_to_json p v = enveloped (p.planning_generation == 0) p v refl
