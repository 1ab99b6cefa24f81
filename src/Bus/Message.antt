-- ===== src/Bus/Message.antt =====
-- `Message` of src/core/MessageBus.h.
use wargame.Prelude.{
  ℕ, ◌≡◌, refl, Bool, String, List, [], ◌∷◌, Option, none, some, str_eq, if◌then◌else◌,
}
use wargame.Prelude.Json.{Fields}

pub data MessageType : Type 0 where
  position_report target_detect target_report target_track target_destroyed unit_order : MessageType
  attack_order strike_plan flight_plan guidance ground_guide_order ground_attack_confirm ack :
      MessageType
  withdraw withdraw_order comm_check engagement_report shared_detect pursue halt : MessageType
  cancel_engagement set_rules_of_engagement identity_report ground_target_report route_acceptance :
      MessageType
  attack_ready_report attack_authorization battle_damage_report damage_assessment_confirm :
      MessageType

unfoldable pub type_name : MessageType → String
type_name position_report = "PositionReport"
type_name target_detect = "TargetDetect"
type_name target_report = "TargetReport"
type_name target_track = "TargetTrack"
type_name target_destroyed = "TargetDestroyed"
type_name unit_order = "UnitOrder"
type_name attack_order = "AttackOrder"
type_name strike_plan = "StrikePlan"
type_name flight_plan = "FlightPlan"
type_name guidance = "Guidance"
type_name ground_guide_order = "GroundGuideOrder"
type_name ground_attack_confirm = "GroundAttackConfirm"
type_name ack = "Ack"
type_name withdraw = "Withdraw"
type_name withdraw_order = "WithdrawOrder"
type_name comm_check = "CommCheck"
type_name engagement_report = "EngagementReport"
type_name shared_detect = "SharedDetect"
type_name pursue = "Pursue"
type_name halt = "Halt"
type_name cancel_engagement = "CancelEngagement"
type_name set_rules_of_engagement = "SetRulesOfEngagement"
type_name identity_report = "IdentityReport"
type_name ground_target_report = "GroundTargetReport"
type_name route_acceptance = "RouteAcceptance"
type_name attack_ready_report = "AttackReadyReport"
type_name attack_authorization = "AttackAuthorization"
type_name battle_damage_report = "BattleDamageReport"
type_name damage_assessment_confirm = "DamageAssessmentConfirm"

-- The order in which `parseTypeName` tries the types.
abbrev values : List MessageType
values =
    position_report ∷ target_detect ∷ target_report ∷ target_track ∷ target_destroyed ∷ unit_order
    ∷ attack_order ∷ strike_plan ∷ flight_plan ∷ guidance ∷ ground_guide_order
    ∷ ground_attack_confirm ∷ ack ∷ withdraw ∷ withdraw_order ∷ comm_check ∷ engagement_report
    ∷ shared_detect ∷ pursue ∷ halt ∷ cancel_engagement ∷ set_rules_of_engagement ∷ identity_report
    ∷ ground_target_report ∷ route_acceptance ∷ attack_ready_report ∷ attack_authorization
    ∷ battle_damage_report ∷ damage_assessment_confirm ∷ []

find_name : List MessageType → String → Option MessageType
find_name [] name = none
find_name (t ∷ ts) name = if str_eq (type_name t) name then some t else find_name ts name

pub parse_type_name : String → Option MessageType
parse_type_name name = find_name values name

-- Every type survives printing and parsing: the wire name determines the type, and
-- `parseTypeName` misses none.
pub parse_type_name-type_name : (t : MessageType) → parse_type_name (type_name t) ≡ some t
unfolding parse_type_name find_name type_name
parse_type_name-type_name position_report = refl
parse_type_name-type_name target_detect = refl
parse_type_name-type_name target_report = refl
parse_type_name-type_name target_track = refl
parse_type_name-type_name target_destroyed = refl
parse_type_name-type_name unit_order = refl
parse_type_name-type_name attack_order = refl
parse_type_name-type_name strike_plan = refl
parse_type_name-type_name flight_plan = refl
parse_type_name-type_name guidance = refl
parse_type_name-type_name ground_guide_order = refl
parse_type_name-type_name ground_attack_confirm = refl
parse_type_name-type_name ack = refl
parse_type_name-type_name withdraw = refl
parse_type_name-type_name withdraw_order = refl
parse_type_name-type_name comm_check = refl
parse_type_name-type_name engagement_report = refl
parse_type_name-type_name shared_detect = refl
parse_type_name-type_name pursue = refl
parse_type_name-type_name halt = refl
parse_type_name-type_name cancel_engagement = refl
parse_type_name-type_name set_rules_of_engagement = refl
parse_type_name-type_name identity_report = refl
parse_type_name-type_name ground_target_report = refl
parse_type_name-type_name route_acceptance = refl
parse_type_name-type_name attack_ready_report = refl
parse_type_name-type_name attack_authorization = refl
parse_type_name-type_name battle_damage_report = refl
parse_type_name-type_name damage_assessment_confirm = refl

pub data WireFormat : Type 0 where
  native vmf_design_v1 : WireFormat

pub record Message (R : Type 0) : Type 0 where
  pub id : String
  pub kind : MessageType
  pub sender : String
  pub receiver : String
  -- The `timestamp` is left out.
  pub requires_ack : Bool
  pub acked : Bool
  pub automatic_ack : Bool
  pub vmf_encoded : Bool
  pub retry_count : ℕ
  pub trace_id : String
  pub correlation_id : String
  pub vmf_message : String
  pub wire_format : WireFormat
  pub wire_bytes : List ℕ
  pub wire_bit_length : ℕ
  pub payload : Fields R
