-- ===== src/Server/StrictTask/Task.antt =====
-- One strict task: its stages, the action that each stage allows, and the seat that may take it.
use wargame.Prelude.{
  ℕ, Bool, true, false, not, ◌&&◌, ◌||◌, String, List, [], ◌∷◌, Option, some, leb, str_eq, is_empty,
  contains, length, if◌then◌else◌,
}
use wargame.Prelude.Qt.{Qt}
use wargame.Prelude.Json.{Json, value, to_object, to_double, is_object, is_number}

pub record Event (q : Qt) : Type 0 where
  pub action : String
  pub actor_seat_id : String
  pub stage : String
  pub health : String
  pub code : String
  pub time : q.Double

pub record Task (q : Qt) : Type 0 where
  pub task_id : String
  pub side : String
  pub task_revision : ℕ
  pub stage : String
  pub health : String
  pub block_code : String
  pub commander_seat_id : String
  pub recon_seat_id : String
  pub attack_seat_id : String
  pub ground_seat_id : String
  pub target_id : String
  pub correlation_id : String
  pub route : List (Json q.Double)
  pub pending_message_ids : List String
  pub event_history : List (Event q)
  pub created_at : q.Double
  pub updated_at : q.Double

-- The actions that a stage allows.
unfoldable pub allowed : String → List String
allowed stage =
    if str_eq stage "awaitingTargetReport"
    then "reportTarget" ∷ []
    else if str_eq stage "targetReported"
    then "dispatch" ∷ []
    else if str_eq stage "dispatchPending"
    then "acceptDispatch" ∷ []
    else if str_eq stage "enRoute"
    then "orderGroundGuidance" ∷ []
    else if str_eq stage "groundGuidancePending"
    then "markRendezvousReady" ∷ []
    else if str_eq stage "rendezvousReady"
    then "identityHello" ∷ []
    else if str_eq stage "identityHandshakePending"
    then "identityConfirm" ∷ []
    else if str_eq stage "guidancePackagePending"
    then "sendGuidancePackage" ∷ []
    else if str_eq stage "routeAcceptancePending"
    then "acceptGuidance" ∷ []
    else if str_eq stage "attackLanePending"
    then "reportAttackReady" ∷ []
    else if str_eq stage "attackAuthorizationPending"
    then "authorizeAttack" ∷ []
    else if str_eq stage "engaging"
    then "engage" ∷ []
    else if str_eq stage "damageReportPending"
    then "reportBattleDamage" ∷ []
    else if str_eq stage "damageAssessmentPending"
    then "confirmDamageAssessment" ∷ []
    else if str_eq stage "reconConfirmationPending"
    then "confirmTargetDestroyed" ∷ []
    else if str_eq stage "targetDestroyed"
    then "withdraw" ∷ []
    else if str_eq stage "withdrawPending"
    then "markReturning" ∷ []
    else []

unfoldable pub valid_stage_action : String → String → Bool
valid_stage_action stage action = contains (allowed stage) action

unfoldable pub next_stage : String → String
next_stage action =
    if str_eq action "reportTarget"
    then "targetReported"
    else if str_eq action "dispatch"
    then "dispatchPending"
    else if str_eq action "acceptDispatch"
    then "enRoute"
    else if str_eq action "orderGroundGuidance"
    then "groundGuidancePending"
    else if str_eq action "markRendezvousReady"
    then "rendezvousReady"
    else if str_eq action "identityHello"
    then "identityHandshakePending"
    else if str_eq action "identityConfirm"
    then "guidancePackagePending"
    else if str_eq action "sendGuidancePackage"
    then "routeAcceptancePending"
    else if str_eq action "acceptGuidance"
    then "attackLanePending"
    else if str_eq action "reportAttackReady"
    then "attackAuthorizationPending"
    else if str_eq action "authorizeAttack"
    then "engaging"
    else if str_eq action "engage"
    then "damageReportPending"
    else if str_eq action "reportBattleDamage"
    then "damageAssessmentPending"
    else if str_eq action "confirmDamageAssessment"
    then "reconConfirmationPending"
    else if str_eq action "confirmTargetDestroyed"
    then "targetDestroyed"
    else if str_eq action "withdraw"
    then "withdrawPending"
    else if str_eq action "markReturning"
    then "returning"
    else ""

module _ (q : Qt) where
  unfoldable pub valid_id : String → Bool
  valid_id v = not (is_empty (q.trimmed v)) && leb (q.size v) 64

  unfoldable pub valid_side : String → Bool
  valid_side side = str_eq side "red" || str_eq side "blue"

  unfoldable pub is_open_task : Task q → Bool
  is_open_task t = str_eq t.health "active" || str_eq t.health "blocked"

  unfoldable pub is_finite_number : Option (Json q.Double) → Bool
  is_finite_number v = is_number v && q.is_finite (to_double v q.zero)

  unfoldable pub all_points : List (Json q.Double) → Bool
  all_points [] = true
  all_points (v ∷ vs) =
      let point = to_object (some v) in
      is_object (some v)
      && is_finite_number (value point "x")
      && is_finite_number (value point "y")
      && all_points vs

  unfoldable pub valid_route : List (Json q.Double) → Bool
  valid_route route = leb (length route) 32 && all_points route

  unfoldable pub role_matches : Task q → String → String → Bool
  role_matches t action actor =
      if contains ("reportTarget" ∷ "confirmTargetDestroyed" ∷ []) action
      then str_eq actor t.recon_seat_id
      else if contains ("dispatch" ∷ "orderGroundGuidance" ∷ "withdraw" ∷ []) action
      then str_eq actor t.commander_seat_id
      else if contains
          ("acceptDispatch" ∷ "identityHello" ∷ "acceptGuidance" ∷ "reportAttackReady" ∷ "engage"
            ∷ "reportBattleDamage" ∷ "markReturning" ∷ [])
          action
      then str_eq actor t.attack_seat_id
      else if contains
          ("markRendezvousReady" ∷ "identityConfirm" ∷ "sendGuidancePackage" ∷ "authorizeAttack"
            ∷ "confirmDamageAssessment" ∷ [])
          action
      then str_eq actor t.ground_seat_id
      else false
