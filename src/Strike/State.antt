-- ===== src/Strike/State.antt =====
-- The state of `GuidedStrikeWorkflow`, `setStage` and `reject`. The signals that the two emit are
-- the events that they append.
use wargame.Prelude.{ℕ, Bool, true, false, String, List, [], ◌∷◌, ◌++◌, keep_last, if◌then◌else◌}
use wargame.Prelude.Qt.{Qt}

pub data Stage : Type 0 where
  idle target_reported dispatch_pending strike_dispatched ground_guidance_pending : Stage
  engaging target_destroyed withdraw_pending withdrawn failed : Stage

-- The place of a stage in the source's enumeration.
abbrev pub rank : Stage → ℕ
rank idle = 0
rank target_reported = 1
rank dispatch_pending = 2
rank strike_dispatched = 3
rank ground_guidance_pending = 4
rank engaging = 5
rank target_destroyed = 6
rank withdraw_pending = 7
rank withdrawn = 8
rank failed = 9

unfoldable pub stage_name : Stage → String
stage_name idle = "idle"
stage_name target_reported = "targetReported"
stage_name dispatch_pending = "dispatchPending"
stage_name strike_dispatched = "strikeDispatched"
stage_name ground_guidance_pending = "groundGuidancePending"
stage_name engaging = "engaging"
stage_name target_destroyed = "targetDestroyed"
stage_name withdraw_pending = "withdrawPending"
stage_name withdrawn = "withdrawn"
stage_name failed = "failed"

abbrev pub same_stage : Stage → Stage → Bool
same_stage idle idle = true
same_stage target_reported target_reported = true
same_stage dispatch_pending dispatch_pending = true
same_stage strike_dispatched strike_dispatched = true
same_stage ground_guidance_pending ground_guidance_pending = true
same_stage engaging engaging = true
same_stage target_destroyed target_destroyed = true
same_stage withdraw_pending withdraw_pending = true
same_stage withdrawn withdrawn = true
same_stage failed failed = true
same_stage _ _ = false

pub data Event : Type 0 where
  -- stage, reason, target, attacker, guide, recon
  moved : Stage → String → String → String → String → String → Event
  rejected : Stage → String → Event

pub record Workflow (q : Qt) : Type 0 where
  pub side : String
  pub command_post_id : String
  pub recon_id : String
  pub target_id : String
  pub attacker_id : String
  pub guide_id : String
  pub stage : Stage
  pub events : List Event
  pub sequence : ℕ  -- quint64
  pub updated_at : q.Double
  pub created_at : q.Double
  pub correlation_id : String
  pub observed : List String  -- QSet

abbrev pub max_events : ℕ
max_events = 200

abbrev pub max_observed : ℕ
max_observed = 256

module _ (q : Qt) where
  unfoldable pub new_workflow : String → String → Workflow q
  new_workflow side command_post_id = record {
    side = side;
    command_post_id = command_post_id;
    recon_id = "";
    target_id = "";
    attacker_id = "";
    guide_id = "";
    stage = idle;
    events = [];
    sequence = 0;
    updated_at = q.zero;
    created_at = q.zero;
    correlation_id = "";
    observed = [];
  }

  abbrev pub append_event : Workflow q → Event → Workflow q
  append_event w e = record w { events = keep_last max_events (w.events ++ e ∷ []) }

  -- `if (m_createdAt <= 0.0) m_createdAt = m_updatedAt;`
  abbrev pub touch_created : Workflow q → Workflow q
  touch_created w = record w {
    created_at = if q.le w.created_at q.zero then w.updated_at else w.created_at;
  }

  unfoldable pub enter_stage : Workflow q → Stage → String → Workflow q
  enter_stage w stage reason =
      let w' = touch_created (record w { stage = stage }) in
      append_event w' (moved stage reason w.target_id w.attacker_id w.guide_id w.recon_id)

  unfoldable pub set_stage : Workflow q → Stage → String → Workflow q
  unfolding enter_stage
  set_stage w stage reason = if same_stage w.stage stage then w else enter_stage w stage reason

  unfoldable pub reject : Workflow q → String → Workflow q
  reject w reason = append_event w (rejected w.stage reason)
