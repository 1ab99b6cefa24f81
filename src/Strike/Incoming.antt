-- ===== src/Strike/Incoming.antt =====
-- `validateIncomingMessage`: the guard of the authoritative host. `some reason` is a refusal.
use wargame.Prelude.{
  Bool, true, false, not, ◌&&◌, ◌||◌, String, Option, none, some, str_eq, str_ne, is_empty,
  if◌then◌else◌,
}
use wargame.Prelude.Qt.{Qt}
use wargame.Prelude.Json.{value, to_string, to_array, is_empty_array}
use wargame.Bus.Message.{
  Message, MessageType, target_report, target_detect, strike_plan, flight_plan, attack_order,
  ground_guide_order, ground_attack_confirm, target_destroyed as target_destroyed_report,
  withdraw_order, withdraw, guidance, engagement_report,
}
use wargame.Strike.State.{Workflow}
use wargame.Strike.Posted.{
  takes_report, takes_plan, takes_guide_order, takes_confirmation, takes_destruction,
  takes_withdrawal,
}

-- `message.type != Message::Type::AttackOrder`, for the three types that share the case.
abbrev needs_route : MessageType → Bool
needs_route attack_order = false
needs_route _ = true

-- `!held.isEmpty() && given != held`.
abbrev conflicts : String → String → Bool
conflicts held given = not (is_empty held) && str_ne given held

abbrev refuse_if : Bool → String → Option String
refuse_if b reason = if b then some reason else none

module _ (q : Qt) (w : Workflow q) (m : Message q.Double) where
  abbrev target : String
  target = to_string (value m.payload "targetId")

  abbrev attacker : String
  attacker = to_string (value m.payload "attackerId")

  abbrev no_waypoints : Bool
  no_waypoints = is_empty_array (to_array (value m.payload "waypoints"))

  abbrev same_target : Bool
  same_target = not (is_empty target) && (is_empty w.target_id || str_eq target w.target_id)

  abbrev same_correlation : Bool
  same_correlation = is_empty w.correlation_id || str_eq m.correlation_id w.correlation_id

  check_report : Option String
  check_report =
      refuse_if
        (str_ne m.receiver w.command_post_id || not same_target || not (takes_report w.stage))
        "当前阶段不接受该目标报告"

  check_plan : Option String
  check_plan =
      refuse_if
        (str_ne m.sender w.command_post_id
          || is_empty m.receiver
          || not same_target
          || (needs_route m.kind && no_waypoints)
          || conflicts w.attacker_id m.receiver
          || not (takes_plan w.stage))
        "当前阶段不接受该打击规划或攻击命令"

  check_guide_order : Option String
  check_guide_order =
      refuse_if
        (str_ne m.sender w.command_post_id
          || is_empty m.receiver
          || not same_target
          || is_empty attacker
          || conflicts w.attacker_id attacker
          || not (takes_guide_order w.stage))
        "当前阶段不接受地面引导命令"

  check_confirmation : Option String
  check_confirmation =
      refuse_if
        (is_empty m.sender
          || is_empty m.receiver
          || not same_target
          || no_waypoints
          || conflicts w.guide_id m.sender
          || conflicts w.attacker_id m.receiver
          || not (takes_confirmation w.stage))
        "当前阶段不接受地面攻击确认"

  check_guidance : Option String
  check_guidance =
      refuse_if
        (str_ne m.receiver w.attacker_id
          || not same_target
          || no_waypoints
          || not (takes_confirmation w.stage))
        "当前阶段不接受攻击引导消息"

  check_engagement : Option String
  check_engagement =
      refuse_if
        (str_ne m.sender w.attacker_id
          || str_ne m.receiver w.command_post_id
          || not same_target
          || not (takes_destruction w.stage))
        "当前阶段不接受交战报告"

  check_destruction : Option String
  check_destruction =
      if not (not (is_empty w.attacker_id) && str_eq m.sender w.attacker_id)
        && not (not (is_empty w.recon_id) && str_eq m.sender w.recon_id)
      then some "目标摧毁报告必须来自攻击机或已登记侦察机"
      else refuse_if
          (str_ne m.receiver w.command_post_id
            || not same_target
            || not (takes_destruction w.stage))
          "当前阶段不接受目标摧毁报告"

  check_withdrawal : Option String
  check_withdrawal =
      refuse_if
        (str_ne m.sender w.command_post_id
          || str_ne m.receiver w.attacker_id
          || not (takes_withdrawal w.stage))
        "当前阶段不接受撤离命令"

  -- The `switch` on the message's type.
  pub check_type : MessageType → Option String
  unfolding check_report check_plan check_guide_order check_confirmation check_guidance
      check_engagement check_destruction check_withdrawal
  check_type target_report = check_report
  check_type target_detect = check_report
  check_type strike_plan = check_plan
  check_type flight_plan = check_plan
  check_type attack_order = check_plan
  check_type ground_guide_order = check_guide_order
  check_type ground_attack_confirm = check_confirmation
  check_type guidance = check_guidance
  check_type engagement_report = check_engagement
  check_type target_destroyed_report = check_destruction
  check_type withdraw = check_withdrawal
  check_type withdraw_order = check_withdrawal
  check_type _ = none

  unfoldable pub validate_incoming_message : Option String
  unfolding check_type
  validate_incoming_message =
      if not same_correlation then some "VMF 消息关联 ID 与当前任务不一致" else check_type m.kind
