-- ===== src/Strike/Orders.antt =====
-- The operations of `GuidedStrikeWorkflow` that people trigger, each with its result, and `send`.
use wargame.Prelude.{
  ℕ, ◌+◌, ◌%◌, ◌^◌, Bool, true, false, not, ◌&&◌, ◌||◌, String, List, [], ◌∷◌, Option, none, some,
  str_ne, is_empty, if◌then◌else◌,
}
use wargame.Prelude.Qt.{Qt, max_double}
use wargame.Prelude.Json.{
  Items, Fields, flag, number, text, array, end, insert, is_empty_array, is_empty_object,
}
use wargame.Bus.Message.{
  Message, MessageType, target_report, strike_plan, attack_order, ground_guide_order,
  ground_attack_confirm, withdraw_order, native,
}
use wargame.Strike.State.{
  Stage, Workflow, target_reported, dispatch_pending, strike_dispatched, ground_guidance_pending,
  engaging, withdraw_pending, withdrawn, same_stage, stage_name, set_stage, touch_created, reject,
}
use wargame.Strike.Posted.{PostedMessage, on_message_posted, takes_report, takes_destruction}

-- What one call of `MessageBus::send` does to the workflow: the messages that the bus posts before
-- it returns, and its result.
pub record Delivery (q : Qt) : Type 0 where
  pub accepted : Bool
  pub posted : List (PostedMessage q)

-- The bus at the time of an operation; a delivery may depend on the message's number.
pub record Link (q : Qt) : Type 0 where
  pub now : q.Double
  pub deliver : ℕ → Message q.Double → Delivery q

module _ (q : Qt) where
  unfoldable pub observe_all : Workflow q → List (PostedMessage q) → Workflow q
  observe_all w [] = w
  observe_all w (p ∷ ps) = observe_all (on_message_posted q w p) ps

  -- `Message message; message.type = …; requiresAck = true; automaticAck = true;`
  unfoldable pub order : MessageType → String → String → Fields q.Double → Message q.Double
  order kind sender receiver payload = record {
    id = "";
    kind = kind;
    sender = sender;
    receiver = receiver;
    requires_ack = true;
    acked = false;
    automatic_ack = true;
    vmf_encoded = false;
    retry_count = 0;
    trace_id = "";
    correlation_id = "";
    vmf_message = "";
    wire_format = native;
    wire_bytes = [];
    wire_bit_length = 0;
    payload = payload;
  }

  abbrev pub report_message : Workflow q → String → String → Fields q.Double → Message q.Double
  report_message w recon target report =
      order target_report recon w.command_post_id (insert report "targetId" (text target))

  abbrev plan_payload : String → Items q.Double → Fields q.Double
  plan_payload target waypoints =
      insert (insert end "targetId" (text target)) "waypoints" (array waypoints)

  abbrev pub plan_message : String → String → String → Items q.Double → Message q.Double
  plan_message commander attacker target waypoints =
      order strike_plan commander attacker (plan_payload target waypoints)

  abbrev pub attack_message : String → String → String → Items q.Double → Message q.Double
  attack_message commander attacker target waypoints =
      order attack_order commander attacker
        (insert (plan_payload target waypoints) "fireNow" (flag false))

  abbrev pub guide_message : String → String → String → String → Message q.Double
  guide_message commander guide attacker target =
      order ground_guide_order commander guide
        (insert (insert end "attackerId" (text attacker)) "targetId" (text target))

  abbrev pub confirm_message : String → String → String → Items q.Double → Message q.Double
  confirm_message guide attacker target waypoints =
      order ground_attack_confirm guide attacker
        (insert (plan_payload target waypoints) "fireNow" (flag true))

  abbrev pub withdraw_message : String → String → q.Double → q.Double → Message q.Double
  withdraw_message commander attacker home_x home_y =
      order withdraw_order commander attacker
        (insert (insert end "homeX" (number home_x)) "homeY" (number home_y))

  abbrev pub next_sequence : Workflow q → ℕ
  next_sequence w = (w.sequence + 1) % 2 ^ 64

  abbrev pub next_trace : Workflow q → String
  next_trace w = q.arg "guided-strike-%1" (next_sequence w)

  -- `m_correlationId.isEmpty() ? message.traceId : m_correlationId`.
  abbrev pub task_correlation : Workflow q → String
  task_correlation w = if is_empty w.correlation_id then next_trace w else w.correlation_id

  abbrev pub sending : Workflow q → Link q → Workflow q
  sending w bus =
      touch_created q
        (record w { sequence = next_sequence w; updated_at = max_double q q.zero bus.now })

  unfoldable pub stamped : Workflow q → Message q.Double → Message q.Double
  stamped w m = record m {
    trace_id = next_trace w;
    correlation_id = task_correlation w;
    payload = insert m.payload "workflowStage" (text (stage_name w.stage));
  }

  -- The part of `send` behind its guards.
  unfoldable pub transmit : Workflow q → Message q.Double → Link q → Workflow q × Bool
  transmit w m bus =
      let done = bus.deliver (next_sequence w) (stamped w m) in
      let seen = observe_all (sending w bus) done.posted in
      if done.accepted
      then (record seen { correlation_id = task_correlation w }, true)
      else (reject q seen "VMF 消息编码失败，工作流未推进", false)

  unfoldable pub send : Workflow q → Message q.Double → Option (Link q) → Workflow q × Bool
  send w m none = (reject q w "消息总线未初始化", false)
  send w m (some bus) =
      if is_empty m.sender || is_empty m.receiver
      then (reject q w "消息缺少发送方或接收方", false)
      else transmit w m bus

  -- `if (!send(message, error)) return false; setStage(stage, reason); return true;`
  unfoldable pub send_then :
      Workflow q → Message q.Double → Option (Link q) → Stage → String → Workflow q × Bool
  send_then w m bus stage reason =
      let (w', sent) = send w m bus in
      if sent then (set_stage q w' stage reason, true) else (w', false)

  unfoldable pub is_incomplete : String → String → Fields q.Double → Bool
  is_incomplete recon target report = is_empty recon || is_empty target || is_empty_object report

  unfoldable pub is_other_recon : Workflow q → String → Bool
  is_other_recon w recon = not (is_empty w.recon_id) && str_ne recon w.recon_id

  unfoldable pub report_target :
      Workflow q → String → String → Fields q.Double → Option (Link q) → Workflow q × Bool
  report_target w recon target report bus =
      if not (takes_report w.stage)
      then (reject q w "当前阶段不能重复报告目标", false)
      else if is_incomplete recon target report
      then (reject q w "目标报告字段不完整", false)
      else if is_other_recon w recon
      then (reject q w "当前任务已登记其他侦察机", false)
      else send_then (record w { recon_id = recon; target_id = target })
          (report_message w recon target report) bus target_reported "recon report received"

  -- The guard of `confirmDispatch`.
  unfoldable pub refuses_dispatch : Workflow q → String → String → String → Items q.Double → Bool
  refuses_dispatch w commander attacker target waypoints =
      not (same_stage w.stage target_reported)
      || str_ne commander w.command_post_id
      || str_ne target w.target_id
      || is_empty attacker
      || is_empty_array waypoints

  abbrev pub approved : Workflow q → String → Workflow q
  approved w attacker =
      set_stage q (record w { attacker_id = attacker }) dispatch_pending "commander approval"

  unfoldable pub confirm_dispatch :
      Workflow q → String → String → String → Items q.Double → Option (Link q) → Workflow q × Bool
  confirm_dispatch w commander attacker target waypoints bus =
      let (planned, sent) =
        send (approved w attacker) (plan_message commander attacker target waypoints) bus in
      if refuses_dispatch w commander attacker target waypoints
      then (reject q w "指挥员派单/规划确认条件不满足", false)
      else if sent
      then send_then planned (attack_message commander attacker target waypoints) bus
          strike_dispatched "commander dispatch accepted"
      else (planned, false)

  unfoldable pub command_ground_guidance :
      Workflow q → String → String → String → String → Option (Link q) → Workflow q × Bool
  command_ground_guidance w commander guide attacker target bus =
      if not (same_stage w.stage strike_dispatched)
        || str_ne commander w.command_post_id
        || str_ne target w.target_id
        || is_empty guide
        || str_ne attacker w.attacker_id
      then (reject q w "地面引导命令条件不满足", false)
      else send_then (record w { guide_id = guide }) (guide_message commander guide attacker target)
          bus ground_guidance_pending "ground team confirmation requested"

  unfoldable pub confirm_ground_attack :
      Workflow q → String → String → String → Items q.Double → Option (Link q) → Workflow q × Bool
  confirm_ground_attack w guide attacker target waypoints bus =
      if not (same_stage w.stage ground_guidance_pending)
        || str_ne guide w.guide_id
        || str_ne attacker w.attacker_id
        || str_ne target w.target_id
        || is_empty_array waypoints
      then (reject q w "地面分队攻击确认条件不满足", false)
      else send_then w (confirm_message guide attacker target waypoints) bus engaging
          "ground team approved attack"

  abbrev pub withdrawing : Workflow q → Workflow q
  withdrawing w = set_stage q w withdraw_pending "commander withdrawal approval"

  -- The guard of `confirmWithdraw`.
  unfoldable pub refuses_withdraw : Workflow q → String → String → q.Double → q.Double → Bool
  refuses_withdraw w commander attacker home_x home_y =
      not (takes_destruction w.stage)
      || str_ne commander w.command_post_id
      || str_ne attacker w.attacker_id
      || not (q.is_finite home_x)
      || not (q.is_finite home_y)

  unfoldable pub confirm_withdraw :
      Workflow q → String → String → q.Double → q.Double → Option (Link q) → Workflow q × Bool
  confirm_withdraw w commander attacker home_x home_y bus =
      if refuses_withdraw w commander attacker home_x home_y
      then (reject q w "指挥员撤离确认条件不满足", false)
      else send_then (withdrawing w) (withdraw_message commander attacker home_x home_y) bus
          withdrawn "withdrawal dispatched"
