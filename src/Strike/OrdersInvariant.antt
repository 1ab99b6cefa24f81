-- ===== src/Strike/OrdersInvariant.antt =====
-- Every operation keeps the workflow's invariant, whatever the bus posts and returns.
use wargame.Prelude.{
  ◌≡◌, ◌≤◌, true, false, String, List, [], ◌∷◌, Option, none, some, is_empty, arith, Bool-cases,
  inl, inr, length,
}
use wargame.Prelude.Qt.{Qt}
use wargame.Prelude.Json.{Items, Fields}
use wargame.Bus.Message.{Message}
use wargame.Strike.State.{
  Workflow, Stage, rank, set_stage, reject, max_events, target_reported, engaging,
  strike_dispatched, dispatch_pending, ground_guidance_pending, withdraw_pending, withdrawn,
}
use wargame.Strike.Posted.{PostedMessage, on_message_posted, takes_destruction}
use wargame.Strike.Orders.{
  Link, observe_all, transmit, send, send_then, report_target, confirm_dispatch,
  command_ground_guidance, confirm_ground_attack, confirm_withdraw, next_sequence, stamped, sending,
  confirm_message, report_message, approved, guide_message, is_incomplete, refuses_dispatch,
  refuses_withdraw, plan_message, attack_message, withdrawing, withdraw_message,
}
use wargame.Strike.Invariant.{
  Inv, set_stage-Entered, reject-Inv, on_message_posted-Inv, same_stage-eq, takes_destruction-rank,
}
use wargame.Strike.Held.{Keeps, Keeps-trans, on_message_posted-Keeps, set_stage-Keeps}

module _ (q : Qt) where
  observe_all-Inv :
      (w : Workflow q) (ps : List (PostedMessage q)) → Inv q w → Inv q (observe_all q w ps)
  unfolding observe_all
  observe_all-Inv w [] v = v
  observe_all-Inv w (p ∷ ps) v =
      observe_all-Inv (on_message_posted q w p) ps (on_message_posted-Inv q w p v)

  observe_all-Keeps :
      (w : Workflow q) (ps : List (PostedMessage q)) → Keeps q w (observe_all q w ps)
  unfolding observe_all
  observe_all-Keeps w [] = ground arith
  observe_all-Keeps w (p ∷ ps) =
      Keeps-trans q w _ _ (on_message_posted-Keeps q w p)
        (observe_all-Keeps (on_message_posted q w p) ps)

  -- What a call leaves: the invariant, and all that was registered before it.
  pub record Good (w w' : Workflow q) : Type 0 where
    pub valid : Inv q w'
    pub keeps : Keeps q w w'

  reject-Keeps : (w : Workflow q) (reason : String) → Keeps q w (reject q w reason)
  unfolding reject
  reject-Keeps w reason = ground arith

  transmit-Good :
      (w : Workflow q) (m : Message q.Double) (bus : Link q)
      → Inv q w
      → Good w (transmit q w m bus).0
  unfolding transmit
  transmit-Good w m bus v =
      let done = bus.deliver (next_sequence q w) (stamped q w m) in
      let seen = observe_all q (sending q w bus) done.posted in
      let valid = observe_all-Inv (sending q w bus) done.posted (ground arith) in
      ground (
        arith,
        valid,
        observe_all-Keeps (sending q w bus) done.posted,
        reject-Inv q seen "VMF 消息编码失败，工作流未推进" valid,
        reject-Keeps seen "VMF 消息编码失败，工作流未推进",
      )

  send-Good :
      (w : Workflow q) (m : Message q.Double) (bus : Option (Link q))
      → Inv q w
      → Good w (send q w m bus).0
  unfolding send
  send-Good w m none v = record { valid = reject-Inv q w _ v; keeps = reject-Keeps w _ }
  send-Good w m (some bus) v =
      ground (
        arith,
        transmit-Good w m bus v,
        reject-Inv q w "消息缺少发送方或接收方" v,
        reject-Keeps w "消息缺少发送方或接收方",
      )

  -- What the stage that a call enters asks of the workflow that it sends from.
  record Ready (s : Stage) (w : Workflow q) : Type 0 where
    target : 1 ≤ rank s → is_empty w.target_id ≡ false
    attacker : 2 ≤ rank s → is_empty w.attacker_id ≡ false
    guide : 4 ≤ rank s → is_empty w.guide_id ≡ false

  set_stage-Inv :
      (w : Workflow q) (s : Stage) (reason : String)
      → length w.events ≤ max_events
      → Ready s w
      → Inv q (set_stage q w s reason)
  set_stage-Inv w s reason b r = ground (arith, set_stage-Entered q w s reason)

  send_then-Good :
      (w : Workflow q) (m : Message q.Double) (bus : Option (Link q)) (s : Stage) (reason : String)
      → Inv q w
      → Ready s w
      → Good w (send_then q w m bus s reason).0
  unfolding send_then
  send_then-Good w m bus s reason v r =
      let w' = (send q w m bus).0 in
      let sent = send-Good w m bus v in
      let ready : Ready s w' = ground (arith, sent.keeps) in
      ground (
        arith,
        sent,
        set_stage-Inv w' s reason sent.valid.bounded ready,
        set_stage-Keeps q w' s reason,
      )

  target_given :
      (recon target : String) (report : Fields q.Double)
      → is_incomplete q recon target report ≡ false
      → is_empty target ≡ false
  unfolding is_incomplete
  target_given recon target report e = ground arith

  dispatch_given :
      (w : Workflow q) (commander attacker target : String) (waypoints : Items q.Double)
      → refuses_dispatch q w commander attacker target waypoints ≡ false
      → (w.stage ≡ target_reported) × (is_empty attacker ≡ false)
  unfolding refuses_dispatch
  dispatch_given w commander attacker target waypoints e =
      ground (arith, same_stage-eq q w.stage target_reported)

  withdraw_given :
      (w : Workflow q) (commander attacker : String) (home_x home_y : q.Double)
      → refuses_withdraw q w commander attacker home_x home_y ≡ false
      → 5 ≤ rank w.stage
  unfolding refuses_withdraw
  withdraw_given w commander attacker home_x home_y e =
      let late : takes_destruction w.stage ≡ true = ground arith in
      takes_destruction-rank w.stage late

  module _ (w : Workflow q) (bus : Option (Link q)) (v : Inv q w) where
    pub report_target-Inv :
        (recon target : String) (report : Fields q.Double)
        → Inv q (report_target q w recon target report bus).0
    unfolding report_target
    report_target-Inv recon target report = ground (
      arith,
      reject-Inv q w "当前阶段不能重复报告目标" v,
      reject-Inv q w "目标报告字段不完整" v,
      reject-Inv q w "当前任务已登记其他侦察机" v,
      target_given recon target report,
      send_then-Good (record w { recon_id = recon; target_id = target })
          (report_message q w recon target report) bus target_reported "recon report received",
    )

    approved-Inv :
        (attacker : String)
        → w.stage ≡ target_reported
        → is_empty attacker ≡ false
        → Inv q (approved q w attacker)
    approved-Inv attacker at_report given = ground (
      arith,
      set_stage-Entered q (record w { attacker_id = attacker }) dispatch_pending
          "commander approval",
    )

    pub confirm_dispatch-Inv :
        (commander attacker target : String) (waypoints : Items q.Double)
        → Inv q (confirm_dispatch q w commander attacker target waypoints bus).0
    unfolding confirm_dispatch
    confirm_dispatch-Inv commander attacker target waypoints =
        elim (Bool-cases (refuses_dispatch q w commander attacker target waypoints)) [
          | inl e ↦ rw e (reject-Inv q w _ v)
          | inr e ↦
              let (at_report, given) = dispatch_given w commander attacker target waypoints e in
              let pending = approved-Inv attacker at_report given in
              let held =
                set_stage-Entered q (record w { attacker_id = attacker }) dispatch_pending
                  "commander approval" in
              let plan = plan_message q commander attacker target waypoints in
              let sent = send-Good (approved q w attacker) plan bus pending in
              let w' = (send q (approved q w attacker) plan bus).0 in
              let ready : Ready strike_dispatched w' =
                ground (arith, sent.keeps, held, v.has_target) in
              rw e (
                ground (
                  arith,
                  sent,
                  send_then-Good w' (attack_message q commander attacker target waypoints) bus
                      strike_dispatched "commander dispatch accepted" sent.valid ready,
                ))
        ]

    pub command_ground_guidance-Inv :
        (commander guide attacker target : String)
        → Inv q (command_ground_guidance q w commander guide attacker target bus).0
    unfolding command_ground_guidance
    command_ground_guidance-Inv commander guide attacker target = ground (
      arith,
      same_stage-eq q w.stage strike_dispatched,
      reject-Inv q w "地面引导命令条件不满足" v,
      send_then-Good (record w { guide_id = guide })
          (guide_message q commander guide attacker target) bus ground_guidance_pending
          "ground team confirmation requested",
    )

    pub confirm_ground_attack-Inv :
        (guide attacker target : String) (waypoints : Items q.Double)
        → Inv q (confirm_ground_attack q w guide attacker target waypoints bus).0
    unfolding confirm_ground_attack
    confirm_ground_attack-Inv guide attacker target waypoints = ground (
      arith,
      reject-Inv q w "地面分队攻击确认条件不满足" v,
      send_then-Good w (confirm_message q guide attacker target waypoints) bus engaging
          "ground team approved attack",
    )

    pub confirm_withdraw-Inv :
        (commander attacker : String) (home_x home_y : q.Double)
        → Inv q (confirm_withdraw q w commander attacker home_x home_y bus).0
    unfolding confirm_withdraw
    confirm_withdraw-Inv commander attacker home_x home_y =
        elim (Bool-cases (refuses_withdraw q w commander attacker home_x home_y)) [
          | inl e ↦ rw e (reject-Inv q w _ v)
          | inr e ↦
              let late = withdraw_given w commander attacker home_x home_y e in
              let ready : Ready withdraw_pending w = ground arith in
              let entered =
                set_stage-Entered q w withdraw_pending "commander withdrawal approval" in
              rw e
                (send_then-Good (withdrawing q w)
                  (withdraw_message q commander attacker home_x home_y) bus withdrawn
                  "withdrawal dispatched" (set_stage-Inv w withdraw_pending _ v.bounded ready)
                  (ground arith)).valid
        ]
