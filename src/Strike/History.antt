-- ===== src/Strike/History.antt =====
-- The workflow over a whole history of posted messages and of operations.
use wargame.Prelude.{◌≤◌, String, List, [], ◌∷◌, Option, arith}
use wargame.Prelude.Qt.{Qt}
use wargame.Prelude.Json.{Items, Fields}
use wargame.Strike.State.{Workflow, rank, new_workflow}
use wargame.Strike.Posted.{PostedMessage, on_message_posted}
use wargame.Strike.Orders.{
  Link, observe_all, report_target, confirm_dispatch, command_ground_guidance,
  confirm_ground_attack, confirm_withdraw,
}
use wargame.Strike.Invariant.{Inv, new_workflow-Inv, on_message_posted-Inv}
use wargame.Strike.OrdersInvariant.{
  report_target-Inv, confirm_dispatch-Inv, command_ground_guidance-Inv, confirm_ground_attack-Inv,
  confirm_withdraw-Inv,
}
use wargame.Strike.Progress.{on_message_posted-Moves, Moves-rank}

module _ (q : Qt) where
  -- A call of the workflow, with the bus as it answers during the call.
  pub data Call : Type 0 where
    posts : PostedMessage q → Call
    reports : String → String → Fields q.Double → Option (Link q) → Call
    dispatches : String → String → String → Items q.Double → Option (Link q) → Call
    guides : String → String → String → String → Option (Link q) → Call
    confirms : String → String → String → Items q.Double → Option (Link q) → Call
    recalls : String → String → q.Double → q.Double → Option (Link q) → Call

  unfoldable pub step : Workflow q → Call → Workflow q
  step w (posts p) = on_message_posted q w p
  step w (reports recon target report bus) = (report_target q w recon target report bus).0
  step w (dispatches commander attacker target waypoints bus) =
      (confirm_dispatch q w commander attacker target waypoints bus).0
  step w (guides commander guide attacker target bus) =
      (command_ground_guidance q w commander guide attacker target bus).0
  step w (confirms guide attacker target waypoints bus) =
      (confirm_ground_attack q w guide attacker target waypoints bus).0
  step w (recalls commander attacker home_x home_y bus) =
      (confirm_withdraw q w commander attacker home_x home_y bus).0

  unfoldable pub run : Workflow q → List Call → Workflow q
  run w [] = w
  run w (c ∷ cs) = run (step w c) cs

  step-Inv : (w : Workflow q) (c : Call) → Inv q w → Inv q (step w c)
  unfolding step
  step-Inv w (posts p) v = on_message_posted-Inv q w p v
  step-Inv w (reports recon target report bus) v = report_target-Inv q w bus v recon target report
  step-Inv w (dispatches commander attacker target waypoints bus) v =
      confirm_dispatch-Inv q w bus v commander attacker target waypoints
  step-Inv w (guides commander guide attacker target bus) v =
      command_ground_guidance-Inv q w bus v commander guide attacker target
  step-Inv w (confirms guide attacker target waypoints bus) v =
      confirm_ground_attack-Inv q w bus v guide attacker target waypoints
  step-Inv w (recalls commander attacker home_x home_y bus) v =
      confirm_withdraw-Inv q w bus v commander attacker home_x home_y

  pub run-Inv : (w : Workflow q) (cs : List Call) → Inv q w → Inv q (run w cs)
  unfolding run
  run-Inv w [] v = v
  run-Inv w (c ∷ cs) v = run-Inv (step w c) cs (step-Inv w c v)

  -- After any history of a new workflow, with any bus: at every stage behind the report the
  -- target is named, behind the approval the attacker, behind the ground order the guide, and the
  -- log holds at most 200 events.
  pub run-new-Inv :
      (side post : String) (cs : List Call) → Inv q (run (new_workflow q side post) cs)
  run-new-Inv side post cs = run-Inv (new_workflow q side post) cs (new_workflow-Inv q side post)

  -- Posted messages never take the workflow back to an earlier stage.
  pub observe_all-rank :
      (w : Workflow q) (ps : List (PostedMessage q))
      → rank w.stage ≤ rank (observe_all q w ps).stage
  unfolding observe_all
  observe_all-rank w [] = omega arith
  observe_all-rank w (p ∷ ps) = omega (
    arith,
    observe_all-rank (on_message_posted q w p) ps,
    Moves-rank q w p.message _ (on_message_posted-Moves q w p),
  )
