-- ===== src/Tests/StrikeRuns.antt =====
-- The guided strike at concrete inputs.
use wargame.Prelude.{ℕ, ◌≡◌, ◌≤◌, refl, true, false, List, [], ◌∷◌, some, String, Option}
use wargame.Prelude.Json.{Items, null, nil, cons, end, field, text}
use wargame.Bus.Message.{Message, target_report, native}
use wargame.Strike.State.{
  Workflow, target_reported, dispatch_pending, target_destroyed, withdraw_pending, rank,
  new_workflow,
}
use wargame.Strike.Posted.{PostedMessage, on_message_posted}
use wargame.Strike.Orders.{
  Link, observe_all, refuses_dispatch, confirm_dispatch, refuses_withdraw, confirm_withdraw,
}
use wargame.Strike.Invariant.{Inv}
use wargame.Strike.Progress.{Moves, on_message_posted-Moves}
use wargame.Strike.History.{Call, posts, dispatches, run, run-new-Inv, observe_all-rank}
use wargame.Strike.Retry.{dispatch_not_retryable, withdraw_not_retryable}
use wargame.Tests.Data.{nat_qt}

abbrev report : Message ℕ
report = record {
  id = "m_1";
  kind = target_report;
  sender = "recon";
  receiver = "cp";
  requires_ack = true;
  acked = false;
  automatic_ack = true;
  vmf_encoded = true;
  retry_count = 0;
  trace_id = "";
  correlation_id = "";
  vmf_message = "";
  wire_format = native;
  wire_bytes = [];
  wire_bit_length = 0;
  payload = field "targetId" (text "enemy") end;
}

abbrev posted_report : PostedMessage nat_qt
posted_report = record {
  message = report;
  sender_side = "red";
  receiver_side = "red";
  simulation_time = 7;
}

abbrev dead_bus : Link nat_qt
dead_bus = record { now = 8; deliver = λ n m. record { accepted = false; posted = [] } }

abbrev waypoints : Items ℕ
waypoints = cons null nil

abbrev history : List (Call nat_qt)
history = posts posted_report ∷ dispatches "cp" "attacker" "enemy" waypoints (some dead_bus) ∷ []

run-new-Inv_example : Inv nat_qt (run nat_qt (new_workflow nat_qt "red" "cp") history)
run-new-Inv_example = run-new-Inv nat_qt "red" "cp" history

on_message_posted-Moves_example :
    Moves nat_qt
      (new_workflow nat_qt "red" "cp")
      report
      (on_message_posted nat_qt (new_workflow nat_qt "red" "cp") posted_report).stage
on_message_posted-Moves_example =
    on_message_posted-Moves nat_qt (new_workflow nat_qt "red" "cp") posted_report

observe_all-rank_example :
    0 ≤ rank (observe_all nat_qt (new_workflow nat_qt "red" "cp") (posted_report ∷ [])).stage
unfolding new_workflow
observe_all-rank_example =
    observe_all-rank nat_qt (new_workflow nat_qt "red" "cp") (posted_report ∷ [])

abbrev reported : Workflow nat_qt
reported = record {
  side = "red";
  command_post_id = "cp";
  recon_id = "recon";
  target_id = "enemy";
  attacker_id = "attacker";
  guide_id = "";
  stage = target_reported;
  events = [];
  sequence = 1;
  updated_at = 7;
  created_at = 7;
  correlation_id = "";
  observed = [];
}

may_dispatch : refuses_dispatch nat_qt reported "cp" "attacker" "enemy" waypoints ≡ false
unfolding refuses_dispatch
may_dispatch = refl

dispatch_not_retryable_example :
    ((confirm_dispatch nat_qt reported "cp" "attacker" "enemy" waypoints (some dead_bus)).0.stage
      ≡ dispatch_pending)
    × ((c a t : String) (ws : Items ℕ) (later : Option (Link nat_qt))
        → (confirm_dispatch nat_qt
            (confirm_dispatch nat_qt reported "cp" "attacker" "enemy" waypoints (some dead_bus)).0
            c
            a
            t
            ws
            later).1
          ≡ false)
dispatch_not_retryable_example =
    dispatch_not_retryable nat_qt reported "cp" "attacker" "enemy" waypoints dead_bus may_dispatch
      (λ n m. (refl, refl))

abbrev destroyed : Workflow nat_qt
destroyed = record reported { stage = target_destroyed; guide_id = "guide" }

may_withdraw : refuses_withdraw nat_qt destroyed "cp" "attacker" 1 2 ≡ false
unfolding refuses_withdraw
may_withdraw = refl

withdraw_not_retryable_example :
    ((confirm_withdraw nat_qt destroyed "cp" "attacker" 1 2 (some dead_bus)).0.stage
      ≡ withdraw_pending)
    × ((c a : String) (x' y' : ℕ) (later : Option (Link nat_qt))
        → (confirm_withdraw nat_qt
            (confirm_withdraw nat_qt destroyed "cp" "attacker" 1 2 (some dead_bus)).0
            c
            a
            x'
            y'
            later).1
          ≡ false)
withdraw_not_retryable_example =
    withdraw_not_retryable nat_qt destroyed "cp" "attacker" 1 2 dead_bus may_withdraw
      (λ n m. (refl, refl))
