-- ===== src/Tests/Servers.antt =====
-- The strict tasks at concrete inputs.
use wargame.Prelude.{ℕ, ◌≡◌, refl, true, false, [], ◌∷◌, some, arith}
use wargame.Prelude.Json.{Fields, text, end, field}
use wargame.Server.StrictTask.Task.{Task, is_open_task}
use wargame.Server.StrictTask.Set.{
  TaskSet, Binding, find_task, count_open, is_closed, evict, create_task, apply_action, set_blocked,
}
use wargame.Server.StrictTask.Exclusive.{IsSound}
use wargame.Server.StrictTask.Steps.{Sound, apply_action-IsSound}
use wargame.Server.StrictTask.Creation.{create_task-IsSound, evict-find_task}
use wargame.Server.StrictTask.Actions.{Acted, apply_action-Acted, set_blocked-IsSound}
use wargame.Tests.Data.{nat_qt}

abbrev first_task : Task nat_qt
first_task = record {
  task_id = "t1";
  side = "red";
  task_revision = 2;
  stage = "awaitingTargetReport";
  health = "active";
  block_code = "";
  commander_seat_id = "cp";
  recon_seat_id = "recon";
  attack_seat_id = "attack";
  ground_seat_id = "ground";
  target_id = "enemy";
  correlation_id = "c1";
  route = [];
  pending_message_ids = [];
  event_history = [];
  created_at = 1;
  updated_at = 1;
}

abbrev one_task : TaskSet nat_qt
one_task = record { tasks = first_task ∷ []; history_order = "t1" ∷ [] }

one_task-IsSound : IsSound nat_qt one_task
unfolding count_open is_open_task is_closed
one_task-IsSound = record {
  exclusive = (tt, tt);
  limited = λ side. ground arith;
  healthy = (refl, tt);
}

abbrev second : Binding
second = record {
  task_id = "t2";
  side = "red";
  commander_seat_id = "cp";
  recon_seat_id = "recon2";
  attack_seat_id = "attack2";
  ground_seat_id = "ground2";
  target_id = "enemy2";
  correlation_id = "c2";
}

abbrev report_command : Fields ℕ
report_command = field "taskId" (text "t1") (field "action" (text "reportTarget") end)

create_task-IsSound_example : Sound nat_qt (create_task nat_qt second [] false 3 one_task)
create_task-IsSound_example = create_task-IsSound nat_qt second [] false 3 one_task one_task-IsSound

apply_action-IsSound_example :
    Sound nat_qt (apply_action nat_qt report_command 2 "recon" [] 3 one_task)
apply_action-IsSound_example =
    apply_action-IsSound nat_qt report_command 2 "recon" [] 3 one_task one_task-IsSound

apply_action-Acted_example :
    Acted nat_qt report_command 2 "recon" [] 3 one_task
      (apply_action nat_qt report_command 2 "recon" [] 3 one_task)
apply_action-Acted_example = apply_action-Acted nat_qt report_command 2 "recon" [] 3 one_task

first_found : find_task nat_qt "t1" one_task.tasks ≡ some first_task
unfolding find_task
first_found = refl

first_open : is_open_task nat_qt first_task ≡ true
unfolding is_open_task
first_open = refl

evict-find_task_example : find_task nat_qt "t1" (evict nat_qt 1 one_task).tasks ≡ some first_task
evict-find_task_example = evict-find_task nat_qt 1 "t1" first_task one_task first_found first_open

open_if_found :
    (t : Task nat_qt) → find_task nat_qt "t1" one_task.tasks ≡ some t → is_open_task nat_qt t ≡ true
open_if_found t e = let p : first_task ≡ t = cc (e, first_found) in rw p at first_open

set_blocked-IsSound_example : Sound nat_qt (set_blocked nat_qt "t1" "LINK_LOST" 3 one_task)
set_blocked-IsSound_example =
    set_blocked-IsSound nat_qt "t1" "LINK_LOST" 3 one_task open_if_found one_task-IsSound
