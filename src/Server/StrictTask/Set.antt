-- ===== src/Server/StrictTask/Set.antt =====
-- `StrictVmfTaskSet`: the tasks by their ids, and the operations on them. A result that is a
-- pointer to no task is `none`; the set is changed only where the code changes it.
use wargame.Prelude.{
  ℕ, zero, suc, ◌+◌, ◌%◌, ◌^◌, Bool, true, false, not, ◌&&◌, ◌||◌, String, List, [], ◌∷◌, ◌++◌,
  Option, none, some, ◌==◌, leb, str_eq, contains, length, keep_last, if◌then◌else◌,
}
use wargame.Prelude.Qt.{Qt}
use wargame.Prelude.Json.{Json, Fields, value, to_string, to_bool, has_key}
use wargame.Server.StrictTask.Task.{
  Event, Task, valid_stage_action, next_stage, valid_id, valid_side, is_open_task, valid_route,
  role_matches,
}

abbrev pub active_limit_per_side : ℕ
active_limit_per_side = 16

abbrev pub history_limit : ℕ
history_limit = 100

abbrev pub event_history_limit : ℕ
event_history_limit = 64

pub record Result : Type 0 where
  pub ok : Bool
  pub status : String
  pub code : String
  pub message : String
  pub task_revision : ℕ
  pub message_ids : List String

-- The parameters of `createTask` that name the task and its seats.
pub record Binding : Type 0 where
  pub task_id : String
  pub side : String
  pub commander_seat_id : String
  pub recon_seat_id : String
  pub attack_seat_id : String
  pub ground_seat_id : String
  pub target_id : String
  pub correlation_id : String

unfoldable pub failure : String → String → ℕ → Result
failure code message revision = record {
  ok = false;
  status = "rejected";
  code = code;
  message = message;
  task_revision = revision;
  message_ids = [];
}

module _ (q : Qt) where
  pub record TaskSet : Type 0 where
    pub tasks : List (Task q)
    pub history_order : List String

  unfoldable pub find_task : String → List (Task q) → Option (Task q)
  find_task id [] = none
  find_task id (t ∷ ts) = if str_eq t.task_id id then some t else find_task id ts

  -- `m_tasks[id]` after a change through the pointer.
  unfoldable pub write_task : String → Task q → List (Task q) → List (Task q)
  write_task id t' [] = []
  write_task id t' (t ∷ ts) = if str_eq t.task_id id then t' ∷ ts else t ∷ write_task id t' ts

  unfoldable pub remove_task : String → List (Task q) → List (Task q)
  remove_task id [] = []
  remove_task id (t ∷ ts) = if str_eq t.task_id id then remove_task id ts else t ∷ remove_task id ts

  unfoldable pub append_history : String → String → q.Double → String → Task q → Task q
  append_history action actor now code t =
      let event : Event q = record {
        action = action;
        actor_seat_id = actor;
        stage = t.stage;
        health = t.health;
        code = code;
        time = now;
      } in
      record t { event_history = keep_last event_history_limit (t.event_history ++ event ∷ []) }

  -- `++task.taskRevision`.
  unfoldable pub bump : Task q → Task q
  bump t = record t { task_revision = (t.task_revision + 1) % 2 ^ 64 }

  unfoldable pub answered : Bool → String → String → String → List String → Task q → Result
  answered ok status code message message_ids t = record {
    ok = ok;
    status = status;
    code = code;
    message = message;
    task_revision = t.task_revision;
    message_ids = message_ids;
  }

  -- The operation's task is changed, and answers with what the change leaves.
  abbrev pub changed : String → Task q → (Task q → Result) → TaskSet → Result × TaskSet
  changed id t answer s = (answer t, record s { tasks = write_task id t s.tasks })

  -- The loop of `createTask` over the tasks: the open tasks of the side, or a busy resource.
  unfoldable pub shares_resource : Binding → Task q → Bool
  shares_resource b t =
      str_eq t.recon_seat_id b.recon_seat_id
      || str_eq t.attack_seat_id b.attack_seat_id
      || str_eq t.ground_seat_id b.ground_seat_id
      || str_eq t.target_id b.target_id

  unfoldable pub any_busy : Binding → List (Task q) → Bool
  any_busy b [] = false
  any_busy b (t ∷ ts) = (is_open_task q t && shares_resource b t) || any_busy b ts

  unfoldable pub count_open : String → List (Task q) → ℕ
  count_open side [] = 0
  count_open side (t ∷ ts) =
      let rest = count_open side ts in
      if str_eq t.side side && is_open_task q t then suc rest else rest

  -- `stored == m_tasks.cend() || !isOpenTask(stored.value())`.
  unfoldable pub is_removable : String → List (Task q) → Bool
  is_removable id ts = elim (find_task id ts) [ none ↦ true | some t ↦ not (is_open_task q t) ]

  -- The first removable id of the order, and the order without it.
  unfoldable pub take_removable : List String → List (Task q) → Option (String × List String)
  take_removable [] ts = none
  take_removable (id ∷ ids) ts =
      let rest = take_removable ids ts in
      if is_removable id ts
      then some (id, ids)
      else elim rest [ none ↦ none | some (x, xs) ↦ some (x, id ∷ xs) ]

  -- `while (m_tasks.size() > HistoryLimit)`. Each round takes an id from the order, so that the
  -- length of the order is enough fuel.
  unfoldable pub evict : ℕ → TaskSet → TaskSet
  evict zero s = s
  evict (suc fuel) s =
      if leb (length s.tasks) history_limit
      then s
      else elim (take_removable s.history_order s.tasks) [
        | none ↦ s
        | some (id, order) ↦
            evict fuel (record { tasks = remove_task id s.tasks; history_order = order })
      ]

  unfoldable pub valid_binding : Binding → List (Json q.Double) → Bool
  valid_binding b route =
      valid_id q b.task_id
      && valid_side q b.side
      && valid_id q b.commander_seat_id
      && valid_id q b.recon_seat_id
      && valid_id q b.attack_seat_id
      && valid_id q b.ground_seat_id
      && valid_id q b.target_id
      && valid_id q b.correlation_id
      && valid_route q route

  unfoldable pub new_task : Binding → List (Json q.Double) → Bool → q.Double → Task q
  new_task b route waiting_for_human now = record {
    task_id = b.task_id;
    side = b.side;
    task_revision = 1;
    stage = "awaitingTargetReport";
    health = if waiting_for_human then "blocked" else "active";
    block_code = if waiting_for_human then "WAITING_FOR_HUMAN" else "";
    commander_seat_id = b.commander_seat_id;
    recon_seat_id = b.recon_seat_id;
    attack_seat_id = b.attack_seat_id;
    ground_seat_id = b.ground_seat_id;
    target_id = b.target_id;
    correlation_id = b.correlation_id;
    route = route;
    pending_message_ids = [];
    event_history = [];
    created_at = now;
    updated_at = now;
  }

  -- The insertion, the eviction, and the event of the creation.
  unfoldable pub insert_task : Task q → q.Double → TaskSet → Result × TaskSet
  insert_task t now s =
      let order = s.history_order ++ t.task_id ∷ [] in
      let kept = evict (length order) (record { tasks = t ∷ s.tasks; history_order = order }) in
      let status = if str_eq t.health "blocked" then "blocked" else "accepted" in
      changed t.task_id (bump (append_history "createTask" t.commander_seat_id now t.block_code t))
        (λ u. answered true status "OK" "" u.pending_message_ids u) kept

  unfoldable pub create_task :
      Binding → List (Json q.Double) → Bool → q.Double → TaskSet → Result × TaskSet
  create_task b route waiting_for_human now s =
      if not (valid_binding b route)
      then (failure "INVALID_TASK" "严格 VMF 任务绑定无效" 0, s)
      else elim (find_task b.task_id s.tasks) [
        | some t ↦ (failure "DUPLICATE_TASK" "任务已存在" 0, s)
        | none ↦
            if any_busy b s.tasks
            then (failure "RESOURCE_BUSY" "任务资源已被占用" 0, s)
            else if leb active_limit_per_side (count_open b.side s.tasks)
            then (failure "TASK_LIMIT" "本方活动任务已达到上限" 0, s)
            else insert_task (new_task b route waiting_for_human now) now s
      ]

  -- The stage that an accepted action leads to; a target that still stands is engaged again.
  unfoldable pub stage_after : Fields q.Double → String → String
  stage_after command action =
      if str_eq action "confirmDamageAssessment"
        && has_key command "targetDestroyed"
        && not (to_bool (value command "targetDestroyed"))
      then "engaging"
      else next_stage action

  unfoldable pub blocked_task : String → String → q.Double → Task q → Task q
  blocked_task action actor now t = bump (
      append_history action actor now "WAITING_FOR_HUMAN"
        (record t { health = "blocked"; block_code = "WAITING_FOR_HUMAN"; updated_at = now }))

  unfoldable pub advanced_task : Fields q.Double → String → String → q.Double → Task q → Task q
  advanced_task command action actor now t = bump (
      append_history action actor now "" (record t {
        health = "active";
        block_code = "";
        stage = stage_after command action;
        updated_at = now;
      }))

  unfoldable pub is_closed : Task q → Bool
  is_closed t = str_eq t.health "completed" || str_eq t.health "cancelled"

  -- The action on the task that was found; `expected` is `quint64(toInteger())`.
  unfoldable pub act :
      Fields q.Double → ℕ → String → List String → q.Double → Task q → TaskSet → Result × TaskSet
  act command expected actor placeholder_seats now t s =
      let action = to_string (value command "action") in
      if not (expected == t.task_revision)
      then (failure "TASK_REVISION_MISMATCH" "任务版本已变化" t.task_revision, s)
      else if is_closed t
      then (failure "TASK_CLOSED" "任务已结束" t.task_revision, s)
      else if not (valid_stage_action t.stage action) || not (role_matches q t action actor)
      then (failure "VMF_SEQUENCE_INVALID" "任务阶段或战位不允许该动作" t.task_revision, s)
      else if contains placeholder_seats actor
      then changed t.task_id (blocked_task action actor now t)
          (λ u. answered true "blocked" u.block_code "该席位仍由服务器占位" [] u) s
      else changed t.task_id (advanced_task command action actor now t)
          (λ u. answered true "accepted" "OK" "" u.pending_message_ids u) s

  unfoldable pub apply_action :
      Fields q.Double → ℕ → String → List String → q.Double → TaskSet → Result × TaskSet
  apply_action command expected actor placeholder_seats now s =
      elim (find_task (to_string (value command "taskId")) s.tasks) [
        | none ↦ (failure "TASK_NOT_FOUND" "任务不存在" 0, s)
        | some t ↦ act command expected actor placeholder_seats now t s
      ]

  unfoldable pub set_blocked : String → String → q.Double → TaskSet → Result × TaskSet
  set_blocked id code now s = elim (find_task id s.tasks) [
    | none ↦ (failure "TASK_NOT_FOUND" "任务不存在" 0, s)
    | some t ↦
        changed id
          (bump (
            append_history "blocked" "" now code
              (record t { health = "blocked"; block_code = code; updated_at = now })))
          (λ u. answered true "blocked" code "" u.pending_message_ids u) s
  ]

  unfoldable pub clear_blocked : String → q.Double → TaskSet → Result × TaskSet
  clear_blocked id now s = elim (find_task id s.tasks) [
    | none ↦ (failure "TASK_NOT_FOUND" "任务不存在" 0, s)
    | some t ↦
        changed id
          (bump (
            append_history "unblocked" "" now ""
              (record t { health = "active"; block_code = ""; updated_at = now })))
          (λ u. answered true "accepted" "OK" "" u.pending_message_ids u) s
  ]

  unfoldable pub complete_return : String → q.Double → TaskSet → Result × TaskSet
  complete_return id now s = elim (find_task id s.tasks) [
    | none ↦ (failure "VMF_SEQUENCE_INVALID" "任务尚未到达返航点" 0, s)
    | some t ↦
        if str_eq t.stage "returning"
        then changed id
            (bump (
              append_history "completeReturn" "" now ""
                (record t { stage = "completed"; health = "completed"; updated_at = now })))
            (λ u. answered true "accepted" "OK" "" [] u) s
        else (failure "VMF_SEQUENCE_INVALID" "任务尚未到达返航点" 0, s)
  ]
