-- ===== src/Server/StrictTask/Actions.antt =====
-- `applyAction`: who may move a task, and when; and the blocking of a task.
use wargame.Prelude.{
  ℕ, ◌≡◌, refl, true, false, not, ◌||◌, String, List, Option, none, some, arith, contains, if_cases,
  ◌==◌, ◌+◌, ◌%◌, ◌^◌, ◌&&◌, ◌++◌, [], ◌∷◌, Bool, ◌⊎◌, inl, inr, str_eq, keep_last,
}
use wargame.Prelude.Qt.{Qt}
use wargame.Prelude.Json.{Fields, value, to_string, has_key, to_bool}
use wargame.Server.StrictTask.Task.{Task, is_open_task, valid_stage_action, role_matches}
use wargame.Server.StrictTask.Set.{
  TaskSet, Result, find_task, write_task, append_history, bump, failure, answered, blocked_task,
  advanced_task, is_closed, act, apply_action, set_blocked, clear_blocked, stage_after,
}
use wargame.Server.StrictTask.Exclusive.{IsSound}
use wargame.Server.StrictTask.Steps.{Sound, refused, changed-Sound, found-IsSound}
use wargame.Server.StrictTask.Chain.{stages, follows_in, valid_stage_action-next_stage}

module _ (q : Qt) (command : Fields q.Double) (expected : ℕ) (actor : String) (seats : List String)
    (now : q.Double) where
  -- The task is in the set at the revision that the command expects, is not closed, and its stage
  -- and its seats allow the actor this action.
  pub record May (t : Task q) (s : TaskSet q) : Type 0 where
    pub present : find_task q (to_string (value command "taskId")) s.tasks ≡ some t
    pub current : expected ≡ t.task_revision
    pub running : is_closed q t ≡ false
    pub in_turn : valid_stage_action t.stage (to_string (value command "action")) ≡ true
    pub in_role : role_matches q t (to_string (value command "action")) actor ≡ true

  -- The action is one the task does not allow now, or there is no such task.
  abbrev pub Barred : TaskSet q → Type 0
  Barred s =
      (find_task q (to_string (value command "taskId")) s.tasks ≡ none)
      ⊎ ((t : Task q) × (find_task q (to_string (value command "taskId")) s.tasks ≡ some t)
          × (((expected == t.task_revision)
                && not (is_closed q t)
                && valid_stage_action t.stage (to_string (value command "action"))
                && role_matches q t (to_string (value command "action")) actor)
              ≡ false))

  -- The damage assessment says that the target still stands.
  abbrev pub still_stands : Bool
  still_stands =
      str_eq (to_string (value command "action")) "confirmDamageAssessment"
      && has_key command "targetDestroyed"
      && not (to_bool (value command "targetDestroyed"))

  -- The stage behind the task's, or the attack once more.
  abbrev pub Succeeds : String → String → Type 0
  Succeeds stage stage' =
      ((still_stands ≡ true) × (stage' ≡ "engaging"))
      ⊎ ((still_stands ≡ false) × (follows_in stages stage stage' ≡ true))

  -- The task at the next revision in this stage and state, with the event of the action at the end
  -- of its history of at most 64 events.
  abbrev pub recorded : String → String → String → Task q → Task q
  recorded stage health code t = record t {
    task_revision = (t.task_revision + 1) % 2 ^ 64;
    stage = stage;
    health = health;
    block_code = code;
    updated_at = now;
    event_history = keep_last 64 (
        t.event_history
        ++ record {
          action = to_string (value command "action");
          actor_seat_id = actor;
          stage = stage;
          health = health;
          code = code;
          time = now;
        }
          ∷ []);
  }

  pub data Acted (s : TaskSet q) : Result × TaskSet q → Type 0 where
    unchanged : (r : Result) → r.ok ≡ false → Barred s → Acted s (r, s)
    waiting :
        (t : Task q) (r : Result)
        → May t s
        → contains seats actor ≡ true
        → (r.ok ≡ true) × (r.status ≡ "blocked") × (r.code ≡ "WAITING_FOR_HUMAN")
        → Acted s (
          r,
          record s {
            tasks =
                write_task q t.task_id (recorded t.stage "blocked" "WAITING_FOR_HUMAN" t) s.tasks;
          },
        )
    advanced :
        (t : Task q) (stage : String) (r : Result)
        → May t s
        → contains seats actor ≡ false
        → (r.ok ≡ true) × (r.status ≡ "accepted") × (r.code ≡ "OK")
        → Succeeds t.stage stage
        → Acted s
            (r, record s { tasks = write_task q t.task_id (recorded stage "active" "" t) s.tasks })

  stage_after-Succeeds :
      (stage : String)
      → valid_stage_action stage (to_string (value command "action")) ≡ true
      → Succeeds stage (stage_after q command (to_string (value command "action")))
  unfolding stage_after
  stage_after-Succeeds stage h =
      if_cases (Succeeds stage) still_stands (λ e. inl (e, refl))
        (λ e. inr (e, valid_stage_action-next_stage stage (to_string (value command "action")) h))

  act-Acted :
      (t : Task q) (s : TaskSet q)
      → find_task q (to_string (value command "taskId")) s.tasks ≡ some t
      → Acted s (act q command expected actor seats now t s)
  unfolding act failure answered blocked_task advanced_task bump append_history
  act-Acted t s e =
      let action = to_string (value command "action") in
      if_cases (Acted s) (not (expected == t.task_revision))
        (λ stale. unchanged _ refl (inr (t, e, ground (arith, stale))))
        (λ fresh.
          if_cases (Acted s) (is_closed q t)
            (λ closed. unchanged _ refl (inr (t, e, ground (arith, fresh, closed))))
            (λ running.
              if_cases (Acted s)
                (not (valid_stage_action t.stage action) || not (role_matches q t action actor))
                (λ bad. unchanged _ refl (inr (t, e, ground (arith, bad, fresh, running))))
                (λ good.
                  let may : May t s = record {
                    present = e;
                    current = ground (arith, fresh);
                    running = running;
                    in_turn = ground (arith, good);
                    in_role = ground (arith, good);
                  } in
                  if_cases (Acted s) (contains seats actor)
                    (λ seat. waiting t _ may seat (refl, refl, refl))
                    (λ person.
                      advanced t (stage_after q command action) _ may person (refl, refl, refl)
                        (stage_after-Succeeds t.stage may.in_turn)))))

  -- An action changes the set exactly where its task is there at the expected revision, is not
  -- closed, and its stage and seats allow the action. A seat that the server holds then blocks the
  -- task where it is; any other moves it to the next stage of the chain, or back to the attack where
  -- the damage assessment says that the target stands. Both count the revision and record the action.
  pub apply_action-Acted :
      (s : TaskSet q) → Acted s (apply_action q command expected actor seats now s)
  unfolding apply_action failure
  apply_action-Acted s = by_find (find_task q (to_string (value command "taskId")) s.tasks) refl
    where
      by_find :
          (m : Option (Task q))
          → find_task q (to_string (value command "taskId")) s.tasks ≡ m
          → Acted s (elim m [
            | none ↦ (failure "TASK_NOT_FOUND" "任务不存在" 0, s)
            | some t ↦ act q command expected actor seats now t s
          ])
      by_find none e = unchanged _ refl (inl e)
      by_find (some t) e = act-Acted t s e

module _ (q : Qt) where
  -- Blocking an open task leaves a sound set: no two open tasks have the same target, or the same
  -- reconnaissance, attack or ground seat, and a side has at most sixteen.
  pub set_blocked-IsSound :
      (id code : String) (now : q.Double) (s : TaskSet q)
      → ((t : Task q) → find_task q id s.tasks ≡ some t → is_open_task q t ≡ true)
      → IsSound q s
      → Sound q (set_blocked q id code now s)
  unfolding set_blocked bump append_history is_open_task
  set_blocked-IsSound id code now s open_ v = found-IsSound q id s _ _ (refused q _ s v) (λ t e.
      changed-Sound q id t _ s e
        (record {
          id = refl;
          side = refl;
          recon = refl;
          attack = refl;
          ground = refl;
          target = refl;
          was_open = λ h. open_ t e;
          healthy = refl;
        })
        v)

  pub clear_blocked-IsSound :
      (id : String) (now : q.Double) (s : TaskSet q)
      → ((t : Task q) → find_task q id s.tasks ≡ some t → is_open_task q t ≡ true)
      → IsSound q s
      → Sound q (clear_blocked q id now s)
  unfolding clear_blocked bump append_history is_open_task
  clear_blocked-IsSound id now s open_ v = found-IsSound q id s _ _ (refused q _ s v) (λ t e.
      changed-Sound q id t _ s e
        (record {
          id = refl;
          side = refl;
          recon = refl;
          attack = refl;
          ground = refl;
          target = refl;
          was_open = λ h. open_ t e;
          healthy = refl;
        })
        v)
