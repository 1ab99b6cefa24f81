-- ===== src/Server/StrictTask/Steps.antt =====
-- Each operation of `StrictVmfTaskSet` keeps the open tasks exclusive.
use wargame.Prelude.{
  ℕ, zero, suc, ◌≤◌, ◌≡◌, refl, sym, subst, true, false, not, ◌||◌, String, List, [], ◌∷◌, Option,
  none, some, ◌⊎◌, inl, inr, arith, All, Bool-cases, str_eq, str_eq_iff, leb, length, contains,
  if_cases, ◌==◌,
}
use wargame.Prelude.Qt.{Qt}
use wargame.Prelude.Json.{Fields, value, to_string}
use wargame.Server.StrictTask.Task.{Task, is_open_task, valid_stage_action, role_matches}
use wargame.Server.StrictTask.Set.{
  TaskSet, Result, find_task, write_task, remove_task, append_history, bump, count_open, evict,
  take_removable, blocked_task, advanced_task, is_closed, act, apply_action, complete_return,
}
use wargame.Server.StrictTask.Exclusive.{
  clash, IsExclusive, HasHealth, IsSound, SameKey, changed-IsSound,
}

module _ (q : Qt) where
  -- The set that an operation leaves is sound.
  pub record Sound (out : Result × TaskSet q) : Type 0 where
    pub sound : IsSound q out.1

  pub refused : (r : Result) (s : TaskSet q) → IsSound q s → Sound (r, s)
  refused r s v = record { sound = v }

  pub changed-Sound :
      {r : Result} (id : String) (t t' : Task q) (s : TaskSet q)
      → find_task q id s.tasks ≡ some t
      → SameKey q t t'
      → IsSound q s
      → Sound (r, record s { tasks = write_task q id t' s.tasks })
  changed-Sound id t t' s e k v = record { sound = changed-IsSound q id t t' s e k v }

  remove_task-All :
      (P : Task q → Type 0) (id : String) (ts : List (Task q))
      → All P ts
      → All P (remove_task q id ts)
  unfolding remove_task
  remove_task-All P id [] h = tt
  remove_task-All P id (t ∷ ts) h =
      if_cases (All P) (str_eq t.task_id id) (λ same. remove_task-All P id ts h.1)
        (λ other. (h.0, remove_task-All P id ts h.1))

  remove_task-IsExclusive :
      (id : String) (ts : List (Task q)) → IsExclusive q ts → IsExclusive q (remove_task q id ts)
  unfolding remove_task
  remove_task-IsExclusive id [] h = tt
  remove_task-IsExclusive id (t ∷ ts) h =
      if_cases (IsExclusive q) (str_eq t.task_id id) (λ same. remove_task-IsExclusive id ts h.1)
        (λ other.
          (remove_task-All (λ u. clash q u t ≡ false) id ts h.0, remove_task-IsExclusive id ts h.1))

  count_open-remove_task :
      (side id : String) (ts : List (Task q))
      → count_open q side (remove_task q id ts) ≤ count_open q side ts
  unfolding remove_task count_open
  count_open-remove_task side id [] = omega arith
  count_open-remove_task side id (t ∷ ts) = ground (arith, count_open-remove_task side id ts)

  evicted-IsSound :
      (s : TaskSet q) (more : TaskSet q → TaskSet q)
      → IsSound q s
      → ((t : TaskSet q) → IsSound q t → IsSound q (more t))
      → (m : Option (String × List String))
      → IsSound q (elim m [
        | none ↦ s
        | some (id, order) ↦
            more (record { tasks = remove_task q id s.tasks; history_order = order })
      ])
  evicted-IsSound s more v k none = v
  evicted-IsSound s more v k (some (id, order)) = k _ (record {
    exclusive = remove_task-IsExclusive id s.tasks v.exclusive;
    limited = λ side. omega (arith, count_open-remove_task side id s.tasks, v.limited side);
    healthy = remove_task-All (HasHealth q) id s.tasks v.healthy;
  })

  pub evict-IsSound : (fuel : ℕ) (s : TaskSet q) → IsSound q s → IsSound q (evict q fuel s)
  unfolding evict
  evict-IsSound zero s v = v
  evict-IsSound (suc fuel) s v =
      if_cases (IsSound q) (leb (length s.tasks) 100) (λ fits. v)
        (λ over.
          evicted-IsSound s (evict q fuel) v (λ t k. evict-IsSound fuel t k)
            (take_removable q s.history_order s.tasks))

  blocked_task-SameKey :
      (action actor : String) (now : q.Double) (t : Task q)
      → is_open_task q t ≡ true
      → SameKey q t (blocked_task q action actor now t)
  unfolding blocked_task bump append_history is_open_task
  blocked_task-SameKey action actor now t o = record {
    id = refl;
    side = refl;
    recon = refl;
    attack = refl;
    ground = refl;
    target = refl;
    was_open = λ h. o;
    healthy = refl;
  }

  advanced_task-SameKey :
      (command : Fields q.Double) (action actor : String) (now : q.Double) (t : Task q)
      → is_open_task q t ≡ true
      → SameKey q t (advanced_task q command action actor now t)
  unfolding advanced_task bump append_history is_open_task
  advanced_task-SameKey command action actor now t o = record {
    id = refl;
    side = refl;
    recon = refl;
    attack = refl;
    ground = refl;
    target = refl;
    was_open = λ h. o;
    healthy = refl;
  }

  pub find_task-cases :
      (id : String) (v : Task q) (ts : List (Task q)) (t : Task q)
      → find_task q id (v ∷ ts) ≡ some t
      → ((str_eq v.task_id id ≡ true) × (v ≡ t))
        ⊎ ((str_eq v.task_id id ≡ false) × (find_task q id ts ≡ some t))
  unfolding find_task
  find_task-cases id v ts t e = elim (Bool-cases (str_eq v.task_id id)) [
    | inl same ↦ let p = rw (find_task, same) at e in inl (same, cc)
    | inr other ↦ inr (other, rw (find_task, other) at e)
  ]

  pub find_task-id :
      (id : String) (ts : List (Task q)) (t : Task q) → find_task q id ts ≡ some t → t.task_id ≡ id
  unfolding find_task
  find_task-id id [] t e = cc
  find_task-id id (v ∷ ts) t e = elim (find_task-cases id v ts t e) [
    | inl (same, p) ↦ (str_eq_iff t.task_id id).0 (subst (λ u. str_eq u.task_id id ≡ true) p same)
    | inr (other, e') ↦ find_task-id id ts t e'
  ]

  find_task-All :
      (P : Task q → Type 0) (id : String) (ts : List (Task q)) (t : Task q)
      → find_task q id ts ≡ some t
      → All P ts
      → P t
  unfolding find_task
  find_task-All P id [] t e h = cc
  find_task-All P id (v ∷ ts) t e h = elim (find_task-cases id v ts t e) [
    | inl (same, p) ↦ subst P p h.0
    | inr (other, e') ↦ find_task-All P id ts t e' h.1
  ]

  -- What the action on a task of the set leaves.
  act-IsSound :
      (command : Fields q.Double) (expected : ℕ) (actor : String) (seats : List String)
      (now : q.Double) (id : String) (t : Task q) (s : TaskSet q)
      → find_task q id s.tasks ≡ some t
      → IsSound q s
      → Sound (act q command expected actor seats now t s)
  unfolding act
  act-IsSound command expected actor seats now id t s e v =
      let action = to_string (value command "action") in
      let e' = rw (sym (find_task-id id s.tasks t e)) at e in
      if_cases Sound (not (expected == t.task_revision)) (λ stale. refused _ s v)
        (λ fresh.
          if_cases Sound (is_closed q t) (λ closed. refused _ s v)
            (λ open_.
              let o : is_open_task q t ≡ true =
                ground (arith, find_task-All (HasHealth q) id s.tasks t e v.healthy, open_) in
              if_cases Sound
                (not (valid_stage_action t.stage action) || not (role_matches q t action actor))
                (λ bad. refused _ s v)
                (λ good.
                  if_cases Sound (contains seats actor)
                    (λ seat.
                      changed-Sound t.task_id t (blocked_task q action actor now t) s e'
                        (blocked_task-SameKey action actor now t o) v)
                    (λ person.
                      changed-Sound t.task_id t (advanced_task q command action actor now t) s e'
                        (advanced_task-SameKey command action actor now t o) v))))

  -- The set after an operation on the task that was found, if one was.
  pub found-IsSound :
      (id : String) (s : TaskSet q) (absent : Result × TaskSet q)
      (present : Task q → Result × TaskSet q)
      → Sound absent
      → ((t : Task q) → find_task q id s.tasks ≡ some t → Sound (present t))
      → Sound (elim (find_task q id s.tasks) [ none ↦ absent | some t ↦ present t ])
  found-IsSound id s absent present a p = go (find_task q id s.tasks) refl
    where
      go :
          (m : Option (Task q))
          → find_task q id s.tasks ≡ m
          → Sound (elim m [ none ↦ absent | some t ↦ present t ])
      go none e = a
      go (some t) e = p t e

  -- From a sound set, an action, whatever its result, leaves a sound set: no two open tasks have the
  -- same target, or the same reconnaissance, attack or ground seat, and a side has at most sixteen.
  pub apply_action-IsSound :
      (command : Fields q.Double) (expected : ℕ) (actor : String) (seats : List String)
      (now : q.Double) (s : TaskSet q)
      → IsSound q s
      → Sound (apply_action q command expected actor seats now s)
  unfolding apply_action
  apply_action-IsSound command expected actor seats now s v =
      let id = to_string (value command "taskId") in
      found-IsSound id s _ (λ t. act q command expected actor seats now t s) (refused _ s v)
        (λ t e. act-IsSound command expected actor seats now id t s e v)

  -- So does the end of a task.
  pub complete_return-IsSound :
      (id : String) (now : q.Double) (s : TaskSet q)
      → IsSound q s
      → Sound (complete_return q id now s)
  unfolding complete_return bump append_history is_open_task is_closed
  complete_return-IsSound id now s v = found-IsSound id s _ _ (refused _ s v) (λ t e.
      if_cases Sound (str_eq t.stage "returning")
        (λ here.
          changed-Sound id t _ s e
            (record {
              id = refl;
              side = refl;
              recon = refl;
              attack = refl;
              ground = refl;
              target = refl;
              was_open = λ h. absurd (ground (arith, h));
              healthy = refl;
            })
            v)
        (λ elsewhere. refused _ s v))
