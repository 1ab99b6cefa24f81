-- ===== src/Server/StrictTask/Creation.antt =====
-- `createTask`: the new task is exclusive, and the eviction never removes an open task.
use wargame.Prelude.{
  ℕ, zero, suc, ◌≤◌, ◌≡◌, ◌∙◌, refl, sym, subst, Bool, true, false, not, String, List, [], ◌∷◌,
  ◌++◌, Option, none, some, inl, inr, arith, All, Bool-cases, str_eq, str_eq_iff, leb, length,
  if_cases,
}
use wargame.Prelude.Qt.{Qt}
use wargame.Prelude.Json.{Json}
use wargame.Server.StrictTask.Task.{Task, is_open_task}
use wargame.Server.StrictTask.Set.{
  TaskSet, Binding, Result, find_task, remove_task, append_history, bump, shares_resource, any_busy,
  count_open, is_removable, evict, take_removable, valid_binding, new_task, insert_task,
  create_task, is_closed,
}
use wargame.Server.StrictTask.Exclusive.{shares, clash, HasHealth, IsSound, SameKey}
use wargame.Server.StrictTask.Steps.{Sound, refused, evict-IsSound, changed-Sound}

module _ (q : Qt) where
  -- The answer of a search of the rest of the order, with the first id put back.
  put_back : String → Option (String × List String) → Option (String × List String)
  put_back id none = none
  put_back id (some (y, ys)) = some (y, id ∷ ys)

  take_removable-later :
      (id : String) (ids : List String) (ts : List (Task q))
      → is_removable q id ts ≡ false
      → take_removable q (id ∷ ids) ts ≡ put_back id (take_removable q ids ts)
  unfolding take_removable put_back
  take_removable-later id ids ts e = rw (take_removable, e) (by_cases (take_removable q ids ts))
    where
      by_cases :
          (m : Option (String × List String))
          → ◌≡◌ {A = Option (String × List String)}
              (elim m [ none ↦ none | some (y, ys) ↦ some (y, id ∷ ys) ])
              (put_back id m)
      by_cases none = refl
      by_cases (some (y, ys)) = refl

  later_removable :
      (id : String) (ids : List String) (ts : List (Task q)) (x : String) (xs : List String)
      → ((y : String) (ys : List String)
          → take_removable q ids ts ≡ some (y, ys)
          → is_removable q y ts ≡ true)
      → (m : Option (String × List String)) → take_removable q ids ts ≡ m
      → put_back id m ≡ some (x, xs)
      → is_removable q x ts ≡ true
  unfolding put_back
  later_removable id ids ts x xs rest none e k = cc
  later_removable id ids ts x xs rest (some (y, ys)) e k =
      let p : y ≡ x = cc in subst (λ z. is_removable q z ts ≡ true) p (rest y ys e)

  take_removable-removable :
      (ids : List String) (ts : List (Task q)) (x : String) (xs : List String)
      → take_removable q ids ts ≡ some (x, xs)
      → is_removable q x ts ≡ true
  unfolding take_removable
  take_removable-removable [] ts x xs e = cc
  take_removable-removable (id ∷ ids) ts x xs e = elim (Bool-cases (is_removable q id ts)) [
    | inl yes_ ↦ let p = rw (take_removable, yes_) at e in let k : id ≡ x = cc in rw k at yes_
    | inr no_ ↦
        later_removable id ids ts x xs (λ y ys. take_removable-removable ids ts y ys)
          (take_removable q ids ts) refl (sym (take_removable-later id ids ts no_) ∙ e)
  ]

  find_task-remove_task :
      (id x : String) (ts : List (Task q))
      → str_eq x id ≡ false
      → find_task q id (remove_task q x ts) ≡ find_task q id ts
  unfolding find_task remove_task
  find_task-remove_task id x [] other = refl
  find_task-remove_task id x (t ∷ ts) other = ground (
    arith,
    other,
    str_eq_iff t.task_id x,
    str_eq_iff t.task_id id,
    str_eq_iff x id,
    find_task-remove_task id x ts other,
  )

  removable_differs :
      (x id : String) (t : Task q) (ts : List (Task q))
      → is_removable q x ts ≡ true
      → find_task q id ts ≡ some t
      → is_open_task q t ≡ true
      → str_eq x id ≡ false
  unfolding is_removable
  removable_differs x id t ts r e o = elim (Bool-cases (str_eq x id)) [
    | inr other ↦ other
    | inl same ↦
        let p : x ≡ id = (str_eq_iff x id).0 same in
        absurd (ground (arith, o, rw (is_removable, p, e) at r))
  ]

  -- Some rounds of the eviction, in which an open task stays.
  Stays : String → Task q → TaskSet q → Type 0
  Stays id t s = find_task q id s.tasks ≡ some t

  evicted-Stays :
      (id : String) (t : Task q) (s : TaskSet q) (more : TaskSet q → TaskSet q)
      → Stays id t s
      → is_open_task q t ≡ true
      → ((u : TaskSet q) → Stays id t u → Stays id t (more u))
      → (m : Option (String × List String)) → take_removable q s.history_order s.tasks ≡ m
      → Stays id t (elim m [
        | none ↦ s
        | some (x, order) ↦ more (record { tasks = remove_task q x s.tasks; history_order = order })
      ])
  unfolding Stays
  evicted-Stays id t s more e o k none m = e
  evicted-Stays id t s more e o k (some (x, order)) m =
      let r = take_removable-removable s.history_order s.tasks x order m in
      k _ (find_task-remove_task id x s.tasks (removable_differs x id t s.tasks r e o) ∙ e)

  evict-Stays :
      (fuel : ℕ) (id : String) (t : Task q) (s : TaskSet q)
      → Stays id t s
      → is_open_task q t ≡ true
      → Stays id t (evict q fuel s)
  unfolding evict
  evict-Stays zero id t s e o = e
  evict-Stays (suc fuel) id t s e o =
      if_cases (Stays id t) (leb (length s.tasks) 100) (λ fits. e)
        (λ over.
          evicted-Stays id t s (evict q fuel) e o (λ u k. evict-Stays fuel id t u k o)
            (take_removable q s.history_order s.tasks) refl)

  -- The eviction of finished tasks never removes an open task, whatever the fuel.
  pub evict-find_task :
      (fuel : ℕ) (id : String) (t : Task q) (s : TaskSet q)
      → find_task q id s.tasks ≡ some t
      → is_open_task q t ≡ true
      → find_task q id (evict q fuel s).tasks ≡ some t
  unfolding Stays
  evict-find_task fuel id t s e o = evict-Stays fuel id t s e o

  -- The new task clashes with none.
  new_task-apart :
      (b : Binding) (t : Task q) (ts : List (Task q))
      → (b.task_id ≡ t.task_id)
        × (b.recon_seat_id ≡ t.recon_seat_id)
        × (b.attack_seat_id ≡ t.attack_seat_id)
        × (b.ground_seat_id ≡ t.ground_seat_id)
        × (b.target_id ≡ t.target_id)
      → find_task q b.task_id ts ≡ none
      → any_busy q b ts ≡ false
      → All (λ u. clash q u t ≡ false) ts
  unfolding find_task any_busy shares_resource clash shares
  new_task-apart b t [] k e free = tt
  new_task-apart b t (u ∷ ts) k e free = elim (Bool-cases (str_eq u.task_id b.task_id)) [
    | inl same ↦ cc (rw (find_task, same) at e)
    | inr other ↦ (
      rw (sym k.0, sym k.1, sym k.2, sym k.3, sym k.4, other) (ground (arith, free)),
      new_task-apart b t ts k (rw (find_task, other) at e) (ground (arith, free)),
    )
  ]

  new_task-open :
      (b : Binding) (route : List (Json q.Double)) (wait : Bool) (now : q.Double)
      → is_open_task q (new_task q b route wait now) ≡ true
  unfolding new_task is_open_task
  new_task-open b route true now = refl
  new_task-open b route false now = refl

  count_open-new :
      (side : String) (t : Task q) (ts : List (Task q))
      → ((s : String) → count_open q s ts ≤ 16)
      → count_open q t.side ts ≤ 15
      → count_open q side (t ∷ ts) ≤ 16
  unfolding count_open
  count_open-new side t ts h room = elim (Bool-cases (str_eq t.side side)) [
    | inl same ↦
        let p : t.side ≡ side = (str_eq_iff t.side side).0 same in
        let room' = rw p at room in ground (arith, room', h side)
    | inr other ↦ ground (arith, other, h side)
  ]

  created-SameKey :
      (t : Task q) (now : q.Double)
      → HasHealth q t
      → SameKey q t (bump q (append_history q "createTask" t.commander_seat_id now t.block_code t))
  unfolding bump append_history is_open_task is_closed
  created-SameKey t now h = record {
    id = refl;
    side = refl;
    recon = refl;
    attack = refl;
    ground = refl;
    target = refl;
    was_open = λ o. o;
    healthy = h;
  }

  find_task-new : (t : Task q) (ts : List (Task q)) → find_task q t.task_id (t ∷ ts) ≡ some t
  unfolding find_task
  find_task-new t ts = rw (find_task, (str_eq_iff t.task_id t.task_id).1 refl)

  insert_task-Sound :
      (t : Task q) (now : q.Double) (s : TaskSet q)
      → is_open_task q t ≡ true
      → All (λ u. clash q u t ≡ false) s.tasks
      → count_open q t.side s.tasks ≤ 15
      → IsSound q s
      → Sound q (insert_task q t now s)
  unfolding insert_task
  insert_task-Sound t now s o apart room v =
      let healthy : HasHealth q t = ground (arith, o) in
      let order = s.history_order ++ t.task_id ∷ [] in
      let wider : TaskSet q = record { tasks = t ∷ s.tasks; history_order = order } in
      let wide : IsSound q wider = record {
        exclusive = (apart, v.exclusive);
        limited = λ side. count_open-new side t s.tasks v.limited room;
        healthy = (healthy, v.healthy);
      } in
      changed-Sound q t.task_id t _ (evict q (length order) wider)
        (evict-find_task (length order) t.task_id t wider (find_task-new t s.tasks) o)
        (created-SameKey t now healthy) (evict-IsSound q (length order) wider wide)

  created-Sound :
      (b : Binding) (route : List (Json q.Double)) (wait : Bool) (now : q.Double) (s : TaskSet q)
      → find_task q b.task_id s.tasks ≡ none
      → any_busy q b s.tasks ≡ false
      → leb 16 (count_open q b.side s.tasks) ≡ false
      → IsSound q s
      → Sound q (insert_task q (new_task q b route wait now) now s)
  unfolding new_task
  created-Sound b route wait now s e free room v =
      insert_task-Sound (new_task q b route wait now) now s (new_task-open b route wait now)
        (new_task-apart b (new_task q b route wait now) s.tasks (refl, refl, refl, refl, refl) e
          free)
        (ground (arith, room)) v

  unless_found :
      (m : Option (Task q)) (absent : Result × TaskSet q) (present : Task q → Result × TaskSet q)
      → (m ≡ none → Sound q absent)
      → ((t : Task q) → Sound q (present t))
      → Sound q (elim m [ none ↦ absent | some t ↦ present t ])
  unless_found none absent present a p = a refl
  unless_found (some t) absent present a p = p t

  -- From a sound set, a created task leaves a sound set, and so does a refusal: no two open tasks
  -- have the same target, or the same reconnaissance, attack or ground seat, and a side has at most
  -- sixteen.
  pub create_task-IsSound :
      (b : Binding) (route : List (Json q.Double)) (wait : Bool) (now : q.Double) (s : TaskSet q)
      → IsSound q s
      → Sound q (create_task q b route wait now s)
  unfolding create_task
  create_task-IsSound b route wait now s v =
      if_cases (Sound q) (not (valid_binding q b route)) (λ bad. refused q _ s v)
        (λ valid.
          unless_found (find_task q b.task_id s.tasks) _ _
            (λ e.
              if_cases (Sound q) (any_busy q b s.tasks) (λ busy. refused q _ s v)
                (λ free.
                  if_cases (Sound q) (leb 16 (count_open q b.side s.tasks))
                    (λ full. refused q _ s v)
                    (λ room. created-Sound b route wait now s e free room v)))
            (λ t. refused q _ s v))
