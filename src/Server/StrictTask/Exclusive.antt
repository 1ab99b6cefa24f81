-- ===== src/Server/StrictTask/Exclusive.antt =====
-- Open tasks differ in their target and in their reconnaissance, attack and ground seats, each
-- compared with the same seat of the other task. The commander's seat may serve several tasks.
use wargame.Prelude.{
  ◌≤◌, ◌≡◌, sym, Bool, true, false, ◌&&◌, ◌||◌, String, List, [], ◌∷◌, some, arith, All, str_eq,
  if_cases, subst,
}
use wargame.Prelude.Qt.{Qt}
use wargame.Server.StrictTask.Task.{Task, is_open_task}
use wargame.Server.StrictTask.Set.{TaskSet, find_task, write_task, count_open, is_closed}

module _ (q : Qt) where
  unfoldable pub shares : Task q → Task q → Bool
  shares t u =
      str_eq t.recon_seat_id u.recon_seat_id
      || str_eq t.attack_seat_id u.attack_seat_id
      || str_eq t.ground_seat_id u.ground_seat_id
      || str_eq t.target_id u.target_id

  -- Two tasks that may not both be there: of one id, or open and with a common resource.
  unfoldable pub clash : Task q → Task q → Bool
  clash t u = str_eq t.task_id u.task_id || (is_open_task q t && is_open_task q u && shares t u)

  abbrev pub IsExclusive : List (Task q) → Type 0
  IsExclusive [] = Unit
  IsExclusive (t ∷ ts) = All (λ u. clash u t ≡ false) ts × IsExclusive ts

  abbrev pub HasHealth : Task q → Type 0
  HasHealth t = (is_open_task q t || is_closed q t) ≡ true

  pub record IsSound (s : TaskSet q) : Type 0 where
    pub exclusive : IsExclusive s.tasks
    pub limited : (side : String) → count_open q side s.tasks ≤ 16
    pub healthy : All HasHealth s.tasks

  -- The same task, as far as the invariant sees it, and open only if it was.
  pub record SameKey (t t' : Task q) : Type 0 where
    pub id : t'.task_id ≡ t.task_id
    pub side : t'.side ≡ t.side
    pub recon : t'.recon_seat_id ≡ t.recon_seat_id
    pub attack : t'.attack_seat_id ≡ t.attack_seat_id
    pub ground : t'.ground_seat_id ≡ t.ground_seat_id
    pub target : t'.target_id ≡ t.target_id
    pub was_open : is_open_task q t' ≡ true → is_open_task q t ≡ true
    pub healthy : HasHealth t'

  clash-SameKey_left : (t t' u : Task q) → SameKey t t' → clash t u ≡ false → clash t' u ≡ false
  unfolding clash shares
  clash-SameKey_left t t' u k h =
      rw (k.id, k.recon, k.attack, k.ground, k.target) (grind (arith, h, k.was_open))

  clash-SameKey_right : (t u u' : Task q) → SameKey u u' → clash t u ≡ false → clash t u' ≡ false
  unfolding clash shares
  clash-SameKey_right t u u' k h =
      rw (k.id, k.recon, k.attack, k.ground, k.target) (grind (arith, h, k.was_open))

  find_task-here :
      (id : String) (t v : Task q) (ts : List (Task q))
      → str_eq v.task_id id ≡ true
      → find_task q id (v ∷ ts) ≡ some t
      → v ≡ t
  unfolding find_task
  find_task-here id t v ts same e = let p = rw (find_task, same) at e in cc

  find_task-later :
      (id : String) (t v : Task q) (ts : List (Task q))
      → str_eq v.task_id id ≡ false
      → find_task q id (v ∷ ts) ≡ some t
      → find_task q id ts ≡ some t
  unfolding find_task
  find_task-later id t v ts other e = rw (find_task, other) at e

  -- A property of the tasks that the change keeps.
  write_task-All :
      (P : Task q → Type 0) (id : String) (t t' : Task q) (ts : List (Task q))
      → find_task q id ts ≡ some t
      → (P t → P t')
      → All P ts
      → All P (write_task q id t' ts)
  unfolding write_task
  write_task-All P id t t' [] e k h = tt
  write_task-All P id t t' (v ∷ ts) e k h =
      if_cases (All P) (str_eq v.task_id id)
        (λ same. (k (subst P (find_task-here id t v ts same e) h.0), h.1))
        (λ other. (h.0, write_task-All P id t t' ts (find_task-later id t v ts other e) k h.1))

  All-map :
      (P P' : Task q → Type 0) (ts : List (Task q))
      → ((t : Task q) → P t → P' t)
      → All P ts
      → All P' ts
  All-map P P' [] f h = tt
  All-map P P' (t ∷ ts) f h = (f t h.0, All-map P P' ts f h.1)

  write_task-IsExclusive :
      (id : String) (t t' : Task q) (ts : List (Task q))
      → find_task q id ts ≡ some t
      → SameKey t t'
      → IsExclusive ts
      → IsExclusive (write_task q id t' ts)
  unfolding write_task
  write_task-IsExclusive id t t' [] e k h = tt
  write_task-IsExclusive id t t' (v ∷ ts) e k h =
      if_cases IsExclusive (str_eq v.task_id id)
        (λ same. (
          All-map (λ u. clash u t ≡ false) (λ u. clash u t' ≡ false) ts
              (λ u. clash-SameKey_right u t t' k)
              (subst (λ x. All (λ u. clash u x ≡ false) ts) (find_task-here id t v ts same e) h.0),
          h.1,
        ))
        (λ other.
          let e' = find_task-later id t v ts other e in
          (
            write_task-All (λ u. clash u v ≡ false) id t t' ts e' (clash-SameKey_left t t' v k) h.0,
            write_task-IsExclusive id t t' ts e' k h.1,
          ))

  count_open-cons :
      (side : String) (t t' : Task q) (ts : List (Task q))
      → SameKey t t'
      → count_open q side (t' ∷ ts) ≤ count_open q side (t ∷ ts)
  unfolding count_open
  count_open-cons side t t' ts k = rw k.side (grind (arith, k.was_open))

  count_open-step :
      (side : String) (v : Task q) (ts us : List (Task q))
      → count_open q side ts ≤ count_open q side us
      → count_open q side (v ∷ ts) ≤ count_open q side (v ∷ us)
  unfolding count_open
  count_open-step side v ts us h = ground (arith, h)

  count_open-write_task :
      (side id : String) (t t' : Task q) (ts : List (Task q))
      → find_task q id ts ≡ some t
      → SameKey t t'
      → count_open q side (write_task q id t' ts) ≤ count_open q side ts
  unfolding write_task
  count_open-write_task side id t t' [] e k = omega arith
  count_open-write_task side id t t' (v ∷ ts) e k =
      if_cases (λ us. count_open q side us ≤ count_open q side (v ∷ ts)) (str_eq v.task_id id)
        (λ same.
          subst (λ x. count_open q side (t' ∷ ts) ≤ count_open q side (x ∷ ts))
            (sym (find_task-here id t v ts same e)) (count_open-cons side t t' ts k))
        (λ other.
          count_open-step side v (write_task q id t' ts) ts
            (count_open-write_task side id t t' ts (find_task-later id t v ts other e) k))

  -- An operation that changes one task, and opens none.
  pub changed-IsSound :
      (id : String) (t t' : Task q) (s : TaskSet q)
      → find_task q id s.tasks ≡ some t
      → SameKey t t'
      → IsSound s
      → IsSound (record s { tasks = write_task q id t' s.tasks })
  changed-IsSound id t t' s e k v = record {
    exclusive = write_task-IsExclusive id t t' s.tasks e k v.exclusive;
    limited = λ side. omega (arith, count_open-write_task side id t t' s.tasks e k, v.limited side);
    healthy = write_task-All HasHealth id t t' s.tasks e (λ h. k.healthy) v.healthy;
  }
