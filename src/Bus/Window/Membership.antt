-- ===== src/Bus/Window/Membership.antt =====
-- The set and the queue of `rememberAutomaticMessageId` hold the same ids, each once, and no more
-- than the limit; the window forgets the oldest ids only.
use wargame.Prelude.{
  ℕ, ◌≤◌, ◌≡◌, refl, true, false, not, ◌&&◌, ◌||◌, String, List, [], ◌∷◌, ◌++◌, arith, Bool-cases,
  str_eq, str_eq_iff, is_empty, contains, contains-append, remove, length, leb, if_cases, ◌⊎◌, inl,
  inr, ap,
}
use wargame.Bus.Window.{
  Window, no_messages, trim, remember_automatic_message_id, max_automatic_message_ids,
}

abbrev pub Unique : List String → Type 0
Unique [] = Unit
Unique (x ∷ xs) = (contains xs x ≡ false) × Unique xs

pub record IsWindow (w : Window) : Type 0 where
  pub same : (x : String) → contains w.seen x ≡ contains w.order x
  pub unique : Unique w.order
  pub bounded : length w.order ≤ max_automatic_message_ids

pub no_messages-IsWindow : IsWindow no_messages
unfolding no_messages
no_messages-IsWindow = record { same = λ x. refl; unique = tt; bounded = omega arith }

contains-remove :
    (a x : String) (xs : List String)
    → contains (remove a xs) x ≡ (contains xs x && not (str_eq a x))
contains-remove a x [] = refl
contains-remove a x (y ∷ xs) =
    ground (arith, contains-remove a x xs, str_eq_iff y a, str_eq_iff y x, str_eq_iff a x)

pub Unique-snoc :
    (xs : List String) (x : String) → Unique xs → contains xs x ≡ false → Unique (xs ++ x ∷ [])
Unique-snoc [] x u new = (refl, tt)
Unique-snoc (y ∷ xs) x u new = (
  ground (arith, u.0, new, contains-append xs (x ∷ []) y, str_eq_iff y x, str_eq_iff x y),
  Unique-snoc xs x u.1 (ground (arith, new)),
)

-- What trimming leaves: the newest ids, in the set and in the queue.
record Trimmed (limit : ℕ) (seen order : List String) (w : Window) : Type 0 where
  same : (x : String) → contains w.seen x ≡ contains w.order x
  unique : Unique w.order
  bounded : length w.order ≤ limit
  newest : (older : List String) × (older ++ w.order ≡ order)
  full : (w.order ≡ order) ⊎ (length w.order ≡ limit)

trim-Trimmed :
    (limit : ℕ) (seen order : List String)
    → ((x : String) → contains seen x ≡ contains order x)
    → Unique order
    → Trimmed limit seen order (trim limit seen order)
unfolding trim
trim-Trimmed limit seen [] same u = record {
  same = same;
  unique = tt;
  bounded = omega arith;
  newest = ([], refl);
  full = inl refl;
}
trim-Trimmed limit seen (x ∷ order) same u =
    if_cases (Trimmed limit seen (x ∷ order)) (leb (length (x ∷ order)) limit)
      (λ fits. record {
        same = same;
        unique = u;
        bounded = ground (arith, fits);
        newest = ([], refl);
        full = inl refl;
      })
      (λ over.
        let rest =
          trim-Trimmed limit (remove x seen) order
            (λ y. ground (arith, contains-remove x y seen, same y, u.0, str_eq_iff x y)) u.1 in
        record {
          same = rest.same;
          unique = rest.unique;
          bounded = rest.bounded;
          newest = (x ∷ rest.newest.0, ap (λ ys. x ∷ ys) rest.newest.1);
          full = inr (elim rest.full [
            | inl e ↦ ground (arith, ap length e, rest.bounded, over)
            | inr e ↦ e
          ]);
        })

-- What remembering an id does to a window: nothing where it is empty or there already; else it comes
-- last, and an id is forgotten only from the front, and only when the window is full.
pub record Remembered (id : String) (w w' : Window) : Type 0 where
  pub valid : IsWindow w'
  pub newest : (older : List String) × (older ++ w'.order ≡ w.order ++ id ∷ [])
  pub full : (w'.order ≡ w.order ++ id ∷ []) ⊎ (length w'.order ≡ max_automatic_message_ids)

trimmed-Remembered :
    (id : String) (w : Window)
    → IsWindow w
    → contains w.order id ≡ false
    → Remembered id w (trim max_automatic_message_ids (id ∷ w.seen) (w.order ++ id ∷ []))
trimmed-Remembered id w v new =
    let done =
      trim-Trimmed max_automatic_message_ids (id ∷ w.seen) (w.order ++ id ∷ [])
        (λ y. ground (arith, v.same y, contains-append w.order (id ∷ []) y))
        (Unique-snoc w.order id v.unique new) in
    record {
      valid = record { same = done.same; unique = done.unique; bounded = done.bounded };
      newest = done.newest;
      full = done.full;
    }

-- Remembering an id keeps the window's invariant. An empty id, or one that is there, changes nothing.
-- Any other comes last, and ids are forgotten from the front only, and only where the window is full.
pub remember-Remembered :
    (id : String) (w : Window)
    → IsWindow w
    → ((is_empty id || contains w.order id) ≡ true) × (remember_automatic_message_id id w ≡ w)
      ⊎ (contains w.order id ≡ false) × Remembered id w (remember_automatic_message_id id w)
unfolding remember_automatic_message_id
remember-Remembered id w v = elim (Bool-cases (is_empty id || contains w.seen id)) [
  | inl known ↦ inl (ground (arith, v.same id, known), rw known)
  | inr fresh ↦
      let new : contains w.order id ≡ false = ground (arith, v.same id, fresh) in
      inr (new, rw fresh (trimmed-Remembered id w v new))
]
