-- ===== src/Bus/Window/Accepted.antt =====
-- Whatever `restoreAutomaticMessageState` accepts is a window.
use wargame.Prelude.{
  ◌+◌, ◌≡◌, refl, false, not, ◌||◌, String, List, [], ◌∷◌, ◌++◌, some, leb, is_empty, contains,
  contains-append, length, length-append, arith, if-true, if-false, Bool-cases, inl, inr, sym, ◌∙◌,
  subst,
}
use wargame.Prelude.Qt.{Qt}
use wargame.Prelude.Json.{Json, to_string, is_string}
use wargame.Bus.Window.{
  Window, no_messages, restore_ids, restore_automatic_message_state, max_automatic_message_ids,
}
use wargame.Bus.Window.Membership.{Unique, IsWindow, Unique-snoc}

-- A window but for its bound.
record Consistent (w : Window) : Type 0 where
  same : (x : String) → contains w.seen x ≡ contains w.order x
  unique : Unique w.order

module _ (q : Qt) where
  restore_ids-Consistent :
      (vs : List (Json q.Double)) (w w' : Window)
      → restore_ids q vs w ≡ some w'
      → Consistent w
      → Consistent w' × (length w'.order ≡ length w.order + length vs)
  unfolding restore_ids
  restore_ids-Consistent [] w w' e c =
      let equal : w ≡ w' = cc in
      subst (λ u. Consistent u × (length u.order ≡ length w.order + 0)) equal (c, omega arith)
  restore_ids-Consistent (v ∷ vs) w w' e c =
      let id = to_string (some v) in
      let next : Window = record { seen = id ∷ w.seen; order = w.order ++ id ∷ [] } in
      elim (Bool-cases (
        not (is_string (some v))
        || is_empty (q.trimmed id)
        || not (leb (q.size id) 128)
        || contains w.seen id)) [
          | inl refused ↦ cc (sym (if-true _ _ refused) ∙ e)
          | inr fine ↦
              let new : contains w.order id ≡ false = ground (arith, fine, c.same id) in
              let (done, longer) =
                restore_ids-Consistent vs next w' (sym (if-false _ _ fine) ∙ e) (record {
                  same = λ x. ground (arith, c.same x, contains-append w.order (id ∷ []) x);
                  unique = Unique-snoc w.order id c.unique new;
                }) in
              (done, omega (arith, longer, length-append w.order (id ∷ [])))
        ]

  pub restored-IsWindow :
      (vs : List (Json q.Double)) (w : Window)
      → restore_automatic_message_state q vs ≡ some w
      → IsWindow w
  unfolding restore_automatic_message_state no_messages
  restored-IsWindow vs w e = elim (Bool-cases (not (leb (length vs) max_automatic_message_ids))) [
    | inl refused ↦ cc (sym (if-true _ _ refused) ∙ e)
    | inr fine ↦
        let (c, longer) =
          restore_ids-Consistent vs no_messages w (sym (if-false _ _ fine) ∙ e)
            (record { same = λ x. refl; unique = tt }) in
        record { same = c.same; unique = c.unique; bounded = ground (arith, fine, longer) }
  ]
