-- ===== src/Bus/Window/Restore.antt =====
-- A window that is written by `automaticMessageState` and read by `restoreAutomaticMessageState`.
use mathlib.Core.List.{append-nil, append_assoc}
use wargame.Prelude.{
  ◌≤◌, ◌≡◌, refl, true, false, String, List, [], ◌∷◌, ◌++◌, ◌∙◌, sym, ap, suc, some, arith,
  str_eq_iff, is_empty, contains, contains-append, length, All, ap, sym,
}
use wargame.Prelude.Qt.{Qt}
use wargame.Bus.Window.{
  Window, no_messages, automatic_message_state, restore_ids, restore_automatic_message_state, suc,
}
use wargame.Bus.Window.Membership.{Unique, IsWindow}

module _ (q : Qt) where
  -- What `restoreAutomaticMessageState` asks of an id.
  abbrev pub IsStorable : String → Type 0
  IsStorable id = (is_empty (q.trimmed id) ≡ false) × (q.size id ≤ 128)

  Apart : List String → List String → Type 0
  Apart order seen = (x : String) → contains order x ≡ true → contains seen x ≡ false

  restore_ids-state :
      (order : List String) (w : Window)
      → All IsStorable order
      → Unique order
      → Apart order w.seen
      → ((x : String) → contains w.seen x ≡ contains w.order x)
      → (w' : Window) × (restore_ids q (automatic_message_state q order) w ≡ some w')
        × (w'.order ≡ w.order ++ order)
        × ((x : String) → contains w'.seen x ≡ contains w'.order x)
  unfolding restore_ids automatic_message_state Apart
  restore_ids-state [] w h u a same = (w, refl, sym (append-nil w.order), same)
  restore_ids-state (id ∷ order) w h u a same =
      let fresh : contains w.seen id ≡ false = a id (ground (arith, str_eq_iff id id)) in
      let next : Window = record { seen = id ∷ w.seen; order = w.order ++ id ∷ [] } in
      let (w', e, o, same') =
        restore_ids-state order next h.1 u.1 (λ x k. ground (arith, a x, k, u.0, str_eq_iff id x))
          (λ x. ground (arith, same x, contains-append w.order (id ∷ []) x)) in
      (w', ground (arith, e, fresh, h.0), o ∙ append_assoc w.order (id ∷ []) order, same')

  length-automatic_message_state :
      (order : List String) → length (automatic_message_state q order) ≡ length order
  unfolding automatic_message_state
  length-automatic_message_state [] = refl
  length-automatic_message_state (id ∷ order) = ap suc (length-automatic_message_state order)

  -- A window of storable ids is restored from its own state: the same order, and the same set.
  pub restore-automatic_message_state :
      (w : Window)
      → IsWindow w
      → All IsStorable w.order
      → (w' : Window) × (restore_automatic_message_state q (automatic_message_state q w.order)
          ≡ some w')
        × (w'.order ≡ w.order)
        × ((x : String) → contains w'.seen x ≡ contains w.seen x)
  unfolding restore_automatic_message_state no_messages Apart
  restore-automatic_message_state w v h =
      let (w', e, o, same) =
        restore_ids-state w.order no_messages h v.unique (λ x k. refl) (λ x. refl) in
      (
        w',
        ground (arith, e, length-automatic_message_state w.order, v.bounded),
        o,
        λ x. same x ∙ ap (λ xs. contains xs x) o ∙ sym (v.same x),
      )
