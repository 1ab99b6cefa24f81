-- ===== src/Bus/Window.antt =====
-- The ids of the automatic messages that were seen: `rememberAutomaticMessageId`,
-- `automaticMessageState` and `restoreAutomaticMessageState`.
pub mod Membership
pub mod Restore
pub mod Accepted
use wargame.Prelude.{
  ℕ, suc, Bool, true, false, not, ◌&&◌, ◌||◌, String, List, [], ◌∷◌, ◌++◌, Option, none, some, leb,
  is_empty, contains, remove, length, if◌then◌else◌,
}
use wargame.Prelude.Qt.{Qt}
use wargame.Prelude.Json.{Json, text, to_string, is_string}

-- `m_seenAutomaticMessages` and `m_seenAutomaticMessageOrder`.
pub record Window : Type 0 where
  pub seen : List String
  pub order : List String

abbrev pub max_automatic_message_ids : ℕ
max_automatic_message_ids = 4096

unfoldable pub no_messages : Window
no_messages = record { seen = []; order = [] }

-- `while (order.size() > limit) seen.remove(order.takeFirst());`
unfoldable pub trim : ℕ → List String → List String → Window
trim limit seen [] = record { seen = seen; order = [] }
trim limit seen (x ∷ order) =
    let rest = trim limit (remove x seen) order in
    if leb (length (x ∷ order)) limit then record { seen = seen; order = x ∷ order } else rest

unfoldable pub remember_automatic_message_id : String → Window → Window
remember_automatic_message_id id w =
    if is_empty id || contains w.seen id
    then w
    else trim max_automatic_message_ids (id ∷ w.seen) (w.order ++ id ∷ [])

module _ (q : Qt) where
  unfoldable pub automatic_message_state : List String → List (Json q.Double)
  automatic_message_state [] = []
  automatic_message_state (id ∷ order) = text id ∷ automatic_message_state order

  -- The loop over the values, with what it has restored.
  unfoldable pub restore_ids : List (Json q.Double) → Window → Option Window
  restore_ids [] w = some w
  restore_ids (v ∷ vs) w =
      let id = to_string (some v) in
      let rest = restore_ids vs (record { seen = id ∷ w.seen; order = w.order ++ id ∷ [] }) in
      if not (is_string (some v))
        || is_empty (q.trimmed id)
        || not (leb (q.size id) 128)
        || contains w.seen id
      then none
      else rest

  -- `none` is a refusal, which leaves the window as it was.
  unfoldable pub restore_automatic_message_state : List (Json q.Double) → Option Window
  restore_automatic_message_state state =
      if not (leb (length state) max_automatic_message_ids)
      then none
      else restore_ids state no_messages
