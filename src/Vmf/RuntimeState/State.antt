-- ===== src/Vmf/RuntimeState/State.antt =====
-- `RuntimeState`: its fields, `validate`, `toJson` and `fromJson`, and the operations.
use wargame.Prelude.{
  ℕ, Bool, true, false, not, ◌&&◌, ◌||◌, String, List, [], ◌∷◌, ◌++◌, Option, none, some, ◌==◌, leb,
  str_eq, is_empty, contains, length, keep_last, if◌then◌else◌,
}
use wargame.Prelude.Qt.{Qt}
use wargame.Prelude.Json.{
  Json, Fields, text, number, array, object, field, end, value, to_string, to_object, to_array,
  is_string, is_number, is_array, to_list, of_list,
}
use wargame.Vmf.RuntimeState.Check.{Value, valid_string, valid_task, valid_ack, valid_trace}

-- What the checks call apart from `Qt`: the size of a compact JSON text and `toInteger`.
pub record Measures (q : Qt) : Type 0 where
  pub compact_size : Fields q.Double → ℕ
  pub to_integer : Value q → ℕ

module _ (q : Qt) where
  pub record RuntimeState : Type 0 where
    pub active_tasks : List (Json q.Double)
    pub pending_acks : List (Json q.Double)
    pub seen_message_ids : List (Json q.Double)
    pub trace_summaries : List (Json q.Double)
    pub profile_id : String

  abbrev pub max_active_tasks : ℕ
  max_active_tasks = 256

  abbrev pub max_pending_acks : ℕ
  max_pending_acks = 1024

  abbrev pub max_seen_message_ids : ℕ
  max_seen_message_ids = 4096

  abbrev pub max_trace_summaries : ℕ
  max_trace_summaries = 200

  -- The string under a key of a value that should be an object.
  unfoldable pub key_of : String → Json q.Double → String
  key_of name v = to_string (value (to_object (some v)) name)

  -- The loop over tasks or ACKs: each is valid, and its id is new to the set.
  unfoldable pub all_valid :
      (Json q.Double → Bool) → String → List String → List (Json q.Double) → Bool
  all_valid ok name ids [] = true
  all_valid ok name ids (v ∷ vs) =
      ok v && not (contains ids (key_of name v)) && all_valid ok name (key_of name v ∷ ids) vs

  -- `validateMessageIds`.
  unfoldable pub all_message_ids : List String → List (Json q.Double) → Bool
  all_message_ids ids [] = true
  all_message_ids ids (v ∷ vs) =
      valid_string q (some v) 128 false
      && not (contains ids (to_string (some v)))
      && all_message_ids (to_string (some v) ∷ ids) vs

  unfoldable pub all_traces : (Json q.Double → Bool) → List (Json q.Double) → Bool
  all_traces ok [] = true
  all_traces ok (v ∷ vs) = ok v && all_traces ok vs

  unfoldable pub known_profile : String → Bool
  known_profile profile = str_eq profile "vmf-design-v1" || str_eq profile "vmf-demo-v2"

  -- `activeTasks` without the tasks that have this id; the same for ACKs.
  unfoldable pub retain_others : String → String → List (Json q.Double) → List (Json q.Double)
  retain_others name id [] = []
  retain_others name id (v ∷ vs) =
      if str_eq (key_of name v) id then retain_others name id vs else v ∷ retain_others name id vs

  unfoldable pub any_has : String → String → List (Json q.Double) → Bool
  any_has name id [] = false
  any_has name id (v ∷ vs) = str_eq (key_of name v) id || any_has name id vs

  unfoldable pub remove_task : String → RuntimeState → Bool × RuntimeState
  remove_task id s = (
    any_has "taskId" id s.active_tasks,
    record s { active_tasks = retain_others "taskId" id s.active_tasks },
  )

  unfoldable pub remove_pending_ack : String → RuntimeState → Bool × RuntimeState
  remove_pending_ack id s = (
    any_has "messageId" id s.pending_acks,
    record s { pending_acks = retain_others "messageId" id s.pending_acks },
  )

  unfoldable pub other_ids : String → List (Json q.Double) → List (Json q.Double)
  other_ids id [] = []
  other_ids id (v ∷ vs) =
      if str_eq (to_string (some v)) id then other_ids id vs else v ∷ other_ids id vs

  unfoldable pub remember_message_id : String → RuntimeState → RuntimeState
  remember_message_id id s = if is_empty (q.trimmed id) then s else record s {
    seen_message_ids =
        keep_last max_seen_message_ids (other_ids id s.seen_message_ids ++ text id ∷ []);
  }

  unfoldable pub append_trace_summary : Fields q.Double → RuntimeState → RuntimeState
  append_trace_summary trace s = record s {
    trace_summaries = keep_last max_trace_summaries (s.trace_summaries ++ object trace ∷ []);
  }

  unfoldable pub to_json : RuntimeState → Fields q.Double
  to_json s = field "schemaVersion" (number (q.of_nat 1)) (
      field "profile" (text s.profile_id) (
        field "activeTasks" (array (of_list s.active_tasks)) (
          field "pendingAcks" (array (of_list s.pending_acks)) (
            field "seenMessageIds" (array (of_list s.seen_message_ids))
              (field "traceSummaries" (array (of_list s.trace_summaries)) end)))))

  module _ (m : Measures q) where
    unfoldable pub within_limits : RuntimeState → Bool
    within_limits s =
        leb (length s.active_tasks) max_active_tasks
        && leb (length s.pending_acks) max_pending_acks
        && leb (length s.seen_message_ids) max_seen_message_ids
        && leb (length s.trace_summaries) max_trace_summaries

    unfoldable pub validate : RuntimeState → Bool
    validate s =
        known_profile s.profile_id
        && within_limits s
        && all_valid (valid_task q) "taskId" [] s.active_tasks
        && all_valid (valid_ack q m.compact_size) "messageId" [] s.pending_acks
        && all_message_ids [] s.seen_message_ids
        && all_traces (valid_trace q m.to_integer) s.trace_summaries

    -- `none` is a refusal.
    unfoldable pub from_json : Fields q.Double → Option RuntimeState
    from_json o =
        let parsed : RuntimeState = record {
          active_tasks = to_list (to_array (value o "activeTasks"));
          pending_acks = to_list (to_array (value o "pendingAcks"));
          seen_message_ids = to_list (to_array (value o "seenMessageIds"));
          trace_summaries = to_list (to_array (value o "traceSummaries"));
          profile_id = to_string (value o "profile");
        } in
        if is_number (value o "schemaVersion")
          && m.to_integer (value o "schemaVersion") == 1
          && is_string (value o "profile")
          && known_profile (to_string (value o "profile"))
          && is_array (value o "activeTasks")
          && is_array (value o "pendingAcks")
          && is_array (value o "seenMessageIds")
          && is_array (value o "traceSummaries")
          && validate parsed
        then some parsed
        else none

    -- On a refusal the previous tasks are put back.
    unfoldable pub upsert_task : Fields q.Double → RuntimeState → Bool × RuntimeState
    upsert_task task s =
        let id = to_string (value task "taskId") in
        let changed = record s {
          active_tasks = retain_others "taskId" id s.active_tasks ++ object task ∷ [];
        } in
        if is_empty id
        then (false, s)
        else if not (validate changed) || not (leb (length changed.active_tasks) max_active_tasks)
        then (false, s)
        else (true, changed)

    unfoldable pub upsert_pending_ack : Fields q.Double → RuntimeState → Bool × RuntimeState
    upsert_pending_ack ack s =
        let id = to_string (value ack "messageId") in
        let changed = record s {
          pending_acks = retain_others "messageId" id s.pending_acks ++ object ack ∷ [];
        } in
        if is_empty id
        then (false, s)
        else if not (validate changed) || not (leb (length changed.pending_acks) max_pending_acks)
        then (false, s)
        else (true, changed)
