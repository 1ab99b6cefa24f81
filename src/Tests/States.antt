-- ===== src/Tests/States.antt =====
-- The persisted VMF state at concrete inputs.
use wargame.Prelude.{ℕ, ◌≡◌, refl, false, [], ◌∷◌, some, none, arith, if◌then◌else◌, true}
use wargame.Prelude.Json.{Fields, number, text, end, field, value, to_string, object}
use wargame.Vmf.RuntimeState.State.{
  Measures, RuntimeState, validate, any_has, to_json, from_json, upsert_task, upsert_pending_ack,
  remove_task, remember_message_id, known_profile, within_limits, all_valid, all_message_ids,
  all_traces, retain_others, key_of, max_active_tasks, max_pending_acks,
}
use wargame.Vmf.RuntimeState.Check.{
  Value, valid_string, all_valid_strings, valid_finite_non_negative, valid_task, valid_ack,
  valid_side, task_times, is_retry_count, valid_retry_count, valid_flag, valid_wire,
}
use wargame.Vmf.RuntimeState.Operations.{
  IsValid, Upserted, upsert_task-Upserted, upsert_pending_ack-Upserted, remove_task-IsValid,
  remember_message_id-IsValid,
}
use wargame.Vmf.RuntimeState.RoundTrip.{from_json-to_json}
use wargame.Tests.Data.{nat_qt}

abbrev as_number : Value nat_qt → ℕ
as_number (some (number n)) = n
as_number _ = 0

abbrev measures : Measures nat_qt
measures = record { compact_size = λ m. 0; to_integer = as_number }

abbrev task : Fields ℕ
task = field "taskId" (text "t1") (
    field "stage" (text "idle") (
      field "side" (text "red") (
        field "targetId" (text "enemy") (
          field "attackerId" (text "") (
            field "guideId" (text "")
              (field "correlationId" (text "") (field "updatedAt" (number 7) end)))))))

abbrev ack : Fields ℕ
ack = field "messageId" (text "m_7") (
    field "type" (text "ATTACK_ORDER") (
      field "traceId" (text "") (
        field "correlationId" (text "") (
          field "sender" (text "cp") (
            field "receiver" (text "uav")
              (field "sentAt" (number 7) (field "retries" (number 2) end)))))))

abbrev one_id : RuntimeState nat_qt
one_id = record {
  active_tasks = [];
  pending_acks = [];
  seen_message_ids = text "m_1" ∷ [];
  trace_summaries = [];
  profile_id = "vmf-design-v1";
}

one_id-IsValid : IsValid nat_qt measures one_id
unfolding known_profile within_limits all_valid all_message_ids all_traces valid_string
one_id-IsValid = record {
  profile = refl;
  limits = refl;
  tasks = refl;
  acks = refl;
  ids = refl;
  traces = refl;
}

upsert_task-accepted : (upsert_task nat_qt measures task one_id).0 ≡ true
unfolding upsert_task validate known_profile within_limits all_valid all_message_ids all_traces
    valid_string all_valid_strings retain_others valid_finite_non_negative valid_task valid_ack
    valid_side task_times is_retry_count valid_retry_count valid_flag valid_wire key_of value
upsert_task-accepted = refl

upsert_task-Upserted_example :
    Upserted nat_qt measures "taskId"
      (to_string (value task "taskId"))
      (object task)
      (valid_task nat_qt)
      (max_active_tasks nat_qt)
      (λ t. t.active_tasks)
      (λ vs. record one_id { active_tasks = vs })
      one_id
      (upsert_task nat_qt measures task one_id)
upsert_task-Upserted_example = upsert_task-Upserted nat_qt measures task one_id

upsert_pending_ack-accepted : (upsert_pending_ack nat_qt measures ack one_id).0 ≡ true
unfolding upsert_pending_ack validate known_profile within_limits all_valid all_message_ids
    all_traces valid_string all_valid_strings retain_others valid_finite_non_negative valid_task
    valid_ack valid_side task_times is_retry_count valid_retry_count valid_flag valid_wire key_of
    value
upsert_pending_ack-accepted = refl

upsert_pending_ack-Upserted_example :
    Upserted nat_qt measures "messageId"
      (to_string (value ack "messageId"))
      (object ack)
      (valid_ack nat_qt measures.compact_size)
      (max_pending_acks nat_qt)
      (λ t. t.pending_acks)
      (λ vs. record one_id { pending_acks = vs })
      one_id
      (upsert_pending_ack nat_qt measures ack one_id)
upsert_pending_ack-Upserted_example = upsert_pending_ack-Upserted nat_qt measures ack one_id

remove_task-IsValid_example :
    IsValid nat_qt measures (remove_task nat_qt "t1" one_id).1
    × (any_has nat_qt "taskId" "t1" (remove_task nat_qt "t1" one_id).1.active_tasks ≡ false)
    × ((remove_task nat_qt "t1" one_id).0 ≡ any_has nat_qt "taskId" "t1" one_id.active_tasks)
remove_task-IsValid_example = remove_task-IsValid nat_qt measures "t1" one_id one_id-IsValid

remember_message_id-IsValid_example :
    IsValid nat_qt measures (remember_message_id nat_qt "m_2" one_id)
remember_message_id-IsValid_example =
    remember_message_id-IsValid nat_qt measures "m_2" one_id (omega arith) one_id-IsValid

from_json-to_json_example :
    from_json nat_qt measures (to_json nat_qt one_id)
    ≡ (if validate nat_qt measures one_id then some one_id else none)
from_json-to_json_example = from_json-to_json nat_qt measures one_id refl
