-- ===== src/Vmf/RuntimeState/Check.antt =====
-- The checks of VmfRuntimeState.cpp on one task, ACK, message id and trace. They answer whether the
-- value is accepted; the texts of the diagnostics are not modelled.
use wargame.Prelude.{
  ℕ, ◌+◌, ◌-◌, ◌*◌, ◌%◌, ◌^◌, ◌/◌, bit_and, Bool, true, false, not, ◌&&◌, ◌||◌, String, List, [],
  ◌∷◌, Option, some, ◌==◌, leb, ltb, str_eq, is_empty, length, get_or, if◌then◌else◌,
}
use wargame.Prelude.Qt.{Qt}
use wargame.Prelude.Json.{
  Json, Fields, value, to_string, to_object, to_double, is_string, is_number, is_flag, is_object,
  has_key,
}

module _ (q : Qt) where
  -- What `object.value(key)` returns.
  abbrev pub Value : Type 0
  Value = Option (Json q.Double)

  unfoldable pub valid_string : Value → ℕ → Bool → Bool
  valid_string v maximum allow_empty =
      is_string v
      && leb (q.size (to_string v)) maximum
      && (allow_empty || not (is_empty (q.trimmed (to_string v))))

  unfoldable pub valid_finite_non_negative : Value → Bool
  valid_finite_non_negative v =
      is_number v && q.is_finite (to_double v q.zero) && q.le q.zero (to_double v q.zero)

  unfoldable pub valid_side : Value → Bool
  valid_side v = str_eq (to_string v) "red" || str_eq (to_string v) "blue"

  -- The loop over the names of the fields.
  unfoldable pub all_valid_strings : Fields q.Double → List String → Bool
  all_valid_strings m [] = true
  all_valid_strings m (name ∷ names) =
      valid_string (value m name) 128 true && all_valid_strings m names

  abbrev pub task_fields : List String
  task_fields =
      "taskId" ∷ "stage" ∷ "side" ∷ "targetId" ∷ "attackerId" ∷ "guideId" ∷ "correlationId" ∷ []

  abbrev pub ack_fields : List String
  ack_fields = "messageId" ∷ "type" ∷ "traceId" ∷ "correlationId" ∷ "sender" ∷ "receiver" ∷ []

  abbrev pub trace_fields : List String
  trace_fields =
      "messageId" ∷ "traceId" ∷ "correlationId" ∷ "sender" ∷ "receiver" ∷ "vmfMessage"
      ∷ "wireFormat" ∷ []

  unfoldable pub task_times : Fields q.Double → Bool
  task_times task =
      let updated = to_double (value task "updatedAt") q.zero in
      not (has_key task "createdAt" && not (valid_finite_non_negative (value task "createdAt")))
      && not (q.lt updated (to_double (value task "createdAt") updated))

  -- `validateTask` but for the set of the ids.
  unfoldable pub valid_task : Json q.Double → Bool
  valid_task v =
      let task = to_object (some v) in
      is_object (some v)
      && all_valid_strings task task_fields
      && not (is_empty (to_string (value task "taskId")))
      && valid_side (value task "side")
      && valid_finite_non_negative (value task "updatedAt")
      && task_times task

  -- A whole number from 0 to 16.
  unfoldable pub is_retry_count : q.Double → Bool
  is_retry_count n = not (q.lt n q.zero) && not (q.lt (q.of_nat 16) n) && q.eq (q.floor n) n

  unfoldable pub valid_retry_count : Fields q.Double → Bool
  valid_retry_count ack =
      not (has_key ack "retryCount")
      || (valid_finite_non_negative (value ack "retryCount")
          && is_retry_count (to_double (value ack "retryCount") q.zero))

  unfoldable pub valid_flag : Fields q.Double → String → Bool
  valid_flag ack name = not (has_key ack name && not (is_flag (value ack name)))

  -- The bits of the last byte behind the bit length are zero.
  unfoldable pub zero_padding : ℕ → List ℕ → Bool
  zero_padding bit_length bytes =
      let remainder = bit_length % 8 in
      remainder == 0 || bit_and (get_or bytes (length bytes - 1) 0) (2 ^ (8 - remainder) - 1) == 0

  unfoldable pub valid_bit_length : Fields q.Double → List ℕ → Bool
  valid_bit_length ack bytes =
      let n = to_double (value ack "wireBitLength") q.zero in
      has_key ack "wireBitLength"
      && valid_finite_non_negative (value ack "wireBitLength")
      && not (q.le n q.zero)
      && q.eq (q.floor n) n
      && not (q.lt (q.of_nat (length bytes * 8)) n)
      && zero_padding (q.to_nat n) bytes

  unfoldable pub valid_wire : Fields q.Double → Bool
  valid_wire ack =
      let encoded = value ack "wireBytes" in
      let bytes = q.from_base64 (to_string encoded) in
      if has_key ack "wireBytes"
      then is_string encoded
        && leb (q.size (to_string encoded)) (8 * 1024 * 1024 * 4 / 3 + 4)
        && not (length bytes == 0)
        && str_eq (q.to_base64 bytes) (to_string encoded)
        && valid_bit_length ack bytes
      else not (has_key ack "wireBitLength")

  -- `validateAck` but for the set of the ids; `compact_size` counts the bytes of the JSON text.
  unfoldable pub valid_ack : (Fields q.Double → ℕ) → Json q.Double → Bool
  valid_ack compact_size v =
      let ack = to_object (some v) in
      let payload = value ack "payload" in
      let format = to_string (value ack "wireFormat") in
      is_object (some v)
      && all_valid_strings ack ack_fields
      && not (is_empty (to_string (value ack "messageId")))
      && not (is_empty (q.trimmed (to_string (value ack "type"))))
      && valid_finite_non_negative (value ack "sentAt")
      && is_number (value ack "retries")
      && is_retry_count (to_double (value ack "retries") q.zero)
      && valid_retry_count ack
      && valid_flag ack "requiresAck"
      && valid_flag ack "automaticAck"
      && (not (has_key ack "payload")
          || (is_object payload && leb (compact_size (to_object payload)) (64 * 1024)))
      && (not (has_key ack "vmfMessage") || valid_string (value ack "vmfMessage") 128 false)
      && (not (has_key ack "wireFormat")
          || (str_eq format "native" || str_eq format "vmf-design-v1"))
      && valid_wire ack

  unfoldable pub all_short_strings : Fields q.Double → List String → Bool
  all_short_strings m [] = true
  all_short_strings m (name ∷ names) =
      not (has_key m name && not (valid_string (value m name) 128 true))
      && all_short_strings m names

  -- `validateTrace`; `to_integer` is `toInteger()` as a bit length, 0 where it is not positive.
  unfoldable pub valid_trace : (Value → ℕ) → Json q.Double → Bool
  valid_trace to_integer v =
      let trace = to_object (some v) in
      let bits = value trace "bitLength" in
      is_object (some v)
      && all_short_strings trace trace_fields
      && not (has_key trace "wireBytes" || has_key trace "xml" || has_key trace "payload")
      && not (
          has_key trace "bitLength"
          && (not (is_number bits)
              || to_integer bits == 0
              || ltb (16 * 1024 * 1024) (to_integer bits)))
