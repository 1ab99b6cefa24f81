-- ===== src/Client/Store.antt =====
-- src/network/ClientStateStore.h and .cpp: the client's baseline snapshot and what an envelope from
-- the server does to it. The protocol's checks and the delta algorithm are an interface.
use wargame.Prelude.{
  ℕ, ◌+◌, ◌%◌, ◌^◌, Bool, true, false, not, ◌&&◌, ◌||◌, String, Option, ◌==◌, leb, str_eq,
  if◌then◌else◌, ◌⊎◌, inl, inr,
}
use wargame.Prelude.Json.{
  Json, Fields, end, value, remove_key, to_string, to_bool, to_object, has_key,
  is_empty_array_value,
}

-- `Protocol::ValidationResult`.
pub record Validation : Type 0 where
  pub valid : Bool
  pub code : String
  pub message : String

-- What the store calls: `Protocol` and `StateDelta`, and the numbers of a `QJsonValue`.
pub record Protocol : Type 1 where
  pub Number : Type 0
  pub Lifecycle : Type 0
  pub Intel : Type 0
  pub no_lifecycle : Lifecycle
  pub no_intel : Intel
  -- `toInt()` as the 32 bits of the result, and `quint64(toInteger())`.
  pub to_int : Option (Json Number) → ℕ
  pub to_quint64 : Option (Json Number) → ℕ
  pub success : Validation
  pub validate_server_envelope : Fields Number → Validation
  pub project_snapshot : Fields Number → Validation × Lifecycle
  -- `Protocol::fromJson` with what it leaves in the state that it fills.
  pub intel_from_json : Fields Number → Validation × Intel
  -- `StateDelta::apply(base, payload)`: the changed base, or the error.
  pub apply_delta : Fields Number → Fields Number → String ⊎ Fields Number

pub data Disposition : Type 0 where
  ignored accepted snapshot_applied delta_applied resync_required fatal : Disposition

module _ (p : Protocol) where
  pub record Store : Type 0 where
    pub last_sequence : ℕ
    pub protocol_version : ℕ
    pub schema_version : ℕ
    pub snapshot : Fields p.Number
    pub lifecycle : p.Lifecycle
    pub waiting_for_snapshot : Bool
    pub waiting_for_resync : Bool
    pub intel_state : p.Intel

  pub record Result : Type 0 where
    pub disposition : Disposition
    pub type : String
    pub payload : Fields p.Number
    pub code : String
    pub message : String

  unfoldable pub reset : Store
  reset = record {
    last_sequence = 0;
    protocol_version = 0;
    schema_version = 0;
    snapshot = end;
    lifecycle = p.no_lifecycle;
    waiting_for_snapshot = true;
    waiting_for_resync = false;
    intel_state = p.no_intel;
  }

  unfoldable pub begin_connection : Store → Store
  begin_connection s = record s {
    last_sequence = 0;
    protocol_version = 0;
    schema_version = 0;
    waiting_for_snapshot = true;
    waiting_for_resync = false;
    intel_state = p.no_intel;
  }

  unfoldable pub fatally : String → String → Result
  fatally code message = record {
    disposition = fatal;
    type = "";
    payload = end;
    code = code;
    message = message;
  }

  unfoldable pub answer : Disposition → String → Fields p.Number → String → String → Result
  answer disposition type payload code message = record {
    disposition = disposition;
    type = type;
    payload = payload;
    code = code;
    message = message;
  }

  -- The intelligence state of a payload that may have none.
  unfoldable pub intel_of : Fields p.Number → Validation × p.Intel
  intel_of payload =
      if has_key payload "intelState"
      then p.intel_from_json (to_object (value payload "intelState"))
      else (p.success, p.no_intel)

  -- The first rejection of a snapshot payload: by the projection, or by the intelligence state.
  unfoldable pub apply_snapshot : String → Fields p.Number → ℕ → Store → Result × Store
  apply_snapshot type payload sequence s =
      let (projected, lifecycle) = p.project_snapshot payload in
      let (checked, intel) = intel_of payload in
      if not projected.valid
      then (fatally projected.code projected.message, s)
      else if has_key payload "intelState" && not checked.valid
      then (
        fatally checked.code checked.message,
        record s { snapshot = payload; intel_state = intel },
      )
      else (
        answer snapshot_applied type payload "" "",
        record s {
          snapshot = payload;
          intel_state = intel;
          lifecycle = lifecycle;
          last_sequence = sequence;
          waiting_for_snapshot = false;
          waiting_for_resync = false;
        },
      )

  unfoldable pub resync : String → Fields p.Number → String → String → Store → Result × Store
  resync type payload code message s =
      (answer resync_required type payload code message, record s { waiting_for_resync = true })

  -- A candidate snapshot that the delta gave, checked like a snapshot.
  unfoldable pub apply_candidate :
      String → Fields p.Number → Fields p.Number → ℕ → Store → Result × Store
  apply_candidate type payload candidate sequence s =
      let (projected, lifecycle) = p.project_snapshot candidate in
      let (checked, intel) = intel_of candidate in
      if not projected.valid
      then resync type payload "STATE_PROJECTION_REJECTED" projected.message s
      else if has_key candidate "intelState" && not checked.valid
      then resync type payload "INTEL_STATE_REJECTED" checked.message s
      else (
        answer delta_applied type payload "" "",
        record s {
          snapshot = candidate;
          lifecycle = lifecycle;
          intel_state = intel;
          last_sequence = sequence;
        },
      )

  unfoldable pub apply_delta_payload : String → Fields p.Number → ℕ → Store → Result × Store
  apply_delta_payload type payload sequence s =
      if s.waiting_for_snapshot
      then resync type payload "SNAPSHOT_REQUIRED" "尚未建立完整状态基线" s
      else elim (p.apply_delta s.snapshot payload) [
        | inl error ↦ resync type payload "DELTA_REJECTED" error s
        | inr candidate ↦ apply_candidate type payload candidate sequence s
      ]

  -- From `if (sequence <= m_lastSequence)` on.
  unfoldable pub apply_in_order : String → Fields p.Number → ℕ → Store → Result × Store
  apply_in_order type payload sequence s =
      if leb sequence s.last_sequence
      then (answer ignored type payload "" "", s)
      else if str_eq type "snapshot"
      then apply_snapshot type payload sequence s
      else if not (sequence == (s.last_sequence + 1) % 2 ^ 64)
      then if s.waiting_for_resync
        then (answer ignored type payload "" "", s)
        else resync type payload "SEQUENCE_GAP" "服务器消息序号不连续" s
      else if s.waiting_for_resync
      then (answer ignored type payload "" "", s)
      else if str_eq type "delta"
      then apply_delta_payload type payload sequence s
      else (answer accepted type payload "" "", record s { last_sequence = sequence })

  -- An observer's empty `mapMarks` is dropped.
  unfoldable pub normalised_payload : String → Fields p.Number → Fields p.Number
  normalised_payload type payload =
      let room_state = to_object (value payload "roomState") in
      if (str_eq type "snapshot" || str_eq type "delta")
        && to_bool (value room_state "observer")
        && is_empty_array_value (value payload "mapMarks")
      then remove_key payload "mapMarks"
      else payload

  -- The versions of the first valid envelope are kept.
  unfoldable pub fix_versions : ℕ → ℕ → Store → Store
  fix_versions protocol schema s =
      if s.protocol_version == 0
      then record s { protocol_version = protocol; schema_version = schema }
      else s

  unfoldable pub apply_envelope : Fields p.Number → Store → Result × Store
  apply_envelope envelope s =
      let type = to_string (value envelope "type") in
      let protocol = p.to_int (value envelope "protocolVersion") in
      let schema = p.to_int (value envelope "schemaVersion") in
      let payload = to_object (value envelope "payload") in
      let validation = p.validate_server_envelope envelope in
      if not (s.protocol_version == 0)
        && (not (protocol == s.protocol_version) || not (schema == s.schema_version))
      then (fatally "PROTOCOL_MISMATCH" "同一连接内不能混用不同协议版本", s)
      else if not validation.valid
      then if str_eq type "delta"
        then resync type payload "DELTA_INVALID" validation.message s
        else (fatally validation.code validation.message, s)
      else apply_in_order type (normalised_payload type payload)
          (p.to_quint64 (value envelope "sequence")) (fix_versions protocol schema s)

  unfoldable pub state_revision : Store → Option (Json p.Number)
  state_revision s = value s.snapshot "stateRevision"
