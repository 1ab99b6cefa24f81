-- ===== src/Tests/Clients.antt =====
-- The client's store at concrete inputs: a protocol whose snapshots are all valid, and which
-- replaces the snapshot by a delta's payload.
use wargame.Prelude.{
  ℕ, ◌≡◌, ◌≢◌, sym, ◌∙◌, ◌<◌, ◌^◌, refl, true, false, Option, some, String, arith, inr,
}
use wargame.Prelude.Json.{Json, Fields, number, object, text, end, field, value}
use wargame.Client.Store.{
  Protocol, Validation, Store, apply_envelope, reset, fatal, snapshot_applied, apply_in_order,
  apply_snapshot, answer, fix_versions, normalised_payload, intel_of,
}
use wargame.Client.Sequence.{sequence_of}
use wargame.Client.Coherence.{
  Coherent, WaitsAlike, reset-Coherent, apply_envelope-Coherent, Advances, apply_envelope-Advances,
}

abbrev valid : Validation
valid = record { valid = true; code = ""; message = "" }

abbrev as_number : Option (Json ℕ) → ℕ
as_number (some (number n)) = n
as_number _ = 0

abbrev plain : Protocol
plain = record {
  Number = ℕ;
  Lifecycle = ℕ;
  Intel = ℕ;
  no_lifecycle = 0;
  no_intel = 0;
  to_int = as_number;
  to_quint64 = as_number;
  success = valid;
  validate_server_envelope = λ e. valid;
  project_snapshot = λ s. (valid, as_number (value s "phase"));
  intel_from_json = λ s. (valid, as_number (value s "marks"));
  apply_delta = λ base payload. inr payload;
}

abbrev envelope_with : String → ℕ → Fields ℕ
envelope_with type sequence = field "type" (text type) (
    field "protocolVersion" (number 3) (
      field "schemaVersion" (number 2) (
        field "sequence" (number sequence)
          (field "payload" (object (field "phase" (number 4) end)) end))))

small : sequence_of plain (envelope_with "snapshot" 5) < 2 ^ 64
unfolding value
small = omega arith

applied :
    (apply_envelope plain (envelope_with "snapshot" 5) (reset plain)).0.disposition
    ≡ snapshot_applied
unfolding apply_envelope apply_in_order apply_snapshot answer fix_versions normalised_payload
    intel_of reset value
applied = refl

applied_differs : snapshot_applied ≢ fatal
applied_differs e = cc

not_fatal : (apply_envelope plain (envelope_with "snapshot" 5) (reset plain)).0.disposition ≢ fatal
not_fatal e = applied_differs (sym applied ∙ e)

apply_envelope-Coherent_example :
    Coherent plain (apply_envelope plain (envelope_with "snapshot" 5) (reset plain)).1
    × WaitsAlike plain
        (reset plain)
        (apply_envelope plain (envelope_with "snapshot" 5) (reset plain)).1
apply_envelope-Coherent_example =
    apply_envelope-Coherent plain (envelope_with "snapshot" 5) (reset plain) small
      (reset-Coherent plain) not_fatal

apply_envelope-Advances_example :
    Advances plain
      (sequence_of plain (envelope_with "snapshot" 5))
      (reset plain).last_sequence
      (apply_envelope plain (envelope_with "snapshot" 5) (reset plain)).1.last_sequence
apply_envelope-Advances_example =
    apply_envelope-Advances plain (envelope_with "snapshot" 5) (reset plain) small

abbrev waiting : Store plain
waiting = record {
  last_sequence = 3;
  protocol_version = 3;
  schema_version = 2;
  snapshot = end;
  lifecycle = 0;
  waiting_for_snapshot = false;
  waiting_for_resync = true;
  intel_state = 0;
}
