-- ===== src/Tests/Deliveries.antt =====
-- The message bus with two units in range of one another, whose handlers leave the bus alone.
use wargame.Prelude.{
  ℕ, ◌≡◌, ◌≤◌, refl, true, false, String, List, [], ◌∷◌, none, some, arith, ltb, ◌-◌, ◌+◌, sym, ap,
  subst, inl,
}
use wargame.Prelude.Json.{end, Json, object, field, text, flag, number}
use wargame.Bus.Message.{attack_order, native}
use wargame.Bus.Registry.{Reg}
use wargame.Bus.Window.{no_messages}
use wargame.Bus.Window.Membership.{no_messages-IsWindow}
use wargame.Bus.Delivery.{Msg, PendingAck, Bus, find_pending, encoded, dispatch, expire}
use wargame.Bus.Delivery.Once.{Silent, dispatch-Silent}
use wargame.Bus.Delivery.Pending.{IsBus}
use wargame.Bus.Delivery.Settling.{ended, time_out, Waits-settled}
use wargame.Tests.Data.{nat_qt}
use mathlib.Core.List.{append-nil}
use wargame.Bus.Delivery.Restore.{Restored, restore-Restored, restore_pending_ack_state}
use wargame.Bus.Delivery.Runs.{
  Command, setting_policy, sending, advancing, unregistering, restoring_acks, restoring_window,
  run_all, run_all-IsBus,
}

abbrev unit : Reg nat_qt
unit = record { x = 0; y = 0; comm_range = 10; side = "red"; is_cp = false; active = true }

abbrev order : Msg nat_qt
order = record {
  id = "order-1";
  kind = attack_order;
  sender = "command";
  receiver = "tank";
  requires_ack = true;
  acked = false;
  automatic_ack = true;
  vmf_encoded = false;
  retry_count = 0;
  trace_id = "";
  correlation_id = "";
  vmf_message = "";
  wire_format = native;
  wire_bytes = [];
  wire_bit_length = 0;
  payload = end;
}

abbrev at_rest : Bus nat_qt
at_rest = record {
  units = ("command", unit) ∷ ("tank", unit) ∷ [];
  handlers = "command" ∷ "tank" ∷ [];
  pending_acks = [];
  window = no_messages;
  simulation_time = 0;
  ack_timeout_seconds = 3;
  max_ack_retries = 2;
  automatic_ack = true;
  seq = 0;
  log = [];
}

abbrev ignore : Msg nat_qt → String → Bus nat_qt → Bus nat_qt
ignore m uid b = b

abbrev seen_once : Bus nat_qt
seen_once = record at_rest { window = record { seen = "order-1" ∷ []; order = "order-1" ∷ [] } }

dispatch-Silent_example :
    Silent nat_qt "order-1" seen_once (dispatch nat_qt ignore none order seen_once)
dispatch-Silent_example =
    dispatch-Silent nat_qt none ignore order seen_once (λ m uid b. ([], sym (append-nil b.log), tt))
      refl refl

at_rest-IsBus : IsBus nat_qt at_rest
at_rest-IsBus = record { pending = tt; capped = omega arith; window = no_messages-IsWindow }

not_encoded : (m e : Msg nat_qt) → encoded nat_qt none m ≡ some e → e.retry_count ≡ m.retry_count
unfolding encoded
not_encoded m e h = let same : m ≡ e = cc in ap (λ (x : Msg nat_qt). x.retry_count) (sym same)

abbrev awaited : PendingAck nat_qt
awaited = record { message = order; sent_at = 0; retries = 0 }

abbrev waiting : Bus nat_qt
waiting = record at_rest {
  pending_acks = ("order-1", awaited) ∷ [];
  simulation_time = 4;
  max_ack_retries = 0;
}

overdue :
    (r : PendingAck nat_qt)
    → find_pending nat_qt waiting.pending_acks "order-1" ≡ some r
    → ltb (4 - r.sent_at + 0) 3 ≡ false
unfolding find_pending
overdue r found =
    let same : awaited ≡ r = cc in
    subst (λ (x : PendingAck nat_qt). ltb (4 - x.sent_at + 0) 3 ≡ false) same refl

Waits-settled_example :
    find_pending nat_qt (expire nat_qt ignore none 0 "order-1" waiting).pending_acks "order-1"
    ≡ none
Waits-settled_example =
    Waits-settled nat_qt none ignore "order-1"
      (λ m uid b. record { entry = inl refl; policy = refl }) 0 1 waiting
      (expire nat_qt ignore none 0 "order-1" waiting) (time_out overdue ended) (omega arith)

abbrev stored_order : Json ℕ
stored_order = object (
    field "message"
      (object (
        field "id" (text "order-1")
          (field "type" (text "AttackOrder") (field "requiresAck" (flag true) end))))
      (field "sentAt" (number 2) (field "retries" (number 1) end)))

small_int : (x : ℕ) → ltb 16 x ≡ false → x ≤ 16
small_int x e = ground (arith, e)

restore-Restored_example :
    Restored nat_qt small_int at_rest (restore_pending_ack_state nat_qt (stored_order ∷ []) at_rest)
restore-Restored_example =
    restore-Restored nat_qt small_int (stored_order ∷ []) at_rest at_rest-IsBus

abbrev session : List (Command nat_qt)
session =
    setting_policy 3 40 true
    ∷ sending order
    ∷ advancing 2
    ∷ advancing 2
    ∷ unregistering "tank"
    ∷ advancing 9
    ∷ restoring_acks (stored_order ∷ [])
    ∷ restoring_window (text "order-1" ∷ [])
    ∷ []

run_all-IsBus_example : IsBus nat_qt (run_all nat_qt none ignore 0 session at_rest)
run_all-IsBus_example =
    run_all-IsBus nat_qt none ignore 0 small_int not_encoded (λ m uid b v. v) session at_rest
      (tt, (omega arith, (tt, (tt, (tt, (tt, (tt, (tt, tt)))))))) at_rest-IsBus
