-- ===== src/Bus/Delivery.antt =====
-- `send`, `dispatch`, `maybeAutoAck`, `deliver`, `setSimulationTime`, `advanceSimulationTime` and
-- `setAckPolicy`. The handlers of the units, which may call the bus again, are the parameter
-- `react`; a signal is an entry of the log, and what its slots do is not modelled.
pub mod Stable
pub mod Pending
pub mod Once
pub mod Restore
pub mod Settling
pub mod Runs
use wargame.Prelude.{
  ℕ, suc, ◌+◌, min, Bool, true, false, not, ◌&&◌, ◌||◌, String, List, [], ◌∷◌, ◌++◌, Option, none,
  some, ltb, str_eq, is_empty, contains, if◌then◌else◌, remove,
}
use wargame.Prelude.Qt.{Qt, max_double}
use wargame.Prelude.Json.{text, value, insert, to_string, end}
use wargame.Bus.Message.{MessageType, ack, Message, native}
use wargame.Bus.Registry.{Units, register, unregister}
use wargame.Bus.Graph.{can_communicate}
use wargame.Bus.Window.{Window, remember_automatic_message_id}

abbrev pub is_ack : MessageType → Bool
is_ack ack = true
is_ack _ = false

abbrev pub is_no_one : List String → Bool
is_no_one [] = true
is_no_one (uid ∷ uids) = false

module _ (q : Qt) where
  abbrev pub Msg : Type 0
  Msg = Message q.Double

  pub record PendingAck : Type 0 where
    pub message : Msg
    pub sent_at : q.Double
    pub retries : ℕ

  -- The signals, and the calls of the handlers of a unit.
  pub data Event : Type 0 where
    vmf_encoding_failed : String → Event
    message_posted : Msg → q.Double → Event
    ack_state_changed : String → Bool → ℕ → String → Event
    delivered : Msg → String → Event

  -- `m_pendingAcks`, in an order that Qt leaves open.
  abbrev pub PendingAcks : Type 0
  PendingAcks = List (String × PendingAck)

  pub record Bus : Type 0 where
    pub units : Units q
    -- The keys of `m_handlers`.
    pub handlers : List String
    pub pending_acks : PendingAcks
    pub window : Window
    pub simulation_time : q.Double
    pub ack_timeout_seconds : q.Double
    pub max_ack_retries : ℕ
    pub automatic_ack : Bool
    pub seq : ℕ
    pub log : List Event

  unfoldable pub find_pending : PendingAcks → String → Option PendingAck
  find_pending [] id = none
  find_pending ((j, p) ∷ ps) id = if str_eq j id then some p else find_pending ps id

  unfoldable pub insert_pending : PendingAcks → String → PendingAck → PendingAcks
  insert_pending [] id p = (id, p) ∷ []
  insert_pending ((j, r) ∷ ps) id p =
      if str_eq j id then (id, p) ∷ ps else (j, r) ∷ insert_pending ps id p

  unfoldable pub erase_pending : PendingAcks → String → PendingAcks
  erase_pending [] id = []
  erase_pending ((j, p) ∷ ps) id =
      if str_eq j id then erase_pending ps id else (j, p) ∷ erase_pending ps id

  unfoldable pub pending_ids : PendingAcks → List String
  pending_ids [] = []
  pending_ids ((j, p) ∷ ps) = j ∷ pending_ids ps

  abbrev pub emit : Event → Bus → Bus
  emit e b = record b { log = b.log ++ e ∷ [] }

  -- `canCommunicate`, whose search always ends.
  unfoldable pub reaches : Bus → String → String → Bool
  reaches b sender uid = elim (can_communicate q b.units sender uid) [ none ↦ false | some r ↦ r ]

  unfoldable pub reachable : Bus → String → List String → List String
  reachable b sender [] = []
  reachable b sender (uid ∷ uids) =
      if not (str_eq uid sender) && reaches b sender uid
      then uid ∷ reachable b sender uids
      else reachable b sender uids

  -- The first lines of `send`: the id.
  unfoldable pub numbered : Msg → Bus → Msg × Bus
  numbered m b =
      if is_empty m.id
      then (record m { id = q.arg "m_%1" (suc b.seq) }, record b { seq = suc b.seq })
      else (m, b)

  unfoldable pub encoded : Option (Msg → Option Msg) → Msg → Option Msg
  encoded none m = some m
  encoded (some encoder) m =
      if not m.vmf_encoded && not (is_ack m.kind)
      then elim (encoder m) [ none ↦ none | some e ↦ some (record e { vmf_encoded = true }) ]
      else some m

  unfoldable pub marked : Bool → Msg → Msg
  marked automatic m = record m {
    automatic_ack = (automatic && m.requires_ack) || m.automatic_ack;
    acked = not m.requires_ack;
  }

  unfoldable pub track : Msg → Bus → Bus
  track m b =
      if m.requires_ack && not (is_ack m.kind)
      then record b {
        pending_acks =
            insert_pending b.pending_acks m.id
              (record { message = m; sent_at = b.simulation_time; retries = m.retry_count });
      }
      else b

  unfoldable pub settle : Msg → Bus → Bus
  settle m b =
      let reply = to_string (value m.payload "inReplyTo") in
      if is_ack m.kind && not (is_empty reply)
      then elim (find_pending b.pending_acks reply) [
        | none ↦ b
        | some p ↦
            emit (ack_state_changed reply true p.retries "ack")
              (record b { pending_acks = erase_pending b.pending_acks reply })
      ]
      else b

  unfoldable pub send_with : Option (Msg → Option Msg) → (Msg → Bus → Bus) → Msg → Bus → Bool × Bus
  send_with encoder dispatch msg b =
      let (m, b') = numbered msg b in
      elim (encoded encoder m) [
        | none ↦ (false, emit (vmf_encoding_failed m.id) b')
        | some e ↦
            let m' = marked b'.automatic_ack e in (true, dispatch m' (settle m' (track m' b')))
      ]

  unfoldable pub remembering : Bool → Msg → Bus → Bus
  remembering automatic m b =
      if automatic then record b { window = remember_automatic_message_id m.id b.window } else b

  unfoldable pub ack_of : Msg → String → Msg
  ack_of m uid = record {
    id = "";
    kind = ack;
    sender = uid;
    receiver = m.sender;
    requires_ack = false;
    acked = false;
    automatic_ack = false;
    vmf_encoded = false;
    retry_count = 0;
    trace_id = m.trace_id;
    correlation_id = m.id;
    vmf_message = "";
    wire_format = native;
    wire_bytes = [];
    wire_bit_length = 0;
    payload = insert end "inReplyTo" (text m.id);
  }

  module _ (react : Msg → String → Bus → Bus) where
    unfoldable pub deliver : Msg → String → Bus → Bus
    deliver m uid b = if contains b.handlers uid then react m uid (emit (delivered m uid) b) else b

    module _ (auto : Msg → String → Bus → Bus) where
      unfoldable pub deliver_each : Msg → List String → Bus → Bus
      deliver_each m [] b = b
      deliver_each m (uid ∷ uids) b = deliver_each m uids (auto m uid (deliver m uid b))

      -- A message that was seen is acknowledged again.
      unfoldable pub repeat_each : Msg → List String → Bus → Bus
      repeat_each m [] b = b
      repeat_each m (uid ∷ uids) b =
          repeat_each m uids
            (if not (str_eq uid m.sender) && reaches b m.sender uid then auto m uid b else b)

      unfoldable pub dispatch_seen : Msg → Bus → Bus
      dispatch_seen m b =
          if str_eq m.receiver "*"
          then repeat_each m b.handlers b
          else if not (is_empty m.receiver) && reaches b m.sender m.receiver
          then auto m m.receiver b
          else b

      unfoldable pub dispatch_new : Msg → Bus → Bus
      dispatch_new m b =
          let b' = emit (message_posted m b.simulation_time) b in
          let near = reachable b' m.sender b'.handlers in
          if str_eq m.receiver "*"
          then deliver_each m near (remembering (m.automatic_ack && not (is_no_one near)) m b')
          else if is_empty m.receiver
          then b'
          else if reaches b' m.sender m.receiver
          then auto m m.receiver (deliver m m.receiver (remembering m.automatic_ack m b'))
          else b'

      unfoldable pub dispatch_with : Msg → Bus → Bus
      dispatch_with m b =
          if m.automatic_ack && contains b.window.seen m.id
          then dispatch_seen m b
          else dispatch_new m b

    module _ (encoder : Option (Msg → Option Msg)) where
      -- An acknowledgement asks for none: behind it `maybeAutoAck` returns at once.
      unfoldable pub maybe_auto_ack : Msg → String → Bus → Bus
      maybe_auto_ack m uid b =
          if not m.requires_ack || not m.automatic_ack || is_ack m.kind
          then b
          else (send_with encoder (dispatch_with (λ m' uid' b'. b')) (ack_of m uid) b).1

      unfoldable pub dispatch : Msg → Bus → Bus
      dispatch = dispatch_with maybe_auto_ack

      unfoldable pub send : Msg → Bus → Bool × Bus
      send = send_with encoder dispatch

      -- One id of the snapshot; `epsilon` is 1e-9.
      unfoldable pub expire : q.Double → String → Bus → Bus
      expire epsilon id b = elim (find_pending b.pending_acks id) [
        | none ↦ b
        | some p ↦
            let waited = q.add (q.sub b.simulation_time p.sent_at) epsilon in
            let n = suc p.retries in
            if q.lt waited b.ack_timeout_seconds
            then b
            else if ltb p.retries b.max_ack_retries
            then emit (ack_state_changed id false n "retry") (
                dispatch (record p.message { retry_count = n; acked = false })
                  (record b {
                    pending_acks =
                        insert_pending b.pending_acks id
                          (record p { sent_at = b.simulation_time; retries = n });
                  }))
            else emit (ack_state_changed id false p.retries "timeout")
                (record b { pending_acks = erase_pending b.pending_acks id })
      ]

      unfoldable pub expire_each : q.Double → List String → Bus → Bus
      expire_each epsilon [] b = b
      expire_each epsilon (id ∷ ids) b = expire_each epsilon ids (expire epsilon id b)

      unfoldable pub advance_simulation_time : q.Double → q.Double → Bus → Bus
      advance_simulation_time epsilon seconds b =
          if not (q.is_finite seconds) || q.le seconds q.zero
          then b
          else let b' = record b { simulation_time = q.add b.simulation_time seconds } in
            expire_each epsilon (pending_ids b'.pending_acks) b'

  unfoldable pub set_simulation_time : q.Double → Bus → Bus
  set_simulation_time seconds b =
      if q.is_finite seconds then record b { simulation_time = max_double q q.zero seconds } else b

  -- `std::clamp(maxRetries, 0, 16)`, of a number that is not negative.
  unfoldable pub set_ack_policy : q.Double → ℕ → Bool → Bus → Bus
  set_ack_policy timeout max_retries automatic b = record b {
    ack_timeout_seconds =
        if q.is_finite timeout && q.lt q.zero timeout then timeout else b.ack_timeout_seconds;
    max_ack_retries = min max_retries 16;
    automatic_ack = automatic;
  }

  -- A unit is subscribed to the bus, its handlers are dropped, or it leaves altogether.
  unfoldable pub subscribe : String → Bus → Bus
  subscribe uid b = record b {
    handlers = if contains b.handlers uid then b.handlers else b.handlers ++ uid ∷ [];
    units = register q b.units uid;
  }

  unfoldable pub unsubscribe : String → Bus → Bus
  unsubscribe uid b = record b { handlers = remove uid b.handlers }

  unfoldable pub unregister_unit : String → Bus → Bus
  unregister_unit uid b = record b {
    handlers = remove uid b.handlers;
    units = unregister q b.units uid;
  }
