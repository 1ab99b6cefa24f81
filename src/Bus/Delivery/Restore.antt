-- ===== src/Bus/Delivery/Restore.antt =====
-- `restorePendingAckState`: what it accepts waits as what the bus itself lets wait. A number where the
-- source reads an `int` is read by `to_nat`.
use wargame.Prelude.{
  ℕ, ◌*◌, ◌≤◌, ◌≡◌, refl, Bool, true, false, not, ◌&&◌, ◌||◌, String, List, [], ◌∷◌, Option, none,
  some, All, ltb, leb, ◌==◌, length, str_eq, is_empty, if◌then◌else◌, if-true, if-false, inl, inr,
  Bool-cases, Option-cases, sym, ◌∙◌, arith, subst, if_cases,
}
use wargame.Prelude.Qt.{Qt}
use wargame.Prelude.Json.{
  Json, Fields, value, to_string, to_object, to_double, to_bool, is_object, is_number, has_key,
}
use wargame.Vmf.RuntimeState.Check.{zero_padding}
use wargame.Bus.Message.{MessageType, native, vmf_design_v1, parse_type_name}
use wargame.Bus.Delivery.{is_ack, Msg, PendingAck, PendingAcks, Bus, find_pending, insert_pending}
use wargame.Bus.Delivery.Pending.{IsPending, insert-IsPending, IsBus}

module _ (q : Qt) where
  -- The first test of an entry, but for the ids that were restored already.
  unfoldable pub valid_entry : Fields q.Double → String → Bool
  valid_entry entry id =
      let sent_at = to_double (value entry "sentAt") q.zero in
      let retries = to_double (value entry "retries") q.zero in
      not (is_empty id)
      && leb (q.size id) 128
      && is_number (value entry "sentAt")
      && q.is_finite sent_at
      && not (q.lt sent_at q.zero)
      && is_number (value entry "retries")
      && q.is_finite retries
      && not (q.lt retries q.zero)
      && not (q.lt (q.of_nat 16) retries)
      && q.eq (q.floor retries) retries

  -- The tests of the encoded bytes.
  unfoldable pub valid_bytes : Fields q.Double → List ℕ → ℕ → Bool
  valid_bytes json bytes bit_length =
      (not (has_key json "wireBytes")
        || (not (length bytes == 0)
            && str_eq (q.to_base64 bytes) (to_string (value json "wireBytes"))))
      && (length bytes == 0
          || (not (bit_length == 0)
              && leb bit_length (length bytes * 8)
              && zero_padding q bit_length bytes))

  unfoldable pub restored_message : Fields q.Double → String → MessageType → Msg q
  restored_message json id kind =
      let format =
        if str_eq (to_string (value json "wireFormat")) "vmf-design-v1"
        then vmf_design_v1
        else native in
      record {
        id = id;
        kind = kind;
        sender = to_string (value json "sender");
        receiver = to_string (value json "receiver");
        requires_ack = to_bool (value json "requiresAck");
        acked = to_bool (value json "acked");
        automatic_ack = to_bool (value json "automaticAck");
        vmf_encoded = str_eq (to_string (value json "wireFormat")) "vmf-design-v1";
        retry_count = q.to_nat (to_double (value json "retryCount") q.zero);
        trace_id = to_string (value json "traceId");
        correlation_id = to_string (value json "correlationId");
        vmf_message = to_string (value json "vmfMessage");
        wire_format = format;
        wire_bytes = q.from_base64 (to_string (value json "wireBytes"));
        wire_bit_length = q.to_nat (to_double (value json "wireBitLength") q.zero);
        payload = to_object (value json "payload");
      }

  unfoldable pub is_known : Option (PendingAck q) → Bool
  is_known none = false
  is_known (some p) = true

  unfoldable pub restored_entry : Fields q.Double → Msg q → PendingAck q
  restored_entry entry m = record {
    message = m;
    sent_at = to_double (value entry "sentAt") q.zero;
    retries = q.to_nat (to_double (value entry "retries") q.zero);
  }

  -- One round of the loop; `none` is a refusal.
  unfoldable pub restore_entry : Json q.Double → PendingAcks q → Option (PendingAcks q)
  restore_entry v restored =
      let entry = to_object (some v) in
      let json = to_object (value entry "message") in
      let id = to_string (value json "id") in
      if not (is_object (some v))
        || not (valid_entry entry id)
        || is_known (find_pending q restored id)
      then none
      else elim (parse_type_name (to_string (value json "type"))) [
        | none ↦ none
        | some kind ↦
            let m = restored_message json id kind in
            if not (valid_bytes json m.wire_bytes m.wire_bit_length)
              || not m.requires_ack
              || is_ack kind
            then none
            else some (insert_pending q restored id (restored_entry entry m))
      ]

  unfoldable pub restore_entries : List (Json q.Double) → PendingAcks q → Option (PendingAcks q)
  restore_entries [] restored = some restored
  restore_entries (v ∷ vs) restored = elim (restore_entry v restored) [
    | none ↦ none
    | some restored' ↦ restore_entries vs restored'
  ]

  -- A refusal leaves the bus as it was.
  unfoldable pub restore_pending_ack_state : List (Json q.Double) → Bus q → Bool × Bus q
  restore_pending_ack_state state b =
      if ltb 1024 (length state) then (false, b) else elim (restore_entries state []) [
        | none ↦ (false, b)
        | some restored ↦ (true, record b { pending_acks = restored })
      ]

  some-same : {xs ys : PendingAcks q} → some xs ≡ some ys → xs ≡ ys
  some-same e = cc

  module _ (small : (x : q.Double) → q.lt (q.of_nat 16) x ≡ false → q.to_nat x ≤ 16) where
    few_retries :
        (entry : Fields q.Double) (id : String)
        → valid_entry entry id ≡ true
        → q.to_nat (to_double (value entry "retries") q.zero) ≤ 16
    unfolding valid_entry
    few_retries entry id e = small (to_double (value entry "retries") q.zero) (ground (arith, e))

    restore_entry-IsPending :
        (v : Json q.Double) (restored restored' : PendingAcks q)
        → restore_entry v restored ≡ some restored'
        → All (IsPending q) restored
        → All (IsPending q) restored'
    unfolding restore_entry restored_entry restored_message
    restore_entry-IsPending v restored restored' e h =
        let entry = to_object (some v) in
        let json = to_object (value entry "message") in
        let id = to_string (value json "id") in
        elim (Bool-cases (
          not (is_object (some v))
          || not (valid_entry entry id)
          || is_known (find_pending q restored id))) [
            | inl refused ↦ cc (sym (if-true _ _ refused) ∙ e)
            | inr fine ↦
                let e' = sym (if-false _ _ fine) ∙ e in
                let few = few_retries entry id (ground (arith, fine)) in
                elim (Option-cases (parse_type_name (to_string (value json "type")))) [
                  | inl unknown ↦ cc (rw unknown at e')
                  | inr (kind, known) ↦
                      let m = restored_message json id kind in
                      let e'' = rw known at e' in
                      elim (Bool-cases (
                        not (valid_bytes json m.wire_bytes m.wire_bit_length)
                        || not m.requires_ack
                        || is_ack kind)) [
                          | inl bad ↦ cc (sym (if-true _ _ bad) ∙ e'')
                          | inr good ↦
                              let done = sym (if-false _ _ good) ∙ e'' in
                              let new : IsPending q (id, restored_entry entry m) = record {
                                own_id = refl;
                                asks = ground (arith, good);
                                no_ack = ground (arith, good);
                                few = few;
                              } in
                              subst (All (IsPending q)) (some-same done)
                                (insert-IsPending q restored id (restored_entry entry m) h new)
                        ]
                ]
          ]

    restore_entries-IsPending :
        (vs : List (Json q.Double)) (restored restored' : PendingAcks q)
        → restore_entries vs restored ≡ some restored'
        → All (IsPending q) restored
        → All (IsPending q) restored'
    unfolding restore_entries
    restore_entries-IsPending [] restored restored' e h =
        let same : restored ≡ restored' = cc in subst (All (IsPending q)) same h
    restore_entries-IsPending (v ∷ vs) restored restored' e h =
        elim (Option-cases (restore_entry v restored)) [
          | inl refused ↦ cc (rw (restore_entries, refused) at e)
          | inr (next, done) ↦
              restore_entries-IsPending vs next restored' (rw (restore_entries, done) at e)
                (restore_entry-IsPending v restored next done h)
        ]

    -- What restoring leaves: a well-formed bus, and the same one where it refuses.
    pub record Restored (b : Bus q) (result : Bool × Bus q) : Type 0 where
      pub valid : IsBus q result.1
      pub unchanged : result.0 ≡ false → result.1 ≡ b

    option-Restored :
        (o : Option (PendingAcks q)) (b : Bus q)
        → ((ps : PendingAcks q) → o ≡ some ps → All (IsPending q) ps)
        → IsBus q b
        → Restored b (elim o as (λ x. Bool × Bus q) [
          | none ↦ (false, b)
          | some restored ↦ (true, record b { pending_acks = restored })
        ])
    option-Restored none b h v = record { valid = v; unchanged = λ e. refl }
    option-Restored (some ps) b h v = record {
      valid = record { pending = h ps refl; capped = v.capped; window = v.window };
      unchanged = λ e. cc;
    }

    -- Where a double that is at most 16 is read as an `int` that is at most 16: a well-formed bus is
    -- well formed after restoring any array, and as it was where the array is refused.
    pub restore-Restored :
        (state : List (Json q.Double)) (b : Bus q)
        → IsBus q b
        → Restored b (restore_pending_ack_state state b)
    unfolding restore_pending_ack_state
    restore-Restored state b v =
        if_cases (Restored b) (ltb 1024 (length state))
          (λ t. record { valid = v; unchanged = λ e. refl })
          (λ e.
            option-Restored (restore_entries state []) b
              (λ ps found. restore_entries-IsPending state [] ps found tt) v)
