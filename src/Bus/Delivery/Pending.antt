-- ===== src/Bus/Delivery/Pending.antt =====
-- What waits for an acknowledgement: only messages that ask for one, under their own ids, and never
-- more than sixteen tries.
use wargame.Prelude.{
  suc, ◌≤◌, ◌≡◌, refl, true, false, not, ◌&&◌, ◌||◌, String, [], ◌∷◌, Option, some, All, if_cases,
  str_eq, str_eq_iff, ltb, arith, Bool-cases, inl, inr, &&-true, subst, sym, ◌∙◌, is_empty,
  if-false, if-true,
}
use wargame.Prelude.Qt.{Qt}
use wargame.Bus.Window.{Window, remember_automatic_message_id}
use wargame.Bus.Window.Membership.{IsWindow, remember-Remembered}
use wargame.Bus.Delivery.{
  is_ack, Msg, PendingAck, PendingAcks, Event, Bus, find_pending, insert_pending, erase_pending,
  track, marked, remembering, encoded, numbered, send, dispatch, advance_simulation_time,
  pending_ids,
}
use wargame.Bus.Delivery.Stable.{Stable, send_with-Stable, dispatch-Stable, expire_each-Stable}

module _ (q : Qt) where
  pub record IsPending (entry : String × PendingAck q) : Type 0 where
    pub own_id : entry.1.message.id ≡ entry.0
    pub asks : entry.1.message.requires_ack ≡ true
    pub no_ack : is_ack entry.1.message.kind ≡ false
    pub few : entry.1.retries ≤ 16

  pub record IsBus (b : Bus q) : Type 0 where
    pub pending : All IsPending b.pending_acks
    pub capped : b.max_ack_retries ≤ 16
    pub window : IsWindow b.window

  find-IsPending :
      (ps : PendingAcks q) (id : String) (p : PendingAck q)
      → All IsPending ps
      → find_pending q ps id ≡ some p
      → IsPending (id, p)
  unfolding find_pending
  find-IsPending [] id p h e = cc
  find-IsPending ((j, r) ∷ ps) id p h e = elim (Bool-cases (str_eq j id)) [
    | inl here ↦
        let same_id : j ≡ id = (str_eq_iff j id).0 here in
        let same : some r ≡ some p = sym (if-true _ _ here) ∙ e in
        let same_entry : r ≡ p = cc in
        subst (λ x. IsPending (x, p)) same_id (subst (λ x. IsPending (j, x)) same_entry h.0)
    | inr other ↦ find-IsPending ps id p h.1 (sym (if-false _ _ other) ∙ e)
  ]

  pub insert-IsPending :
      (ps : PendingAcks q) (id : String) (p : PendingAck q)
      → All IsPending ps
      → IsPending (id, p)
      → All IsPending (insert_pending q ps id p)
  unfolding insert_pending
  insert-IsPending [] id p h new = (new, tt)
  insert-IsPending ((j, r) ∷ ps) id p h new =
      if_cases (All IsPending) (str_eq j id) (λ t. (new, h.1))
        (λ e. (h.0, insert-IsPending ps id p h.1 new))

  erase-IsPending :
      (ps : PendingAcks q) (id : String) → All IsPending ps → All IsPending (erase_pending q ps id)
  unfolding erase_pending
  erase-IsPending [] id h = tt
  erase-IsPending ((j, r) ∷ ps) id h =
      if_cases (All IsPending) (str_eq j id) (λ t. erase-IsPending ps id h.1)
        (λ e. (h.0, erase-IsPending ps id h.1))

  remember-IsWindow :
      (id : String) (w : Window) → IsWindow w → IsWindow (remember_automatic_message_id id w)
  remember-IsWindow id w v = elim (remember-Remembered id w v) [
    | inl (_, same) ↦ rw same v
    | inr (_, r) ↦ r.valid
  ]

  abbrev Anything : Event q → Type 0
  Anything e = Unit {0}

  module _ (encoder : Option (Msg q → Option (Msg q))) (react : Msg q → String → Bus q → Bus q)
      (keeps : (m : Msg q) (uid : String) (b : Bus q) → IsBus b → IsBus (react m uid b)) where
    IsBus-Stable : Stable q encoder react Anything IsBus
    unfolding remembering
    IsBus-Stable = record {
      emits = λ e b ok v. record { pending = v.pending; capped = v.capped; window = v.window };
      reacts = keeps;
      counts = λ n b v. record { pending = v.pending; capped = v.capped; window = v.window };
      remembers = λ a m b v.
          if_cases IsBus a
            (λ t. record {
              pending = v.pending;
              capped = v.capped;
              window = remember-IsWindow m.id b.window v.window;
            })
            (λ e. v);
      erases = λ id b v. record {
        pending = erase-IsPending b.pending_acks id v.pending;
        capped = v.capped;
        window = v.window;
      };
      changes = λ id a n why. tt;
      posts = λ m t. tt;
      fails = λ id. tt;
      acks = λ m uid e. tt;
    }

    track-IsBus : (m : Msg q) (b : Bus q) → m.retry_count ≤ 16 → IsBus b → IsBus (track q m b)
    unfolding track
    track-IsBus m b few v =
        if_cases IsBus (m.requires_ack && not (is_ack m.kind))
          (λ t.
            let both = &&-true m.requires_ack (not (is_ack m.kind)) t in
            record {
              pending = insert-IsPending b.pending_acks m.id _ v.pending (record {
                own_id = refl;
                asks = both.0;
                no_ack = ground (arith, both.1);
                few = few;
              });
              capped = v.capped;
              window = v.window;
            })
          (λ e. v)

    retry_count-numbered : (m : Msg q) (b : Bus q) → (numbered q m b).0.retry_count ≡ m.retry_count
    unfolding numbered
    retry_count-numbered m b =
        if_cases (λ (x : Msg q × Bus q). x.0.retry_count ≡ m.retry_count) (is_empty m.id)
          (λ t. refl) (λ e. refl)

    renew-IsBus :
        (id : String) (b : Bus q) (r : PendingAck q) (t : q.Double)
        → find_pending q b.pending_acks id ≡ some r
        → ltb r.retries b.max_ack_retries ≡ true
        → IsBus b
        → IsBus (record b {
          pending_acks =
              insert_pending q b.pending_acks id
                (record r { sent_at = t; retries = suc r.retries });
        })
          × ((uid : String) → Unit {0})
    renew-IsBus id b r t found more v =
        let old = find-IsPending b.pending_acks id r v.pending found in
        (
          record {
            pending = insert-IsPending b.pending_acks id _ v.pending (record {
              own_id = old.own_id;
              asks = old.asks;
              no_ack = old.no_ack;
              few = ground (arith, more, v.capped);
            });
            capped = v.capped;
            window = v.window;
          },
          λ uid. tt,
        )

    -- Sending keeps the bus well formed, where the handlers do, and where encoding keeps the count
    -- of tries of a message that has been tried at most sixteen times.
    pub send-IsBus :
        (m : Msg q) (b : Bus q)
        → ((m' e : Msg q) → encoded q encoder m' ≡ some e → e.retry_count ≡ m'.retry_count)
        → m.retry_count ≤ 16
        → IsBus b
        → IsBus (send q react encoder m b).1
    unfolding send marked
    send-IsBus m b same_count few v =
        send_with-Stable q encoder react Anything IsBus IsBus-Stable (dispatch q react encoder) m b
          (λ e b' found v'. (
            track-IsBus _ b' (rw (same_count _ e found, retry_count-numbered m b) few) v',
            λ c vc. dispatch-Stable q encoder react Anything IsBus IsBus-Stable _ c (λ uid. tt) vc,
          ))
          v

    -- The passing of time keeps the bus well formed: no message is tried more than sixteen times.
    pub advance_simulation_time-IsBus :
        (epsilon seconds : q.Double) (b : Bus q)
        → IsBus b
        → IsBus (advance_simulation_time q react encoder epsilon seconds b)
    unfolding advance_simulation_time
    advance_simulation_time-IsBus epsilon seconds b v =
        if_cases IsBus (not (q.is_finite seconds) || q.le seconds q.zero) (λ t. v)
          (λ e.
            expire_each-Stable q encoder react Anything IsBus IsBus-Stable renew-IsBus epsilon
              (pending_ids q b.pending_acks) _
              (record { pending = v.pending; capped = v.capped; window = v.window }))
