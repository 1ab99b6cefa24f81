-- ===== src/Bus/Delivery/Stable.antt =====
-- What the single updates of the bus keep, sending, dispatching and the passing of time keep.
use wargame.Prelude.{
  ℕ, suc, ◌≡◌, refl, Bool, true, false, not, ◌&&◌, ◌||◌, String, List, [], ◌∷◌, Option, none, some,
  Option-cases, inl, inr, if_cases, contains, str_eq, is_empty, arith, ltb, subst, sym, ◌∙◌,
  if-false,
}
use wargame.Prelude.Qt.{Qt}
use wargame.Bus.Delivery.{
  is_ack, Msg, PendingAck, Event, delivered, Bus, find_pending, erase_pending, insert_pending, emit,
  reaches, numbered, encoded, marked, track, settle, send_with, deliver, deliver_each, repeat_each,
  dispatch_seen, remembering, dispatch_new, dispatch_with, ack_of, maybe_auto_ack, dispatch, expire,
  expire_each, message_posted, vmf_encoding_failed, ack_state_changed,
}
use wargame.Prelude.Json.{to_string, value}

module _ (q : Qt) (encoder : Option (Msg q → Option (Msg q)))
    (react : Msg q → String → Bus q → Bus q) (Allowed : Event q → Type 0) (P : Bus q → Type 0) where
  -- The single updates; `Allowed` are the entries of the log that may be added.
  pub record Stable : Type 0 where
    pub emits : (e : Event q) (b : Bus q) → Allowed e → P b → P (emit q e b)
    pub reacts : (m : Msg q) (uid : String) (b : Bus q) → P b → P (react m uid b)
    pub counts : (n : ℕ) (b : Bus q) → P b → P (record b { seq = n })
    pub remembers : (a : Bool) (m : Msg q) (b : Bus q) → P b → P (remembering q a m b)
    pub erases :
        (id : String) (b : Bus q)
        → P b
        → P (record b { pending_acks = erase_pending q b.pending_acks id })
    pub changes :
        (id : String) (acked : Bool) (n : ℕ) (why : String)
        → Allowed (ack_state_changed id acked n why)
    pub posts : (m : Msg q) (t : q.Double) → Allowed (message_posted m t)
    pub fails : (id : String) → Allowed (vmf_encoding_failed id)
    pub acks : (m : Msg q) (uid : String) → is_ack m.kind ≡ true → Allowed (delivered m uid)

  abbrev pub Permits : Msg q → Type 0
  Permits m = (uid : String) → Allowed (delivered m uid)

  module _ (stable : Stable) where
    deliver-Stable :
        (m : Msg q) (uid : String) (b : Bus q) → Permits m → P b → P (deliver q react m uid b)
    unfolding deliver
    deliver-Stable m uid b ok p =
        if_cases P (contains b.handlers uid)
          (λ t. stable.reacts m uid _ (stable.emits _ b (ok uid) p)) (λ e. p)

    module _ (auto : Msg q → String → Bus q → Bus q)
        (auto-Stable : (m : Msg q) (uid : String) (b : Bus q) → P b → P (auto m uid b)) where
      deliver_each-Stable :
          (m : Msg q) (uids : List String) (b : Bus q)
          → Permits m
          → P b
          → P (deliver_each q react auto m uids b)
      unfolding deliver_each
      deliver_each-Stable m [] b ok p = p
      deliver_each-Stable m (uid ∷ uids) b ok p =
          deliver_each-Stable m uids _ ok (auto-Stable m uid _ (deliver-Stable m uid b ok p))

      repeat_each-Stable :
          (m : Msg q) (uids : List String) (b : Bus q) → P b → P (repeat_each q react auto m uids b)
      unfolding repeat_each
      repeat_each-Stable m [] b p = p
      repeat_each-Stable m (uid ∷ uids) b p = repeat_each-Stable m uids _ (
          if_cases P (not (str_eq uid m.sender) && reaches q b m.sender uid)
            (λ t. auto-Stable m uid b p) (λ e. p))

      pub dispatch_seen-Stable : (m : Msg q) (b : Bus q) → P b → P (dispatch_seen q react auto m b)
      unfolding dispatch_seen
      dispatch_seen-Stable m b p =
          if_cases P (str_eq m.receiver "*") (λ t. repeat_each-Stable m b.handlers b p)
            (λ e.
              if_cases P (not (is_empty m.receiver) && reaches q b m.sender m.receiver)
                (λ t. auto-Stable m m.receiver b p) (λ e'. p))

      dispatch_new-Stable :
          (m : Msg q) (b : Bus q) → Permits m → P b → P (dispatch_new q react auto m b)
      unfolding dispatch_new
      dispatch_new-Stable m b ok p =
          let p' = stable.emits _ b (stable.posts m b.simulation_time) p in
          if_cases P (str_eq m.receiver "*")
            (λ t. deliver_each-Stable m _ _ ok (stable.remembers _ m _ p'))
            (λ e.
              if_cases P (is_empty m.receiver) (λ t. p')
                (λ e'.
                  if_cases P (reaches q _ m.sender m.receiver)
                    (λ t.
                      auto-Stable m m.receiver _
                        (deliver-Stable m m.receiver _ ok (stable.remembers _ m _ p')))
                    (λ e''. p')))

      pub dispatch_with-Stable :
          (m : Msg q) (b : Bus q) → Permits m → P b → P (dispatch_with q react auto m b)
      unfolding dispatch_with
      dispatch_with-Stable m b ok p =
          if_cases P (m.automatic_ack && contains b.window.seen m.id)
            (λ t. dispatch_seen-Stable m b p) (λ e. dispatch_new-Stable m b ok p)

    acknowledged-Stable :
        (o : Option (PendingAck q)) (id : String) (b : Bus q)
        → P b
        → P (elim o as (λ x. Bus q) [
          | none ↦ b
          | some r ↦
              emit q
                (ack_state_changed id true r.retries "ack")
                (record b { pending_acks = erase_pending q b.pending_acks id })
        ])
    acknowledged-Stable none id b p = p
    acknowledged-Stable (some r) id b p =
        stable.emits _ _ (stable.changes id true r.retries "ack") (stable.erases id b p)

    settle-Stable : (m : Msg q) (b : Bus q) → P b → P (settle q m b)
    unfolding settle
    settle-Stable m b p =
        let reply = to_string (value m.payload "inReplyTo") in
        if_cases P (is_ack m.kind && not (is_empty reply))
          (λ t. acknowledged-Stable (find_pending q b.pending_acks reply) reply b p) (λ e. p)

    -- What `send` does with an encoding that failed, and with the message to send.
    sent-Stable :
        (disp : Msg q → Bus q → Bus q) (o : Option (Msg q)) (id : String) (b : Bus q)
        → ((e : Msg q)
            → o ≡ some e
            → P (
                disp
                  (marked q b.automatic_ack e)
                  (settle q (marked q b.automatic_ack e) (track q (marked q b.automatic_ack e) b))))
        → P b
        → P
            (elim o as (λ x. Bool × Bus q) [
              | none ↦ (false, emit q (vmf_encoding_failed id) b)
              | some e ↦ (
                true,
                disp (marked q b.automatic_ack e) (
                    settle q (marked q b.automatic_ack e) (track q (marked q b.automatic_ack e) b)),
              )
            ]).1
    sent-Stable disp none id b h p = stable.emits _ b (stable.fails id) p
    sent-Stable disp (some e) id b h p = h e refl

    numbered-Stable : (m : Msg q) (b : Bus q) → P b → P (numbered q m b).1
    unfolding numbered
    numbered-Stable m b p =
        if_cases (λ (x : Msg q × Bus q). P (x.1)) (is_empty m.id) (λ t. stable.counts _ b p)
          (λ e. p)

    -- One send: whatever the message is encoded as, tracked and dispatched.
    pub send_with-Stable :
        (disp : Msg q → Bus q → Bus q) (m : Msg q) (b : Bus q)
        → ((e : Msg q) (b' : Bus q)
            → encoded q encoder (numbered q m b).0 ≡ some e
            → P b'
            → P (track q (marked q b'.automatic_ack e) b')
              × ((c : Bus q) → P c → P (disp (marked q b'.automatic_ack e) c)))
        → P b
        → P (send_with q encoder disp m b).1
    unfolding send_with
    send_with-Stable disp m b h p =
        let b' = (numbered q m b).1 in
        let p' = numbered-Stable m b p in
        sent-Stable disp (encoded q encoder (numbered q m b).0) (numbered q m b).0.id b'
          (λ e found.
            let (tracked, dispatches) = h e b' found p' in dispatches _ (settle-Stable _ _ tracked))
          p'

    -- An acknowledgement, which asks for none.
    abbrev IsPlain : Msg q → Type 0
    IsPlain m = (is_ack m.kind ≡ true) × (m.requires_ack ≡ false)

    encoded-ack :
        (f : Option (Msg q → Option (Msg q))) (m e : Msg q)
        → encoded q f m ≡ some e
        → IsPlain m
        → IsPlain e
    unfolding encoded
    encoded-ack none m e h plain = let same : m ≡ e = cc in subst IsPlain same plain
    encoded-ack (some f) m e h plain =
        let passed : (not m.vmf_encoded && not (is_ack m.kind)) ≡ false = ground (arith, plain.0) in
        let done : some m ≡ some e = sym (if-false _ _ passed) ∙ h in
        let same : m ≡ e = cc in subst IsPlain same plain

    numbered-IsPlain :
        (m : Msg q) (uid : String) (b : Bus q) → IsPlain (numbered q (ack_of q m uid) b).0
    unfolding numbered ack_of
    numbered-IsPlain m uid b = (refl, refl)

    untracked : (m : Msg q) (b : Bus q) → m.requires_ack ≡ false → P b → P (track q m b)
    unfolding track
    untracked m b e p =
        if_cases P (m.requires_ack && not (is_ack m.kind)) (λ t. absurd (ground (arith, t, e)))
          (λ f. p)

    pub maybe_auto_ack-Stable :
        (m : Msg q) (uid : String) (b : Bus q) → P b → P (maybe_auto_ack q react encoder m uid b)
    unfolding maybe_auto_ack marked
    maybe_auto_ack-Stable m uid b p =
        if_cases P (not m.requires_ack || not m.automatic_ack || is_ack m.kind) (λ t. p)
          (λ e.
            send_with-Stable (dispatch_with q react (λ m' uid' b'. b')) (ack_of q m uid) b
              (λ sent b' found p'.
                let plain = encoded-ack encoder _ sent found (numbered-IsPlain m uid b) in
                (
                  untracked _ b' plain.1 p',
                  λ c pc.
                      dispatch_with-Stable (λ m' uid' b''. b'') (λ m' uid' b'' p''. p'') _ c
                        (λ uid'. stable.acks _ uid' plain.0) pc,
                ))
              p)

    pub dispatch-Stable :
        (m : Msg q) (b : Bus q) → Permits m → P b → P (dispatch q react encoder m b)
    unfolding dispatch
    dispatch-Stable = dispatch_with-Stable (maybe_auto_ack q react encoder) maybe_auto_ack-Stable

    -- One pending message when its time is up; `renews` is what counting one more try keeps.
    module _
        (renews : (id : String) (b : Bus q) (r : PendingAck q) (t : q.Double)
          → find_pending q b.pending_acks id ≡ some r
          → ltb r.retries b.max_ack_retries ≡ true
          → P b
          → P (record b {
            pending_acks =
                insert_pending q b.pending_acks id
                  (record r { sent_at = t; retries = suc r.retries });
          })
            × Permits (record r.message { retry_count = suc r.retries; acked = false })) where
      expire-Stable :
          (epsilon : q.Double) (id : String) (b : Bus q)
          → P b
          → P (expire q react encoder epsilon id b)
      unfolding expire
      expire-Stable epsilon id b p = elim (Option-cases (find_pending q b.pending_acks id)) [
        | inl missing ↦ rw (expire, missing) p
        | inr (r, found) ↦
            rw (expire, found)
              (if_cases P
                (q.lt (q.add (q.sub b.simulation_time r.sent_at) epsilon) b.ack_timeout_seconds)
                (λ t. p)
                (λ e.
                  if_cases P (ltb r.retries b.max_ack_retries)
                    (λ more.
                      let (renewed, ok) = renews id b r b.simulation_time found more p in
                      stable.emits _ _ (stable.changes id false (suc r.retries) "retry")
                        (dispatch-Stable _ _ ok renewed))
                    (λ enough.
                      stable.emits _ _ (stable.changes id false r.retries "timeout")
                        (stable.erases id b p))))
      ]

      pub expire_each-Stable :
          (epsilon : q.Double) (ids : List String) (b : Bus q)
          → P b
          → P (expire_each q react encoder epsilon ids b)
      unfolding expire_each
      expire_each-Stable epsilon [] b p = p
      expire_each-Stable epsilon (id ∷ ids) b p =
          expire_each-Stable epsilon ids _ (expire-Stable epsilon id b p)
