-- ===== src/Bus/Delivery/Settling.antt =====
-- A message that waits for an acknowledgement is waited for no longer after one time-out more than
-- the policy's number of retries.
use wargame.Prelude.{
  ℕ, suc, ◌-◌, ◌<◌, ◌≡◌, refl, true, false, String, [], ◌∷◌, Option, none, some, str_eq, str_eq_iff,
  ltb, arith, inl, inr, ◌⊎◌, Bool-cases, Option-cases, if-true, if-false, if_cases, sym, ◌∙◌, subst,
}
use wargame.Prelude.Qt.{Qt}
use wargame.Bus.Delivery.{
  Msg, PendingAck, PendingAcks, Bus, find_pending, insert_pending, erase_pending, emit, remembering,
  dispatch, expire, ack_state_changed,
}
use wargame.Bus.Delivery.Stable.{Stable, dispatch-Stable}

module _ (q : Qt) where
  find-insert :
      (ps : PendingAcks q) (id : String) (p : PendingAck q)
      → find_pending q (insert_pending q ps id p) id ≡ some p
  unfolding find_pending insert_pending
  find-insert [] id p = if-true _ _ ((str_eq_iff id id).1 refl)
  find-insert ((j, r) ∷ ps) id p =
      if_cases (λ l. find_pending q l id ≡ some p) (str_eq j id)
        (λ t. if-true _ _ ((str_eq_iff id id).1 refl)) (λ e. if-false _ _ e ∙ find-insert ps id p)

  find-erase_same :
      (ps : PendingAcks q) (id : String) → find_pending q (erase_pending q ps id) id ≡ none
  unfolding find_pending erase_pending
  find-erase_same [] id = refl
  find-erase_same ((j, r) ∷ ps) id =
      if_cases (λ l. find_pending q l id ≡ none) (str_eq j id) (λ t. find-erase_same ps id)
        (λ e. if-false _ _ e ∙ find-erase_same ps id)

  find-erase :
      (ps : PendingAcks q) (id id' : String)
      → (find_pending q (erase_pending q ps id') id ≡ find_pending q ps id)
        ⊎ (find_pending q (erase_pending q ps id') id ≡ none)
  unfolding find_pending erase_pending
  find-erase [] id id' = inl refl
  find-erase ((j, r) ∷ ps) id id' =
      if_cases
        (λ l.
          (find_pending q l id ≡ find_pending q ((j, r) ∷ ps) id) ⊎ (find_pending q l id ≡ none))
        (str_eq j id')
        (λ t. elim (Bool-cases (str_eq j id)) [
          | inl here ↦
              let e : id' ≡ id = sym ((str_eq_iff j id').0 t) ∙ (str_eq_iff j id).0 here in
              inr (
                subst (λ x. find_pending q (erase_pending q ps x) id ≡ none) (sym e)
                  (find-erase_same ps id))
          | inr there ↦ elim (find-erase ps id id') [
            | inl same ↦ inl (same ∙ sym (if-false _ _ there))
            | inr gone ↦ inr gone
          ]
        ])
        (λ e. elim (Bool-cases (str_eq j id)) [
          | inl here ↦ inl (if-true _ _ here ∙ sym (if-true _ _ here))
          | inr there ↦ elim (find-erase ps id id') [
            | inl same ↦ inl (if-false _ _ there ∙ same ∙ sym (if-false _ _ there))
            | inr gone ↦ inr (if-false _ _ there ∙ gone)
          ]
        ])

  -- The entry of an id is as given, or gone; and the policy is as given.
  pub record Fate (id : String) (o : Option (PendingAck q)) (limit : ℕ) (b : Bus q) : Type 0 where
    pub entry : (find_pending q b.pending_acks id ≡ o) ⊎ (find_pending q b.pending_acks id ≡ none)
    pub policy : b.max_ack_retries ≡ limit

  -- From one bus to another, the entry of an id is the same or goes, under the same policy.
  abbrev pub Leaves : String → Bus q → Bus q → Type 0
  Leaves id b b' = Fate id (find_pending q b.pending_acks id) b.max_ack_retries b'

  Fate-Leaves :
      (id : String) (o : Option (PendingAck q)) (limit : ℕ) (b b' : Bus q)
      → Leaves id b b'
      → Fate id o limit b
      → Fate id o limit b'
  Fate-Leaves id o limit b b' l f = record {
    entry = elim l.entry [
      | inr gone ↦ inr gone
      | inl same ↦ elim f.entry [ inl was ↦ inl (same ∙ was) | inr gone ↦ inr (same ∙ gone) ]
    ];
    policy = l.policy ∙ f.policy;
  }

  module _ (encoder : Option (Msg q → Option (Msg q))) (react : Msg q → String → Bus q → Bus q)
      (id : String)
      (calm : (m : Msg q) (uid : String) (b : Bus q) → Leaves id b (react m uid b)) where
    Fate-Stable :
        (o : Option (PendingAck q)) (limit : ℕ)
        → Stable q encoder react (λ e. Unit {0}) (Fate id o limit)
    unfolding remembering
    Fate-Stable o limit = record {
      emits = λ e b ok f. record { entry = f.entry; policy = f.policy };
      reacts = λ m uid b f. Fate-Leaves id o limit b (react m uid b) (calm m uid b) f;
      counts = λ n b f. record { entry = f.entry; policy = f.policy };
      remembers = λ a m b f.
          if_cases (Fate id o limit) a (λ t. record { entry = f.entry; policy = f.policy })
            (λ e. f);
      erases = λ id' b f.
          Fate-Leaves id o limit b _
            (record { entry = find-erase b.pending_acks id id'; policy = refl }) f;
      changes = λ id' a n why. tt;
      posts = λ m t. tt;
      fails = λ id'. tt;
      acks = λ m uid e. tt;
    }

    -- At most `n` more time-outs, under the policy's limit.
    pub record Rest (limit n : ℕ) (b : Bus q) : Type 0 where
      pub entry :
          (find_pending q b.pending_acks id ≡ none)
          ⊎ ((r : PendingAck q) × (find_pending q b.pending_acks id ≡ some r)
              × (limit - r.retries < n))
      pub policy : b.max_ack_retries ≡ limit

    Rest-Leaves : (limit n : ℕ) (b b' : Bus q) → Leaves id b b' → Rest limit n b → Rest limit n b'
    Rest-Leaves limit n b b' l rest = record {
      entry = elim l.entry [
        | inr gone ↦ inl gone
        | inl same ↦ elim rest.entry [
          | inl gone ↦ inl (same ∙ gone)
          | inr (r, found, few) ↦ inr (r, same ∙ found, few)
        ]
      ];
      policy = l.policy ∙ rest.policy;
    }

    -- The time of the entry is up.
    abbrev pub Overdue : q.Double → Bus q → Type 0
    Overdue epsilon b =
        (r : PendingAck q)
        → find_pending q b.pending_acks id ≡ some r
        → q.lt (q.add (q.sub b.simulation_time r.sent_at) epsilon) b.ack_timeout_seconds ≡ false

    -- Another try, in which the message may be acknowledged.
    renew-Rest :
        (limit n : ℕ) (b : Bus q) (r : PendingAck q)
        → ltb r.retries b.max_ack_retries ≡ true
        → limit - r.retries < suc n
        → b.max_ack_retries ≡ limit
        → Rest limit n (
            emit q (ack_state_changed id false (suc r.retries) "retry") (
              dispatch q react encoder
                (record r.message { retry_count = suc r.retries; acked = false })
                (record b {
                  pending_acks =
                      insert_pending q b.pending_acks id
                        (record r { sent_at = b.simulation_time; retries = suc r.retries });
                })))
    renew-Rest limit n b r more few policy =
        let r' : PendingAck q = record r { sent_at = b.simulation_time; retries = suc r.retries } in
        let f =
          dispatch-Stable q encoder react (λ e. Unit {0}) (Fate id (some r') limit)
            (Fate-Stable (some r') limit) _ _ (λ uid. tt)
            (record { entry = inl (find-insert b.pending_acks id r'); policy = policy }) in
        record {
          entry = elim f.entry [
            | inl found ↦ inr (r', found, ground (arith, more, few, policy))
            | inr gone ↦ inl gone
          ];
          policy = f.policy;
        }

    expire-Rest :
        (epsilon : q.Double) (limit n : ℕ) (b : Bus q)
        → Overdue epsilon b
        → Rest limit (suc n) b
        → Rest limit n (expire q react encoder epsilon id b)
    unfolding expire
    expire-Rest epsilon limit n b overdue rest = elim rest.entry [
      | inl gone ↦ rw (expire, gone) (record { entry = inl gone; policy = rest.policy })
      | inr (r, found, few) ↦
          rw (expire, found)
            (subst (Rest limit n) (sym (if-false _ _ (overdue r found))) (
              if_cases (Rest limit n) (ltb r.retries b.max_ack_retries)
                (λ more. renew-Rest limit n b r more few rest.policy)
                (λ enough. record {
                  entry = inl (find-erase_same b.pending_acks id);
                  policy = rest.policy;
                })))
    ]

    -- What happens to the bus while the message waits: its time is up `n` times, and in between
    -- whatever leaves its entry alone or removes it.
    pub data Waits (epsilon : q.Double) : ℕ → Bus q → Bus q → Type 0 where
      ended : {b : Bus q} → Waits epsilon 0 b b
      other : {n : ℕ} {b c d : Bus q} → Leaves id b c → Waits epsilon n c d → Waits epsilon n b d
      time_out :
          {n : ℕ} {b d : Bus q}
          → Overdue epsilon b
          → Waits epsilon n (expire q react encoder epsilon id b) d
          → Waits epsilon (suc n) b d

    Waits-Rest :
        {epsilon : q.Double} {n : ℕ} {b d : Bus q} (limit : ℕ)
        → Waits epsilon n b d
        → Rest limit n b
        → find_pending q d.pending_acks id ≡ none
    Waits-Rest limit ended rest = elim rest.entry [
      | inl gone ↦ gone
      | inr (r, found, few) ↦ absurd (omega arith)
    ]
    Waits-Rest limit (other {n = n} {b = b} {c = c} l w) rest =
        Waits-Rest limit w (Rest-Leaves limit n b c l rest)
    Waits-Rest {epsilon = epsilon} limit (time_out {n = n} {b = b} overdue w) rest =
        Waits-Rest limit w (expire-Rest epsilon limit n b overdue rest)

    start-Rest : (b : Bus q) (n : ℕ) → b.max_ack_retries < n → Rest b.max_ack_retries n b
    start-Rest b n enough = record {
      entry = elim (Option-cases (find_pending q b.pending_acks id)) [
        | inl gone ↦ inl gone
        | inr (r, found) ↦ inr (r, found, omega arith)
      ];
      policy = refl;
    }

    -- Where the handlers leave the entry alone or remove it, a message waits no longer once its time
    -- has been up more often than the policy allows retries.
    pub Waits-settled :
        (epsilon : q.Double) (n : ℕ) (b d : Bus q)
        → Waits epsilon n b d
        → b.max_ack_retries < n
        → find_pending q d.pending_acks id ≡ none
    Waits-settled epsilon n b d w enough = Waits-Rest b.max_ack_retries w (start-Rest b n enough)
