-- ===== src/Client/Sequence.antt =====
-- Every way in which an envelope can leave the client's store, and what they mean for the order in
-- which envelopes take effect.
use wargame.Prelude.{
  ℕ, ◌+◌, ◌<◌, ◌%◌, ◌^◌, ◌≡◌, refl, true, false, not, ◌&&◌, ◌||◌, String, ◌⊎◌, inl, inr, arith,
  Bool-cases, str_eq, leb, ◌==◌, if_cases,
}
use wargame.Prelude.Json.{Fields, value, to_string, to_object, has_key}
use wargame.Client.Store.{
  Protocol, ignored, accepted, snapshot_applied, delta_applied, resync_required, fatal, Store,
  Result, intel_of, apply_snapshot, resync, apply_candidate, apply_delta_payload, apply_in_order,
  apply_envelope, fix_versions, answer, fatally, normalised_payload,
}

module _ (p : Protocol) where
  -- The projection and the intelligence state that go with a snapshot that passes both checks.
  pub record Baseline (snapshot : Fields p.Number) (lifecycle : p.Lifecycle) (intel : p.Intel)
      : Type 0 where
    pub projected : (p.project_snapshot snapshot).0.valid ≡ true
    pub same_lifecycle : lifecycle ≡ (p.project_snapshot snapshot).1
    pub checked : (has_key snapshot "intelState" && not (intel_of p snapshot).0.valid) ≡ false
    pub same_intel : intel ≡ (intel_of p snapshot).1

  -- The result and the store after an envelope with this sequence number.
  pub data Outcome (sequence : ℕ) (payload : Fields p.Number) (s : Store p)
      : Result p → Store p → Type 0 where
    refused : (r : Result p) → r.disposition ≡ fatal → Outcome sequence payload s r s
    dropped : (r : Result p) → r.disposition ≡ ignored → Outcome sequence payload s r s
    held :
        (r : Result p)
        → r.disposition ≡ resync_required
        → Outcome sequence payload s r (record s { waiting_for_resync = true })
    torn :
        (r : Result p)
        → r.disposition ≡ fatal
        → s.last_sequence < sequence
        → (has_key payload "intelState" && not (intel_of p payload).0.valid) ≡ true
        → Outcome sequence payload s r
            (record s { snapshot = payload; intel_state = (intel_of p payload).1 })
    replaced :
        (r : Result p) (lifecycle : p.Lifecycle) (intel : p.Intel)
        → r.disposition ≡ snapshot_applied
        → s.last_sequence < sequence
        → Baseline payload lifecycle intel
        → Outcome sequence payload s r (record s {
          snapshot = payload;
          intel_state = intel;
          lifecycle = lifecycle;
          last_sequence = sequence;
          waiting_for_snapshot = false;
          waiting_for_resync = false;
        })
    patched :
        (r : Result p) (candidate : Fields p.Number) (lifecycle : p.Lifecycle) (intel : p.Intel)
        → r.disposition ≡ delta_applied
        → s.waiting_for_snapshot ≡ false
        → s.waiting_for_resync ≡ false
        → sequence ≡ s.last_sequence + 1
        → p.apply_delta s.snapshot payload ≡ inr candidate
        → Baseline candidate lifecycle intel
        → Outcome sequence payload s r (record s {
          snapshot = candidate;
          lifecycle = lifecycle;
          intel_state = intel;
          last_sequence = sequence;
        })
    passed :
        (r : Result p)
        → r.disposition ≡ accepted
        → s.waiting_for_resync ≡ false
        → sequence ≡ s.last_sequence + 1
        → Outcome sequence payload s r (record s { last_sequence = sequence })

  -- The outcome as a property of the pair that the code returns.
  abbrev pub Outcomes : ℕ → Fields p.Number → Store p → Result p × Store p → Type 0
  Outcomes sequence payload s out = Outcome sequence payload s out.0 out.1

  apply_snapshot-Outcomes :
      (type : String) (payload : Fields p.Number) (sequence : ℕ) (s : Store p)
      → s.last_sequence < sequence
      → Outcomes sequence payload s (apply_snapshot p type payload sequence s)
  unfolding apply_snapshot fatally answer
  apply_snapshot-Outcomes type payload sequence s newer =
      elim (Bool-cases (p.project_snapshot payload).0.valid) [
        | inr bad ↦ rw (Outcomes, bad) (refused _ refl)
        | inl projected ↦
            elim (Bool-cases (has_key payload "intelState" && not (intel_of p payload).0.valid)) [
              | inl bad ↦ rw (Outcomes, projected, bad) (torn _ refl newer bad)
              | inr checked ↦
                  rw (Outcomes, projected, checked)
                    (replaced _ _ _ refl newer (record {
                      projected = projected;
                      same_lifecycle = refl;
                      checked = checked;
                      same_intel = refl;
                    }))
            ]
      ]

  apply_candidate-Outcomes :
      (type : String) (payload candidate : Fields p.Number) (sequence : ℕ) (s : Store p)
      → s.waiting_for_snapshot ≡ false
      → s.waiting_for_resync ≡ false
      → sequence ≡ s.last_sequence + 1
      → p.apply_delta s.snapshot payload ≡ inr candidate
      → Outcomes sequence payload s (apply_candidate p type payload candidate sequence s)
  unfolding apply_candidate answer resync
  apply_candidate-Outcomes type payload candidate sequence s based synced next e =
      elim (Bool-cases (p.project_snapshot candidate).0.valid) [
        | inr bad ↦ rw (Outcomes, bad) (held _ refl)
        | inl projected ↦
            elim (Bool-cases
              (has_key candidate "intelState" && not (intel_of p candidate).0.valid)) [
                | inl bad ↦ rw (Outcomes, projected, bad) (held _ refl)
                | inr checked ↦
                    rw (Outcomes, projected, checked)
                      (patched _ candidate _ _ refl based synced next e (record {
                        projected = projected;
                        same_lifecycle = refl;
                        checked = checked;
                        same_intel = refl;
                      }))
              ]
      ]

  apply_delta_payload-Outcomes :
      (type : String) (payload : Fields p.Number) (sequence : ℕ) (s : Store p)
      → s.waiting_for_resync ≡ false
      → sequence ≡ s.last_sequence + 1
      → Outcomes sequence payload s (apply_delta_payload p type payload sequence s)
  unfolding apply_delta_payload resync answer
  apply_delta_payload-Outcomes type payload sequence s synced next =
      if_cases (Outcomes sequence payload s) s.waiting_for_snapshot (λ wait. resync-Outcomes)
        (λ based. patch based (p.apply_delta s.snapshot payload) refl)
    where
      resync-Outcomes :
          {code message : String}
          → Outcomes sequence payload s (resync p type payload code message s)
      resync-Outcomes = held _ refl

      patch :
          s.waiting_for_snapshot ≡ false
          → (m : String ⊎ Fields p.Number) → p.apply_delta s.snapshot payload ≡ m
          → Outcomes sequence payload s (elim m [
            | inl error ↦ resync p type payload "DELTA_REJECTED" error s
            | inr candidate ↦ apply_candidate p type payload candidate sequence s
          ])
      patch based (inl error) e = resync-Outcomes
      patch based (inr candidate) e =
          apply_candidate-Outcomes type payload candidate sequence s based synced next e

  apply_in_order-Outcomes :
      (type : String) (payload : Fields p.Number) (sequence : ℕ) (s : Store p)
      → sequence < 2 ^ 64
      → Outcomes sequence payload s (apply_in_order p type payload sequence s)
  unfolding apply_in_order answer resync
  apply_in_order-Outcomes type payload sequence s word =
      let out = Outcomes sequence payload s in
      if_cases out (leb sequence s.last_sequence) (λ old. dropped _ refl)
        (λ newer.
          if_cases out (str_eq type "snapshot")
            (λ snapshot. apply_snapshot-Outcomes type payload sequence s (ground (arith, newer)))
            (λ other.
              if_cases out (not (sequence == (s.last_sequence + 1) % 2 ^ 64))
                (λ gap.
                  if_cases out s.waiting_for_resync (λ wait. dropped _ refl)
                    (λ synced. held _ refl))
                (λ next.
                  if_cases out s.waiting_for_resync (λ wait. dropped _ refl)
                    (λ synced.
                      let follows : sequence ≡ s.last_sequence + 1 = ground (arith, newer, next) in
                      if_cases out (str_eq type "delta")
                        (λ delta.
                          apply_delta_payload-Outcomes type payload sequence s synced follows)
                        (λ plain. passed _ refl synced follows)))))

  -- The sequence number and the payload that the store reads from an envelope.
  abbrev pub sequence_of : Fields p.Number → ℕ
  sequence_of envelope = p.to_quint64 (value envelope "sequence")

  abbrev pub payload_of : Fields p.Number → Fields p.Number
  payload_of envelope =
      normalised_payload p (to_string (value envelope "type"))
        (to_object (value envelope "payload"))

  -- The same store, but for the protocol versions.
  pub record SameState (s t : Store p) : Type 0 where
    pub same_sequence : t.last_sequence ≡ s.last_sequence
    pub same_snapshot : t.snapshot ≡ s.snapshot
    pub same_lifecycle : t.lifecycle ≡ s.lifecycle
    pub same_intel : t.intel_state ≡ s.intel_state
    pub same_waiting : t.waiting_for_snapshot ≡ s.waiting_for_snapshot
    pub same_resync : t.waiting_for_resync ≡ s.waiting_for_resync

  SameState-refl : (s : Store p) → SameState s s
  SameState-refl s = record {
    same_sequence = refl;
    same_snapshot = refl;
    same_lifecycle = refl;
    same_intel = refl;
    same_waiting = refl;
    same_resync = refl;
  }

  fix_versions-SameState :
      (protocol schema : ℕ) (s : Store p) → SameState s (fix_versions p protocol schema s)
  unfolding fix_versions
  fix_versions-SameState protocol schema s =
      if_cases (SameState s) (s.protocol_version == 0)
        (λ first. record {
          same_sequence = refl;
          same_snapshot = refl;
          same_lifecycle = refl;
          same_intel = refl;
          same_waiting = refl;
          same_resync = refl;
        })
        (λ fixed. SameState-refl s)

  -- Some store that differs from `s` in the versions only had this outcome.
  abbrev pub Applied : ℕ → Fields p.Number → Store p → Result p × Store p → Type 0
  Applied sequence payload s out = (t : Store p) × SameState s t × Outcomes sequence payload t out

  -- `applyEnvelope` has one of the outcomes, for every envelope and every store.
  pub apply_envelope-Applied :
      (envelope : Fields p.Number) (s : Store p)
      → sequence_of envelope < 2 ^ 64
      → Applied (sequence_of envelope) (payload_of envelope) s (apply_envelope p envelope s)
  unfolding apply_envelope fatally resync answer
  apply_envelope-Applied envelope s word =
      let type = to_string (value envelope "type") in
      let protocol = p.to_int (value envelope "protocolVersion") in
      let schema = p.to_int (value envelope "schemaVersion") in
      let validation = p.validate_server_envelope envelope in
      let out = Applied (sequence_of envelope) (payload_of envelope) s in
      if_cases out
        (not (s.protocol_version == 0)
          && (not (protocol == s.protocol_version) || not (schema == s.schema_version)))
        (λ mixed. (s, SameState-refl s, refused _ refl))
        (λ uniform.
          if_cases out (not validation.valid)
            (λ invalid.
              if_cases out (str_eq type "delta") (λ delta. (s, SameState-refl s, held _ refl))
                (λ other. (s, SameState-refl s, refused _ refl)))
            (λ valid. (
              fix_versions p protocol schema s,
              fix_versions-SameState protocol schema s,
              apply_in_order-Outcomes type (payload_of envelope) (sequence_of envelope)
                  (fix_versions p protocol schema s) word,
            )))
