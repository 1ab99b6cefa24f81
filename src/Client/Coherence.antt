-- ===== src/Client/Coherence.antt =====
-- The client's store under an envelope of the server: its baseline, its sequence number, and its
-- wait for a complete snapshot.
use wargame.Prelude.{
  ℕ, ◌<◌, ◌^◌, ◌≡◌, ◌≢◌, refl, true, false, ◌⊎◌, inl, inr, arith, sym, ◌∙◌, not, ◌&&◌,
}
use wargame.Prelude.Json.{Fields, has_key}
use wargame.Client.Store.{
  Protocol, snapshot_applied, fatal, Store, Result, apply_envelope, reset, intel_of,
}
use wargame.Client.Sequence.{
  Baseline, Outcome, refused, dropped, held, torn, replaced, patched, passed, sequence_of,
  SameState, apply_envelope-Applied, payload_of,
}

module _ (p : Protocol) where
  -- Once there is a baseline, the lifecycle and the intelligence state are those of the snapshot.
  abbrev pub Coherent : Store p → Type 0
  Coherent s = s.waiting_for_snapshot ≡ false → Baseline p s.snapshot s.lifecycle s.intel_state

  pub reset-Coherent : Coherent (reset p)
  unfolding reset
  reset-Coherent e = cc

  SameState-Coherent : (s t : Store p) → SameState p s t → Coherent s → Coherent t
  SameState-Coherent s t e c w =
      rw (e.same_snapshot, e.same_lifecycle, e.same_intel) (c (sym e.same_waiting ∙ w))

  Outcome-Coherent :
      (sequence : ℕ) (payload : Fields p.Number) (s : Store p) (r : Result p) (s' : Store p)
      → Outcome p sequence payload s r s'
      → Coherent s
      → r.disposition ≢ fatal
      → Coherent s'
  Outcome-Coherent sequence payload s _ _ (refused r e) c ok = c
  Outcome-Coherent sequence payload s _ _ (dropped r e) c ok = c
  Outcome-Coherent sequence payload s _ _ (held r e) c ok = c
  Outcome-Coherent sequence payload s _ _ (torn r e newer bad) c ok = absurd (ok e)
  Outcome-Coherent sequence payload s _ _ (replaced r lifecycle intel e newer b) c ok = λ w. b
  Outcome-Coherent sequence payload s _ _
        (patched r candidate lifecycle intel e based synced next d b) c ok =
      λ w. b
  Outcome-Coherent sequence payload s _ _ (passed r e synced next) c ok = c

  -- A store that waits for its first snapshot has waited before, with the same baseline.
  abbrev pub WaitsAlike : Store p → Store p → Type 0
  WaitsAlike s s' =
      s'.waiting_for_snapshot ≡ true
      → (s.waiting_for_snapshot ≡ true)
        × (s'.snapshot ≡ s.snapshot)
        × (s'.lifecycle ≡ s.lifecycle)
        × (s'.intel_state ≡ s.intel_state)

  Outcome-WaitsAlike :
      (sequence : ℕ) (payload : Fields p.Number) (s : Store p) (r : Result p) (s' : Store p)
      → Outcome p sequence payload s r s'
      → r.disposition ≢ fatal
      → WaitsAlike s s'
  Outcome-WaitsAlike sequence payload s _ _ (refused r e) ok w = (w, refl, refl, refl)
  Outcome-WaitsAlike sequence payload s _ _ (dropped r e) ok w = (w, refl, refl, refl)
  Outcome-WaitsAlike sequence payload s _ _ (held r e) ok w = (w, refl, refl, refl)
  Outcome-WaitsAlike sequence payload s _ _ (torn r e newer bad) ok w = absurd (ok e)
  Outcome-WaitsAlike sequence payload s _ _ (replaced r lifecycle intel e newer b) ok w = cc
  Outcome-WaitsAlike sequence payload s _ _
        (patched r candidate lifecycle intel e based synced next d b) ok w =
      cc
  Outcome-WaitsAlike sequence payload s _ _ (passed r e synced next) ok w = (w, refl, refl, refl)

  -- Whatever the envelope, unless the result is fatal: a store that has a baseline, and whose
  -- lifecycle and intelligence state are those of its snapshot, stays so; and a store that has no
  -- baseline afterwards had none before, with the same snapshot, lifecycle and intelligence state.
  pub apply_envelope-Coherent :
      (envelope : Fields p.Number) (s : Store p)
      → sequence_of p envelope < 2 ^ 64
      → Coherent s
      → (apply_envelope p envelope s).0.disposition ≢ fatal
      → Coherent (apply_envelope p envelope s).1 × WaitsAlike s (apply_envelope p envelope s).1
  apply_envelope-Coherent envelope s word c ok =
      let (t, same, out) = apply_envelope-Applied p envelope s word in
      (
        Outcome-Coherent (sequence_of p envelope) (payload_of p envelope) t _ _ out
            (SameState-Coherent s t same c) ok,
        rw (same.same_waiting, same.same_snapshot, same.same_lifecycle, same.same_intel) at
            (Outcome-WaitsAlike (sequence_of p envelope) (payload_of p envelope) t _ _ out ok),
      )

  -- The sequence number of the last envelope that took effect.
  abbrev pub Advances : ℕ → ℕ → ℕ → Type 0
  Advances sequence last last' = (last' ≡ last) ⊎ ((last < last') × (last' ≡ sequence))

  Outcome-Advances :
      (sequence : ℕ) (payload : Fields p.Number) (s : Store p) (r : Result p) (s' : Store p)
      → Outcome p sequence payload s r s'
      → Advances sequence s.last_sequence s'.last_sequence
  Outcome-Advances sequence payload s _ _ (refused r e) = inl refl
  Outcome-Advances sequence payload s _ _ (dropped r e) = inl refl
  Outcome-Advances sequence payload s _ _ (held r e) = inl refl
  Outcome-Advances sequence payload s _ _ (torn r e newer bad) = inl refl
  Outcome-Advances sequence payload s _ _ (replaced r lifecycle intel e newer b) = inr (newer, refl)
  Outcome-Advances sequence payload s _ _
        (patched r candidate lifecycle intel e based synced next d b) =
      inr (omega arith, refl)
  Outcome-Advances sequence payload s _ _ (passed r e synced next) = inr (omega arith, refl)

  -- An envelope moves the last sequence number to its own, and only forward, or leaves it.
  pub apply_envelope-Advances :
      (envelope : Fields p.Number) (s : Store p)
      → sequence_of p envelope < 2 ^ 64
      → Advances
          (sequence_of p envelope)
          s.last_sequence
          (apply_envelope p envelope s).1.last_sequence
  apply_envelope-Advances envelope s word =
      let (t, same, out) = apply_envelope-Applied p envelope s word in
      rw same.same_sequence at
        (Outcome-Advances (sequence_of p envelope) (payload_of p envelope) t _ _ out)

  -- A snapshot whose intelligence state is rejected: the store keeps its payload all the same.
  abbrev pub Torn : ℕ → Fields p.Number → Store p → Result p × Store p → Type 0
  Torn sequence payload s out =
      (out.0.disposition ≡ fatal)
      × (s.last_sequence < sequence)
      × ((has_key payload "intelState" && not (intel_of p payload).0.valid) ≡ true)
      × (out.1.snapshot ≡ payload)
      × (out.1.intel_state ≡ (intel_of p payload).1)

  -- Still waiting, at the same place in the sequence, with the old baseline unless it is torn.
  abbrev pub StillWaits : ℕ → Fields p.Number → Store p → Result p × Store p → Type 0
  StillWaits sequence payload s out =
      (out.1.waiting_for_resync ≡ true)
      × (out.1.last_sequence ≡ s.last_sequence)
      × (out.1.lifecycle ≡ s.lifecycle)
      × (out.1.waiting_for_snapshot ≡ s.waiting_for_snapshot)
      × (((out.1.snapshot ≡ s.snapshot) × (out.1.intel_state ≡ s.intel_state))
          ⊎ Torn sequence payload s out)

  abbrev pub Resynced : Fields p.Number → Result p × Store p → Type 0
  Resynced payload out =
      (out.0.disposition ≡ snapshot_applied)
      × (out.1.waiting_for_resync ≡ false)
      × (out.1.snapshot ≡ payload)
