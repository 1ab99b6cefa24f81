-- ===== src/Strike/Progress.antt =====
-- How a posted message moves the workflow along the edges of the approval chain.
use wargame.Prelude.{◌≤◌, ◌≡◌, refl, true, ◌⊎◌, inl, arith, is_empty, str_eq_iff}
use wargame.Prelude.Qt.{Qt}
use wargame.Bus.Message.{
  Message, MessageType, target_report, target_detect, strike_plan, flight_plan, attack_order,
  ground_guide_order, ground_attack_confirm, target_destroyed as target_destroyed_report,
  withdraw_order, withdraw,
}
use wargame.Strike.State.{
  Stage, Workflow, rank, idle, target_reported, dispatch_pending, strike_dispatched,
  ground_guidance_pending, engaging, target_destroyed, withdrawn,
}
use wargame.Strike.Posted.{
  PostedMessage, observe, note_message, adopt, on_report, on_plan, on_guide_order, on_confirmation,
  on_destruction, on_withdrawal, project, on_message_posted, with_report, with_plan,
  confirms_destruction, is_confirmer, with_confirmation, with_guide_order, with_withdrawal,
  with_destruction,
}
use wargame.Strike.Invariant.{set_stage-Entered}

module _ (q : Qt) where
  -- The edges of the chain: the stage that each leaves and enters, and who may take it.
  module _ (w : Workflow q) (m : Message q.Double) (s : Stage) where
    abbrev pub Reported : Type 0
    Reported = (w.stage ≡ idle) × (s ≡ target_reported) × (m.receiver ≡ w.command_post_id)

    abbrev pub Planned : Type 0
    Planned =
        ((w.stage ≡ target_reported) ⊎ (w.stage ≡ dispatch_pending))
        × (s ≡ strike_dispatched)
        × (m.sender ≡ w.command_post_id)

    abbrev pub Guided : Type 0
    Guided =
        (w.stage ≡ strike_dispatched)
        × (s ≡ ground_guidance_pending)
        × (m.sender ≡ w.command_post_id)

    abbrev pub Confirmed : Type 0
    Confirmed =
        (w.stage ≡ ground_guidance_pending)
        × (s ≡ engaging)
        × ((is_empty w.guide_id ≡ true) ⊎ (m.sender ≡ w.guide_id))

    abbrev pub Destroyed : Type 0
    Destroyed =
        (w.stage ≡ engaging)
        × (s ≡ target_destroyed)
        × ((m.sender ≡ w.attacker_id) ⊎ (m.sender ≡ w.recon_id))

    abbrev pub Recalled : Type 0
    Recalled =
        (5 ≤ rank w.stage) × (rank w.stage ≤ 7) × (s ≡ withdrawn) × (m.sender ≡ w.command_post_id)

    -- Each edge is taken by messages of its own types only.
    abbrev pub Edge : Type 0
    Edge =
        (((m.kind ≡ target_report) ⊎ (m.kind ≡ target_detect)) × Reported)
        ⊎ (((m.kind ≡ strike_plan) ⊎ (m.kind ≡ flight_plan) ⊎ (m.kind ≡ attack_order)) × Planned)
        ⊎ ((m.kind ≡ ground_guide_order) × Guided)
        ⊎ ((m.kind ≡ ground_attack_confirm) × Confirmed)
        ⊎ ((m.kind ≡ target_destroyed_report) × Destroyed)
        ⊎ (((m.kind ≡ withdraw_order) ⊎ (m.kind ≡ withdraw)) × Recalled)

  module _ (w : Workflow q) (m : Message q.Double) where
    on_report-stage : ((on_report q w m).stage ≡ w.stage) ⊎ Reported w m (on_report q w m).stage
    unfolding on_report
    on_report-stage = ground (
      arith,
      set_stage-Entered q (with_report q w m) target_reported "target report observed",
      str_eq_iff m.receiver w.command_post_id,
    )

    on_plan-stage : ((on_plan q w m).stage ≡ w.stage) ⊎ Planned w m (on_plan q w m).stage
    unfolding on_plan
    on_plan-stage = ground (
      arith,
      set_stage-Entered q (with_plan q w m) strike_dispatched "strike route observed",
      str_eq_iff m.sender w.command_post_id,
    )

    on_guide_order-stage :
        ((on_guide_order q w m).stage ≡ w.stage) ⊎ Guided w m (on_guide_order q w m).stage
    unfolding on_guide_order
    on_guide_order-stage = ground (
      arith,
      set_stage-Entered q (with_guide_order q w m) ground_guidance_pending
          "ground guidance observed",
      str_eq_iff m.sender w.command_post_id,
    )

    on_confirmation-stage :
        ((on_confirmation q w m).stage ≡ w.stage) ⊎ Confirmed w m (on_confirmation q w m).stage
    unfolding on_confirmation
    on_confirmation-stage = ground (
      arith,
      set_stage-Entered q (with_confirmation q w m) engaging "ground attack confirmation observed",
      str_eq_iff m.sender w.guide_id,
    )

    is_confirmer-eq :
        is_confirmer q w m.sender ≡ true → (m.sender ≡ w.attacker_id) ⊎ (m.sender ≡ w.recon_id)
    unfolding is_confirmer
    is_confirmer-eq e =
        ground (arith, str_eq_iff m.sender w.attacker_id, str_eq_iff m.sender w.recon_id)

    on_destruction-stage :
        ((on_destruction q w m).stage ≡ w.stage) ⊎ Destroyed w m (on_destruction q w m).stage
    unfolding on_destruction confirms_destruction
    on_destruction-stage = ground (
      arith,
      set_stage-Entered q (with_destruction q w m) target_destroyed "target destroyed report",
      is_confirmer-eq,
    )

    on_withdrawal-stage :
        ((on_withdrawal q w m).stage ≡ w.stage) ⊎ Recalled w m (on_withdrawal q w m).stage
    unfolding on_withdrawal
    on_withdrawal-stage = ground (
      arith,
      set_stage-Entered q (with_withdrawal q w m) withdrawn "withdrawal observed",
      str_eq_iff m.sender w.command_post_id,
    )

  -- The stage stays, or moves along an edge.
  abbrev pub Moves : Workflow q → Message q.Double → Stage → Type 0
  Moves w m s = (s ≡ w.stage) ⊎ Edge w m s

  project-Moves :
      (t : MessageType) (w : Workflow q) (m : Message q.Double)
      → m.kind ≡ t
      → Moves w m (project q t w m).stage
  unfolding project
  project-Moves target_report w m e = grind (arith, e, on_report-stage w m)
  project-Moves target_detect w m e = grind (arith, e, on_report-stage w m)
  project-Moves strike_plan w m e = grind (arith, e, on_plan-stage w m)
  project-Moves flight_plan w m e = grind (arith, e, on_plan-stage w m)
  project-Moves attack_order w m e = grind (arith, e, on_plan-stage w m)
  project-Moves ground_guide_order w m e = grind (arith, e, on_guide_order-stage w m)
  project-Moves ground_attack_confirm w m e = grind (arith, e, on_confirmation-stage w m)
  project-Moves target_destroyed_report w m e = grind (arith, e, on_destruction-stage w m)
  project-Moves withdraw_order w m e = grind (arith, e, on_withdrawal-stage w m)
  project-Moves withdraw w m e = grind (arith, e, on_withdrawal-stage w m)
  project-Moves _ w m e = inl refl

  -- What the bookkeeping of a posted message leaves alone.
  record Alike (w w' : Workflow q) : Type 0 where
    stage : w'.stage ≡ w.stage
    command_post : w'.command_post_id ≡ w.command_post_id
    attacker : w'.attacker_id ≡ w.attacker_id
    guide : w'.guide_id ≡ w.guide_id
    recon : w'.recon_id ≡ w.recon_id

  note_message-Alike : (w : Workflow q) (p : PostedMessage q) → Alike w (note_message q w p)
  unfolding note_message observe
  note_message-Alike w p = ground arith

  adopt-Alike : (w : Workflow q) (m : Message q.Double) → Alike w (adopt q w m)
  unfolding adopt
  adopt-Alike w m = ground arith

  Moves-Alike :
      (w w' : Workflow q) (m : Message q.Double) (s : Stage)
      → Alike w w'
      → Moves w' m s
      → Moves w m s
  Moves-Alike w w' m s a h = ground arith

  -- Whatever is posted, the stage stays or moves along one edge of the workflow, taken by messages of
  -- its own types: a target report to the command post; a plan, a guidance order or a withdrawal from
  -- the command post; a confirmation from the guide, or from anybody where no guide is assigned; a
  -- destruction report from the attacker or the reconnaissance unit.
  pub on_message_posted-Moves :
      (w : Workflow q) (p : PostedMessage q) → Moves w p.message (on_message_posted q w p).stage
  unfolding on_message_posted
  on_message_posted-Moves w p =
      let noted = note_message q w p in
      let adopted = adopt q noted p.message in
      let same = note_message-Alike w p in
      let moved = Moves-Alike w noted p.message _ same (
        Moves-Alike noted adopted p.message _ (adopt-Alike noted p.message)
          (project-Moves p.message.kind adopted p.message refl)) in
      ground (arith, same, moved)

  pub Moves-rank :
      (w : Workflow q) (m : Message q.Double) (s : Stage) → Moves w m s → rank w.stage ≤ rank s
  Moves-rank w m s h = ground arith
