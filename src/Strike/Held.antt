-- ===== src/Strike/Held.antt =====
-- A person or a target that the workflow has registered is never cleared again by a message.
use wargame.Prelude.{◌≡◌, false, String, arith, is_empty, str_eq_iff}
use wargame.Prelude.Qt.{Qt}
use wargame.Prelude.Json.{value, to_string}
use wargame.Bus.Message.{
  Message, MessageType, target_report, target_detect, strike_plan, flight_plan, attack_order,
  ground_guide_order, ground_attack_confirm, target_destroyed as target_destroyed_report,
  withdraw_order, withdraw,
}
use wargame.Strike.State.{
  Workflow, Stage, set_stage, engaging, ground_guidance_pending, strike_dispatched, target_reported,
  withdrawn, target_destroyed,
}
use wargame.Strike.Posted.{
  PostedMessage, observe, note_message, adopt, on_report, on_plan, on_guide_order, on_confirmation,
  on_destruction, on_withdrawal, project, on_message_posted, with_confirmation, with_destruction,
  with_guide_order, with_plan, with_report, with_withdrawal,
}
use wargame.Strike.Invariant.{set_stage-Entered}

-- What is held stays held.
abbrev pub Stays : String → String → Type 0
Stays old new = is_empty old ≡ false → is_empty new ≡ false

module _ (q : Qt) where
  pub record Keeps (w w' : Workflow q) : Type 0 where
    pub target : Stays w.target_id w'.target_id
    pub attacker : Stays w.attacker_id w'.attacker_id
    pub guide : Stays w.guide_id w'.guide_id
    pub command_post : w'.command_post_id ≡ w.command_post_id

  pub Keeps-trans : (w w' w'' : Workflow q) → Keeps w w' → Keeps w' w'' → Keeps w w''
  Keeps-trans w w' w'' a b = ground arith

  pub set_stage-Keeps :
      (w : Workflow q) (s : Stage) (reason : String) → Keeps w (set_stage q w s reason)
  set_stage-Keeps w s reason = ground (arith, set_stage-Entered q w s reason)

  module _ (w : Workflow q) (m : Message q.Double) where
    on_report-Keeps : Keeps w (on_report q w m)
    unfolding on_report
    on_report-Keeps =
        ground
          (arith, set_stage-Entered q (with_report q w m) target_reported "target report observed")

    on_plan-Keeps : Keeps w (on_plan q w m)
    unfolding on_plan
    on_plan-Keeps =
        ground
          (arith, set_stage-Entered q (with_plan q w m) strike_dispatched "strike route observed")

    on_guide_order-Keeps : Keeps w (on_guide_order q w m)
    unfolding on_guide_order
    on_guide_order-Keeps = ground (
      arith,
      set_stage-Entered q (with_guide_order q w m) ground_guidance_pending
          "ground guidance observed",
      str_eq_iff (to_string (value m.payload "attackerId")) w.attacker_id,
    )

    on_confirmation-Keeps : Keeps w (on_confirmation q w m)
    unfolding on_confirmation
    on_confirmation-Keeps = ground (
      arith,
      set_stage-Entered q (with_confirmation q w m) engaging "ground attack confirmation observed",
    )

    on_destruction-Keeps : Keeps w (on_destruction q w m)
    unfolding on_destruction
    on_destruction-Keeps = ground (
      arith,
      set_stage-Entered q (with_destruction q w m) target_destroyed "target destroyed report",
    )

    on_withdrawal-Keeps : Keeps w (on_withdrawal q w m)
    unfolding on_withdrawal
    on_withdrawal-Keeps =
        ground (arith, set_stage-Entered q (with_withdrawal q w m) withdrawn "withdrawal observed")

  project-Keeps :
      (t : MessageType) (w : Workflow q) (m : Message q.Double) → Keeps w (project q t w m)
  unfolding project
  project-Keeps target_report w m = on_report-Keeps w m
  project-Keeps target_detect w m = on_report-Keeps w m
  project-Keeps strike_plan w m = on_plan-Keeps w m
  project-Keeps flight_plan w m = on_plan-Keeps w m
  project-Keeps attack_order w m = on_plan-Keeps w m
  project-Keeps ground_guide_order w m = on_guide_order-Keeps w m
  project-Keeps ground_attack_confirm w m = on_confirmation-Keeps w m
  project-Keeps target_destroyed_report w m = on_destruction-Keeps w m
  project-Keeps withdraw_order w m = on_withdrawal-Keeps w m
  project-Keeps withdraw w m = on_withdrawal-Keeps w m
  project-Keeps _ w m = ground arith

  note_message-Keeps : (w : Workflow q) (p : PostedMessage q) → Keeps w (note_message q w p)
  unfolding note_message observe
  note_message-Keeps w p = ground arith

  adopt-Keeps : (w : Workflow q) (m : Message q.Double) → Keeps w (adopt q w m)
  unfolding adopt
  adopt-Keeps w m = ground arith

  pub on_message_posted-Keeps :
      (w : Workflow q) (p : PostedMessage q) → Keeps w (on_message_posted q w p)
  unfolding on_message_posted
  on_message_posted-Keeps w p =
      let noted = note_message q w p in
      let adopted = adopt q noted p.message in
      let first = note_message-Keeps w p in
      let all = Keeps-trans w noted _ first (
        Keeps-trans noted adopted _ (adopt-Keeps noted p.message)
          (project-Keeps p.message.kind adopted p.message)) in
      ground (arith, first, all)
