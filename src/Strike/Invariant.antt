-- ===== src/Strike/Invariant.antt =====
-- What holds of the workflow between two calls, and that every call keeps it.
use wargame.Prelude.{
  ◌≤◌, ◌≡◌, true, false, String, [], ◌∷◌, ◌++◌, is_empty, length, arith, Bool-cases, inl, inr,
  length-keep_last, str_eq_iff,
}
use wargame.Prelude.Qt.{Qt}
use wargame.Prelude.Json.{value, to_string}
use wargame.Bus.Message.{
  Message, MessageType, target_report, target_detect, strike_plan, flight_plan, attack_order,
  ground_guide_order, ground_attack_confirm, target_destroyed as target_destroyed_report,
  withdraw_order, withdraw,
}
use wargame.Strike.State.{
  Stage, Workflow, rank, target_reported, strike_dispatched, ground_guidance_pending, engaging,
  target_destroyed, withdrawn, same_stage, set_stage, reject, new_workflow, max_events, moved,
  rejected,
}
use wargame.Strike.Posted.{
  PostedMessage, observe, on_report, on_plan, on_guide_order, on_confirmation, on_destruction,
  takes_destruction, on_withdrawal, project, adopt, on_message_posted, confirms_destruction,
  note_message, with_confirmation, with_guide_order, with_plan, with_report, with_withdrawal,
}

pub takes_destruction-rank : (s : Stage) → takes_destruction s ≡ true → 5 ≤ rank s
takes_destruction-rank s h = ground arith

module _ (q : Qt) where
  -- A stage is entered only with the people and the target that it is about, and the log is bounded.
  pub record Inv (w : Workflow q) : Type 0 where
    pub has_target : 1 ≤ rank w.stage → is_empty w.target_id ≡ false
    pub has_attacker : 2 ≤ rank w.stage → is_empty w.attacker_id ≡ false
    pub has_guide : 4 ≤ rank w.stage → is_empty w.guide_id ≡ false
    pub bounded : length w.events ≤ max_events

  pub new_workflow-Inv : (side post : String) → Inv (new_workflow q side post)
  unfolding new_workflow
  new_workflow-Inv side post = ground arith

  pub reject-Inv : (w : Workflow q) (reason : String) → Inv w → Inv (reject q w reason)
  unfolding reject
  reject-Inv w reason v =
      ground (arith, length-keep_last max_events (w.events ++ rejected w.stage reason ∷ []))

  pub same_stage-eq : (s t : Stage) → same_stage s t ≡ true → s ≡ t
  same_stage-eq s t h = ground arith

  -- What `set_stage` changes: the stage, the creation time and the log.
  pub record Entered (w : Workflow q) (s : Stage) (w' : Workflow q) : Type 0 where
    pub stage : w'.stage ≡ s
    pub target : w'.target_id ≡ w.target_id
    pub attacker : w'.attacker_id ≡ w.attacker_id
    pub guide : w'.guide_id ≡ w.guide_id
    pub recon : w'.recon_id ≡ w.recon_id
    pub command_post : w'.command_post_id ≡ w.command_post_id
    pub correlation : w'.correlation_id ≡ w.correlation_id
    pub bounded : length w.events ≤ max_events → length w'.events ≤ max_events

  pub set_stage-Entered :
      (w : Workflow q) (s : Stage) (reason : String) → Entered w s (set_stage q w s reason)
  unfolding set_stage
  set_stage-Entered w s reason = ground (
    arith,
    same_stage-eq w.stage s,
    length-keep_last max_events
        (w.events ++ moved s reason w.target_id w.attacker_id w.guide_id w.recon_id ∷ []),
  )

  pub set_stage-Inv :
      (w : Workflow q) (s : Stage) (reason : String)
      → is_empty w.target_id ≡ false
      → is_empty w.attacker_id ≡ false
      → is_empty w.guide_id ≡ false
      → length w.events ≤ max_events
      → Inv (set_stage q w s reason)
  set_stage-Inv w s reason t a g b = ground (arith, set_stage-Entered w s reason)

  pub confirms_destruction-rank :
      (w : Workflow q) (m : Message q.Double) → confirms_destruction q w m ≡ true → 5 ≤ rank w.stage
  unfolding confirms_destruction
  confirms_destruction-rank w m e =
      let late : takes_destruction w.stage ≡ true = ground arith in
      takes_destruction-rank w.stage late

  module _ (w : Workflow q) (m : Message q.Double) (v : Inv w) where
    on_report-Inv : Inv (on_report q w m)
    unfolding on_report
    on_report-Inv =
        ground
          (arith, set_stage-Entered (with_report q w m) target_reported "target report observed")

    on_plan-Inv : Inv (on_plan q w m)
    unfolding on_plan
    on_plan-Inv =
        ground
          (arith, set_stage-Entered (with_plan q w m) strike_dispatched "strike route observed")

    on_guide_order-Inv : Inv (on_guide_order q w m)
    unfolding on_guide_order
    on_guide_order-Inv = ground (
      arith,
      set_stage-Entered (with_guide_order q w m) ground_guidance_pending "ground guidance observed",
      str_eq_iff (to_string (value m.payload "attackerId")) w.attacker_id,
    )

    on_confirmation-Inv : Inv (on_confirmation q w m)
    unfolding on_confirmation
    on_confirmation-Inv = ground (
      arith,
      set_stage-Entered (with_confirmation q w m) engaging "ground attack confirmation observed",
    )

    on_destruction-Inv : Inv (on_destruction q w m)
    unfolding on_destruction
    on_destruction-Inv = elim (Bool-cases (confirms_destruction q w m)) [
      | inl e ↦
          let deep = confirms_destruction-rank w m e in
          let named_attacker = v.has_attacker (omega arith) in
          rw (e, named_attacker)
            (set_stage-Inv w target_destroyed "target destroyed report" (v.has_target (omega arith))
              named_attacker (v.has_guide (omega arith)) v.bounded)
      | inr e ↦ rw e v
    ]

    on_withdrawal-Inv : Inv (on_withdrawal q w m)
    unfolding on_withdrawal
    on_withdrawal-Inv =
        ground (arith, set_stage-Entered (with_withdrawal q w m) withdrawn "withdrawal observed")

  project-Inv :
      (t : MessageType) (w : Workflow q) (m : Message q.Double) → Inv w → Inv (project q t w m)
  unfolding project
  project-Inv target_report w m v = on_report-Inv w m v
  project-Inv target_detect w m v = on_report-Inv w m v
  project-Inv strike_plan w m v = on_plan-Inv w m v
  project-Inv flight_plan w m v = on_plan-Inv w m v
  project-Inv attack_order w m v = on_plan-Inv w m v
  project-Inv ground_guide_order w m v = on_guide_order-Inv w m v
  project-Inv ground_attack_confirm w m v = on_confirmation-Inv w m v
  project-Inv target_destroyed_report w m v = on_destruction-Inv w m v
  project-Inv withdraw_order w m v = on_withdrawal-Inv w m v
  project-Inv withdraw w m v = on_withdrawal-Inv w m v
  project-Inv _ w m v = v

  -- Every posted message, from whomever it comes, keeps the invariant.
  note_message-Inv : (w : Workflow q) (p : PostedMessage q) → Inv w → Inv (note_message q w p)
  unfolding note_message observe
  note_message-Inv w p v = ground arith

  adopt-Inv : (w : Workflow q) (m : Message q.Double) → Inv w → Inv (adopt q w m)
  unfolding adopt
  adopt-Inv w m v = ground arith

  -- Every posted message, from whomever it comes, keeps the invariant.
  pub on_message_posted-Inv :
      (w : Workflow q) (p : PostedMessage q) → Inv w → Inv (on_message_posted q w p)
  unfolding on_message_posted
  on_message_posted-Inv w p v =
      let noted = note_message-Inv w p v in
      let projected = project-Inv p.message.kind _ p.message (adopt-Inv _ p.message noted) in
      ground (arith, noted, projected)
