-- ===== src/Strike/Posted.antt =====
-- `onMessagePosted`: the workflow as a projection of the messages that the bus posts.
use wargame.Prelude.{
  ℕ, zero, suc, Bool, true, false, not, ◌&&◌, ◌||◌, String, List, ◌∷◌, str_eq, str_ne, is_empty,
  contains, remove, length, ltb, if◌then◌else◌,
}
use wargame.Prelude.Qt.{Qt, max_double}
use wargame.Prelude.Json.{value, to_string}
use wargame.Bus.Message.{
  Message, MessageType, target_report, target_detect, strike_plan, flight_plan, attack_order,
  ground_guide_order, ground_attack_confirm, target_destroyed as target_destroyed_report,
  withdraw_order, withdraw,
}
use wargame.Strike.State.{
  Stage, Workflow, idle, target_reported, dispatch_pending, strike_dispatched,
  ground_guidance_pending, engaging, target_destroyed, withdraw_pending, withdrawn, set_stage,
  touch_created, max_observed,
}

-- What `MessageBus::dispatch` posts: the message, the sides of its ends, and the time.
pub record PostedMessage (q : Qt) : Type 0 where
  pub message : Message q.Double
  pub sender_side : String
  pub receiver_side : String
  pub simulation_time : q.Double

-- The stages in which each kind of message is taken.
abbrev pub takes_report : Stage → Bool
takes_report idle = true
takes_report target_reported = true
takes_report _ = false

abbrev pub takes_plan : Stage → Bool
takes_plan target_reported = true
takes_plan dispatch_pending = true
takes_plan strike_dispatched = true
takes_plan _ = false

abbrev pub takes_guide_order : Stage → Bool
takes_guide_order strike_dispatched = true
takes_guide_order ground_guidance_pending = true
takes_guide_order _ = false

abbrev pub takes_confirmation : Stage → Bool
takes_confirmation ground_guidance_pending = true
takes_confirmation engaging = true
takes_confirmation _ = false

abbrev pub takes_destruction : Stage → Bool
takes_destruction engaging = true
takes_destruction target_destroyed = true
takes_destruction _ = false

abbrev pub takes_withdrawal : Stage → Bool
takes_withdrawal engaging = true
takes_withdrawal target_destroyed = true
takes_withdrawal withdraw_pending = true
takes_withdrawal withdrawn = true
takes_withdrawal _ = false

abbrev pub is_reported : Stage → Bool
is_reported target_reported = true
is_reported _ = false

-- `held.isEmpty() || given == held`.
abbrev pub fits_held : String → String → Bool
fits_held held given = is_empty held || str_eq given held

module _ (q : Qt) where
  -- `while (m_observedMessageIds.size() > 256) remove(*cbegin());` The fuel is the set's size.
  pub trim_observed : ℕ → List String → List String
  trim_observed zero ids = ids
  trim_observed (suc fuel) ids =
      let rest = trim_observed fuel (remove (q.first ids) ids) in
      if ltb max_observed (length ids) then rest else ids

  unfoldable pub observe : Workflow q → String → Workflow q
  observe w id =
      if is_empty id
      then w
      else record w { observed = trim_observed (length (id ∷ w.observed)) (id ∷ w.observed) }

  -- The target that a message names.
  abbrev pub named : Message q.Double → String
  named m = to_string (value m.payload "targetId")

  -- The workflow with what each kind of message registers.
  abbrev pub with_report : Workflow q → Message q.Double → Workflow q
  with_report w m = touch_created q (record w {
    recon_id = if is_empty w.recon_id then m.sender else w.recon_id;
    target_id = named m;
  })

  abbrev pub with_plan : Workflow q → Message q.Double → Workflow q
  with_plan w m = touch_created q (record w { target_id = named m; attacker_id = m.receiver })

  abbrev pub with_guide_order : Workflow q → Message q.Double → Workflow q
  with_guide_order w m = record w {
    target_id = named m;
    guide_id = m.receiver;
    attacker_id = to_string (value m.payload "attackerId");
  }

  abbrev pub with_confirmation : Workflow q → Message q.Double → Workflow q
  with_confirmation w m = record w {
    target_id = named m;
    guide_id = m.sender;
    attacker_id = m.receiver;
  }

  abbrev pub with_destruction : Workflow q → Message q.Double → Workflow q
  with_destruction w m = record w {
    attacker_id =
        if is_empty w.attacker_id then to_string (value m.payload "attackerId") else w.attacker_id;
  }

  abbrev pub with_withdrawal : Workflow q → Message q.Double → Workflow q
  with_withdrawal w m = record w {
    attacker_id = if is_empty w.attacker_id then m.receiver else w.attacker_id;
  }

  unfoldable pub on_report : Workflow q → Message q.Double → Workflow q
  on_report w m =
      let target = named m in
      if str_ne m.receiver w.command_post_id
        || is_empty target
        || not (takes_report w.stage)
        || (is_reported w.stage && not (is_empty w.target_id) && str_ne target w.target_id)
      then w
      else if not (is_empty w.recon_id) && not (is_empty m.sender) && str_ne m.sender w.recon_id
      then w
      else set_stage q (with_report w m) target_reported "target report observed"

  unfoldable pub on_plan : Workflow q → Message q.Double → Workflow q
  on_plan w m =
      let target = named m in
      if str_eq m.sender w.command_post_id
        && not (is_empty target)
        && not (is_empty m.receiver)
        && takes_plan w.stage
        && fits_held w.target_id target
        && fits_held w.attacker_id m.receiver
      then set_stage q (with_plan w m) strike_dispatched "strike route observed"
      else w

  unfoldable pub on_guide_order : Workflow q → Message q.Double → Workflow q
  on_guide_order w m =
      let target = named m in
      let attacker = to_string (value m.payload "attackerId") in
      if str_eq m.sender w.command_post_id
        && not (is_empty target)
        && not (is_empty m.receiver)
        && takes_guide_order w.stage
        && fits_held w.target_id target
        && fits_held w.attacker_id attacker
        && fits_held w.guide_id m.receiver
      then set_stage q (with_guide_order w m) ground_guidance_pending "ground guidance observed"
      else w

  unfoldable pub on_confirmation : Workflow q → Message q.Double → Workflow q
  on_confirmation w m =
      let target = named m in
      if not (is_empty target)
        && not (is_empty m.sender)
        && not (is_empty m.receiver)
        && takes_confirmation w.stage
        && fits_held w.target_id target
        && fits_held w.guide_id m.sender
        && fits_held w.attacker_id m.receiver
      then set_stage q (with_confirmation w m) engaging "ground attack confirmation observed"
      else w

  -- `(!m_attackerId.isEmpty() && sender == m_attackerId) || (!m_reconId.isEmpty() && …)`.
  unfoldable pub is_confirmer : Workflow q → String → Bool
  is_confirmer w sender =
      (not (is_empty w.attacker_id) && str_eq sender w.attacker_id)
      || (not (is_empty w.recon_id) && str_eq sender w.recon_id)

  unfoldable pub names_task : Workflow q → Message q.Double → Bool
  names_task w m =
      let target = named m in
      not (is_empty target) && not (is_empty w.target_id) && str_eq target w.target_id

  -- The report names the task's target and comes from the attacker or the registered recon.
  unfoldable pub confirms_destruction : Workflow q → Message q.Double → Bool
  confirms_destruction w m =
      names_task w m
      && str_eq m.receiver w.command_post_id
      && takes_destruction w.stage
      && is_confirmer w m.sender

  unfoldable pub on_destruction : Workflow q → Message q.Double → Workflow q
  on_destruction w m =
      if confirms_destruction w m
      then set_stage q (with_destruction w m) target_destroyed "target destroyed report"
      else w

  unfoldable pub on_withdrawal : Workflow q → Message q.Double → Workflow q
  on_withdrawal w m =
      if not (is_empty m.sender)
        && str_eq m.sender w.command_post_id
        && not (is_empty m.receiver)
        && (str_eq m.receiver w.attacker_id || is_empty w.attacker_id)
        && takes_withdrawal w.stage
      then set_stage q (with_withdrawal w m) withdrawn "withdrawal observed"
      else w

  -- The tests on the message's type.
  unfoldable pub project : MessageType → Workflow q → Message q.Double → Workflow q
  project target_report w m = on_report w m
  project target_detect w m = on_report w m
  project strike_plan w m = on_plan w m
  project flight_plan w m = on_plan w m
  project attack_order w m = on_plan w m
  project ground_guide_order w m = on_guide_order w m
  project ground_attack_confirm w m = on_confirmation w m
  project target_destroyed_report w m = on_destruction w m
  project withdraw_order w m = on_withdrawal w m
  project withdraw w m = on_withdrawal w m
  project _ w m = w

  -- `(!side.isEmpty() && side != m_side)`.
  abbrev other_side : Workflow q → String → Bool
  other_side w side = not (is_empty side) && str_ne side w.side

  -- What is taken over from every message of the own side, whatever its type.
  unfoldable pub adopt : Workflow q → Message q.Double → Workflow q
  adopt w m = record w {
    correlation_id = if is_empty w.correlation_id then m.correlation_id else w.correlation_id;
  }

  unfoldable pub is_repeated : Workflow q → Message q.Double → Bool
  is_repeated w m = not (is_empty m.id) && contains w.observed m.id

  unfoldable pub is_foreign : Workflow q → PostedMessage q → Bool
  is_foreign w p = other_side w p.sender_side || other_side w p.receiver_side

  -- The message is remembered and the clock follows it, whatever becomes of it.
  unfoldable pub note_message : Workflow q → PostedMessage q → Workflow q
  unfolding trim_observed observe
  note_message w p = record (observe w p.message.id) {
    updated_at = max_double q q.zero p.simulation_time;
  }

  unfoldable pub on_message_posted : Workflow q → PostedMessage q → Workflow q
  on_message_posted w p =
      if is_repeated w p.message
      then w
      else if is_foreign (note_message w p) p
      then note_message w p
      else project p.message.kind (adopt (note_message w p) p.message) p.message
