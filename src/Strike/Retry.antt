-- ===== src/Strike/Retry.antt =====
-- What the result of an operation says of the stage, and what is left when the bus refuses.
use wargame.Prelude.{ℕ, ◌≡◌, true, false, String, [], Option, some, arith, ◌∙◌}
use wargame.Prelude.Qt.{Qt}
use wargame.Prelude.Json.{Items}
use wargame.Bus.Message.{Message}
use wargame.Strike.State.{Stage, Workflow, dispatch_pending, withdraw_pending, reject}
use wargame.Strike.Orders.{
  Link, observe_all, transmit, send, send_then, confirm_dispatch, refuses_dispatch,
  confirm_withdraw, refuses_withdraw, approved, withdrawing, plan_message, stamped, next_sequence,
  withdraw_message,
}
use wargame.Strike.Invariant.{set_stage-Entered}

module _ (q : Qt) where
  send_then-stage :
      (w : Workflow q) (m : Message q.Double) (bus : Option (Link q)) (s : Stage) (reason : String)
      → (send_then q w m bus s reason).1 ≡ true
      → (send_then q w m bus s reason).0.stage ≡ s
  unfolding send_then
  send_then-stage w m bus s reason h =
      ground (arith, set_stage-Entered q (send q w m bus).0 s reason)

  -- A bus on which every encoding fails: `send` returns false and posts nothing.
  abbrev pub Refuses : Link q → Type 0
  Refuses bus =
      (n : ℕ) (m : Message q.Double)
      → ((bus.deliver n m).accepted ≡ false) × ((bus.deliver n m).posted ≡ [])

  refused_send :
      (w : Workflow q) (m : Message q.Double) (bus : Link q)
      → Refuses bus
      → ((send q w m (some bus)).1 ≡ false) × ((send q w m (some bus)).0.stage ≡ w.stage)
  unfolding send transmit reject observe_all
  refused_send w m bus r = ground (arith, r (next_sequence q w) (stamped q w m))

  dispatch_refused :
      (w : Workflow q) (commander attacker target : String) (waypoints : Items q.Double)
      (bus : Option (Link q))
      → refuses_dispatch q w commander attacker target waypoints ≡ true
      → (confirm_dispatch q w commander attacker target waypoints bus).1 ≡ false
  unfolding confirm_dispatch
  dispatch_refused w commander attacker target waypoints bus h = rw h

  pending_dispatch :
      (w : Workflow q) (commander attacker target : String) (waypoints : Items q.Double)
      (bus : Link q)
      → refuses_dispatch q w commander attacker target waypoints ≡ false
      → Refuses bus
      → (confirm_dispatch q w commander attacker target waypoints (some bus)).0.stage
        ≡ dispatch_pending
  unfolding confirm_dispatch
  pending_dispatch w commander attacker target waypoints bus h r =
      let plan = plan_message q commander attacker target waypoints in
      let refused = refused_send (approved q w attacker) plan bus r in
      let entered =
        set_stage-Entered q (record w { attacker_id = attacker }) dispatch_pending
          "commander approval" in
      rw (h, refused.0) (refused.1 ∙ entered.stage)

  pending_refuses :
      (w : Workflow q) (commander attacker target : String) (waypoints : Items q.Double)
      → w.stage ≡ dispatch_pending
      → refuses_dispatch q w commander attacker target waypoints ≡ true
  unfolding refuses_dispatch
  pending_refuses w commander attacker target waypoints e = rw e

  -- A dispatch that passes its guard on a bus that refuses the plan leaves the workflow in
  -- `dispatch_pending`, where no later dispatch can succeed, whoever tries it, on whatever bus.
  pub dispatch_not_retryable :
      (w : Workflow q) (commander attacker target : String) (waypoints : Items q.Double)
      (bus : Link q)
      → refuses_dispatch q w commander attacker target waypoints ≡ false
      → Refuses bus
      → let w' = (confirm_dispatch q w commander attacker target waypoints (some bus)).0 in
        (w'.stage ≡ dispatch_pending)
        × ((c a t : String) (ws : Items q.Double) (later : Option (Link q))
            → (confirm_dispatch q w' c a t ws later).1 ≡ false)
  dispatch_not_retryable w commander attacker target waypoints bus h r =
      let stuck = pending_dispatch w commander attacker target waypoints bus h r in
      (
        stuck,
        λ c a t ws later. dispatch_refused _ c a t ws later (pending_refuses _ c a t ws stuck),
      )

  pending_withdraw :
      (w : Workflow q) (commander attacker : String) (x y : q.Double) (bus : Link q)
      → refuses_withdraw q w commander attacker x y ≡ false
      → Refuses bus
      → (confirm_withdraw q w commander attacker x y (some bus)).0.stage ≡ withdraw_pending
  unfolding confirm_withdraw send_then
  pending_withdraw w commander attacker x y bus h r =
      let refused =
        refused_send (withdrawing q w) (withdraw_message q commander attacker x y) bus r in
      let entered = set_stage-Entered q w withdraw_pending "commander withdrawal approval" in
      rw (h, refused.0) (refused.1 ∙ entered.stage)

  pending_refuses_withdraw :
      (w : Workflow q) (commander attacker : String) (x y : q.Double)
      → w.stage ≡ withdraw_pending
      → refuses_withdraw q w commander attacker x y ≡ true
  unfolding refuses_withdraw
  pending_refuses_withdraw w commander attacker x y e = rw e

  withdraw_refused :
      (w : Workflow q) (commander attacker : String) (x y : q.Double) (bus : Option (Link q))
      → refuses_withdraw q w commander attacker x y ≡ true
      → (confirm_withdraw q w commander attacker x y bus).1 ≡ false
  unfolding confirm_withdraw
  withdraw_refused w commander attacker x y bus h = rw h

  -- So too the withdrawal: one that passes its guard on a bus that refuses the order leaves the
  -- workflow in `withdraw_pending`, where no later withdrawal can succeed.
  pub withdraw_not_retryable :
      (w : Workflow q) (commander attacker : String) (x y : q.Double) (bus : Link q)
      → refuses_withdraw q w commander attacker x y ≡ false
      → Refuses bus
      → let w' = (confirm_withdraw q w commander attacker x y (some bus)).0 in
        (w'.stage ≡ withdraw_pending)
        × ((c a : String) (x' y' : q.Double) (later : Option (Link q))
            → (confirm_withdraw q w' c a x' y' later).1 ≡ false)
  withdraw_not_retryable w commander attacker x y bus h r =
      let stuck = pending_withdraw w commander attacker x y bus h r in
      (
        stuck,
        λ c a x' y' later.
            withdraw_refused _ c a x' y' later (pending_refuses_withdraw _ c a x' y' stuck),
      )
