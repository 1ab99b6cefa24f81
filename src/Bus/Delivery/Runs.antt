-- ===== src/Bus/Delivery/Runs.antt =====
-- The bus through its whole life: every operation that changes it.
use wargame.Prelude.{
  ℕ, ◌≤◌, ◌≡◌, refl, Bool, false, String, List, [], ◌∷◌, Option, none, some, All, arith, if_cases,
}
use wargame.Prelude.Qt.{Qt}
use wargame.Prelude.Json.{Json}
use wargame.Bus.Registry.{
  update_unit_position, set_unit_active, set_unit_command_post, update_unit_side,
}
use wargame.Bus.Window.{Window, restore_automatic_message_state}
use wargame.Bus.Window.Membership.{IsWindow}
use wargame.Bus.Window.Accepted.{restored-IsWindow}
use wargame.Bus.Delivery.{
  Msg, Bus, encoded, send, advance_simulation_time, set_simulation_time, set_ack_policy, subscribe,
  unsubscribe, unregister_unit,
}
use wargame.Bus.Delivery.Pending.{IsBus, send-IsBus, advance_simulation_time-IsBus}
use wargame.Bus.Delivery.Restore.{restore_pending_ack_state, restore-Restored}

module _ (q : Qt) where
  pub data Command : Type 0 where
    subscribing unsubscribing unregistering : String → Command
    moving : String → q.Double → q.Double → q.Double → String → Command
    activating commanding : String → Bool → Command
    siding : String → String → Command
    sending : Msg q → Command
    setting_time advancing : q.Double → Command
    setting_policy : q.Double → ℕ → Bool → Command
    restoring_acks restoring_window : List (Json q.Double) → Command

  -- The window after `restoreAutomaticMessageState`.
  unfoldable pub restored_window : Option Window → Bus q → Bus q
  restored_window none b = b
  restored_window (some w) b = record b { window = w }

  module _ (encoder : Option (Msg q → Option (Msg q))) (react : Msg q → String → Bus q → Bus q)
      (epsilon : q.Double) where
    unfoldable pub run : Command → Bus q → Bus q
    run (subscribing uid) b = subscribe q uid b
    run (unsubscribing uid) b = unsubscribe q uid b
    run (unregistering uid) b = unregister_unit q uid b
    run (moving uid x y range side) b = record b {
      units = update_unit_position q b.units uid x y range side;
    }
    run (activating uid active) b = record b { units = set_unit_active q b.units uid active }
    run (commanding uid is_cp) b = record b { units = set_unit_command_post q b.units uid is_cp }
    run (siding uid side) b = record b { units = update_unit_side q b.units uid side }
    run (sending m) b = (send q react encoder m b).1
    run (setting_time seconds) b = set_simulation_time q seconds b
    run (advancing seconds) b = advance_simulation_time q react encoder epsilon seconds b
    run (setting_policy timeout retries automatic) b = set_ack_policy q timeout retries automatic b
    run (restoring_acks state) b = (restore_pending_ack_state q state b).1
    run (restoring_window state) b = restored_window (restore_automatic_message_state q state) b

    unfoldable pub run_all : List Command → Bus q → Bus q
    run_all [] b = b
    run_all (c ∷ cs) b = run_all cs (run c b)

  -- A message that is sent has been tried at most sixteen times.
  abbrev pub IsModest : Command → Type 0
  IsModest (sending m) = m.retry_count ≤ 16
  IsModest _ = Unit {0}

  module _ (encoder : Option (Msg q → Option (Msg q))) (react : Msg q → String → Bus q → Bus q)
      (epsilon : q.Double) (small : (x : q.Double) → q.lt (q.of_nat 16) x ≡ false → q.to_nat x ≤ 16)
      (same_count : (m e : Msg q) → encoded q encoder m ≡ some e → e.retry_count ≡ m.retry_count)
      (keeps : (m : Msg q) (uid : String) (b : Bus q) → IsBus q b → IsBus q (react m uid b)) where
    window-IsBus :
        (o : Option Window) (b : Bus q)
        → ((w : Window) → o ≡ some w → IsWindow w)
        → IsBus q b
        → IsBus q (restored_window o b)
    unfolding restored_window
    window-IsBus none b h v = v
    window-IsBus (some w) b h v = record {
      pending = v.pending;
      capped = v.capped;
      window = h w refl;
    }

    run-IsBus :
        (c : Command) (b : Bus q) → IsModest c → IsBus q b → IsBus q (run encoder react epsilon c b)
    unfolding run subscribe unsubscribe unregister_unit set_simulation_time set_ack_policy
    run-IsBus (subscribing uid) b ok v = record {
      pending = v.pending;
      capped = v.capped;
      window = v.window;
    }
    run-IsBus (unsubscribing uid) b ok v = record {
      pending = v.pending;
      capped = v.capped;
      window = v.window;
    }
    run-IsBus (unregistering uid) b ok v = record {
      pending = v.pending;
      capped = v.capped;
      window = v.window;
    }
    run-IsBus (moving uid x y range side) b ok v = record {
      pending = v.pending;
      capped = v.capped;
      window = v.window;
    }
    run-IsBus (activating uid active) b ok v = record {
      pending = v.pending;
      capped = v.capped;
      window = v.window;
    }
    run-IsBus (commanding uid is_cp) b ok v = record {
      pending = v.pending;
      capped = v.capped;
      window = v.window;
    }
    run-IsBus (siding uid side) b ok v = record {
      pending = v.pending;
      capped = v.capped;
      window = v.window;
    }
    run-IsBus (sending m) b ok v = send-IsBus q encoder react keeps m b same_count ok v
    run-IsBus (setting_time seconds) b ok v =
        if_cases (IsBus q) (q.is_finite seconds)
          (λ t. record { pending = v.pending; capped = v.capped; window = v.window }) (λ e. v)
    run-IsBus (advancing seconds) b ok v =
        advance_simulation_time-IsBus q encoder react keeps epsilon seconds b v
    run-IsBus (setting_policy timeout retries automatic) b ok v = record {
      pending = v.pending;
      capped = omega arith;
      window = v.window;
    }
    run-IsBus (restoring_acks state) b ok v = (restore-Restored q small state b v).valid
    run-IsBus (restoring_window state) b ok v =
        window-IsBus (restore_automatic_message_state q state) b
          (λ w found. restored-IsWindow q state w found) v

    -- Any sequence of the bus's operations keeps it well formed: what waits for an acknowledgement asks
    -- for one, is none itself, stands under its own id and has been tried at most sixteen times; and
    -- the window of the seen messages holds each id once and no more than its bound. It asks that
    -- the handlers keep this, that encoding keeps a message's count of tries, that no message sent
    -- has been tried more often, and that a double which is at most 16 is read as such an `int`.
    pub run_all-IsBus :
        (cs : List Command) (b : Bus q)
        → All IsModest cs
        → IsBus q b
        → IsBus q (run_all encoder react epsilon cs b)
    unfolding run_all
    run_all-IsBus [] b ok v = v
    run_all-IsBus (c ∷ cs) b ok v = run_all-IsBus cs _ ok.1 (run-IsBus c b ok.0 v)
