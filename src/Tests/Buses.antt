-- ===== src/Tests/Buses.antt =====
-- The communication graph, the window of seen messages and the state machine at concrete inputs.
use wargame.Prelude.{
  ℕ, ◌+◌, ◌≡◌, refl, true, false, ◌||◌, String, [], ◌∷◌, some, none, arith, ◌⊎◌, is_empty, contains,
}
use wargame.Bus.Registry.{Reg, Units}
use wargame.Bus.Graph.{ends, can_communicate}
use wargame.Bus.Graph.Search.{Answers, can_communicate_lem}
use wargame.Bus.Window.{
  Window, no_messages, remember_automatic_message_id, automatic_message_state,
  restore_automatic_message_state,
}
use wargame.Bus.Window.Membership.{IsWindow, no_messages-IsWindow, Remembered, remember-Remembered}
use wargame.Bus.Window.Restore.{restore-automatic_message_state}
use wargame.Units.Fsm.{UnitFsm, StateDef, ended, going, tick}
use wargame.Units.Ticks.{Ticked, Stable, tick-Ticked}
use wargame.Tests.Data.{nat_qt}

abbrev unit_at : ℕ → Reg nat_qt
unit_at x = record { x = x; y = 0; comm_range = 10; side = "red"; is_cp = false; active = true }

-- `a` reaches `c` through `b` only.
abbrev three_units : Units nat_qt
three_units = ("a", unit_at 16) ∷ ("b", unit_at 8) ∷ ("c", unit_at 0) ∷ []

can_communicate_lem_example :
    ((ends nat_qt three_units "a" "c" ≡ none)
      × (can_communicate nat_qt three_units "a" "c" ≡ some false))
    ⊎ ((ra : Reg nat_qt) × (rb : Reg nat_qt) × (ends nat_qt three_units "a" "c" ≡ some (ra, rb))
        × Answers nat_qt ra.side "c" three_units "a" (can_communicate nat_qt three_units "a" "c"))
can_communicate_lem_example = can_communicate_lem nat_qt three_units "a" "c"

remember-Remembered_example :
    ((is_empty "m_1" || contains no_messages.order "m_1") ≡ true)
      × (remember_automatic_message_id "m_1" no_messages ≡ no_messages)
    ⊎ (contains no_messages.order "m_1" ≡ false)
      × Remembered "m_1" no_messages (remember_automatic_message_id "m_1" no_messages)
remember-Remembered_example = remember-Remembered "m_1" no_messages no_messages-IsWindow

abbrev two_messages : Window
two_messages = record { seen = "m_2" ∷ "m_1" ∷ []; order = "m_1" ∷ "m_2" ∷ [] }

two_messages-IsWindow : IsWindow two_messages
two_messages-IsWindow = record {
  same = λ x. ground arith;
  unique = (refl, (refl, tt));
  bounded = omega arith;
}

restore-automatic_message_state_example :
    (w' : Window) × (restore_automatic_message_state nat_qt
        (automatic_message_state nat_qt two_messages.order)
      ≡ some w')
    × (w'.order ≡ two_messages.order)
    × ((x : String) → contains w'.seen x ≡ contains two_messages.seen x)
restore-automatic_message_state_example =
    restore-automatic_message_state nat_qt two_messages two_messages-IsWindow
      ((refl, ground arith), ((refl, ground arith), tt))

abbrev moving : StateDef ℕ ℕ
moving = record {
  update = some (λ dt state w. ended (w + dt));
  on_enter = none;
  on_exit = some (λ w. w + 100);
  transitions = record { to_state = "Idle"; condition = some (λ w. true) } ∷ [];
}

-- Its update sends the machine back.
abbrev idling : StateDef ℕ ℕ
idling = record {
  update = some (λ dt state w. going "Moving" w (λ there v. ended (v + dt)));
  on_enter = some (λ w. w + 1);
  on_exit = none;
  transitions = [];
}

abbrev machine : UnitFsm ℕ ℕ
machine = record {
  states = ("Moving", moving) ∷ ("Idle", idling) ∷ [];
  current = "Moving";
  initialized = true;
}

tick-Ticked_example :
    Ticked ℕ ℕ 5 machine 0 (tick ℕ ℕ 5 (machine, 0)) × Stable ℕ ℕ machine (tick ℕ ℕ 5 (machine, 0))
tick-Ticked_example = tick-Ticked ℕ ℕ 5 machine 0
