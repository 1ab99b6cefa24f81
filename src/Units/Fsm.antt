-- ===== src/Units/Fsm.antt =====
-- `UnitFsm`. The callbacks act on a world `W` that they capture. An update may also call `goTo` and
-- `currentState` of its own machine, as those of `MobileUnitBase` and `AttackUAV` do; the conditions,
-- `onEnter` and `onExit` that they register do not. An empty `std::function` is `none`.
use wargame.Prelude.{
  Bool, true, false, String, List, [], ◌∷◌, ◌++◌, Option, none, some, str_eq, if◌then◌else◌,
}

module _ (W T : Type 0) where
  pub record Transition : Type 0 where
    pub to_state : String
    pub condition : Option (W → Bool)

  -- What an update does: it ends in a world, or calls `goTo` and goes on with the state that the
  -- machine is in then and with the world that the call leaves.
  pub data Updating : Type 0 where
    ended : W → Updating
    going : String → W → (String → W → Updating) → Updating

  pub record StateDef : Type 0 where
    pub update : Option (T → String → W → Updating)
    pub on_enter : Option (W → W)
    pub on_exit : Option (W → W)
    pub transitions : List Transition

  pub record UnitFsm : Type 0 where
    pub states : List (String × StateDef)
    pub current : String
    pub initialized : Bool

  unfoldable pub find_state : List (String × StateDef) → String → Option StateDef
  find_state [] name = none
  find_state ((n, d) ∷ ds) name = if str_eq n name then some d else find_state ds name

  -- `m_states[name] = d`.
  unfoldable pub put_state : String → StateDef → List (String × StateDef) → List (String × StateDef)
  put_state name d [] = (name, d) ∷ []
  put_state name d ((n, e) ∷ ds) =
      if str_eq n name then (name, d) ∷ ds else (n, e) ∷ put_state name d ds

  -- A callback, where there is one.
  unfoldable pub call : Option (W → W) → W → W
  call none w = w
  call (some f) w = f w

  unfoldable pub new_fsm : UnitFsm
  new_fsm = record { states = []; current = ""; initialized = false }

  unfoldable pub set_initial_state : String → UnitFsm × W → UnitFsm × W
  set_initial_state state (m, w) = if m.initialized then (m, w) else (
    record m { current = state; initialized = true },
    elim (find_state m.states state) [ none ↦ w | some d ↦ call d.on_enter w ],
  )

  unfoldable pub add_state :
      String
      → Option (T → String → W → Updating)
      → Option (W → W)
      → Option (W → W)
      → UnitFsm
      → UnitFsm
  add_state name update on_enter on_exit m = record m {
    states =
        put_state name
          (record { update = update; on_enter = on_enter; on_exit = on_exit; transitions = [] })
          m.states;
  }

  unfoldable pub add_transition : String → String → Option (W → Bool) → UnitFsm → UnitFsm
  add_transition from to cond m = elim (find_state m.states from) [
    | none ↦ m
    | some d ↦
        let more = d.transitions ++ record { to_state = to; condition = cond } ∷ [] in
        record m { states = put_state from (record d { transitions = more }) m.states }
  ]

  -- The `onExit` of the state that is left, where that state is known.
  unfoldable pub leave : UnitFsm → W → W
  leave m w = elim (find_state m.states m.current) [ none ↦ w | some d ↦ call d.on_exit w ]

  unfoldable pub go_to : String → UnitFsm × W → UnitFsm × W
  go_to state (m, w) = if str_eq m.current state then (m, w) else elim (find_state m.states state) [
    | none ↦ (m, w)
    | some d ↦ (record m { current = state }, call d.on_enter (leave m w))
  ]

  unfoldable pub holds : Option (W → Bool) → W → Bool
  holds none w = false
  holds (some c) w = c w

  -- The loop over the transitions, which ends at the first one whose condition holds.
  unfoldable pub take_transition : List Transition → UnitFsm × W → UnitFsm × W
  take_transition [] (m, w) = (m, w)
  take_transition (t ∷ ts) (m, w) =
      if holds t.condition w then go_to t.to_state (m, w) else take_transition ts (m, w)

  -- The update to its end, with the machine that its calls of `goTo` move.
  unfoldable pub run : Updating → UnitFsm → UnitFsm × W
  run (ended w) m = (m, w)
  run (going state w rest) m =
      let moved = go_to state (m, w) in run (rest moved.0.current moved.1) moved.0

  unfoldable pub run_update : T → StateDef → UnitFsm × W → UnitFsm × W
  run_update dt d (m, w) = elim d.update [ none ↦ (m, w) | some f ↦ run (f dt m.current w) m ]

  -- `it->second.update(dt)` for the state that is current now.
  unfoldable pub update_current : T → UnitFsm × W → UnitFsm × W
  update_current dt (m, w) = elim (find_state m.states m.current) [
    | none ↦ (m, w)
    | some d ↦ run_update dt d (m, w)
  ]

  unfoldable pub tick : T → UnitFsm × W → UnitFsm × W
  tick dt (m, w) = elim (find_state m.states m.current) [
    | none ↦ (m, w)
    | some d ↦ update_current dt (take_transition d.transitions (m, w))
  ]
