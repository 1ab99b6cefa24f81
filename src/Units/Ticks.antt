-- ===== src/Units/Ticks.antt =====
-- The states that a `tick` can reach, and the callbacks that it runs.
use wargame.Prelude.{
  ◌≡◌, refl, sym, true, false, String, List, [], ◌∷◌, none, some, ◌⊎◌, inl, inr, str_eq, Bool-cases,
  Option-cases, subst, ◌∙◌,
}
use wargame.Units.Fsm.{
  Transition, StateDef, UnitFsm, find_state, call, leave, go_to, holds, take_transition, run_update,
  update_current, tick, Updating, run, ended, going,
}

module _ (W T : Type 0) where
  -- Some state of this name is registered.
  abbrev pub Registered : List (String × StateDef W T) → String → Type 0
  Registered ds name = (d : StateDef W T) × (find_state W T ds name ≡ some d)

  -- The first transition whose condition holds, in the order in which they were added.
  pub data FirstEnabled (w : W) : List (Transition W T) → Transition W T → Type 0 where
    first :
        {t : Transition W T} {ts : List (Transition W T)}
        → holds W T t.condition w ≡ true
        → FirstEnabled w (t ∷ ts) t
    later :
        {t u : Transition W T} {ts : List (Transition W T)}
        → holds W T t.condition w ≡ false
        → FirstEnabled w ts u
        → FirstEnabled w (t ∷ ts) u

  abbrev pub NoneEnabled : W → List (Transition W T) → Type 0
  NoneEnabled w [] = Unit
  NoneEnabled w (t ∷ ts) = (holds W T t.condition w ≡ false) × NoneEnabled w ts

  take_transition_lem :
      (ts : List (Transition W T)) (m : UnitFsm W T) (w : W)
      → ((t : Transition W T) × FirstEnabled w ts t
          × (take_transition W T ts (m, w) ≡ go_to W T t.to_state (m, w)))
        ⊎ (NoneEnabled w ts × (take_transition W T ts (m, w) ≡ (m, w)))
  unfolding take_transition
  take_transition_lem [] m w = inr (tt, refl)
  take_transition_lem (t ∷ ts) m w = elim (Bool-cases (holds W T t.condition w)) [
    | inl on ↦ inl (t, first on, rw on)
    | inr off ↦ elim (take_transition_lem ts m w) [
      | inl (u, f, e) ↦ inl (u, later off f, rw off e)
      | inr (n, e) ↦ inr ((off, n), rw off e)
    ]
  ]

  -- Moving to a registered state that is not the current one: `onExit` of the old state, then
  -- `onEnter` of the new one.
  go_to_move :
      (m : UnitFsm W T) (w : W) (state : String) (d : StateDef W T)
      → str_eq m.current state ≡ false
      → find_state W T m.states state ≡ some d
      → go_to W T state (m, w) ≡ (record m { current = state }, call W T d.on_enter (leave W T m w))
  unfolding go_to
  go_to_move m w state d other e = rw (go_to, other, e)

  go_to_stay :
      (m : UnitFsm W T) (w : W) (state : String)
      → (str_eq m.current state ≡ true) ⊎ (find_state W T m.states state ≡ none)
      → go_to W T state (m, w) ≡ (m, w)
  unfolding go_to
  go_to_stay m w state (inl same) = rw (go_to, same)
  go_to_stay m w state (inr e) = elim (Bool-cases (str_eq m.current state)) [
    | inl same ↦ rw (go_to, same)
    | inr other ↦ rw (go_to, other, e)
  ]

  -- What a tick does, with the state that it ends in and what it does to the world.
  pub data Ticked (dt : T) (m : UnitFsm W T) (w : W) : UnitFsm W T × W → Type 0 where
    lost : find_state W T m.states m.current ≡ none → Ticked dt m w (m, w)
    stayed :
        {d : StateDef W T}
        → find_state W T m.states m.current ≡ some d
        → NoneEnabled w d.transitions
          ⊎ ((t : Transition W T) × FirstEnabled w d.transitions t
              × ((str_eq m.current t.to_state ≡ true)
                  ⊎ (find_state W T m.states t.to_state ≡ none)))
        → Ticked dt m w (run_update W T dt d (m, w))
    moved :
        {d e : StateDef W T} {t : Transition W T}
        → find_state W T m.states m.current ≡ some d
        → FirstEnabled w d.transitions t
        → str_eq m.current t.to_state ≡ false
        → find_state W T m.states t.to_state ≡ some e
        → Ticked dt m w (
            run_update W T dt e
              (record m { current = t.to_state }, call W T e.on_enter (call W T d.on_exit w)))

  update_current_lem :
      (dt : T) (m : UnitFsm W T) (w : W) (d : StateDef W T)
      → find_state W T m.states m.current ≡ some d
      → update_current W T dt (m, w) ≡ run_update W T dt d (m, w)
  unfolding update_current
  update_current_lem dt m w d e = rw (update_current, e)

  tick-some :
      (dt : T) (m : UnitFsm W T) (w : W) (d : StateDef W T)
      → find_state W T m.states m.current ≡ some d
      → tick W T dt (m, w) ≡ update_current W T dt (take_transition W T d.transitions (m, w))
  unfolding tick
  tick-some dt m w d e = rw (tick, e)

  tick-none :
      (dt : T) (m : UnitFsm W T) (w : W)
      → find_state W T m.states m.current ≡ none
      → tick W T dt (m, w) ≡ (m, w)
  unfolding tick
  tick-none dt m w e = rw (tick, e)

  leave-some :
      (m : UnitFsm W T) (w : W) (d : StateDef W T)
      → find_state W T m.states m.current ≡ some d
      → leave W T m w ≡ call W T d.on_exit w
  unfolding leave
  leave-some m w d e = rw (leave, e)

  stayed-Ticked :
      (dt : T) (m : UnitFsm W T) (w : W) (d : StateDef W T) (out : UnitFsm W T × W)
      → find_state W T m.states m.current ≡ some d
      → NoneEnabled w d.transitions
        ⊎ ((t : Transition W T) × FirstEnabled w d.transitions t
            × ((str_eq m.current t.to_state ≡ true) ⊎ (find_state W T m.states t.to_state ≡ none)))
      → out ≡ (m, w)
      → Ticked dt m w (update_current W T dt out)
  stayed-Ticked dt m w d out e why k =
      subst (λ o. Ticked dt m w (update_current W T dt o)) (sym k)
        (subst (Ticked dt m w) (sym (update_current_lem dt m w d e)) (stayed e why))

  moved-Ticked :
      (dt : T) (m : UnitFsm W T) (w : W) (d d' : StateDef W T) (t : Transition W T)
      → find_state W T m.states m.current ≡ some d
      → FirstEnabled w d.transitions t
      → str_eq m.current t.to_state ≡ false
      → find_state W T m.states t.to_state ≡ some d'
      → Ticked dt m w (update_current W T dt (go_to W T t.to_state (m, w)))
  moved-Ticked dt m w d d' t e f other e' =
      let there : UnitFsm W T = record m { current = t.to_state } in
      let entered = call W T d'.on_enter (call W T d.on_exit w) in
      let k = rw (leave-some m w d e) at (go_to_move m w t.to_state d' other e') in
      subst (λ o. Ticked dt m w (update_current W T dt o)) (sym k)
        (subst (Ticked dt m w) (sym (update_current_lem dt there entered d' e'))
          (moved e f other e'))

  fired-Ticked :
      (dt : T) (m : UnitFsm W T) (w : W) (d : StateDef W T) (t : Transition W T)
      → find_state W T m.states m.current ≡ some d
      → FirstEnabled w d.transitions t
      → Ticked dt m w (update_current W T dt (go_to W T t.to_state (m, w)))
  fired-Ticked dt m w d t e f = elim (Bool-cases (str_eq m.current t.to_state)) [
    | inl same ↦
        stayed-Ticked dt m w d _ e (inr (t, f, inl same)) (go_to_stay m w t.to_state (inl same))
    | inr other ↦ elim (Option-cases (find_state W T m.states t.to_state)) [
      | inl e' ↦
          stayed-Ticked dt m w d _ e (inr (t, f, inr e')) (go_to_stay m w t.to_state (inr e'))
      | inr (d', e') ↦ moved-Ticked dt m w d d' t e f other e'
    ]
  ]

  tick-cases : (dt : T) (m : UnitFsm W T) (w : W) → Ticked dt m w (tick W T dt (m, w))
  tick-cases dt m w = elim (Option-cases (find_state W T m.states m.current)) [
    | inl e ↦ subst (Ticked dt m w) (sym (tick-none dt m w e)) (lost e)
    | inr (d, e) ↦
        subst (Ticked dt m w) (sym (tick-some dt m w d e))
          (elim (take_transition_lem d.transitions m w) [
            | inr (n, k) ↦ stayed-Ticked dt m w d _ e (inl n) k
            | inl (t, f, k) ↦
                subst (λ o. Ticked dt m w (update_current W T dt o)) (sym k)
                  (fired-Ticked dt m w d t e f)
          ])
  ]

  -- The registered states stay, and a known current state is followed by a known one.
  abbrev pub Stable : UnitFsm W T → UnitFsm W T × W → Type 0
  Stable m out =
      (out.0.states ≡ m.states)
      × (Registered m.states m.current → Registered m.states out.0.current)

  Stable-trans : (m : UnitFsm W T) (a b : UnitFsm W T × W) → Stable m a → Stable a.0 b → Stable m b
  Stable-trans m a b h k = (
    k.0 ∙ h.0,
    λ r.
        subst (λ ds. Registered ds b.0.current) h.0
          (k.1 (subst (λ ds. Registered ds a.0.current) (sym h.0) (h.1 r))),
  )

  go_to-Stable : (state : String) (m : UnitFsm W T) (w : W) → Stable m (go_to W T state (m, w))
  go_to-Stable state m w = elim (Bool-cases (str_eq m.current state)) [
    | inl same ↦ subst (Stable m) (sym (go_to_stay m w state (inl same))) (refl, λ r. r)
    | inr other ↦ elim (Option-cases (find_state W T m.states state)) [
      | inl e ↦ subst (Stable m) (sym (go_to_stay m w state (inr e))) (refl, λ r. r)
      | inr (d, e) ↦ subst (Stable m) (sym (go_to_move m w state d other e)) (refl, λ r. (d, e))
    ]
  ]

  run-Stable : (u : Updating W T) (m : UnitFsm W T) → Stable m (run W T u m)
  unfolding run
  run-Stable (ended w) m = (refl, λ r. r)
  run-Stable (going state w rest) m =
      let moved = go_to W T state (m, w) in
      Stable-trans m moved (run W T (rest moved.0.current moved.1) moved.0) (go_to-Stable state m w)
        (run-Stable (rest moved.0.current moved.1) moved.0)

  run_update-Stable :
      (dt : T) (d : StateDef W T) (m : UnitFsm W T) (w : W) → Stable m (run_update W T dt d (m, w))
  unfolding run_update
  run_update-Stable dt d m w = elim (Option-cases d.update) [
    | inl e ↦ rw (run_update, e) (refl, λ r. r)
    | inr (f, e) ↦ rw (run_update, e) (run-Stable (f dt m.current w) m)
  ]

  Ticked-Stable :
      (dt : T) (m : UnitFsm W T) (w : W) (out : UnitFsm W T × W) → Ticked dt m w out → Stable m out
  Ticked-Stable dt m w _ (lost e) = (refl, λ r. r)
  Ticked-Stable dt m w _ (stayed {d = d} e why) = run_update-Stable dt d m w
  Ticked-Stable dt m w _ (moved {d = d} {e = e} {t = t} known f other e') =
      let there : UnitFsm W T = record m { current = t.to_state } in
      let entered = call W T e.on_enter (call W T d.on_exit w) in
      Stable-trans m (there, entered) (run_update W T dt e (there, entered)) (refl, λ r. (e, e'))
        (run_update-Stable dt e there entered)

  -- A tick in an unknown state does nothing. Otherwise only the first transition whose condition
  -- holds counts: to another known state it runs `onExit`, `onEnter` and then the new state's update;
  -- in every other case it runs the current state's update. The update may move the machine again by
  -- `goTo`; the registered states stay, and from a known state the tick ends in a known one.
  pub tick-Ticked :
      (dt : T) (m : UnitFsm W T) (w : W)
      → Ticked dt m w (tick W T dt (m, w)) × Stable m (tick W T dt (m, w))
  tick-Ticked dt m w = (tick-cases dt m w, Ticked-Stable dt m w _ (tick-cases dt m w))
