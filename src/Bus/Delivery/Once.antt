-- ===== src/Bus/Delivery/Once.antt =====
-- An automatic message that was seen is acknowledged again and handed to no handler again.
use wargame.Prelude.{
  ◌≡◌, refl, true, ◌&&◌, String, List, [], ◌∷◌, ◌++◌, Option, contains, if-true, if_cases, subst,
  sym, ◌∙◌, arith, All, All-append, ap,
}
use mathlib.Core.List.{append-nil, append_assoc}
use wargame.Prelude.Qt.{Qt}
use wargame.Bus.Delivery.{
  is_ack, Msg, Event, delivered, Bus, emit, remembering, dispatch_seen, dispatch_with, dispatch,
  maybe_auto_ack,
}
use wargame.Bus.Delivery.Stable.{Stable, dispatch_seen-Stable, maybe_auto_ack-Stable}

module _ (q : Qt) where
  -- An entry of the log that does not hand the message to a handler.
  abbrev pub Withholds : String → Event q → Type 0
  Withholds id (delivered m uid) = (m.id ≡ id) → is_ack m.kind ≡ true
  Withholds id _ = Unit {0}

  -- The second bus has a longer log, without a delivery of the message in what was added.
  abbrev pub Silent : String → Bus q → Bus q → Type 0
  Silent id b b' = (new : List (Event q)) × (b'.log ≡ b.log ++ new) × All (Withholds id) new

  Silent-refl : (id : String) (b : Bus q) → Silent id b b
  Silent-refl id b = ([], sym (append-nil b.log), tt)

  pub Silent-trans : (id : String) (b c d : Bus q) → Silent id b c → Silent id c d → Silent id b d
  Silent-trans id b c d (new, e, h) (new', e', h') = (
    new ++ new',
    e' ∙ ap (λ l. l ++ new') e ∙ append_assoc b.log new new',
    All-append (Withholds id) new new' h h',
  )

  module _ (encoder : Option (Msg q → Option (Msg q))) (react : Msg q → String → Bus q → Bus q)
      (id : String) (quiet : (m : Msg q) (uid : String) (b : Bus q) → Silent id b (react m uid b))
      (start : Bus q) where
    emit-Silent :
        (e : Event q) (b : Bus q)
        → Withholds id e
        → Silent id start b
        → Silent id start (emit q e b)
    emit-Silent e b ok p = Silent-trans id start b (emit q e b) p (e ∷ [], refl, (ok, tt))

    Silent-Stable : Stable q encoder react (Withholds id) (Silent id start)
    unfolding remembering
    Silent-Stable = record {
      emits = emit-Silent;
      reacts = λ m uid b p. Silent-trans id start b (react m uid b) p (quiet m uid b);
      counts = λ n b p. p;
      remembers = λ a m b p. if_cases (Silent id start) a (λ t. p) (λ e. p);
      erases = λ id' b p. p;
      changes = λ id' a n why. tt;
      posts = λ m t. tt;
      fails = λ id'. tt;
      acks = λ m uid is same. is;
    }

  -- Where the handlers cause no delivery of the message themselves, dispatching an automatic
  -- message whose id is in the window adds no delivery of it to the log.
  pub dispatch-Silent :
      (encoder : Option (Msg q → Option (Msg q))) (react : Msg q → String → Bus q → Bus q)
      (m : Msg q) (b : Bus q)
      → ((m' : Msg q) (uid : String) (b' : Bus q) → Silent m.id b' (react m' uid b'))
      → m.automatic_ack ≡ true
      → contains b.window.seen m.id ≡ true
      → Silent m.id b (dispatch q react encoder m b)
  unfolding dispatch dispatch_with
  dispatch-Silent encoder react m b quiet automatic seen =
      let stable = Silent-Stable encoder react m.id quiet b in
      let again : dispatch q react encoder m b
          ≡ dispatch_seen q react (maybe_auto_ack q react encoder) m b =
        if-true {b = m.automatic_ack && contains b.window.seen m.id} _ _
          (ground (arith, automatic, seen)) in
      subst (Silent m.id b) (sym again) (
        dispatch_seen-Stable q encoder react (Withholds m.id) (Silent m.id b) stable
          (maybe_auto_ack q react encoder)
          (maybe_auto_ack-Stable q encoder react (Withholds m.id) (Silent m.id b) stable) m b
          (Silent-refl m.id b))
