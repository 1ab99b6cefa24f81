-- ===== src/Vmf/RuntimeState/Unique.antt =====
-- The checks on the lists of `RuntimeState` under what the operations do to the lists.
use wargame.Prelude.{
  ℕ, zero, suc, ◌-◌, ◌≤◌, ◌≡◌, refl, Bool, true, false, String, List, [], ◌∷◌, ◌++◌, some, arith,
  str_eq_iff, contains, length, drop, keep_last,
}
use wargame.Prelude.Qt.{Qt}
use wargame.Prelude.Json.{Json, text, to_string}
use wargame.Vmf.RuntimeState.Check.{valid_string}
use wargame.Vmf.RuntimeState.State.{
  key_of, all_valid, all_message_ids, all_traces, retain_others, any_has, other_ids,
}

-- The first set has no id that the second has not.
abbrev pub Fewer : List String → List String → Type 0
Fewer ids ids' = (x : String) → contains ids x ≡ true → contains ids' x ≡ true

pub Fewer-cons : (ids ids' : List String) (x : String) → Fewer ids ids' → Fewer (x ∷ ids) (x ∷ ids')
Fewer-cons ids ids' x f y h = ground (arith, f y)

pub Fewer-skip : (ids ids' : List String) (x : String) → Fewer ids ids' → Fewer ids (x ∷ ids')
Fewer-skip ids ids' x f y h = ground (arith, f y)

module _ (q : Qt) where
  module _ (ok : Json q.Double → Bool) (name : String) where
    -- Dropping the values of one id, with a smaller set to begin with.
    all_valid-retain :
        (id : String) (vs : List (Json q.Double)) (ids ids' : List String)
        → Fewer ids' ids
        → all_valid q ok name ids vs ≡ true
        → all_valid q ok name ids' (retain_others q name id vs) ≡ true
    unfolding all_valid retain_others
    all_valid-retain id [] ids ids' f h = refl
    all_valid-retain id (v ∷ vs) ids ids' f h =
        let k = key_of q name v in
        ground (
          arith,
          f k,
          all_valid-retain id vs (k ∷ ids) (k ∷ ids') (Fewer-cons ids' ids k f),
          all_valid-retain id vs (k ∷ ids) ids' (Fewer-skip ids' ids k f),
        )

    pub retain_others-valid :
        (id : String) (vs : List (Json q.Double))
        → all_valid q ok name [] vs ≡ true
        → all_valid q ok name [] (retain_others q name id vs) ≡ true
    retain_others-valid id vs h = all_valid-retain id vs [] [] (λ x k. k) h

  pub length-retain_others :
      (name id : String) (vs : List (Json q.Double))
      → length (retain_others q name id vs) ≤ length vs
  unfolding retain_others
  length-retain_others name id [] = omega arith
  length-retain_others name id (v ∷ vs) = ground (arith, length-retain_others name id vs)

  -- No value that is left has the id.
  pub any_has-retain_others :
      (name id : String) (vs : List (Json q.Double))
      → any_has q name id (retain_others q name id vs) ≡ false
  unfolding any_has retain_others
  any_has-retain_others name id [] = refl
  any_has-retain_others name id (v ∷ vs) = ground (arith, any_has-retain_others name id vs)

  pub any_has-snoc :
      (name id : String) (vs : List (Json q.Double)) (v : Json q.Double)
      → key_of q name v ≡ id
      → any_has q name id (vs ++ v ∷ []) ≡ true
  unfolding any_has
  any_has-snoc name id [] v e = ground (arith, str_eq_iff (key_of q name v) id, e)
  any_has-snoc name id (w ∷ vs) v e = ground (arith, any_has-snoc name id vs v e)

  -- `seenMessageIds` without one id, with that id put at the end.
  message_ids-Fewer :
      (vs : List (Json q.Double)) (ids ids' : List String)
      → Fewer ids' ids
      → all_message_ids q ids vs ≡ true
      → all_message_ids q ids' vs ≡ true
  unfolding all_message_ids
  message_ids-Fewer [] ids ids' f h = refl
  message_ids-Fewer (v ∷ vs) ids ids' f h =
      let k = to_string (some v) in
      ground (arith, f k, message_ids-Fewer vs (k ∷ ids) (k ∷ ids') (Fewer-cons ids' ids k f))

  pub message_ids-renew :
      (id : String) (vs : List (Json q.Double)) (ids ids' : List String)
      → Fewer ids' ids
      → contains ids' id ≡ false
      → valid_string q (some (text id)) 128 false ≡ true
      → all_message_ids q ids vs ≡ true
      → all_message_ids q ids' (other_ids q id vs ++ text id ∷ []) ≡ true
  unfolding all_message_ids other_ids
  message_ids-renew id [] ids ids' f new ok h = ground (arith, new, ok)
  message_ids-renew id (v ∷ vs) ids ids' f new ok h =
      let k = to_string (some v) in
      ground (
        arith,
        f k,
        str_eq_iff k id,
        message_ids-renew id vs (k ∷ ids) (k ∷ ids') (Fewer-cons ids' ids k f),
        message_ids-renew id vs (k ∷ ids) ids' (Fewer-skip ids' ids k f),
      )

  message_ids-drop :
      (n : ℕ) (vs : List (Json q.Double)) (ids : List String)
      → all_message_ids q ids vs ≡ true
      → all_message_ids q ids (drop n vs) ≡ true
  unfolding all_message_ids
  message_ids-drop zero vs ids h = h
  message_ids-drop (suc n) [] ids h = refl
  message_ids-drop (suc n) (v ∷ vs) ids h =
      let k = to_string (some v) in
      message_ids-Fewer (drop n vs) (k ∷ ids) ids (λ x m. ground (arith, m))
        (message_ids-drop n vs (k ∷ ids) (ground (arith, h)))

  pub message_ids-keep_last :
      (limit : ℕ) (vs : List (Json q.Double)) (ids : List String)
      → all_message_ids q ids vs ≡ true
      → all_message_ids q ids (keep_last limit vs) ≡ true
  message_ids-keep_last limit vs ids h = message_ids-drop (length vs - limit) vs ids h

  module _ (ok : Json q.Double → Bool) where
    pub traces-snoc :
        (vs : List (Json q.Double)) (v : Json q.Double)
        → all_traces q ok vs ≡ true
        → ok v ≡ true
        → all_traces q ok (vs ++ v ∷ []) ≡ true
    unfolding all_traces
    traces-snoc [] v h k = ground (arith, k)
    traces-snoc (w ∷ vs) v h k = ground (arith, h, traces-snoc vs v)

    pub traces-drop :
        (n : ℕ) (vs : List (Json q.Double))
        → all_traces q ok vs ≡ true
        → all_traces q ok (drop n vs) ≡ true
    unfolding all_traces
    traces-drop zero vs h = h
    traces-drop (suc n) [] h = refl
    traces-drop (suc n) (v ∷ vs) h = traces-drop n vs (ground (arith, h))
