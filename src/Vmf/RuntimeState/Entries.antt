-- ===== src/Vmf/RuntimeState/Entries.antt =====
-- The lists of tasks and ACKs as maps from ids, under the replacement that an upsert makes.
use wargame.Prelude.{
  ℕ, suc, ◌≤◌, ◌≡◌, Bool, true, false, String, List, [], ◌∷◌, ◌++◌, Option, none, some, arith,
  str_eq, str_eq_iff, contains, length, if◌then◌else◌, ◌⊎◌, inl, inr, ◌<◌,
}
use wargame.Prelude.Qt.{Qt}
use wargame.Prelude.Json.{Json}
use wargame.Vmf.RuntimeState.State.{key_of, all_valid, retain_others, any_has}
use wargame.Vmf.RuntimeState.Unique.{Fewer, Fewer-cons, Fewer-skip}

module _ (q : Qt) (name : String) where
  -- The first entry with this id.
  unfoldable pub lookup : String → List (Json q.Double) → Option (Json q.Double)
  lookup id [] = none
  lookup id (v ∷ vs) = if str_eq (key_of q name v) id then some v else lookup id vs

  -- The list that an upsert tries.
  abbrev pub renewed : String → Json q.Double → List (Json q.Double) → List (Json q.Double)
  renewed id v vs = retain_others q name id vs ++ v ∷ []

  module _ (id : String) (v : Json q.Double) (key : key_of q name v ≡ id) where
    pub lookup-renewed :
        (vs : List (Json q.Double)) (other : String)
        → lookup other (renewed id v vs) ≡ (if str_eq id other then some v else lookup other vs)
    unfolding lookup retain_others
    lookup-renewed [] other = rw key
    lookup-renewed (w ∷ vs) other =
        let k = key_of q name w in
        ground
          (arith, str_eq_iff k id, str_eq_iff k other, str_eq_iff id other, lookup-renewed vs other)

    pub all_valid-renewed :
        (ok : Json q.Double → Bool) (vs : List (Json q.Double)) (ids ids' : List String)
        → ok v ≡ true
        → Fewer ids' ids
        → contains ids' id ≡ false
        → all_valid q ok name ids vs ≡ true
        → all_valid q ok name ids' (renewed id v vs) ≡ true
    unfolding all_valid retain_others
    all_valid-renewed ok [] ids ids' good f new h = rw key (ground (arith, good, new))
    all_valid-renewed ok (w ∷ vs) ids ids' good f new h =
        let k = key_of q name w in
        ground (
          arith,
          f k,
          str_eq_iff k id,
          all_valid-renewed ok vs (k ∷ ids) (k ∷ ids') good (Fewer-cons ids' ids k f),
          all_valid-renewed ok vs (k ∷ ids) ids' good (Fewer-skip ids' ids k f),
        )

  length-renewed :
      (id : String) (v : Json q.Double) (vs : List (Json q.Double))
      → length (renewed id v vs) ≤ suc (length vs)
  unfolding retain_others
  length-renewed id v [] = omega arith
  length-renewed id v (w ∷ vs) = ground (arith, length-renewed id v vs)

  length-replaced :
      (id : String) (v : Json q.Double) (vs : List (Json q.Double))
      → any_has q name id vs ≡ true
      → length (renewed id v vs) ≤ length vs
  unfolding retain_others any_has
  length-replaced id v [] h = cc
  length-replaced id v (w ∷ vs) h =
      ground (arith, h, length-renewed id v vs, length-replaced id v vs)

  pub length-renewed_fits :
      (id : String) (v : Json q.Double) (vs : List (Json q.Double)) (limit : ℕ)
      → length vs ≤ limit
      → (any_has q name id vs ≡ true) ⊎ (length vs < limit)
      → length (renewed id v vs) ≤ limit
  length-renewed_fits id v vs limit h (inl there) = omega (arith, h, length-replaced id v vs there)
  length-renewed_fits id v vs limit h (inr room) = omega (arith, room, length-renewed id v vs)
