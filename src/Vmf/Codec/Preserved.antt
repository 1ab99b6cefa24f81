-- ===== src/Vmf/Codec/Preserved.antt =====
-- What every value read keeps, decoding a whole message keeps.
use wargame.Prelude.{
  ℕ, zero, suc, ◌≡◌, Bool, true, false, String, List, [], Option, none, some, if◌then◌else◌, subst,
  refl,
}
use wargame.Vmf.Codec.Tree.{
  Numerals, XmlNode, Spec, spec, Specs, no_specs, then_spec, is_value_node, child, presence_tag,
}
use wargame.Vmf.Codec.Decode.{
  Reader, Reading, Decoded, decode_value, after_presence, enter, follows, max_count, decode_repeats,
  decode_child, decode_specs, decode_tail, decode_container,
}

module _ (m : Numerals) (r : Reader) (P : Reading m r → Type 0) where
  -- A successful decoding from a state with the property leaves one with it.
  abbrev pub Keeps : Decoded m r → Reading m r → Type 0
  Keeps result st =
      (kids : List XmlNode) (st' : Reading m r) → result ≡ some (kids, st') → P st → P st'

  Keeps-none : (st : Reading m r) → Keeps none st
  Keeps-none st kids st' e p = cc

  Keeps-some : (kids : List XmlNode) (st : Reading m r) → Keeps (some (kids, st)) st
  Keeps-some kids st kids' st' e p = let same : st ≡ st' = cc in subst P same p

  Keeps-if :
      (b : Bool) (x y : Decoded m r) (st : Reading m r)
      → Keeps x st
      → Keeps y st
      → Keeps (if b then x else y) st
  Keeps-if true x y st hx hy = hx
  Keeps-if false x y st hx hy = hy

  Keeps-option {ℓ} :
      {A : Type ℓ} (o : Option A) (f : A → Decoded m r) (st : Reading m r)
      → ((a : A) → Keeps (f a) st)
      → Keeps (elim o [ none ↦ none | some a ↦ f a ]) st
  Keeps-option none f st h = Keeps-none st
  Keeps-option (some a) f st h = h a

  -- One decoding, and another from where it ends.
  Keeps-then :
      (o : Decoded m r) (f : List XmlNode → Reading m r → Decoded m r) (st : Reading m r)
      → Keeps o st
      → ((kids : List XmlNode) (st' : Reading m r) → Keeps (f kids st') st')
      → Keeps (elim o [ none ↦ none | some (kids, st') ↦ f kids st' ]) st
  Keeps-then none f st ho hf kids' st'' e p = cc
  Keeps-then (some (kids, st')) f st ho hf kids' st'' e p =
      hf kids st' kids' st'' e (ho kids st' refl p)

  module _
      (value-Keeps : (s : Spec) (kids : List XmlNode) (st : Reading m r)
        → Keeps (decode_value m r s kids st) st) where
    after_presence-Keeps :
        (tag : String) (rest : List XmlNode → Reading m r → Decoded m r) (kids : List XmlNode)
        (st : Reading m r)
        → ((kids' : List XmlNode) (st' : Reading m r) → Keeps (rest kids' st') st')
        → Keeps (after_presence m r tag rest kids st) st
    unfolding after_presence
    after_presence-Keeps tag rest kids st h = Keeps-option (child tag kids) _ st (λ indicator.
        Keeps-if _ none _ st (Keeps-none st) (Keeps-if _ _ _ st (h kids st) (Keeps-some kids st)))

    enter-Keeps :
        (s : Spec) (cs : Specs) (all rest : List XmlNode → Reading m r → Decoded m r)
        → ((kids : List XmlNode) (st : Reading m r) → Keeps (all kids st) st)
        → ((kids : List XmlNode) (st : Reading m r) → Keeps (rest kids st) st)
        → (st : Reading m r) → Keeps (enter m r s cs all rest st) st
    unfolding enter
    enter-Keeps s no_specs all rest ha hr st =
        Keeps-if s.selectable _ _ st (Keeps-none st) (ha [] st)
    enter-Keeps s (then_spec (spec t ts) cs) all rest ha hr st =
        Keeps-if s.selectable _ _ st
          (Keeps-if _ _ _ st
            (Keeps-then (decode_value m r t [] st) (after_presence m r (presence_tag s) rest) st
              (value-Keeps t [] st)
              (λ kids st'. after_presence-Keeps (presence_tag s) rest kids st' hr))
            (Keeps-none st))
          (ha [] st)

    -- Behind an instance: the next one, the end or a failure.
    repeat-Keeps :
        (more : Option Bool) (again : Decoded m r) (kids : List XmlNode) (st : Reading m r)
        → Keeps again st
        → Keeps (elim more [ none ↦ none | some true ↦ again | some false ↦ some (kids, st) ]) st
    repeat-Keeps none again kids st h = Keeps-none st
    repeat-Keeps (some true) again kids st h = h
    repeat-Keeps (some false) again kids st h = Keeps-some kids st

    decode_repeats-Keeps :
        (left : ℕ) (outer : String) (s : Spec) (instance_ : Reading m r → Decoded m r)
        → ((st : Reading m r) → Keeps (instance_ st) st)
        → (kids : List XmlNode) (st : Reading m r)
        → Keeps (decode_repeats m r left outer s instance_ kids st) st
    unfolding decode_repeats
    decode_repeats-Keeps zero outer s instance_ h kids st = Keeps-none st
    decode_repeats-Keeps (suc left) outer s instance_ h kids st =
        Keeps-then (instance_ st) _ st (h st) (λ below st'.
          repeat-Keeps (follows m outer s below) _ _ st'
            (decode_repeats-Keeps left outer s instance_ h _ st'))

    decode_child-Keeps :
        (outer : String) (b : Bool) (s : Spec) (below : Reading m r → Decoded m r)
        → ((st : Reading m r) → Keeps (below st) st)
        → (kids : List XmlNode) (st : Reading m r)
        → Keeps (decode_child m r outer b s below kids st) st
    unfolding decode_child
    decode_child-Keeps outer true s below h kids st = value-Keeps s kids st
    decode_child-Keeps outer false s below h kids st =
        Keeps-if s.repeatable _ _ st
          (Keeps-if _ _ _ st (decode_repeats-Keeps (max_count s) outer s below h kids st)
            (Keeps-none st))
          (Keeps-then (below st) _ st (h st) (λ inner st'. Keeps-some _ st'))

    decode_specs-Keeps :
        (outer : String) (ss : Specs)
        → ((kids : List XmlNode) (st : Reading m r) → Keeps (decode_specs m r outer ss kids st) st)
          × ((kids : List XmlNode) (st : Reading m r) → Keeps (decode_tail m r outer ss kids st) st)
    unfolding decode_specs
    decode_specs-Keeps outer no_specs = (Keeps-some, Keeps-some)
    decode_specs-Keeps outer (then_spec (spec s cs) rest) =
        let (others, _) = decode_specs-Keeps outer rest in
        let (below, tail) = decode_specs-Keeps (presence_tag s) cs in
        (
          λ kids st.
              Keeps-then _ (decode_specs m r outer rest) st
                (decode_child-Keeps outer (is_value_node s cs) s _ (enter-Keeps s cs _ _ below tail)
                  kids st)
                others,
          others,
        )

    pub decode_container-Keeps :
        (s : Spec) (cs : Specs) (st : Reading m r) → Keeps (decode_container m r s cs st) st
    unfolding decode_container
    decode_container-Keeps s cs =
        let (below, tail) = decode_specs-Keeps (presence_tag s) cs in
        enter-Keeps s cs _ _ below tail
