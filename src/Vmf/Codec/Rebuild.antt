-- ===== src/Vmf/Codec/Rebuild.antt =====
-- `decodeContainer` on a reader that serves the values of a conforming node: it rebuilds the nodes
-- of the message in the dictionary's order.
use wargame.Prelude.{◌≡◌, refl, List, [], ◌∷◌, ◌++◌, some, ◌∙◌, sym, ap}
use wargame.Vmf.Codec.Tree.{Numerals, XmlNode, presence_tag, parse_unsigned}
use wargame.Vmf.Codec.Decode.{Reader, decode_specs}
use wargame.Vmf.Codec.Conforms.{
  Values, Part, Conforms, value_node, container_node, done, item, once, many, last, last_absent,
  next, plain, present, absent, told, names,
}
use mathlib.Core.List.{append-nil}
use wargame.Vmf.Codec.Replay.{
  Rebuilds, Serves, Serves-append, after_presence-value, child_many, child_once, child_value,
  decode-then, enter-indicator, enter-plain, follows-Reads, follows-absent, regroup, repeats-last,
  repeats-next,
}

module _ (m : Numerals) (r : Reader) where
  module _ (zero_reads : parse_unsigned m (m.number 0) ≡ some 0)
      (one_reads : parse_unsigned m (m.number 1) ≡ some 1) where
    pub Conforms-Rebuilds :
        {part : Part} {vs : Values} {kids : List XmlNode}
        → Conforms m part vs kids
        → Rebuilds m r part vs kids
    unfolding Serves names decode_specs
    Conforms-Rebuilds done = λ kids st stop h. (
      st,
      ap (λ l. some (l, st)) (sym (append-nil kids)),
      record { reader = h; fields = sym (append-nil (told st.fields)) },
    )
    Conforms-Rebuilds
          (item {outer = outer} {s = s} {cs = cs} {rest = rest} {v = v} {vs = vs} {kids = above}
            is_value single others) =
        λ kids st stop (between, reads, h).
          decode-then m r outer s cs rest kids (kids ++ value_node m s v ∷ []) _ ((s, v) ∷ []) vs st
            between stop (child_value m r outer s cs v kids st between is_value reads)
            (λ st' same.
              regroup m r kids (value_node m s v ∷ []) above vs st' stop
                (Conforms-Rebuilds others (kids ++ value_node m s v ∷ []) st' stop (rw same h)))
    Conforms-Rebuilds
          (once {outer = outer} {s = s} {cs = cs} {rest = rest} {vs = vs} {vs' = vs'} {kids = above}
            {kids' = later} is_container single found inner others) =
        λ kids st stop h.
          let (between, front, back) = Serves-append m r vs vs' st.reader stop h in
          decode-then m r outer s cs rest kids (kids ++ container_node m s above ∷ []) _ vs vs' st
            between stop
            (child_once m r outer s cs kids above vs st between is_container single
              (Conforms-Rebuilds inner st between front))
            (λ st' same. regroup m r kids (container_node m s above ∷ []) later vs' st' stop (
              Conforms-Rebuilds others (kids ++ container_node m s above ∷ []) st' stop
                (rw same back)))
    Conforms-Rebuilds
          (many {outer = outer} {s = s} {cs = cs} {rest = rest} {vs = vs} {vs' = vs'} {kids = above}
            {kids' = later} is_container repeated tagged inner others) =
        λ kids st stop h.
          let (between, front, back) = Serves-append m r vs vs' st.reader stop h in
          decode-then m r outer s cs rest kids (kids ++ above) _ vs vs' st between stop
            (child_many m r outer s cs kids above vs st between is_container repeated tagged
              (Conforms-Rebuilds inner kids st between front))
            (λ st' same.
              regroup m r kids (above) later vs' st' stop
                (Conforms-Rebuilds others (kids ++ above) st' stop (rw same back)))
    Conforms-Rebuilds
          (last {left = left} {outer = outer} {s = s} {cs = cs} {vs = vs} {kids = above} inner
            reads) =
        λ kids st stop h.
          repeats-last m r left outer s cs kids above vs st stop
            ((follows-Reads m r outer s above).1 reads) (Conforms-Rebuilds inner st stop h)
    Conforms-Rebuilds
          (last_absent {left = left} {outer = outer} {s = s} {cs = cs} {vs = vs} {kids = above}
            inner missing optional reads) =
        λ kids st stop h.
          repeats-last m r left outer s cs kids above vs st stop
            (follows-absent m r outer s above missing optional reads)
            (Conforms-Rebuilds inner st stop h)
    Conforms-Rebuilds
          (next {left = left} {outer = outer} {s = s} {cs = cs} {vs = vs} {vs' = vs'} {kids = above}
            {kids' = later} inner reads others) =
        λ kids st stop h.
          let (between, front, back) = Serves-append m r vs vs' st.reader stop h in
          repeats-next m r left outer s cs kids above _ vs vs' st between stop
            ((follows-Reads m r outer s above).0 reads) (Conforms-Rebuilds inner st between front)
            (λ st' same. regroup m r kids (container_node m s above ∷ []) later vs' st' stop (
              Conforms-Rebuilds others (kids ++ container_node m s above ∷ []) st' stop
                (rw same back)))
    Conforms-Rebuilds (plain {s = s} {cs = cs} mandatory inner) = λ st stop h.
        let (st', e, reached) = Conforms-Rebuilds inner [] st stop h in
        (st', enter-plain m r s cs st mandatory ∙ e, reached)
    Conforms-Rebuilds
          (present {s = s} {t = t} {ts = ts} {rest = rest} {vs = vs} {kids = above} optional tagged
            is_value single others) =
        λ st stop (between, reads, h).
          enter-indicator m r s t ts rest 1 _ vs st between stop optional tagged reads (λ st' same.
            let (st'', e, reached) =
              Conforms-Rebuilds others (value_node m t 1 ∷ []) st' stop (rw same h) in
            let behind =
              after_presence-value m r s t 1 (decode_specs m r (presence_tag s) rest) st' tagged
                one_reads refl in
            (st'', behind ∙ e, reached))
    Conforms-Rebuilds
          (absent {s = s} {t = t} {ts = ts} {rest = rest} optional tagged is_value single lacks) =
        λ st stop (between, reads, h).
          enter-indicator m r s t ts rest 0 _ [] st between stop optional tagged reads (λ st' same.
            (
              st',
              after_presence-value m r s t 0 (decode_specs m r (presence_tag s) rest) st' tagged
                  zero_reads refl,
              record { reader = same ∙ h; fields = sym (append-nil (told st'.fields)) },
            ))
