-- ===== src/Vmf/RuntimeState/RoundTrip.antt =====
-- A state that is written by `toJson` and read by `fromJson`.
use wargame.Prelude.{◌≡◌, refl, ◌&&◌, none, some, arith, Bool-cases, if◌then◌else◌, inl, inr}
use wargame.Prelude.Qt.{Qt}
use wargame.Prelude.Json.{Fields, number, value, to_list, of_list, to_list-of_list, text, array}
use wargame.Vmf.RuntimeState.State.{
  Measures, RuntimeState, known_profile, validate, to_json, from_json,
}

module _ (q : Qt) (m : Measures q) where
  -- The state that `fromJson` builds before it validates it.
  reread : RuntimeState q → RuntimeState q
  reread s = record {
    active_tasks = to_list (of_list s.active_tasks);
    pending_acks = to_list (of_list s.pending_acks);
    seen_message_ids = to_list (of_list s.seen_message_ids);
    trace_summaries = to_list (of_list s.trace_summaries);
    profile_id = s.profile_id;
  }

  reread_same : (s : RuntimeState q) → reread s ≡ s
  unfolding reread
  reread_same s = rw (
    to_list-of_list s.active_tasks,
    to_list-of_list s.pending_acks,
    to_list-of_list s.seen_message_ids,
    to_list-of_list s.trace_summaries,
  )

  -- The members of the written object.
  record Members (o : Fields q.Double) (s : RuntimeState q) : Type 0 where
    version : value o "schemaVersion" ≡ some (number (q.of_nat 1))
    profile : value o "profile" ≡ some (text s.profile_id)
    tasks : value o "activeTasks" ≡ some (array (of_list s.active_tasks))
    acks : value o "pendingAcks" ≡ some (array (of_list s.pending_acks))
    ids : value o "seenMessageIds" ≡ some (array (of_list s.seen_message_ids))
    traces : value o "traceSummaries" ≡ some (array (of_list s.trace_summaries))

  to_json-Members : (s : RuntimeState q) → Members (to_json q s) s
  unfolding to_json value
  to_json-Members s = record {
    version = refl;
    profile = refl;
    tasks = refl;
    acks = refl;
    ids = refl;
    traces = refl;
  }

  from_json-reread :
      (s : RuntimeState q)
      → m.to_integer (some (number (q.of_nat 1))) ≡ 1
      → from_json q m (to_json q s) ≡ (
          if known_profile q s.profile_id && validate q m (reread s) then some (reread s) else none)
  unfolding from_json reread
  from_json-reread s one =
      let o = to_json-Members s in
      rw (from_json, o.version, o.profile, o.tasks, o.acks, o.ids, o.traces, one)
        (elim (Bool-cases (known_profile q s.profile_id)) [ inl k ↦ rw k | inr k ↦ rw k ])

  -- What `toJson` writes is read back as the same state exactly when the state is valid.
  pub from_json-to_json :
      (s : RuntimeState q)
      → m.to_integer (some (number (q.of_nat 1))) ≡ 1
      → from_json q m (to_json q s) ≡ (if validate q m s then some s else none)
  unfolding validate
  from_json-to_json s one = rw (from_json-reread s one, reread_same s) (ground arith)
