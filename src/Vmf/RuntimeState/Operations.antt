-- ===== src/Vmf/RuntimeState/Operations.antt =====
-- The operations of `RuntimeState` keep what `validate` demands, and do what their names say.
use wargame.Prelude.{
  ◌≤◌, ◌≡◌, refl, Bool, true, false, String, List, [], ◌∷◌, ◌++◌, arith, length-keep_last, is_empty,
  ◌⊎◌, inl, inr, if_cases, ℕ, some, str_eq, length, ◌<◌, Bool-cases, if◌then◌else◌, ltb, ltb→lt,
}
use wargame.Prelude.Qt.{Qt}
use wargame.Prelude.Json.{Fields, Json, text, object, value, to_string}
use wargame.Vmf.RuntimeState.Check.{valid_string, valid_task, valid_ack, valid_trace}
use wargame.Vmf.RuntimeState.State.{
  Measures, RuntimeState, known_profile, within_limits, validate, all_valid, all_message_ids,
  all_traces, key_of, any_has, other_ids, remove_task, remove_pending_ack, upsert_task,
  upsert_pending_ack, remember_message_id, append_trace_summary, max_active_tasks, max_pending_acks,
}
use wargame.Vmf.RuntimeState.Unique.{
  retain_others-valid, length-retain_others, any_has-retain_others, message_ids-renew,
  message_ids-keep_last, traces-snoc, traces-drop,
}
use wargame.Vmf.RuntimeState.Entries.{
  lookup, renewed, lookup-renewed, all_valid-renewed, length-renewed_fits,
}

module _ (q : Qt) (m : Measures q) where
  -- The six demands of `validate`.
  pub record IsValid (s : RuntimeState q) : Type 0 where
    pub profile : known_profile q s.profile_id ≡ true
    pub limits : within_limits q m s ≡ true
    pub tasks : all_valid q (valid_task q) "taskId" [] s.active_tasks ≡ true
    pub acks : all_valid q (valid_ack q m.compact_size) "messageId" [] s.pending_acks ≡ true
    pub ids : all_message_ids q [] s.seen_message_ids ≡ true
    pub traces : all_traces q (valid_trace q m.to_integer) s.trace_summaries ≡ true

  pub validate-IsValid : (s : RuntimeState q) → validate q m s ≡ true → IsValid s
  unfolding validate
  validate-IsValid s h = record {
    profile = ground (arith, h);
    limits = ground (arith, h);
    tasks = ground (arith, h);
    acks = ground (arith, h);
    ids = ground (arith, h);
    traces = ground (arith, h);
  }

  pub IsValid-validate : (s : RuntimeState q) → IsValid s → validate q m s ≡ true
  unfolding validate
  IsValid-validate s v = rw (v.profile, v.limits, v.tasks, v.acks, v.ids, v.traces)

  -- What removing a task leaves: a valid state without the task, which says whether it was there.
  pub remove_task-IsValid :
      (id : String) (s : RuntimeState q)
      → IsValid s
      → IsValid (remove_task q id s).1
        × (any_has q "taskId" id (remove_task q id s).1.active_tasks ≡ false)
        × ((remove_task q id s).0 ≡ any_has q "taskId" id s.active_tasks)
  unfolding remove_task within_limits
  remove_task-IsValid id s v = (
    record {
      profile = v.profile;
      limits = ground (arith, v.limits, length-retain_others q "taskId" id s.active_tasks);
      tasks = retain_others-valid q (valid_task q) "taskId" id s.active_tasks v.tasks;
      acks = v.acks;
      ids = v.ids;
      traces = v.traces;
    },
    any_has-retain_others q "taskId" id s.active_tasks,
    refl,
  )

  pub remove_pending_ack-IsValid :
      (id : String) (s : RuntimeState q)
      → IsValid s
      → IsValid (remove_pending_ack q id s).1
        × (any_has q "messageId" id (remove_pending_ack q id s).1.pending_acks ≡ false)
        × ((remove_pending_ack q id s).0 ≡ any_has q "messageId" id s.pending_acks)
  unfolding remove_pending_ack within_limits
  remove_pending_ack-IsValid id s v = (
    record {
      profile = v.profile;
      limits = ground (arith, v.limits, length-retain_others q "messageId" id s.pending_acks);
      tasks = v.tasks;
      acks =
          retain_others-valid q (valid_ack q m.compact_size) "messageId" id s.pending_acks v.acks;
      ids = v.ids;
      traces = v.traces;
    },
    any_has-retain_others q "messageId" id s.pending_acks,
    refl,
  )

  module _ (name id : String) (entry : Json q.Double) (ok : Json q.Double → Bool) (limit : ℕ)
      (list : RuntimeState q → List (Json q.Double)) where
    -- Why an upsert may be refused.
    abbrev pub Refusable : RuntimeState q → Type 0
    Refusable s =
        (is_empty id ≡ true)
        ⊎ (ok entry ≡ false)
        ⊎ (validate q m s ≡ false)
        ⊎ ((any_has q name id (list s) ≡ false) × (limit ≤ length (list s)))

    -- What `upsertTask` and `upsertPendingAck` leave, with their result.
    abbrev pub Upserted :
        (List (Json q.Double) → RuntimeState q) → RuntimeState q → Bool × RuntimeState q → Type 0
    Upserted put s out =
        ((out.0 ≡ true)
          × IsValid out.1
          × ((other : String)
              → lookup q name other (list out.1)
                ≡ (if str_eq id other then some entry else lookup q name other (list s)))
          × (out.1 ≡ put (list out.1)))
        ⊎ ((out.0 ≡ false) × (out.1 ≡ s) × Refusable s)

    refusable :
        (s : RuntimeState q)
        → (ok entry ≡ true
            → validate q m s ≡ true
            → ¬ ((any_has q name id (list s) ≡ true) ⊎ (length (list s) < limit)))
        → Refusable s
    refusable s fits = elim (Bool-cases (ok entry)) [
      | inr bad ↦ inr (inl bad)
      | inl good ↦ elim (Bool-cases (validate q m s)) [
        | inr bad ↦ inr (inr (inl bad))
        | inl h ↦ elim (Bool-cases (any_has q name id (list s))) [
          | inl there ↦ absurd (fits good h (inl there))
          | inr absent ↦ elim (Bool-cases (ltb (length (list s)) limit)) [
            | inl room ↦ absurd (fits good h (inr (ltb→lt _ _ room)))
            | inr full ↦ inr (inr (inr (absent, ground (arith, full))))
          ]
        ]
      ]
    ]

  upsert_task-fits :
      (task : Fields q.Double) (s : RuntimeState q)
      → valid_task q (object task) ≡ true
      → validate q m s ≡ true
      → (any_has q "taskId" (to_string (value task "taskId")) s.active_tasks ≡ true)
        ⊎ (length s.active_tasks < (max_active_tasks q))
      → (validate q m (record s {
        active_tasks =
            renewed q "taskId" (to_string (value task "taskId")) (object task) s.active_tasks;
      })
          ≡ true)
        × (length
              (renewed q "taskId" (to_string (value task "taskId")) (object task) s.active_tasks)
            ≤ (max_active_tasks q))
  unfolding key_of within_limits
  upsert_task-fits task s good h room =
      let id = to_string (value task "taskId") in
      let v = validate-IsValid s h in
      let few : length (renewed q "taskId" id (object task) s.active_tasks) ≤ (max_active_tasks q) =
        length-renewed_fits q "taskId" id (object task) s.active_tasks (max_active_tasks q)
          (ground (arith, v.limits)) room in
      (
        IsValid-validate _ (record {
          profile = v.profile;
          limits = ground (arith, v.limits, few);
          tasks =
              all_valid-renewed q "taskId" id (object task) refl (valid_task q) s.active_tasks [] []
                good (λ x k. k) refl v.tasks;
          acks = v.acks;
          ids = v.ids;
          traces = v.traces;
        }),
        few,
      )

  -- An accepted task is found under its id in the new state, which is valid and differs from the old
  -- one in nothing else. One is refused only without an id, where it or the old state is not valid, or
  -- where its id is new to a full list; a refusal changes nothing.
  pub upsert_task-Upserted :
      (task : Fields q.Double) (s : RuntimeState q)
      → Upserted "taskId"
          (to_string (value task "taskId"))
          (object task)
          (valid_task q)
          (max_active_tasks q)
          (λ t. t.active_tasks)
          (λ vs. record s { active_tasks = vs })
          s
          (upsert_task q m task s)
  unfolding upsert_task key_of
  upsert_task-Upserted task s =
      let id = to_string (value task "taskId") in
      let out =
        Upserted "taskId" id (object task) (valid_task q) (max_active_tasks q) (λ t. t.active_tasks)
          (λ vs. record s { active_tasks = vs }) s in
      if_cases out (is_empty id) (λ none_given. inr (refl, refl, inl none_given))
        (λ named.
          if_cases out _
            (λ bad. inr (
              refl,
              refl,
              refusable "taskId" id (object task) (valid_task q) (max_active_tasks q)
                  (λ t. t.active_tasks) s
                  (λ good h room.
                    let (v, few) = upsert_task-fits task s good h room in
                    ground (arith, bad, v, few)),
            ))
            (λ good. inl (
              refl,
              validate-IsValid _ (ground (arith, good)),
              lookup-renewed q "taskId" id (object task) refl s.active_tasks,
              refl,
            )))

  upsert_pending_ack-fits :
      (ack : Fields q.Double) (s : RuntimeState q)
      → valid_ack q m.compact_size (object ack) ≡ true
      → validate q m s ≡ true
      → (any_has q "messageId" (to_string (value ack "messageId")) s.pending_acks ≡ true)
        ⊎ (length s.pending_acks < (max_pending_acks q))
      → (validate q m (record s {
        pending_acks =
            renewed q "messageId" (to_string (value ack "messageId")) (object ack) s.pending_acks;
      })
          ≡ true)
        × (length (
              renewed q "messageId" (to_string (value ack "messageId")) (object ack) s.pending_acks)
            ≤ (max_pending_acks q))
  unfolding key_of within_limits
  upsert_pending_ack-fits ack s good h room =
      let id = to_string (value ack "messageId") in
      let v = validate-IsValid s h in
      let few : length (renewed q "messageId" id (object ack) s.pending_acks)
          ≤ (max_pending_acks q) =
        length-renewed_fits q "messageId" id (object ack) s.pending_acks (max_pending_acks q)
          (ground (arith, v.limits)) room in
      (
        IsValid-validate _ (record {
          profile = v.profile;
          limits = ground (arith, v.limits, few);
          acks =
              all_valid-renewed q "messageId" id (object ack) refl (valid_ack q m.compact_size)
                s.pending_acks [] [] good (λ x k. k) refl v.acks;
          tasks = v.tasks;
          ids = v.ids;
          traces = v.traces;
        }),
        few,
      )

  -- An accepted ACK is found under its id in the new state, which is valid and differs from the old
  -- one in nothing else. One is refused only without an id, where it or the old state is not valid, or
  -- where its id is new to a full list; a refusal changes nothing.
  pub upsert_pending_ack-Upserted :
      (ack : Fields q.Double) (s : RuntimeState q)
      → Upserted "messageId"
          (to_string (value ack "messageId"))
          (object ack)
          (valid_ack q m.compact_size)
          (max_pending_acks q)
          (λ t. t.pending_acks)
          (λ vs. record s { pending_acks = vs })
          s
          (upsert_pending_ack q m ack s)
  unfolding upsert_pending_ack key_of
  upsert_pending_ack-Upserted ack s =
      let id = to_string (value ack "messageId") in
      let out =
        Upserted "messageId" id (object ack) (valid_ack q m.compact_size) (max_pending_acks q)
          (λ t. t.pending_acks) (λ vs. record s { pending_acks = vs }) s in
      if_cases out (is_empty id) (λ none_given. inr (refl, refl, inl none_given))
        (λ named.
          if_cases out _
            (λ bad. inr (
              refl,
              refl,
              refusable "messageId" id (object ack) (valid_ack q m.compact_size)
                  (max_pending_acks q) (λ t. t.pending_acks) s
                  (λ good h room.
                    let (v, few) = upsert_pending_ack-fits ack s good h room in
                    ground (arith, bad, v, few)),
            ))
            (λ good. inl (
              refl,
              validate-IsValid _ (ground (arith, good)),
              lookup-renewed q "messageId" id (object ack) refl s.pending_acks,
              refl,
            )))

  -- Remembering an id keeps the state valid, where the id is within the limit of its length.
  pub remember_message_id-IsValid :
      (id : String) (s : RuntimeState q)
      → q.size id ≤ 128
      → IsValid s
      → IsValid (remember_message_id q id s)
  unfolding remember_message_id within_limits valid_string
  remember_message_id-IsValid id s short v =
      if_cases IsValid (is_empty (q.trimmed id)) (λ blank. v)
        (λ given. record {
          profile = v.profile;
          limits = ground (
            arith,
            v.limits,
            length-keep_last 4096 (other_ids q id s.seen_message_ids ++ text id ∷ []),
          );
          tasks = v.tasks;
          acks = v.acks;
          ids =
              message_ids-keep_last q 4096 (other_ids q id s.seen_message_ids ++ text id ∷ []) [] (
                message_ids-renew q id s.seen_message_ids [] [] (λ x h. h) refl
                  (ground (arith, given, short)) v.ids);
          traces = v.traces;
        })

  pub append_trace_summary-IsValid :
      (trace : Fields q.Double) (s : RuntimeState q)
      → valid_trace q m.to_integer (object trace) ≡ true
      → IsValid s
      → IsValid (append_trace_summary q trace s)
  unfolding append_trace_summary within_limits
  append_trace_summary-IsValid trace s ok v = record {
    profile = v.profile;
    limits =
        ground (arith, v.limits, length-keep_last 200 (s.trace_summaries ++ object trace ∷ []));
    tasks = v.tasks;
    acks = v.acks;
    ids = v.ids;
    traces =
        traces-drop q (valid_trace q m.to_integer) _ (s.trace_summaries ++ object trace ∷ [])
          (traces-snoc q (valid_trace q m.to_integer) s.trace_summaries (object trace) v.traces ok);
  }
