-- ===== src/Public/Readings.antt =====
-- What the projection of Codex activity reads of an event's parameters.
use portcode.Common.{
  ◌≡◌, refl, ap, sym, ◌∙◌, List, [], ◌∷◌, map, take, take-map, Option, some, ◌>>=◌, option_map, inl,
  inr, Option-cases, Text, codes, same, one_of, ◌||◌, unwrap_or, if◌then◌else◌,
}
use portcode.External.{External}
use portcode.Wire.{PhoneCodexActivityPayload, plan, diff, tool, PhoneCodexPlanStep}
use portcode.Public.Labels.{unknown_label}
use portcode.Public.Activity.{
  DiffCounts, count_lines, lines_from, text_at, public_codex_status, status_is, item_types,
  plan_payload, diff_payload, tool_payload, public_codex_activity_payload,
}

module _ {Value : Type 0} (ext : External Value) where
  -- The statuses of a plan's steps.
  abbrev pub plan_statuses : Value → Option (List (Option Text))
  plan_statuses params =
      option_map (map (λ step. text_at ext step (codes "status")))
        (ext.get params (codes "plan") >>= ext.as_array)

  -- The counts of a diff.
  abbrev pub diff_counts : Value → Option DiffCounts
  diff_counts params =
      option_map
        (λ text.
          count_lines (record { additions = 0; deletions = 0; files = 0 })
            (take 100_000 (lines_from [] text)))
        (text_at ext params (codes "diff"))

  -- The type and the status of an item.
  abbrev pub item_labels : Value → Option (Option Text × Option Text)
  item_labels params =
      option_map (λ item. (text_at ext item (codes "type"), text_at ext item (codes "status")))
        (ext.get params (codes "item"))

  abbrev pub turn_status : Value → Option Text
  turn_status params = ext.get params (codes "turn") >>= (λ turn. text_at ext turn (codes "status"))

  -- Parameters that agree on the marks of the sanitizer, the identifiers, the statuses of a plan, the
  -- counts of a diff, the type and status of an item, and the status of a turn.
  pub record SameReadings (params other : Value) : Type 0 where
    pub metadata :
        ext.get params (codes "_portcodeActivity") ≡ ext.get other (codes "_portcodeActivity")
    pub thread_id : text_at ext params (codes "threadId") ≡ text_at ext other (codes "threadId")
    pub turn_id : text_at ext params (codes "turnId") ≡ text_at ext other (codes "turnId")
    pub item_id : text_at ext params (codes "itemId") ≡ text_at ext other (codes "itemId")
    pub statuses : plan_statuses params ≡ plan_statuses other
    pub counts : diff_counts params ≡ diff_counts other
    pub labels : item_labels params ≡ item_labels other
    pub turn : turn_status params ≡ turn_status other

  abbrev plan_of : List (Option Text) → PhoneCodexActivityPayload
  plan_of statuses = plan (map (λ s. record { status = public_codex_status s }) (take 64 statuses))

  abbrev step_of : Value → PhoneCodexPlanStep
  step_of step = record { status = public_codex_status (text_at ext step (codes "status")) }

  steps_lem :
      (items : List Value)
      → map step_of items
        ≡ map
            (λ s. record { status = public_codex_status s })
            (map (λ step. text_at ext step (codes "status")) items)
  steps_lem [] = refl
  steps_lem (i ∷ items) = ap (◌∷◌ (step_of i)) (steps_lem items)

  plan_payload-statuses :
      (params : Value) → plan_payload ext params ≡ option_map plan_of (plan_statuses params)
  plan_payload-statuses params = elim (Option-cases (ext.get params (codes "plan"))) [
    | inl e ↦ rw e refl
    | inr (entries, e) ↦ elim (Option-cases (ext.as_array entries)) [
      | inl f ↦ rw (e, f) refl
      | inr (items, f) ↦
          rw (e, f)
            (ap (λ steps. some (plan steps))
              (steps_lem (take 64 items)
                ∙ ap (map (λ s. record { status = public_codex_status s }))
                    (sym (take-map (λ step. text_at ext step (codes "status")) 64 items))))
    ]
  ]

  diff_payload-counts :
      (params : Value)
      → diff_payload ext params
        ≡ option_map (λ (n : DiffCounts). diff n.additions n.deletions n.files) (diff_counts params)
  diff_payload-counts params = elim (Option-cases (text_at ext params (codes "diff"))) [
    | inl e ↦ rw e refl
    | inr (text, e) ↦ rw e refl
  ]

  abbrev tool_of : Text → Option Text × Option Text → PhoneCodexActivityPayload
  tool_of method (kind, status) =
      tool (if status_is kind item_types then unwrap_or kind [] else unknown_label)
        (public_codex_status status)
        (same method (codes "item/completed")
          || one_of (public_codex_status status)
              (codes "completed" ∷ codes "failed" ∷ codes "interrupted" ∷ []))

  tool_payload-labels :
      (method : Text) (params : Value)
      → tool_payload ext method params ≡ option_map (tool_of method) (item_labels params)
  tool_payload-labels method params = elim (Option-cases (ext.get params (codes "item"))) [
    | inl e ↦ rw e refl
    | inr (item, e) ↦ rw e refl
  ]

  pub payload-SameReadings :
      (method : Text) (params other : Value)
      → SameReadings params other
      → public_codex_activity_payload ext method params
        ≡ public_codex_activity_payload ext method other
  unfolding public_codex_activity_payload
  payload-SameReadings method params other v =
      let plans : plan_payload ext params ≡ plan_payload ext other =
        plan_payload-statuses params
        ∙ ap (option_map plan_of) v.statuses
        ∙ sym (plan_payload-statuses other) in
      let diffs : diff_payload ext params ≡ diff_payload ext other =
        diff_payload-counts params
        ∙ ap (option_map (λ (n : DiffCounts). diff n.additions n.deletions n.files)) v.counts
        ∙ sym (diff_payload-counts other) in
      let tools : tool_payload ext method params ≡ tool_payload ext method other =
        tool_payload-labels method params
        ∙ ap (option_map (tool_of method)) v.labels
        ∙ sym (tool_payload-labels method other) in
      rw (plans, diffs, tools, v.turn) refl
