-- ===== src/Tests/Gates.antt =====
-- Small states of the milestones, with a catalog of three criteria.
use dm_d5102q_rs485_bridge.Prelude.{
  none, some, ◌≡◌, refl, Bool, false, Text, text, text_eq, text_mem, List, [], ◌∷◌, all,
}
use dm_d5102q_rs485_bridge.Value.{
  Value, str, null, list, nil, cons, obj, Fields, end, field, get, get_or, keys, merge, put,
  value_eq, field_eq, truthy,
}
use dm_d5102q_rs485_bridge.Milestones.{
  Criterion, milestone_ids, group_specs, allowed_proof_stages, physical_proof_stages,
  criterion_statuses, stop_statuses, milestone_statuses, allowed_override_fields,
}
use dm_d5102q_rs485_bridge.Milestones.Resolve.{
  entries_of, is_observed, validate_requirement_ids, of_group, validate_artifact_path,
  check_references, validate_resolved_criterion, resolve_item, resolve_group,
}
use dm_d5102q_rs485_bridge.Milestones.Gate.{
  has_status, is_stop, blockers, statuses_are, check_status, state_of, one_in, blocked_by_of,
  check_milestone, check_milestones, check_group, first_unsatisfied, milestone_value,
  release_groups, release_ready,
}
use dm_d5102q_rs485_bridge.Milestones.Repository.{Summary, states_for, check_gates}
use dm_d5102q_rs485_bridge.Documents.{
  strings, string_list, repeats, parts, is_relative_path, got, in_set, subset, same_set, object_or,
  items_of, array, for_each, collect, any_of, is_empty, Entry, find_entry, is_known,
}
use dm_d5102q_rs485_bridge.Ota.Reconcile.{item, and_then}
use dm_d5102q_rs485_bridge.Milestones.Accepted.{
  IsGated, IsReleasable, check_gates-IsGated, check_gates-IsReleasable,
}

abbrev criterion : Text → Text → Text → Criterion
criterion id group kind = record {
  id = id;
  group = group;
  kind = kind;
  content = [];
  source_line = 0;
  text_sha256 = [];
}

abbrev catalog : List Criterion
catalog =
    criterion (text "M0-T01") (text "M0") (text "task")
    ∷ criterion (text "M0-S01") (text "M0") (text "stop")
    ∷ criterion (text "RD-01") (text "release-definition") (text "criterion")
    ∷ []

abbrev one : Text → Value
one t = list (cons (str t) nil)

abbrev cited : Value
cited = obj (field (text "evidenceIds") (one (text "E1")) end)

-- The state of a milestone or of a group
abbrev state_with : Text → Text → Text → Fields → Value
state_with status stop default overrides = obj (
    field (text "status") (str status) (
      field (text "defaultStopStatus") (str stop) (
        field (text "defaultStatus") (str default) (
          field (text "defaultProofStage") (str (text "hardware")) (
            field (text "requirementIds") (one (text "R1"))
              (field (text "overrides") (obj overrides) end))))))

abbrev all_cited : Fields
all_cited = field (text "M0-T01") cited (field (text "M0-S01") cited end)

abbrev closed : Fields → Value
closed overrides = state_with (text "satisfied") (text "clear") (text "satisfied") overrides

abbrev closed_after : Fields → Fields
closed_after rest = field (text "M2") (closed end) (
    field (text "M3") (closed end) (
      field (text "M4") (closed end) (
        field (text "M5") (closed end) (
          field (text "M6") (closed end) (
            field (text "M7") (closed end)
              (field (text "M8") (closed end) (field (text "M9") (closed end) rest)))))))

abbrev untouched : Value
untouched = state_with (text "not-started") (text "not-evaluated") (text "not-started") end

abbrev untouched_after : Fields → Fields
untouched_after rest = field (text "M2") untouched (
    field (text "M3") untouched (
      field (text "M4") untouched (
        field (text "M5") untouched (
          field (text "M6") untouched (
            field (text "M7") untouched
              (field (text "M8") untouched (field (text "M9") untouched rest)))))))

abbrev groups : Fields
groups = field (text "host-tests") (closed end) (
    field (text "hardware-tests") (closed end) (
      field (text "field-tests") (closed end) (
        field (text "quantitative-acceptance") (closed end) (
          field (text "release-definition") (closed (field (text "RD-01") cited end))
            (field (text "implementation-checklist") (closed end) end)))))

abbrev state_of_gates : Value → Fields → Value → Fields
state_of_gates m1 later current =
    field (text "milestones")
      (obj (field (text "M0") (closed all_cited) (field (text "M1") m1 later)))
      (field (text "groups") (obj groups) (field (text "currentMilestone") current end))

abbrev released : Fields
released = state_of_gates (closed end) (closed_after end) null

abbrev underway : Fields
underway =
    state_of_gates (state_with (text "in-progress") (text "not-evaluated") (text "open") end)
      (untouched_after end) (str (text "M1"))

abbrev exists : Text → Bool
exists path = false

abbrev register : List Entry
register =
    record {
      id = str (text "E1");
      entry =
          field (text "classification") (str (text "OBS"))
            (field (text "status") (str (text "observed")) end);
    }
    ∷ []

check_gates-IsGated_example : (s : Summary) × (s.current_milestone ≡ some (text "M1")) × IsGated s
unfolding text text_eq text_mem all get put keys merge get_or field_eq value_eq truthy milestone_ids
    group_specs allowed_proof_stages physical_proof_stages criterion_statuses stop_statuses
    milestone_statuses allowed_override_fields find_entry is_known entries_of is_observed
    validate_requirement_ids of_group validate_artifact_path check_references
    validate_resolved_criterion resolve_item resolve_group has_status is_stop blockers statuses_are
    check_status state_of one_in blocked_by_of check_milestone check_milestones check_group
    first_unsatisfied milestone_value release_groups release_ready states_for check_gates strings
    string_list repeats parts is_relative_path got in_set subset same_set object_or items_of array
    for_each collect any_of is_empty item and_then
check_gates-IsGated_example =
    (_, refl, check_gates-IsGated exists register catalog (text "R1" ∷ []) underway refl)

check_gates-IsReleasable_example :
    (s : Summary) × (s.current_milestone ≡ none) × IsReleasable exists register catalog s
unfolding text text_eq text_mem all get put keys merge get_or field_eq value_eq truthy milestone_ids
    group_specs allowed_proof_stages physical_proof_stages criterion_statuses stop_statuses
    milestone_statuses allowed_override_fields find_entry is_known entries_of is_observed
    validate_requirement_ids of_group validate_artifact_path check_references
    validate_resolved_criterion resolve_item resolve_group has_status is_stop blockers statuses_are
    check_status state_of one_in blocked_by_of check_milestone check_milestones check_group
    first_unsatisfied milestone_value release_groups release_ready states_for check_gates strings
    string_list repeats parts is_relative_path got in_set subset same_set object_or items_of array
    for_each collect any_of is_empty item and_then
check_gates-IsReleasable_example =
    (_, refl, check_gates-IsReleasable exists register catalog (text "R1" ∷ []) released refl refl)
