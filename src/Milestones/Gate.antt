-- ===== src/Milestones/Gate.antt =====
-- The loops of `validate_repository_milestones` over the milestones and over the groups, and what
-- it derives from their reports. The counts by status and the test ids of a report are left out.
pub mod Order
pub mod Frontier
pub mod Complete
use dm_d5102q_rs485_bridge.Prelude.{
  Text, text, text_eq, text_mem, Bool, true, false, not, ◌&&◌, ◌||◌, Option, none, some, List, [],
  ◌∷◌, ◌++◌, if◌then◌else◌, map, all, any,
}
use dm_d5102q_rs485_bridge.Value.{
  Value, null, str, list, nil, obj, Fields, get_or, keys, value_eq, field_eq,
}
use dm_d5102q_rs485_bridge.Exec.{
  Result, ok, err, refused, key_error, attribute_error, require, ◌>>=◌, ◌>>◌,
}
use dm_d5102q_rs485_bridge.Documents.{
  got, in_set, subset, same_set, string_list, object_or, is_empty, Entry,
}
use dm_d5102q_rs485_bridge.Milestones.{
  Criterion, GroupSpec, milestone_ids, group_specs, milestone_statuses, stop_statuses,
}
use dm_d5102q_rs485_bridge.Milestones.Resolve.{Resolved, resolve_group}

-- `item["status"] == status` of a resolved criterion
unfoldable pub has_status : Text → Resolved → Bool
has_status status r = field_eq r.fields (text "status") (str status)

unfoldable pub is_stop : Resolved → Bool
is_stop r = text_eq r.criterion.kind (text "stop")

-- `blockers`
unfoldable pub blockers : List Resolved → List Text
blockers [] = []
blockers (r ∷ rs) =
    let rest = blockers rs in
    if has_status (text "blocked") r || has_status (text "triggered") r
    then r.criterion.id ∷ rest
    else rest

-- Each criterion that is no stop condition has the one status, each stop condition the other.
unfoldable pub statuses_are : Text → Text → List Resolved → Bool
statuses_are work stop resolved =
    all (λ r. if is_stop r then has_status stop r else has_status work r) resolved

-- The tests on a milestone's status, against its criteria and the milestones before it
unfoldable pub check_status : Bool → Text → List Resolved → List Text → Result (Unit {0})
check_status prior_satisfied status resolved blocked_by =
    if text_eq status (text "satisfied")
    then (do
      require prior_satisfied (refused "cannot be satisfied before every prior milestone")
      require (statuses_are (text "satisfied") (text "clear") resolved)
          (refused "satisfied with open criteria or without a clear stop condition"))
    else if text_eq status (text "blocked")
    then (do
      require (not (is_empty (blockers resolved)) && not (is_empty blocked_by))
          (refused "blocked without explicit blocking criteria")
      require (subset blocked_by (blockers resolved))
          (refused "blockedBy must name currently blocked or triggered criteria"))
    else if text_eq status (text "not-started")
    then require (statuses_are (text "not-started") (text "not-evaluated") resolved)
        (refused "not-started but with advanced criteria or an evaluated stop condition")
    else require (not (text_eq status (text "in-progress")) || prior_satisfied)
        (refused "cannot start before every prior milestone is satisfied")

-- What is kept of `milestone_reports[milestone_id]`
pub record Report : Type 0 where
  pub id : Text
  pub status : Text
  pub blocked_by : List Text
  pub items : List Resolved

pub record GroupReport : Type 0 where
  pub id : Text
  pub items : List Resolved

-- `d[key]` where the keys of `d` have been checked
unfoldable pub state_of : Fields → Text → Result Fields
state_of states id = object_or (err (refused "state must be an object")) (got id states)

-- A string of a set of strings
unfoldable pub one_in : Value → List Text → Result Text
one_in (str t) names = if text_mem t names then ok t else err (refused "invalid status")
one_in v names = in_set v names >>= λ found. err (refused "invalid status")

-- `blockedBy`, a list of strings
unfoldable pub blocked_by_of : Fields → Result (List Text)
blocked_by_of state = elim (string_list (some (get_or (text "blockedBy") (list nil) state))) [
  | none ↦ err (refused "invalid blockedBy")
  | some ids ↦ ok ids
]

module _ (exists : Text → Bool) (catalog : List Criterion) (evidence : List Entry)
    (known : List Text) where
  -- One round of the loop over the milestones
  unfoldable pub check_milestone : Fields → Bool → Text → Result Report
  check_milestone states prior_satisfied id = do
    state ← state_of states id
    status ← one_in (got (text "status") state) milestone_statuses
    stop_default ← one_in (got (text "defaultStopStatus") state) stop_statuses
    resolved ← resolve_group exists catalog id state evidence known (str stop_default)
    blocked_by ← blocked_by_of state
    require (subset blocked_by (milestone_ids ++ map (λ (r : Resolved). r.criterion.id) resolved))
        (refused "unknown blockedBy references")
    check_status prior_satisfied status resolved blocked_by
    ok (record { id = id; status = status; blocked_by = blocked_by; items = resolved })

  -- The loop, with `prior_satisfied` as it is before the first of the milestones
  unfoldable pub check_milestones : Fields → Bool → List Text → Result (List Report)
  check_milestones states prior_satisfied [] = ok []
  check_milestones states prior_satisfied (id ∷ ids) = do
    report ← check_milestone states prior_satisfied id
    rest ← check_milestones states (prior_satisfied && text_eq report.status (text "satisfied")) ids
    ok (report ∷ rest)

  -- `resolve_group` of a global group. A state that is no dict has no `get`.
  unfoldable pub check_group : Fields → GroupSpec → Result GroupReport
  check_group states g = do
    state ← object_or (err attribute_error) (got g.group states)
    resolved ← resolve_group exists catalog g.group state evidence known null
    ok (record { id = g.group; items = resolved })

-- `first_unsatisfied`
unfoldable pub first_unsatisfied : List Report → Option Text
first_unsatisfied [] = none
first_unsatisfied (r ∷ rs) =
    let rest = first_unsatisfied rs in
    if text_eq r.status (text "satisfied") then rest else some r.id

-- The value that `currentMilestone` must have
unfoldable pub milestone_value : Option Text → Value
milestone_value none = null
milestone_value (some id) = str id

-- The groups that a release needs
unfoldable pub release_groups : List Text
release_groups =
    text "quantitative-acceptance"
    ∷ text "release-definition"
    ∷ text "implementation-checklist"
    ∷ []

-- `release_ready`
unfoldable pub release_ready : List Report → List GroupReport → Bool
release_ready reports groups =
    all (λ (r : Report). text_eq r.status (text "satisfied")) reports
    && all
        (λ (g : GroupReport).
          not (text_mem g.id release_groups) || all (has_status (text "satisfied")) g.items)
        groups
