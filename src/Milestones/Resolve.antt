-- ===== src/Milestones/Resolve.antt =====
-- `resolve_group` and the functions that it calls: the status and the evidence of each criterion.
pub mod Backed
pub mod Complete
use dm_d5102q_rs485_bridge.Prelude.{
  Text, text, text_eq, Bool, true, false, not, ◌&&◌, Option, none, some, List, [], ◌∷◌,
  if◌then◌else◌, map, all,
}
use dm_d5102q_rs485_bridge.Value.{
  Value, str, list, nil, obj, Fields, end, field, get, get_or, keys, merge, value_eq, field_eq,
  truthy,
}
use dm_d5102q_rs485_bridge.Exec.{Result, ok, err, refused, require, ◌>>=◌, ◌>>◌}
use dm_d5102q_rs485_bridge.Ota.Reconcile.{item, and_then}
use dm_d5102q_rs485_bridge.Documents.{
  find_entry, is_known, Entry, is_empty, got, in_set, subset, repeats, string_list, array,
  is_relative_path, object_or, for_each, collect, any_of,
}
use dm_d5102q_rs485_bridge.Milestones.{
  Criterion, allowed_proof_stages, physical_proof_stages, criterion_statuses, stop_statuses,
  allowed_override_fields,
}

-- The entries of known ids
unfoldable pub entries_of : List Entry → List Text → List Fields
entries_of es [] = []
entries_of es (id ∷ ids) =
    let rest = entries_of es ids in elim (find_entry id es) [ none ↦ rest | some d ↦ d ∷ rest ]

-- Evidence that was seen, and is there.
unfoldable pub is_observed : Fields → Result Bool
is_observed d = and_then (ok (field_eq d (text "classification") (str (text "OBS")))) (
    in_set (got (text "status") d) (text "missing" ∷ text "unresolved" ∷ []) >>= λ lost.
    ok (not lost))

-- `validate_requirement_ids`
unfoldable pub validate_requirement_ids : Value → List Text → Result (List Text)
validate_requirement_ids v known = elim (string_list (some v)) [
  | none ↦ err (refused "must map to requirement IDs")
  | some ids ↦ do
    require (not (is_empty ids)) (refused "must map to at least one requirement")
    require (subset ids known) (refused "maps to unknown requirements")
    require (not (repeats ids)) (refused "repeats a requirement ID")
    ok ids
]

-- A criterion with the dict `resolved`; no field of an override has a name of the criterion's.
pub record Resolved : Type 0 where
  pub criterion : Criterion
  pub fields : Fields

-- `[item for item in catalog if item.group == group_id]`
unfoldable pub of_group : Text → List Criterion → List Criterion
of_group group [] = []
of_group group (c ∷ cs) =
    let rest = of_group group cs in if text_eq c.group group then c ∷ rest else rest

-- Whether a path of the repository exists
module _ (exists : Text → Bool) where
  -- `validate_artifact_path`
  unfoldable pub validate_artifact_path : Value → Result (Unit {0})
  validate_artifact_path (str path) = do
    require (is_relative_path path) (refused "artifact path is invalid or escapes the repository")
    require (exists path) (refused "artifact is missing")
  validate_artifact_path _ = err (refused "invalid artifact path")

  -- The tests on what a criterion refers to, and on what its status needs
  unfoldable pub check_references :
      List Entry → Fields → Value → Value → List Text → List Value → Result (Unit {0})
  check_references evidence resolved status proof_stage ids paths = do
    require (not (repeats ids)) (refused "repeats an evidence ID")
    require (all (is_known evidence) ids) (refused "references unknown evidence")
    for_each validate_artifact_path paths
    require (not (value_eq status (str (text "satisfied")) && is_empty ids && is_empty paths))
        (refused "satisfied without evidence or an artifact")
    physical ← in_set proof_stage physical_proof_stages
    observed ←
        if value_eq status (str (text "satisfied")) && physical
        then any_of is_observed (entries_of evidence ids)
        else ok true
    require observed (refused "claims satisfaction without observed evidence")
    stuck ← in_set status (text "blocked" ∷ text "triggered" ∷ [])
    require (not (stuck && not (truthy (get (text "blocker") resolved))))
        (refused "blocked or triggered without a blocker")

  -- `validate_resolved_criterion`
  unfoldable pub validate_resolved_criterion : Criterion → Fields → List Entry → Result (Unit {0})
  validate_resolved_criterion c resolved evidence = do
    status ← item resolved (text "status")
    allowed ←
        in_set status (if text_eq c.kind (text "stop") then stop_statuses else criterion_statuses)
    require allowed (refused "invalid status")
    proof_stage ← item resolved (text "proofStage")
    staged ← in_set proof_stage allowed_proof_stages
    require staged (refused "invalid proofStage")
    elim (string_list (some (get_or (text "evidenceIds") (list nil) resolved))) [
      | none ↦ err (refused "invalid evidenceIds")
      | some ids ↦ elim (array (get_or (text "artifactPaths") (list nil) resolved)) [
        | none ↦ err (refused "invalid artifactPaths")
        | some paths ↦ check_references evidence resolved status proof_stage ids paths
      ]
    ]

  -- One round of the loop of `resolve_group`
  unfoldable pub resolve_item :
      Fields → List Entry → Value → Value → Value → Value → Criterion → Result Resolved
  resolve_item overrides evidence default_status stop_default proof_stage requirement_ids c = do
    override ←
        object_or (err (refused "override must be an object")) (get_or c.id (obj end) overrides)
    require (subset (keys override) allowed_override_fields)
        (refused "override contains unsupported fields")
    let base =
        field (text "status")
          (if text_eq c.kind (text "stop") then stop_default else default_status)
          (field (text "proofStage") proof_stage
            (field (text "requirementIds") requirement_ids end))
    let fields = merge base override
    validate_resolved_criterion c fields evidence
    ok (record { criterion = c; fields = fields })

  -- `resolve_group`
  unfoldable pub resolve_group :
      List Criterion → Text → Fields → List Entry → List Text → Value → Result (List Resolved)
  resolve_group catalog group state evidence known stop_default = do
    overrides ←
        object_or (err (refused "overrides must be an object")) (got (text "overrides") state)
    require (subset (keys overrides) (map (λ (c : Criterion). c.id) (of_group group catalog)))
        (refused "unknown criterion overrides")
    staged ← in_set (got (text "defaultProofStage") state) allowed_proof_stages
    require staged (refused "invalid defaultProofStage")
    allowed ← in_set (got (text "defaultStatus") state) criterion_statuses
    require allowed (refused "invalid defaultStatus")
    ids ← validate_requirement_ids (got (text "requirementIds") state) known
    collect
        (resolve_item overrides evidence (got (text "defaultStatus") state) stop_default
          (got (text "defaultProofStage") state) (got (text "requirementIds") state))
        (of_group group catalog)
