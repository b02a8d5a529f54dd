-- ===== src/Milestones/Repository.antt =====
-- `validate_repository_milestones`, on the contents of the files that it reads.
use dm_d5102q_rs485_bridge.Prelude.{
  Text, text, text_eq, Bool, true, not, ◌&&◌, Option, none, some, List, [], ◌∷◌, if◌then◌else◌,
  ◌==◌, length, map, all,
}
use dm_d5102q_rs485_bridge.Prelude.Int.{pos}
use dm_d5102q_rs485_bridge.Value.{
  Value, null, str, int, list, nil, obj, Fields, end, field, get_or, keys, value_eq, field_eq,
}
use dm_d5102q_rs485_bridge.Bytes.{hex}
use dm_d5102q_rs485_bridge.Exec.{
  Result, ok, err, refused, type_error, attribute_error, require, ◌>>=◌, ◌>>◌,
}
use dm_d5102q_rs485_bridge.Documents.{
  distinct, value_mem, is_hashable, got, same_set, object_or, array, collect, Entry,
}
use dm_d5102q_rs485_bridge.Milestones.{Criterion, GroupSpec, milestone_ids, group_specs}
use dm_d5102q_rs485_bridge.Milestones.Catalog.{derive_catalog, validate_catalog}
use dm_d5102q_rs485_bridge.Milestones.Gate.{
  Report, GroupReport, check_milestones, check_group, first_unsatisfied, milestone_value,
  release_ready,
}

-- `EXPECTED_DESIGN_SHA256`
unfoldable pub design_sha256 : Text
design_sha256 = text "d2ed6064f8bb4babc75a7877060684294728eaa9cefb351817ca33f9e2584114"

-- `AMENDMENT` of scripts/target_contract.py
unfoldable pub amendment : Fields
amendment = field (text "id") (str (text "TARGET-T002-20260907")) (
    field (text "path") (str (text "docs/design/TARGET-AMENDMENT-T002-2026-09-07.md")) (
      field (text "sha256")
        (str (text "e511d76a211b12e225974dfcf24a1b5b2d3bddb6f00ee7f4981e6c3e1666cc45")) end))

-- `ACTIVE_TARGET` of scripts/target_contract.py
unfoldable pub active_target : Fields
active_target =
    field (text "atomSku") (str (text "C008")) (field (text "baseSku") (str (text "T002")) end)

-- The contents of the files. A file of JSON that is missing or holds none is `none`.
pub record Repository : Type 0 where
  pub design : Text
  pub state : Option Value
  pub amendment_text : Text
  pub requirements : Option Value
  pub vectors : Option Value
  pub evidence : Option Value

-- `load_json`
unfoldable pub load_json : Option Value → Result Fields
load_json none = err (refused "missing required file or invalid JSON")
load_json (some v) = object_or (err (refused "JSON root must be an object")) v

-- `entry.get("id")` of an entry that should be a dict
unfoldable pub entry_of : Value → Result Entry
entry_of (obj d) = ok (record { id = got (text "id") d; entry = d })
entry_of v = err attribute_error

-- `doc.get(key, [])` and its entries with their ids. What is iterated must be a list.
unfoldable pub entries_of_doc : Fields → Text → Result (List Entry)
entries_of_doc doc key = elim (array (get_or key (list nil) doc)) [
  | none ↦ err type_error
  | some vs ↦ do
    es ← collect entry_of vs
    if all (λ (e : Entry). is_hashable e.id) es then ok es else err type_error
]

unfoldable pub ids_of : List Entry → List Value
ids_of es = distinct (map (λ (e : Entry). e.id) es)

-- The strings among the ids
unfoldable pub texts_of : List Value → List Text
texts_of [] = []
texts_of (v ∷ vs) = let rest = texts_of vs in elim v [ str t ↦ t ∷ rest | _ ↦ rest ]

-- The tests on the state before the catalog is derived
unfoldable pub check_state : (Text → Text) → Fields → Text → Result (Unit {0})
check_state sha256 state amendment_text = do
  require (field_eq state (text "schemaVersion") (int (pos 1)))
      (refused "milestone state schemaVersion must be 1")
  require (field_eq state (text "designVersion") (str (text "1.0")))
      (refused "milestone state designVersion must be 1.0")
  require (field_eq state (text "designSha256") (str design_sha256))
      (refused "milestone state points to the wrong governing design hash")
  require (field_eq state (text "designAmendment") (obj amendment))
      (refused "milestone state target amendment changed or is missing")
  require (field_eq state (text "effectiveTarget") (obj active_target))
      (refused "milestone state effective target must be C008 plus T002")
  require (value_eq (str (hex (sha256 amendment_text))) (got (text "sha256") amendment))
      (refused "target amendment SHA-256 mismatch")

-- `state.get(key)` with exactly these keys
unfoldable pub states_for : Fields → Text → List Text → Result Fields
states_for state key names = do
  d ← object_or (err (refused "state is incomplete")) (got key state)
  require (same_set (keys d) names) (refused "state is incomplete")
  ok d

-- What is kept of the report
pub record Summary : Type 0 where
  pub catalog : List Criterion
  pub current_milestone : Option Text
  pub ready : Bool
  pub milestones : List Report
  pub groups : List GroupReport

module _ (exists : Text → Bool) where
  -- From the catalog on
  unfoldable pub check_gates : Fields → List Criterion → List Entry → List Text → Result Summary
  check_gates state catalog evidence known = do
    milestone_states ← states_for state (text "milestones") milestone_ids
    group_states ← states_for state (text "groups") (map (λ (g : GroupSpec). g.group) group_specs)
    reports ← check_milestones exists catalog evidence known milestone_states true milestone_ids
    require (field_eq state (text "currentMilestone") (milestone_value (first_unsatisfied reports)))
        (refused "currentMilestone must be the first unsatisfied milestone")
    groups ← collect (check_group exists catalog evidence known group_states) group_specs
    ok (record {
      catalog = catalog;
      current_milestone = first_unsatisfied reports;
      ready = release_ready reports groups;
      milestones = reports;
      groups = groups;
    })

  module _ (sha256 : Text → Text) (dumps : List Criterion → Text) where
    -- `validate_repository_milestones`
    unfoldable pub validate_repository_milestones : Repository → Result Summary
    validate_repository_milestones repo = do
      require (text_eq (hex (sha256 repo.design)) design_sha256)
          (refused "governing design hash changed")
      state ← load_json repo.state
      check_state sha256 state repo.amendment_text
      catalog ← derive_catalog sha256 dumps repo.design
      validate_catalog sha256 dumps catalog state
      requirements ← load_json repo.requirements
      vectors ← load_json repo.vectors
      require
          (field_eq requirements (text "designAmendment") (obj amendment)
            && field_eq vectors (text "designAmendment") (obj amendment))
          (refused "target amendment changed or is missing")
      known ← entries_of_doc requirements (text "requirements")
      require (not (value_mem null (ids_of known)) && length (ids_of known) == 11)
          (refused "top-level requirement baseline is malformed")
      register ← load_json repo.evidence
      evidence ← entries_of_doc register (text "entries")
      require
          (not (value_mem null (ids_of evidence)) && length (ids_of evidence) == length evidence)
          (refused "evidence register contains missing or duplicate IDs")
      check_gates state catalog evidence (texts_of (ids_of known))
