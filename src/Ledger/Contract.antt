-- ===== src/Ledger/Contract.antt =====
-- `validate_contract` of scripts/validate_project_loop.py.
pub mod Sealed
use dm_d5102q_rs485_bridge.Prelude.{
  Text, text, text_eq, Bool, true, false, not, ◌&&◌, ◌||◌, Option, none, some, List, [], ◌∷◌,
  if◌then◌else◌, map, all,
}
use dm_d5102q_rs485_bridge.Prelude.Int.{pos}
use dm_d5102q_rs485_bridge.Value.{
  Value, str, int, list, nil, obj, Fields, end, field, get_or, keys, field_eq,
}
use dm_d5102q_rs485_bridge.Bytes.{hex}
use dm_d5102q_rs485_bridge.Exec.{Result, ok, err, refused, type_error, require, ◌>>=◌, ◌>>◌}
use dm_d5102q_rs485_bridge.Documents.{got, object_or, strings, has_container, same_set}
use dm_d5102q_rs485_bridge.Milestones.Repository.{amendment}
use dm_d5102q_rs485_bridge.Ledger.{sealed_prefix_rows, structured_fields}

-- `EXPECTED_CONTRACT_CANONICAL_SHA256`
unfoldable pub contract_sha256 : Text
contract_sha256 = text "864cc5695835563742c4cbb0d47a96e3e410f99320444c571180f4c0f143a51e"

-- `EXPECTED_DESIGN_SHA256`
unfoldable pub design_sha256 : Text
design_sha256 = text "d2ed6064f8bb4babc75a7877060684294728eaa9cefb351817ca33f9e2584114"

-- `EXPECTED_TARGET`
unfoldable pub expected_target : List (Text × Text)
expected_target =
    (text "boardId", text "m5stack-atom")
    ∷ (text "atomSku", text "C008")
    ∷ (text "baseSku", text "T002")
    ∷ (text "excludedBoard", text "Atom S3 Lite")
    ∷ (text "excludedPort", text "/dev/cu.usbmodem212201")
    ∷ (text "excludedUsbSerial", text "34:B7:DA:57:38:94")
    ∷ []

-- `EXPECTED_STATE_FILES`
unfoldable pub state_files : List Text
state_files =
    text ".arduino/goal.md"
    ∷ text ".arduino/next-todo.md"
    ∷ text ".arduino/board-profile.md"
    ∷ text ".arduino/resume-token.md"
    ∷ text ".arduino/experiment-log.jsonl"
    ∷ []

-- `EXPECTED_EVIDENCE_STAGES`
unfoldable pub evidence_stages : List Text
evidence_stages =
    text ".arduino/evidence/build"
    ∷ text ".arduino/evidence/upload"
    ∷ text ".arduino/evidence/hardware"
    ∷ text ".arduino/evidence/system"
    ∷ text ".arduino/evidence/deployment"
    ∷ []

-- `EXPECTED_LEDGER_PATH`
unfoldable pub ledger_path : Text
ledger_path = text ".arduino/experiment-log.jsonl"

-- `EXPECTED_SEALED_PREFIX_SHA256`
unfoldable pub sealed_prefix_sha256 : Text
sealed_prefix_sha256 = text "33563364927cfb9840348a7fd412326c9e02ef661ef9dff0c594678019a74ba4"

-- `EXPECTED_ROLLBACK`
unfoldable pub rollback : Fields
rollback =
    field (text "path") (str (text ".arduino/evidence/deployment/atom-lite-pre-smoke-4mb.bin")) (
      field (text "bytes") (int (pos 4194304)) (
        field (text "sha256")
          (str (text "3f2a06f6ecd7d8bf358201923d00b4f10bf5ad847cb66a1473d220b787e13c8c")) end))

-- `EXPECTED_IGNORE_RULES`
unfoldable pub ignore_rules : List Text
ignore_rules =
    text ".arduino/evidence/deployment/*.bin"
    ∷ text ".arduino/evidence/hardware/private/"
    ∷ text ".arduino/evidence/public-sources/raw/"
    ∷ []

-- `set(value) == names` for a set of strings: a list, the keys of a dict, or the characters of a
-- string. What cannot be iterated, or holds what cannot be hashed, raises.
unfoldable pub is_set_of : List Text → Value → Result Bool
is_set_of names (list vs) =
    if has_container vs
    then err type_error
    else elim (strings vs) [ none ↦ ok false | some ts ↦ ok (same_set ts names) ]
is_set_of names (obj d) = ok (same_set (keys d) names)
is_set_of names (str t) = ok (same_set (map (λ c. c ∷ []) t) names)
is_set_of names _ = err type_error

-- `set(d.get(key, [])) != names`
unfoldable pub require_set : Fields → Text → List Text → Result (Unit {0})
require_set d key names = do
  same ← is_set_of names (get_or key (list nil) d)
  require same (refused "project-loop contract changed")

unfoldable pub section : Fields → Text → Result Fields
section contract key = object_or (err (refused "section must be an object")) (got key contract)

-- The tests on `ledger`
unfoldable pub check_ledger_section : Fields → Result (Unit {0})
check_ledger_section ledger = do
  require (field_eq ledger (text "path") (str ledger_path)) (refused "project-loop ledger path")
  require (field_eq ledger (text "sealedPrefixRows") (int (pos sealed_prefix_rows)))
      (refused "project-loop sealedPrefixRows")
  require (field_eq ledger (text "sealedPrefixSha256") (str sealed_prefix_sha256))
      (refused "project-loop sealedPrefixSha256 changed")
  require (field_eq ledger (text "rowSchemaVersion") (int (pos 1)))
      (refused "project-loop rowSchemaVersion must be 1")
  require_set ledger (text "requiredFieldsAfterPrefix") structured_fields

-- `json.dumps` with sorted keys, and SHA-256
module _ (sha256 : Text → Text) (canonical : Fields → Text) where
  -- `canonical_sha256`
  unfoldable pub canonical_sha256 : Fields → Text
  canonical_sha256 value = hex (sha256 (canonical value))

  -- `validate_contract`
  unfoldable pub validate_contract : Fields → Result (Unit {0})
  validate_contract contract = do
    require (field_eq contract (text "schemaVersion") (int (pos 1)))
        (refused "project-loop contract schemaVersion must be 1")
    require (field_eq contract (text "designSha256") (str design_sha256))
        (refused "project-loop contract designSha256 changed")
    require (field_eq contract (text "designAmendment") (obj amendment))
        (refused "project-loop target amendment changed or is missing")
    require (field_eq contract (text "currentMilestone") (str (text "M0")))
        (refused "project-loop contract currentMilestone must remain M0")
    target ← section contract (text "target")
    require (all (λ (p : Text × Text). field_eq target p.0 (str p.1)) expected_target)
        (refused "project-loop contract target changed")
    require_set contract (text "stateFiles") state_files
    require_set contract (text "evidenceStageDirectories") evidence_stages
    next_todo ← section contract (text "nextTodo")
    require
        (field_eq next_todo (text "openTasks") (int (pos 1))
          && field_eq next_todo (text "owner") (str (text "user")))
        (refused "project-loop contract must retain one user-owned next action")
    ledger ← section contract (text "ledger")
    check_ledger_section ledger
    require (field_eq contract (text "rollbackArtifact") (obj rollback))
        (refused "project-loop rollback artifact contract changed")
    require_set contract (text "requiredIgnoreRules") ignore_rules
    require (text_eq (canonical_sha256 contract) contract_sha256)
        (refused "project-loop contract digest changed")
