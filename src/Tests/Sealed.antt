-- ===== src/Tests/Sealed.antt =====
-- A contract with its pinned values, and a ledger of just the sealed rows. The hash is a function
-- that takes the two texts apart.
use dm_d5102q_rs485_bridge.Prelude.{
  ◌≡◌, refl, ◌≤◌, ℕ, zero, suc, Text, text, text_eq, text_mem, Option, none, some, List, [], ◌∷◌,
  all, take, length,
}
use dm_d5102q_rs485_bridge.Prelude.Int.{ℤ, pos}
use dm_d5102q_rs485_bridge.Value.{
  size, Value, str, int, list, nil, cons, obj, Items, Fields, end, field, get, get_or, keys,
  value_eq, field_eq,
}
use dm_d5102q_rs485_bridge.Bytes.{hex, hex8}
use dm_d5102q_rs485_bridge.Patterns.{is_hex_char, is_digit}
use dm_d5102q_rs485_bridge.Ota.Reconcile.{item}
use dm_d5102q_rs485_bridge.Documents.{
  is_filled, is_object, strings, string_list, repeats, parts, is_relative_path, got, object_or,
  has_container, subset, same_set,
}
use dm_d5102q_rs485_bridge.Milestones.Repository.{amendment}
use dm_d5102q_rs485_bridge.Ledger.{
  sealed_prefix_rows, core_fields, structured_fields, text_fields, split_lines, join,
  strip_line_end, ends_with_newline, all_filled, has_all, replace_z, is_sha256, parse_timestamp,
  parse_row, check_hash, check_link, check_changed_files, check_structured, if_structured,
  check_row, check_rows, validate_ledger,
}
use dm_d5102q_rs485_bridge.Ledger.Linked.{Linked}
use dm_d5102q_rs485_bridge.Ledger.Contract.{
  contract_sha256, design_sha256, expected_target, state_files, evidence_stages, ledger_path,
  sealed_prefix_sha256, rollback, ignore_rules, is_set_of, require_set, section,
  check_ledger_section, canonical_sha256, validate_contract,
}
use dm_d5102q_rs485_bridge.Ledger.Contract.Sealed.{validate_ledger-IsSealed}

abbrev hash : Text → Text
hash [] =
    134 ∷ 76 ∷ 197 ∷ 105 ∷ 88 ∷ 53 ∷ 86 ∷ 55 ∷ 66 ∷ 196 ∷ 203 ∷ 176 ∷ 212 ∷ 122 ∷ 150 ∷ 227 ∷ 228
    ∷ 16 ∷ 249 ∷ 147 ∷ 32 ∷ 68 ∷ 76 ∷ 87 ∷ 17 ∷ 128 ∷ 244 ∷ 192 ∷ 241 ∷ 67 ∷ 165 ∷ 30 ∷ []
hash (c ∷ s) =
    51 ∷ 86 ∷ 51 ∷ 100 ∷ 146 ∷ 124 ∷ 251 ∷ 152 ∷ 64 ∷ 52 ∷ 138 ∷ 127 ∷ 212 ∷ 18 ∷ 50 ∷ 108 ∷ 158 ∷ 2
    ∷ 239 ∷ 102 ∷ 30 ∷ 249 ∷ 223 ∷ 240 ∷ 197 ∷ 148 ∷ 103 ∷ 128 ∷ 25 ∷ 167 ∷ 75 ∷ 164 ∷ []

abbrev canonical : Fields → Text
canonical d = []

abbrev loads : Text → Option Value
loads _ = some (
    obj (
      field (text "timestamp") (str (text "t")) (
        field (text "stage") (str (text "build")) (field (text "result") (str (text "pass")) end))))

abbrev iso : Text → Option (Option ℤ)
iso _ = some (some (pos 5))

abbrev rows : ℕ → Text
rows zero = []
rows (suc n) = 97 ∷ 10 ∷ rows n

abbrev items : List Text → Items
items [] = nil
items (t ∷ ts) = cons (str t) (items ts)

abbrev pairs : List (Text × Text) → Fields
pairs [] = end
pairs ((k, v) ∷ ps) = field k (str v) (pairs ps)

abbrev ledger_section : Fields
ledger_section = field (text "path") (str ledger_path) (
    field (text "sealedPrefixRows") (int (pos 24)) (
      field (text "sealedPrefixSha256") (str sealed_prefix_sha256) (
        field (text "rowSchemaVersion") (int (pos 1))
          (field (text "requiredFieldsAfterPrefix") (list (items structured_fields)) end))))

abbrev contract : Fields
contract = field (text "schemaVersion") (int (pos 1)) (
    field (text "designSha256") (str design_sha256) (
      field (text "designAmendment") (obj amendment) (
        field (text "currentMilestone") (str (text "M0")) (
          field (text "target") (obj (pairs expected_target)) (
            field (text "stateFiles") (list (items state_files)) (
              field (text "evidenceStageDirectories") (list (items evidence_stages)) (
                field (text "nextTodo")
                  (obj (
                    field (text "openTasks") (int (pos 1))
                      (field (text "owner") (str (text "user")) end)))
                  (field (text "ledger") (obj ledger_section) (
                    field (text "rollbackArtifact") (obj rollback)
                      (field (text "requiredIgnoreRules") (list (items ignore_rules)) end))))))))))

validate_ledger-IsSealed_example :
    (hex (hash (join (take sealed_prefix_rows (split_lines (rows 24))))) ≡ sealed_prefix_sha256)
    × (sealed_prefix_rows ≤ length (split_lines (rows 24)))
    × Linked hash loads iso 1 none none (split_lines (rows 24))
unfolding all text text_eq text_mem get get_or keys field_eq value_eq hex hex8 is_hex_char is_digit
    item got object_or has_container subset same_set amendment core_fields structured_fields
    text_fields split_lines join strip_line_end ends_with_newline is_filled all_filled has_all
    is_object strings string_list repeats parts is_relative_path replace_z is_sha256 parse_timestamp
    parse_row check_hash check_link check_changed_files check_structured if_structured check_row
    check_rows validate_ledger contract_sha256 design_sha256 expected_target state_files
    evidence_stages ledger_path sealed_prefix_sha256 rollback ignore_rules is_set_of require_set
    section check_ledger_section canonical_sha256 validate_contract size
validate_ledger-IsSealed_example =
    validate_ledger-IsSealed hash canonical loads iso contract ledger_section (rows 24) refl refl
      refl
