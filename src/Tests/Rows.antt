-- ===== src/Tests/Rows.antt =====
-- A ledger of twenty-five rows, the last of them linked.
use dm_d5102q_rs485_bridge.Prelude.{
  drop, ◌⊎◌, ◌++◌, ◌≡◌, ◌≤◌, refl, ℕ, zero, suc, ◌∷◌, [], Text, text, text_eq, text_mem, true,
  Option, some, none, replicate, length, take, all,
}
use dm_d5102q_rs485_bridge.Prelude.Int.{ℤ, pos}
use dm_d5102q_rs485_bridge.Value.{
  Value, Fields, end, field, str, int, list, nil, cons, obj, get, field_eq, value_eq,
}
use dm_d5102q_rs485_bridge.Bytes.{hex}
use dm_d5102q_rs485_bridge.Patterns.{is_hex_char, is_digit}
use dm_d5102q_rs485_bridge.Ota.Reconcile.{item}
use dm_d5102q_rs485_bridge.Ledger.{
  sealed_prefix_rows, core_fields, structured_fields, text_fields, split_lines, join,
  strip_line_end, ends_with_newline, all_filled, has_all, replace_z, is_sha256, parse_timestamp,
  parse_row, check_hash, check_link, check_changed_files, check_structured, if_structured,
  check_row, check_rows, validate_ledger,
}
use dm_d5102q_rs485_bridge.Documents.{
  is_filled, is_object, strings, string_list, repeats, parts, is_relative_path,
}
use dm_d5102q_rs485_bridge.Ledger.Tamper.{
  SameEnd, more, last, contents, Collision, same_last_row_same_ledger,
}
use dm_d5102q_rs485_bridge.Ledger.Linked.{Linked, validate_ledger_sound}

abbrev hash : Text → Text
hash _ = replicate 32 0

abbrev zeros : Text
zeros = replicate 64 48

abbrev row : Fields
row = field (text "schemaVersion") (int (pos 1)) (
    field (text "previousRowSha256") (str zeros) (
      field (text "timestamp") (str (text "t")) (
        field (text "stage") (str (text "build")) (
          field (text "hypothesis") (str (text "h")) (
            field (text "changed_files") (list (cons (str (text "a/b")) nil)) (
              field (text "command") (str (text "c")) (
                field (text "result") (str (text "pass")) (
                  field (text "metric") (obj end) (
                    field (text "gates") (obj end) (
                      field (text "acceptance") (str (text "a")) (
                        field (text "rollback") (str (text "r")) (
                          field (text "lesson") (str (text "l"))
                            (field (text "next_candidate") (str (text "n")) end)))))))))))))

abbrev loads : Text → Option Value
loads _ = some (obj row)

abbrev iso : Text → Option (Option ℤ)
iso _ = some (some (pos 5))

abbrev lines_of : ℕ → Text
lines_of zero = []
lines_of (suc n) = 97 ∷ 10 ∷ lines_of n

abbrev raw : Text
raw = lines_of 25

abbrev contract : Fields
contract =
    field (text "sealedPrefixSha256") (str zeros)
      (field (text "rowSchemaVersion") (int (pos 1)) end)

validate_ledger_sound_example :
    (digest : Value) × (get (text "sealedPrefixSha256") contract ≡ some digest)
    × (value_eq (str (hex (hash (join (take sealed_prefix_rows (split_lines raw)))))) digest ≡ true)
    × (sealed_prefix_rows ≤ length (split_lines raw))
    × Linked hash loads iso 1 none none (split_lines raw)
unfolding all text text_eq text_mem get field_eq value_eq hex is_hex_char is_digit item core_fields
    structured_fields text_fields split_lines join strip_line_end ends_with_newline is_filled
    all_filled has_all is_object strings string_list repeats parts is_relative_path replace_z
    is_sha256 parse_timestamp parse_row check_hash check_link check_changed_files check_structured
    if_structured check_row check_rows validate_ledger
validate_ledger_sound_example = validate_ledger_sound hash loads iso raw contract refl

-- The last row ends differently.
abbrev other : Text
other = lines_of 24 ++ (97 ∷ 13 ∷ 10 ∷ [])

same_end : SameEnd (split_lines raw) (split_lines other)
unfolding text text_eq text_mem split_lines strip_line_end ends_with_newline
same_end = more (
    more (
      more (
        more (
          more (
            more (
              more (
                more (
                  more (
                    more (
                      more (
                        more (
                          more (
                            more (
                              more (
                                more (
                                  more (
                                    more (
                                      more (
                                        more
                                          (more (more (more (more (last refl))))))))))))))))))))))))

same_last_row_same_ledger_example :
    ((join (take sealed_prefix_rows (split_lines raw))
        ≡ join (take sealed_prefix_rows (split_lines other)))
      × (contents (drop sealed_prefix_rows (split_lines raw))
          ≡ contents (drop sealed_prefix_rows (split_lines other))))
    ⊎ Collision hash loads iso raw other
unfolding all text text_eq text_mem get field_eq value_eq hex is_hex_char is_digit item core_fields
    structured_fields text_fields split_lines join strip_line_end ends_with_newline is_filled
    all_filled has_all is_object strings string_list repeats parts is_relative_path replace_z
    is_sha256 parse_timestamp parse_row check_hash check_link check_changed_files check_structured
    if_structured check_row check_rows validate_ledger
same_last_row_same_ledger_example =
    same_last_row_same_ledger hash loads iso raw other contract refl refl same_end
