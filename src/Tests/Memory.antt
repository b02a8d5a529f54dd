-- ===== src/Tests/Memory.antt =====
-- requirements/memory-budget.json and partitions/dmbridge_ota.csv.
use dm_d5102q_rs485_bridge.Prelude.{
  ◌≡◌, refl, ℕ, false, Text, text, text_eq, text_mem, List, [], ◌∷◌, all, some,
}
use dm_d5102q_rs485_bridge.Prelude.Int.{ℤ, pos}
use dm_d5102q_rs485_bridge.Value.{
  Value, str, int, bool, list, nil, cons, obj, Fields, end, field, get, get_or, keys, merge, put,
  value_eq, field_eq, is_bool, bool_int,
}
use dm_d5102q_rs485_bridge.Exec.{ok, err}
use dm_d5102q_rs485_bridge.Documents.{
  got, object_or, array, items_of, for_each, collect, find_entry, is_known, is_hashable, file_entry,
  file_entries, repeats, subset, same_set, is_filled, is_empty,
}
use dm_d5102q_rs485_bridge.Ota.Reconcile.{item}
use dm_d5102q_rs485_bridge.Patterns.{is_digit, starts_with}
use dm_d5102q_rs485_bridge.Strings.{
  is_space, lstrip, rstrip, strip, is_int_space, int_lstrip, digit_value, read_digits,
  read_prefixed, read_zero, read_unsigned, read_signed, read_int,
}
use dm_d5102q_rs485_bridge.Budget.{
  Partition, partition_end, insert_by_offset, sort_by_offset, lower, filesystem_subtypes, alignment,
  check_partition, check_ordered, validate_order,
}
use dm_d5102q_rs485_bridge.Budget.Table.{
  multiplier, without_last, scaled, parse_size, parse_cells, is_skipped, parse_rows,
  parse_partitions,
}
use dm_d5102q_rs485_bridge.Budget.Contract.{
  design_sha256, expected_partitions, require_object, exact_int, require_exact_int, named, index,
  entry_at, is_one_of, names_are, check_row, number, size_at, has_size, check_partitions,
  check_runtime, check_flash, partitions_of, validate_budget_contract,
}
use dm_d5102q_rs485_bridge.Budget.Layout.{
  LayoutMetrics, natural, named_item, items_at, partition_at, actual_values, fields_match,
  check_expected, same_names, app_partitions, least_size, greatest_end, minimum_spare, check_slots,
  natural_at, validate_partition_layout, integer, check_measure, measures, validate_runtime_sample,
}
use dm_d5102q_rs485_bridge.Budget.Layout.Metrics.{IsPinned}
use dm_d5102q_rs485_bridge.Budget.Layout.Accepted.{validate_partition_layout-IsPinned}
use dm_d5102q_rs485_bridge.Budget.Layout.Sampled.{IsSampled, validate_runtime_sample-IsSampled}

abbrev entry : Text → Text → Text → ℕ → ℕ → Value
entry name kind subtype offset size = obj (
    field (text "name") (str name) (
      field (text "type") (str kind) (
        field (text "subtype") (str subtype) (
          field (text "offsetBytes") (int (pos offset))
            (field (text "sizeBytes") (int (pos size)) (field (text "flags") (str []) end))))))

abbrev target : Value
target = obj (
    field (text "boardId") (str (text "m5stack-atom"))
      (field (text "sku") (str (text "C008")) (field (text "flashBytes") (int (pos 4194304)) end)))

abbrev partition_entries : Value
partition_entries = list (
    cons (entry (text "nvs") (text "data") (text "nvs") 36864 20480) (
      cons (entry (text "otadata") (text "data") (text "ota") 57344 8192) (
        cons (entry (text "app0") (text "app") (text "ota_0") 65536 1572864) (
          cons (entry (text "app1") (text "app") (text "ota_1") 1638400 1572864)
            (cons (entry (text "diag_nvs") (text "data") (text "nvs") 3211264 20480) nil)))))

abbrev flash : Value
flash = obj (
    field (text "partitionCsv") (str (text "partitions/dmbridge_ota.csv")) (
      field (text "partitionTableOffsetBytes") (int (pos 32768)) (
        field (text "partitionTableSizeBytes") (int (pos 4096)) (
          field (text "firmwareImageMaxBytes") (int (pos 1310720)) (
            field (text "minimumUnallocatedSpareBytes") (int (pos 962560)) (
              field (text "filesystemRequired") (bool false)
                (field (text "partitions") partition_entries end)))))))

abbrev runtime : Value
runtime = obj (
    field (text "status") (str (text "unverified")) (
      field (text "steadyStateFreeHeapMinBytes") (int (pos 81920)) (
        field (text "loadedFreeHeapMinBytes") (int (pos 51200)) (
          field (text "largestFreeBlockMinBytes") (int (pos 32768))
            (field (text "proofStage") (str (text "target-system")) end)))))

abbrev budget : Fields
budget = field (text "schemaVersion") (int (pos 1)) (
    field (text "designSha256")
      (str (text "d2ed6064f8bb4babc75a7877060684294728eaa9cefb351817ca33f9e2584114"))
      (field (text "target") target
        (field (text "flash") flash (field (text "runtime") runtime end))))

abbrev cells : Text → Text → Text → Text → Text → List Text
cells name kind subtype offset size = name ∷ kind ∷ subtype ∷ offset ∷ size ∷ [] ∷ []

-- Sizes in hexadecimal, in decimal and with a suffix, and a comment
abbrev rows : List (List Text)
rows =
    (text "# Name" ∷ text " Type" ∷ [])
    ∷ cells (text "nvs") (text "data") (text " nvs") (text "0x9000") (text "20K")
    ∷ cells (text "otadata") (text "data") (text "ota") (text "57344") (text "8k")
    ∷ []
    ∷ cells (text "app0") (text "app") (text "ota_0") (text "0x1_0000") (text "0x180000")
    ∷ cells (text "app1") (text "app") (text "ota_1") (text " 0X190000 ") (text "1572864")
    ∷ cells (text "diag_nvs") (text "data") (text "nvs") (text "0o14200000") (text "0x5000")
    ∷ []

abbrev partition : Text → Text → Text → ℕ → ℕ → ℕ → Partition
partition name kind subtype offset size line = record {
  name = name;
  partition_type = kind;
  subtype = subtype;
  offset = offset;
  size = size;
  flags = [];
  line_number = line;
}

abbrev partitions : List Partition
partitions =
    partition (text "nvs") (text "data") (text "nvs") 0x9000 0x5000 2
    ∷ partition (text "otadata") (text "data") (text "ota") 0xe000 0x2000 3
    ∷ partition (text "app0") (text "app") (text "ota_0") 0x10000 0x180000 5
    ∷ partition (text "app1") (text "app") (text "ota_1") 0x190000 0x180000 6
    ∷ partition (text "diag_nvs") (text "data") (text "nvs") 0x310000 0x5000 7
    ∷ []

rows_parsed : parse_partitions (some rows) ≡ ok partitions
unfolding text text_eq all multiplier without_last scaled parse_size parse_cells is_skipped
    parse_rows parse_partitions is_space lstrip rstrip strip is_int_space int_lstrip digit_value
    read_digits read_prefixed read_zero read_unsigned read_signed read_int is_digit starts_with
    is_empty
rows_parsed = refl

suffix_alone_refused : (e : _) × (parse_size (text "K") ≡ err e)
unfolding text text_eq multiplier without_last scaled parse_size is_space lstrip rstrip strip
    is_int_space int_lstrip digit_value read_digits read_unsigned read_signed read_int is_digit
    is_empty
suffix_alone_refused = (_, refl)

validate_partition_layout-IsPinned_example :
    (m : LayoutMetrics) × (m.unallocated_spare_bytes ≡ 962560) × IsPinned partitions m
unfolding text text_eq text_mem all get put keys merge get_or value_eq field_eq is_bool bool_int got
    object_or array items_of for_each collect find_entry is_known is_hashable file_entry
    file_entries repeats subset same_set is_filled item partition_end insert_by_offset
    sort_by_offset lower filesystem_subtypes alignment check_partition check_ordered validate_order
    design_sha256 expected_partitions require_object exact_int require_exact_int named index
    entry_at is_one_of names_are check_row number size_at has_size check_partitions check_runtime
    check_flash partitions_of validate_budget_contract natural named_item items_at partition_at
    actual_values fields_match check_expected same_names app_partitions least_size greatest_end
    minimum_spare check_slots natural_at validate_partition_layout integer check_measure measures
    validate_runtime_sample
validate_partition_layout-IsPinned_example =
    (_, refl, validate_partition_layout-IsPinned budget partitions refl refl)

abbrev sample : Fields
sample = field (text "targetBoardId") (str (text "m5stack-atom")) (
    field (text "targetSku") (str (text "C008")) (
      field (text "buildId") (str (text "b1")) (
        field (text "capturedAt") (str (text "today")) (
          field (text "steadyStateFreeHeapBytes") (int (pos 81920)) (
            field (text "loadedFreeHeapBytes") (int (pos 60000))
              (field (text "largestFreeBlockBytes") (int (pos 40000)) end))))))

validate_runtime_sample-IsSampled_example : (ms : List (Text × ℤ)) × IsSampled sample ms
unfolding text text_eq text_mem all get put keys merge get_or value_eq field_eq is_bool bool_int got
    object_or array items_of for_each collect find_entry is_known is_hashable file_entry
    file_entries repeats subset same_set is_filled item partition_end insert_by_offset
    sort_by_offset lower filesystem_subtypes alignment check_partition check_ordered validate_order
    design_sha256 expected_partitions require_object exact_int require_exact_int named index
    entry_at is_one_of names_are check_row number size_at has_size check_partitions check_runtime
    check_flash partitions_of validate_budget_contract natural named_item items_at partition_at
    actual_values fields_match check_expected same_names app_partitions least_size greatest_end
    minimum_spare check_slots natural_at validate_partition_layout integer check_measure measures
    validate_runtime_sample
validate_runtime_sample-IsSampled_example =
    (_, validate_runtime_sample-IsSampled budget sample refl refl)
