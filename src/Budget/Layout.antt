-- ===== src/Budget/Layout.antt =====
-- `validate_partition_layout` and `validate_runtime_sample`. The numbers that the layout takes from
-- the budget are natural numbers: `validate_budget_contract` has fixed them.
pub mod Agree
pub mod Pinned
pub mod Metrics
pub mod Accepted
pub mod Sampled
use dm_d5102q_rs485_bridge.Prelude.{
  min, ℕ, ◌+◌, ◌-◌, Text, text, text_eq, Bool, true, not, ◌&&◌, ◌||◌, none, some, List, [], ◌∷◌,
  if◌then◌else◌, leb, map, all,
}
use dm_d5102q_rs485_bridge.Prelude.Int.{ℤ, pos, ltb_ℤ}
use dm_d5102q_rs485_bridge.Value.{Value, int, str, obj, Fields, end, field, get, value_eq}
use dm_d5102q_rs485_bridge.Exec.{
  Result, ok, err, refused, key_error, type_error, require, ◌>>=◌, ◌>>◌,
}
use dm_d5102q_rs485_bridge.Documents.{
  got, is_filled, array, for_each, collect, Entry, is_known, same_set, repeats,
}
use dm_d5102q_rs485_bridge.Ota.Reconcile.{item}
use dm_d5102q_rs485_bridge.Budget.{Partition, partition_end, validate_order}
use dm_d5102q_rs485_bridge.Budget.Contract.{require_object, index, is_one_of, number}

pub record LayoutMetrics : Type 0 where
  pub flash_bytes : ℕ
  pub app_slot_bytes : ℕ
  pub firmware_image_max_bytes : ℕ
  pub unallocated_spare_bytes : ℕ

unfoldable pub natural : Value → Result ℕ
natural (int (pos n)) = ok n
natural _ = err type_error

-- `item` under `item["name"]`
unfoldable pub named_item : Value → Result Entry
named_item (obj d) = do name ← item d (text "name"); ok (record { id = name; entry = d })
named_item _ = err type_error

-- `flash["partitions"]`
unfoldable pub items_at : Fields → Text → Result (List Value)
items_at d key = do v ← item d key; elim (array v) [ none ↦ err type_error | some vs ↦ ok vs ]

-- `by_name[name]`, of partitions with different names
unfoldable pub partition_at : Value → List Partition → Result Partition
partition_at name [] = err key_error
partition_at name (p ∷ ps) = if value_eq name (str p.name) then ok p else partition_at name ps

-- `actual_values`
unfoldable pub actual_values : Partition → Fields
actual_values p = field (text "type") (str p.partition_type) (
    field (text "subtype") (str p.subtype) (
      field (text "offsetBytes") (int (pos p.offset))
        (field (text "sizeBytes") (int (pos p.size)) (field (text "flags") (str p.flags) end))))

-- The loop over `expected.items()`
unfoldable pub fields_match : Partition → Fields → Bool
fields_match p end = true
fields_match p (field k v fs) =
    (text_eq k (text "name") || value_eq (got k (actual_values p)) v) && fields_match p fs

-- One round of the loop over `expected_by_name`
unfoldable pub check_expected : List Partition → Entry → Result (Unit {0})
check_expected partitions e = do
  actual ← partition_at e.id partitions
  require (fields_match actual e.entry) (refused "partition differs from the budget")

-- `set(by_name) == set(expected_by_name)`
unfoldable pub same_names : List Partition → List Entry → Bool
same_names partitions entries =
    all (λ (e : Entry). is_one_of (map (λ (p : Partition). p.name) partitions) e.id) entries
    && all (λ (p : Partition). is_known entries p.name) partitions

unfoldable pub app_partitions : List Partition → List Partition
app_partitions [] = []
app_partitions (p ∷ ps) =
    let rest = app_partitions ps in if text_eq p.partition_type (text "app") then p ∷ rest else rest

-- `min(item.size for item in partitions)` of at least one partition
unfoldable pub least_size : List Partition → ℕ
least_size [] = 0
least_size (p ∷ []) = p.size
least_size (p ∷ q ∷ ps) = min p.size (least_size (q ∷ ps))

-- `max(item.end for item in partitions)`
unfoldable pub greatest_end : List Partition → ℕ
greatest_end [] = 0
greatest_end (p ∷ ps) =
    let rest = greatest_end ps in if leb rest (partition_end p) then partition_end p else rest

unfoldable pub minimum_spare : Value → Result ℤ
minimum_spare (int n) = ok n
minimum_spare _ = err (refused "minimumUnallocatedSpareBytes must be an integer")

-- The tests on the application slots and on the space that is left
unfoldable pub check_slots : Fields → ℕ → List Partition → Result LayoutMetrics
check_slots flash total_flash partitions = do
  let apps = app_partitions partitions
  require (same_set (map (λ (p : Partition). p.subtype) apps) (text "ota_0" ∷ text "ota_1" ∷ []))
      (refused "layout must contain exactly the ota_0 and ota_1 application slots")
  limit ← item flash (text "firmwareImageMaxBytes")
  image_limit ← natural limit
  require (leb image_limit (least_size apps))
      (refused "firmware image limit exceeds an OTA application slot")
  let spare = total_flash - greatest_end partitions
  m ← minimum_spare (got (text "minimumUnallocatedSpareBytes") flash)
  require (not (ltb_ℤ (pos spare) m)) (refused "unallocated spare is too small")
  ok (record {
    flash_bytes = total_flash;
    app_slot_bytes = least_size apps;
    firmware_image_max_bytes = image_limit;
    unallocated_spare_bytes = spare;
  })

unfoldable pub natural_at : Fields → Text → Result ℕ
natural_at d key = do v ← item d key; natural v

-- `validate_partition_layout`
unfoldable pub validate_partition_layout : Fields → List Partition → Result LayoutMetrics
validate_partition_layout budget partitions = do
  target ← require_object budget (text "target")
  flash ← require_object budget (text "flash")
  total_flash ← natural_at target (text "flashBytes")
  offset ← natural_at flash (text "partitionTableOffsetBytes")
  size ← natural_at flash (text "partitionTableSizeBytes")
  require (not (repeats (map (λ (p : Partition). p.name) partitions)))
      (refused "partition CSV contains duplicate names")
  expected ← items_at flash (text "partitions")
  items ← collect named_item expected
  entries ← index items
  require (same_names partitions entries) (refused "partition set mismatch")
  for_each (check_expected partitions) entries
  validate_order (offset + size) total_flash partitions
  check_slots flash total_flash partitions

-- A measured value: an integer that is no Boolean
unfoldable pub integer : Value → Result ℤ
integer (int n) = ok n
integer _ = err (refused "runtime sample must be an integer")

-- One round of the loop of `validate_runtime_sample`
unfoldable pub check_measure : Fields → Fields → Text × Text → Result (Text × ℤ)
check_measure runtime sample (sample_key, budget_key) = do
  value ← integer (got sample_key sample)
  limit ← item runtime budget_key
  threshold ← number limit
  require (not (ltb_ℤ value threshold)) (refused "runtime sample is below its threshold")
  ok (sample_key, value)

-- `checks`
unfoldable pub measures : List (Text × Text)
measures =
    (text "steadyStateFreeHeapBytes", text "steadyStateFreeHeapMinBytes")
    ∷ (text "loadedFreeHeapBytes", text "loadedFreeHeapMinBytes")
    ∷ (text "largestFreeBlockBytes", text "largestFreeBlockMinBytes")
    ∷ []

-- `validate_runtime_sample`
unfoldable pub validate_runtime_sample : Fields → Fields → Result (List (Text × ℤ))
validate_runtime_sample budget sample = do
  target ← require_object budget (text "target")
  runtime ← require_object budget (text "runtime")
  board ← item target (text "boardId")
  require (value_eq (got (text "targetBoardId") sample) board)
      (refused "runtime sample targetBoardId does not match the budget")
  sku ← item target (text "sku")
  require (value_eq (got (text "targetSku") sample) sku)
      (refused "runtime sample targetSku does not match the budget")
  require (is_filled (get (text "buildId") sample))
      (refused "runtime sample requires a non-empty buildId")
  require (is_filled (get (text "capturedAt") sample))
      (refused "runtime sample requires a non-empty capturedAt")
  collect (check_measure runtime sample) measures
