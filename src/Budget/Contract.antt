-- ===== src/Budget/Contract.antt =====
-- `validate_budget_contract` and the constants that it compares with.
pub mod Fixed
use dm_d5102q_rs485_bridge.Prelude.{
  ℕ, ◌*◌, Text, text, text_mem, Bool, false, not, ◌&&◌, none, some, List, [], ◌∷◌, if◌then◌else◌,
  ◌==◌, length, map, all,
}
use dm_d5102q_rs485_bridge.Prelude.Int.{ℤ, pos, eqb_ℤ, ltb_ℤ}
use dm_d5102q_rs485_bridge.Value.{
  Value, bool, int, str, obj, Fields, get, bool_int, value_eq, field_eq, is_bool,
}
use dm_d5102q_rs485_bridge.Exec.{
  Result, ok, err, refused, key_error, type_error, require, ◌>>=◌, ◌>>◌,
}
use dm_d5102q_rs485_bridge.Documents.{
  got, object_or, array, for_each, Entry, find_entry, is_known, is_hashable, file_entries,
}
use dm_d5102q_rs485_bridge.Ota.Reconcile.{item}

-- `DESIGN_SHA256`
unfoldable pub design_sha256 : Text
design_sha256 = text "d2ed6064f8bb4babc75a7877060684294728eaa9cefb351817ca33f9e2584114"

-- One entry of `EXPECTED_PARTITIONS`
pub record Row : Type 0 where
  pub name : Text
  pub partition_type : Text
  pub subtype : Text
  pub offset : ℕ
  pub size : ℕ
  pub flags : Text

abbrev row : Text → Text → Text → ℕ → ℕ → Row
row name kind subtype offset size = record {
  name = name;
  partition_type = kind;
  subtype = subtype;
  offset = offset;
  size = size;
  flags = [];
}

-- `EXPECTED_PARTITIONS`
unfoldable pub expected_partitions : List Row
expected_partitions =
    row (text "nvs") (text "data") (text "nvs") 0x9000 0x5000
    ∷ row (text "otadata") (text "data") (text "ota") 0xe000 0x2000
    ∷ row (text "app0") (text "app") (text "ota_0") 0x10000 0x180000
    ∷ row (text "app1") (text "app") (text "ota_1") 0x190000 0x180000
    ∷ row (text "diag_nvs") (text "data") (text "nvs") 0x310000 0x5000
    ∷ []

-- `FLASH_BYTES`
abbrev pub flash_bytes : ℕ
flash_bytes = 0x400000

-- `PARTITION_TABLE_OFFSET_BYTES`
abbrev pub table_offset : ℕ
table_offset = 0x8000

-- `PARTITION_TABLE_SIZE_BYTES`
abbrev pub table_size : ℕ
table_size = 0x1000

-- `FIRMWARE_IMAGE_MAX_BYTES`
abbrev pub image_max : ℕ
image_max = 0x140000

-- `APP_SLOT_BYTES`
abbrev pub app_slot_bytes : ℕ
app_slot_bytes = 0x180000

-- `NVS_MIN_BYTES`
abbrev pub nvs_min : ℕ
nvs_min = 20 * 1024

-- `OTA_DATA_BYTES`
abbrev pub ota_data_bytes : ℕ
ota_data_bytes = 8 * 1024

-- `STEADY_HEAP_MIN_BYTES`
abbrev pub steady_heap_min : ℕ
steady_heap_min = 80 * 1024

-- `LOADED_HEAP_MIN_BYTES`
abbrev pub loaded_heap_min : ℕ
loaded_heap_min = 50 * 1024

-- `LARGEST_BLOCK_MIN_BYTES`
abbrev pub largest_block_min : ℕ
largest_block_min = 32 * 1024

-- `MIN_UNALLOCATED_SPARE_BYTES`
abbrev pub spare_min : ℕ
spare_min = 0xeb000

-- `require_object`
unfoldable pub require_object : Fields → Text → Result Fields
require_object parent key = object_or (err (refused "must be an object")) (got key parent)

unfoldable pub exact_int : Value → ℕ → Result (Unit {0})
exact_int (int m) n = require (eqb_ℤ m (pos n)) (refused "must be another integer")
exact_int _ n = err (refused "must be an integer")

-- `require_exact_int`
unfoldable pub require_exact_int : Fields → Text → ℕ → Result (Unit {0})
require_exact_int parent key expected = exact_int (got key parent) expected

-- `item` under `item.get("name")`, for the items that are dicts
unfoldable pub named : List Value → List Entry
named [] = []
named (v ∷ vs) =
    let rest = named vs in
    elim v [ obj d ↦ record { id = got (text "name") d; entry = d } ∷ rest | _ ↦ rest ]

-- What must be able to be a key
unfoldable pub index : List Entry → Result (List Entry)
index es =
    if all (λ (e : Entry). is_hashable e.id) es then ok (file_entries [] es) else err type_error

-- `d[key]`, where the keys are known
unfoldable pub entry_at : Text → List Entry → Result Fields
entry_at name es = elim (find_entry name es) [ none ↦ err key_error | some d ↦ ok d ]

unfoldable pub is_one_of : List Text → Value → Bool
is_one_of names (str t) = text_mem t names
is_one_of names _ = false

-- `set(entries) == set(names)`
unfoldable pub names_are : List Entry → List Text → Bool
names_are es names = all (λ (e : Entry). is_one_of names e.id) es && all (is_known es) names

-- One round of the loop over `EXPECTED_PARTITIONS`
unfoldable pub check_row : List Entry → Row → Result (Unit {0})
check_row entries r = do
  entry ← entry_at r.name entries
  require (field_eq entry (text "type") (str r.partition_type)) (refused "wrong partition type")
  require (field_eq entry (text "subtype") (str r.subtype)) (refused "wrong partition subtype")
  require_exact_int entry (text "offsetBytes") r.offset
  require_exact_int entry (text "sizeBytes") r.size
  require (field_eq entry (text "flags") (str r.flags)) (refused "partition flags must be empty")

-- A number as `<` compares it
unfoldable pub number : Value → Result ℤ
number (int n) = ok n
number (bool b) = ok (bool_int b)
number _ = err type_error

unfoldable pub size_at : List Entry → Text → Result Value
size_at entries name = do entry ← entry_at name entries; item entry (text "sizeBytes")

-- `entries[name]["sizeBytes"] == n`
unfoldable pub has_size : List Entry → Text → ℕ → Result (Unit {0})
has_size entries name n = do
  size ← size_at entries name
  require (value_eq size (int (pos n))) (refused "wrong partition size")

-- The tests on `flash.partitions`
unfoldable pub check_partitions : List Value → Result (Unit {0})
check_partitions expected = do
  require (length expected == 5) (refused "flash.partitions must define exactly five partitions")
  entries ← index (named expected)
  require (length entries == length expected) (refused "invalid or duplicate name")
  require (names_are entries (map (λ (r : Row). r.name) expected_partitions))
      (refused "flash.partitions does not match the fixed M0 layout")
  for_each (check_row entries) expected_partitions
  nvs ← size_at entries (text "nvs")
  n ← number nvs
  require (not (ltb_ℤ n (pos nvs_min))) (refused "primary NVS partition is below 20 KiB")
  has_size entries (text "otadata") ota_data_bytes
  has_size entries (text "app0") app_slot_bytes
  has_size entries (text "app1") app_slot_bytes

-- The tests on `runtime`
unfoldable pub check_runtime : Fields → Result (Unit {0})
check_runtime runtime = do
  require_exact_int runtime (text "steadyStateFreeHeapMinBytes") steady_heap_min
  require_exact_int runtime (text "loadedFreeHeapMinBytes") loaded_heap_min
  require_exact_int runtime (text "largestFreeBlockMinBytes") largest_block_min
  require (field_eq runtime (text "status") (str (text "unverified")))
      (refused "runtime.status must remain unverified")
  require (field_eq runtime (text "proofStage") (str (text "target-system")))
      (refused "runtime memory requires target-system proof")

-- The tests on `flash` before its partitions
unfoldable pub check_flash : Fields → Result (Unit {0})
check_flash flash = do
  require (field_eq flash (text "partitionCsv") (str (text "partitions/dmbridge_ota.csv")))
      (refused "flash.partitionCsv must select the repository OTA layout")
  require_exact_int flash (text "partitionTableOffsetBytes") table_offset
  require_exact_int flash (text "partitionTableSizeBytes") table_size
  require_exact_int flash (text "firmwareImageMaxBytes") image_max
  require_exact_int flash (text "minimumUnallocatedSpareBytes") spare_min
  require (is_bool false (get (text "filesystemRequired") flash))
      (refused "normal operation must not require a filesystem")

unfoldable pub partitions_of : Fields → Result (List Value)
partitions_of flash = elim (array (got (text "partitions") flash)) [
  | none ↦ err (refused "flash.partitions must define exactly five partitions")
  | some vs ↦ ok vs
]

-- `validate_budget_contract`
unfoldable pub validate_budget_contract : Fields → Result (Unit {0})
validate_budget_contract budget = do
  require_exact_int budget (text "schemaVersion") 1
  require (field_eq budget (text "designSha256") (str design_sha256))
      (refused "memory budget points to the wrong governing design hash")
  target ← require_object budget (text "target")
  require
      (field_eq target (text "boardId") (str (text "m5stack-atom"))
        && field_eq target (text "sku") (str (text "C008")))
      (refused "memory budget target must be the M5Stack Atom Lite C008")
  require_exact_int target (text "flashBytes") flash_bytes
  flash ← require_object budget (text "flash")
  check_flash flash
  expected ← partitions_of flash
  check_partitions expected
  runtime ← require_object budget (text "runtime")
  check_runtime runtime
