-- ===== src/Budget/Contract/Fixed.antt =====
-- What an accepted budget contract says.
use dm_d5102q_rs485_bridge.Prelude.{
  ◌≡◌, refl, ap, Text, text, true, Option, none, some, List, ℕ, In, map, ◌&&◌, length, ◌==◌,
}
use dm_d5102q_rs485_bridge.Prelude.Int.{pos, eqb_ℤ_iff}
use dm_d5102q_rs485_bridge.Value.{
  Value, null, bool, int, str, list, obj, Fields, get, get_or, field_eq,
}
use dm_d5102q_rs485_bridge.Exec.{ok, >>=-eq-ok, >>-eq-ok, require-eq-ok}
use dm_d5102q_rs485_bridge.Documents.{got, for_each, Entry}
use dm_d5102q_rs485_bridge.Documents.Laws.{for_each_sound}
use dm_d5102q_rs485_bridge.Value.Laws.{field_eq-str}
use dm_d5102q_rs485_bridge.Budget.Contract.{
  steady_heap_min, loaded_heap_min, largest_block_min, check_runtime, Row, expected_partitions,
  flash_bytes, table_offset, table_size, image_max, require_object, require_exact_int, exact_int,
  named, index, names_are, entry_at, check_row, check_partitions, check_flash, partitions_of,
  validate_budget_contract,
}

pub exact_int_sound : (v : Value) (n : ℕ) {u : Unit {0}} → exact_int v n ≡ ok u → v ≡ int (pos n)
unfolding exact_int
exact_int_sound (int m) n h = ap int ((eqb_ℤ_iff m (pos n)).0 (require-eq-ok _ _ h))
exact_int_sound null n h = cc
exact_int_sound (bool b) n h = cc
exact_int_sound (str s) n h = cc
exact_int_sound (list vs) n h = cc
exact_int_sound (obj d) n h = cc

-- A key whose value is an integer is there.
pub exact_int-get :
    (d : Fields) (k : Text) (n : ℕ) {u : Unit {0}}
    → require_exact_int d k n ≡ ok u
    → get k d ≡ some (int (pos n))
unfolding require_exact_int got get_or
exact_int-get d k n {u} h = go (get k d) refl
  where
    go : (o : Option Value) → get k d ≡ o → o ≡ some (int (pos n))
    go none e = let x = exact_int_sound null n (rw (require_exact_int, got, get_or, e) at h) in cc
    go (some v) e = ap some (exact_int_sound v n (rw (require_exact_int, got, get_or, e) at h))

-- The least free heaps and the least free block that a sample must reach
pub record Thresholds (runtime : Fields) : Type 0 where
  pub steady : get (text "steadyStateFreeHeapMinBytes") runtime ≡ some (int (pos steady_heap_min))
  pub loaded : get (text "loadedFreeHeapMinBytes") runtime ≡ some (int (pos loaded_heap_min))
  pub block : get (text "largestFreeBlockMinBytes") runtime ≡ some (int (pos largest_block_min))

check_runtime-Thresholds :
    (runtime : Fields) {u : Unit {0}} → check_runtime runtime ≡ ok u → Thresholds runtime
unfolding check_runtime
check_runtime-Thresholds runtime h =
    let a = >>=-eq-ok (require_exact_int runtime (text "steadyStateFreeHeapMinBytes") _) _ h in
    let b = >>=-eq-ok (require_exact_int runtime (text "loadedFreeHeapMinBytes") _) _ a.2 in
    let c = >>=-eq-ok (require_exact_int runtime (text "largestFreeBlockMinBytes") _) _ b.2 in
    record {
      steady = exact_int-get runtime _ _ a.1;
      loaded = exact_int-get runtime _ _ b.1;
      block = exact_int-get runtime _ _ c.1;
    }

-- The contract fixes the size of the flash, the end of the partition table, the greatest image, the
-- names of the partitions, each of their entries, and the thresholds of a runtime sample.
pub record Fixed (budget : Fields) : Type 0 where
  pub target : Fields
  pub flash : Fields
  pub expected : List Value
  pub entries : List Entry
  pub target_is : require_object budget (text "target") ≡ ok target
  pub flash_is : require_object budget (text "flash") ≡ ok flash
  pub expected_is : partitions_of flash ≡ ok expected
  pub entries_are : index (named expected) ≡ ok entries
  pub size_is : get (text "flashBytes") target ≡ some (int (pos flash_bytes))
  pub table_is :
      (get (text "partitionTableOffsetBytes") flash ≡ some (int (pos table_offset)))
      × (get (text "partitionTableSizeBytes") flash ≡ some (int (pos table_size)))
  pub image_is : get (text "firmwareImageMaxBytes") flash ≡ some (int (pos image_max))
  pub names : names_are entries (map (λ (r : Row). r.name) expected_partitions) ≡ true
  pub rows : (r : Row) → In r expected_partitions → check_row entries r ≡ ok tt
  pub runtime : Fields
  pub runtime_is : require_object budget (text "runtime") ≡ ok runtime
  pub thresholds : Thresholds runtime

check_partitions_sound :
    (expected : List Value) {u : Unit {0}}
    → check_partitions expected ≡ ok u
    → (entries : List Entry) × (index (named expected) ≡ ok entries)
      × (names_are entries (map (λ (r : Row). r.name) expected_partitions) ≡ true)
      × ((r : Row) → In r expected_partitions → check_row entries r ≡ ok tt)
unfolding check_partitions
check_partitions_sound expected h =
    let a = >>-eq-ok (length expected == 5) _ _ h in
    let b = >>=-eq-ok (index (named expected)) _ a.1 in
    let c = >>-eq-ok (length b.0 == length expected) _ _ b.2 in
    let d = >>-eq-ok (names_are b.0 _) _ _ c.1 in
    let e = >>=-eq-ok (for_each (check_row b.0) expected_partitions) _ d.1 in
    (b.0, b.1, d.0, for_each_sound (check_row b.0) expected_partitions e.1)

check_flash_sound :
    (flash : Fields) {u : Unit {0}}
    → check_flash flash ≡ ok u
    → (get (text "partitionTableOffsetBytes") flash ≡ some (int (pos table_offset)))
      × (get (text "partitionTableSizeBytes") flash ≡ some (int (pos table_size)))
      × (get (text "firmwareImageMaxBytes") flash ≡ some (int (pos image_max)))
unfolding check_flash
check_flash_sound flash h =
    let a = >>-eq-ok (field_eq flash (text "partitionCsv") _) _ _ h in
    let b = >>=-eq-ok (require_exact_int flash (text "partitionTableOffsetBytes") _) _ a.1 in
    let c = >>=-eq-ok (require_exact_int flash (text "partitionTableSizeBytes") _) _ b.2 in
    let d = >>=-eq-ok (require_exact_int flash (text "firmwareImageMaxBytes") _) _ c.2 in
    (exact_int-get _ _ _ b.1, exact_int-get _ _ _ c.1, exact_int-get _ _ _ d.1)

pub validate_budget_contract-Fixed :
    (budget : Fields) {u : Unit {0}} → validate_budget_contract budget ≡ ok u → Fixed budget
unfolding validate_budget_contract
validate_budget_contract-Fixed budget h =
    let a = >>=-eq-ok (require_exact_int budget (text "schemaVersion") 1) _ h in
    let b = >>-eq-ok (field_eq budget (text "designSha256") _) _ _ a.2 in
    let c = >>=-eq-ok (require_object budget (text "target")) _ b.1 in
    let d = >>-eq-ok (field_eq c.0 (text "boardId") _ && field_eq c.0 (text "sku") _) _ _ c.2 in
    let e = >>=-eq-ok (require_exact_int c.0 (text "flashBytes") flash_bytes) _ d.1 in
    let f = >>=-eq-ok (require_object budget (text "flash")) _ e.2 in
    let g = >>=-eq-ok (check_flash f.0) _ f.2 in
    let k = >>=-eq-ok (partitions_of f.0) _ g.2 in
    let m = >>=-eq-ok (check_partitions k.0) _ k.2 in
    let r = >>=-eq-ok (require_object budget (text "runtime")) _ m.2 in
    let parts = check_partitions_sound k.0 m.1 in
    let numbers = check_flash_sound f.0 g.1 in
    record {
      target = c.0;
      flash = f.0;
      expected = k.0;
      entries = parts.0;
      target_is = c.1;
      flash_is = f.1;
      expected_is = k.1;
      entries_are = parts.1;
      size_is = exact_int-get c.0 (text "flashBytes") flash_bytes e.1;
      table_is = (numbers.0, numbers.1);
      image_is = numbers.2;
      names = parts.2;
      rows = parts.3;
      runtime = r.0;
      runtime_is = r.1;
      thresholds = check_runtime-Thresholds r.0 r.2;
    }

-- What one row of the contract says.
pub record Says (d : Fields) (r : Row) : Type 0 where
  pub partition_type : get (text "type") d ≡ some (str r.partition_type)
  pub subtype : get (text "subtype") d ≡ some (str r.subtype)
  pub offset : get (text "offsetBytes") d ≡ some (int (pos r.offset))
  pub size : get (text "sizeBytes") d ≡ some (int (pos r.size))
  pub flags : get (text "flags") d ≡ some (str r.flags)

pub check_row_sound :
    (entries : List Entry) (r : Row) {u : Unit {0}}
    → check_row entries r ≡ ok u
    → (d : Fields) × (entry_at r.name entries ≡ ok d) × Says d r
unfolding check_row
check_row_sound entries r h =
    let a = >>=-eq-ok (entry_at r.name entries) _ h in
    let b = >>-eq-ok (field_eq a.0 (text "type") _) _ _ a.2 in
    let c = >>-eq-ok (field_eq a.0 (text "subtype") _) _ _ b.1 in
    let d = >>=-eq-ok (require_exact_int a.0 (text "offsetBytes") r.offset) _ c.1 in
    let e = >>=-eq-ok (require_exact_int a.0 (text "sizeBytes") r.size) _ d.2 in
    (
      a.0,
      a.1,
      record {
        partition_type = field_eq-str a.0 _ _ b.0;
        subtype = field_eq-str a.0 _ _ c.0;
        offset = exact_int-get a.0 _ _ d.1;
        size = exact_int-get a.0 _ _ e.1;
        flags = field_eq-str a.0 _ _ (require-eq-ok _ _ e.2);
      },
    )
