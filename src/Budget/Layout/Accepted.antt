-- ===== src/Budget/Layout/Accepted.antt =====
-- `validate_partition_layout` behind `validate_budget_contract`.
use dm_d5102q_rs485_bridge.Prelude.{
  In, ◌∙◌, ap, sym, map, ◌≡◌, not, false, Bool, ◌+◌, text, true, List, arith,
}
use dm_d5102q_rs485_bridge.Value.{Fields, get}
use dm_d5102q_rs485_bridge.Exec.{ok-injective, >>=-eq-ok, >>-eq-ok, ok}
use dm_d5102q_rs485_bridge.Budget.{validate_order, Partition}
use dm_d5102q_rs485_bridge.Budget.Contract.{
  Row, named, partitions_of, names_are, check_row, index, require_object, validate_budget_contract,
  expected_partitions, flash_bytes,
}
use dm_d5102q_rs485_bridge.Budget.Layout.{
  check_expected, same_names, named_item, items_at, validate_partition_layout, LayoutMetrics,
  natural_at,
}
use dm_d5102q_rs485_bridge.Budget.Layout.Agree.{items_at-partitions_of, collect-named}
use dm_d5102q_rs485_bridge.Documents.{for_each, collect, repeats}
use dm_d5102q_rs485_bridge.Budget.Contract.Fixed.{validate_budget_contract-Fixed}
use dm_d5102q_rs485_bridge.Budget.Layout.Metrics.{IsPinned, natural_at_fixed, check_slots-IsPinned}
use dm_d5102q_rs485_bridge.Documents.Laws.{for_each_sound}
use dm_d5102q_rs485_bridge.Budget.Layout.Pinned.{row_of_partition, partition_of_row}

refuted : (b : Bool) → not b ≡ true → b ≡ false
refuted b h = ground arith

-- Where a budget passes validate_budget_contract and partitions pass validate_partition_layout
-- against it, each partition is one of the five of EXPECTED_PARTITIONS in its name, type, subtype,
-- offset, size and flags, each of the five is there, and the metrics are 4 MiB of flash, slots of
-- 0x180000 bytes, images of at most 0x140000 bytes and 0xeb000 spare bytes.
pub validate_partition_layout-IsPinned :
    (budget : Fields) (partitions : List Partition) {u : Unit {0}} {m : LayoutMetrics}
    → validate_budget_contract budget ≡ ok u
    → validate_partition_layout budget partitions ≡ ok m
    → IsPinned partitions m
unfolding validate_partition_layout
validate_partition_layout-IsPinned budget partitions h k =
    let fixed = validate_budget_contract-Fixed budget h in
    let a = >>=-eq-ok (require_object budget (text "target")) _ k in
    let b = >>=-eq-ok (require_object budget (text "flash")) _ a.2 in
    let c = >>=-eq-ok (natural_at a.0 (text "flashBytes")) _ b.2 in
    let d = >>=-eq-ok (natural_at b.0 (text "partitionTableOffsetBytes")) _ c.2 in
    let e = >>=-eq-ok (natural_at b.0 (text "partitionTableSizeBytes")) _ d.2 in
    let f = >>-eq-ok (not (repeats (map (λ (p : Partition). p.name) partitions))) _ _ e.2 in
    let g = >>=-eq-ok (items_at b.0 (text "partitions")) _ f.1 in
    let i = >>=-eq-ok (collect named_item g.0) _ g.2 in
    let j = >>=-eq-ok (index i.0) _ i.2 in
    let l = >>-eq-ok (same_names partitions j.0) _ _ j.2 in
    let n = >>=-eq-ok (for_each (check_expected partitions) j.0) _ l.1 in
    let o = >>=-eq-ok (validate_order (d.0 + e.0) c.0 partitions) _ n.2 in
    let target_same = ok-injective (sym a.1 ∙ fixed.target_is) in
    let flash_same = ok-injective (sym b.1 ∙ fixed.flash_is) in
    let entries_same = ok-injective (
      sym j.1
      ∙ ap index (
          collect-named g.0 i.1
          ∙ ap named
              (items_at-partitions_of b.0 g.1 (ap partitions_of flash_same ∙ fixed.expected_is)))
      ∙ fixed.entries_are) in
    let names =
      ap (λ x. names_are x (map (λ (r : Row). r.name) expected_partitions)) entries_same
      ∙ fixed.names in
    let rows : (r : Row) → In r expected_partitions → check_row j.0 r ≡ ok tt =
      λ r x. ap (λ y. check_row y r) entries_same ∙ fixed.rows r x in
    let unique = refuted _ f.0 in
    let checked = for_each_sound (check_expected partitions) j.0 n.1 in
    check_slots-IsPinned partitions (partition_of_row j.0 partitions names rows unique l.0 checked)
      (row_of_partition j.0 partitions names rows unique l.0 checked) b.0 c.0
      (ap (get (text "firmwareImageMaxBytes")) flash_same ∙ fixed.image_is)
      (natural_at_fixed a.0 (text "flashBytes") c.0 flash_bytes
        (ap (get (text "flashBytes")) target_same ∙ fixed.size_is) c.1)
      o.2
