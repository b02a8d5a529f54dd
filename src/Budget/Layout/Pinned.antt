-- ===== src/Budget/Layout/Pinned.antt =====
-- The partitions that pass are the pinned ones.
use dm_d5102q_rs485_bridge.Prelude.{
  In-map_sound, all-In, text_mem-In, ◌≡◌, ap, sym, ◌∙◌, Text, In, true, false, some, List,
  and-eq-true, map, arith,
}
use dm_d5102q_rs485_bridge.Value.{Value, str, Fields}
use dm_d5102q_rs485_bridge.Exec.{require-eq-ok, ok, >>=-eq-ok}
use dm_d5102q_rs485_bridge.Documents.{find_entry, Entry, repeats}
use dm_d5102q_rs485_bridge.Value.Laws.{value_eq-str}
use dm_d5102q_rs485_bridge.Budget.{Partition}
use dm_d5102q_rs485_bridge.Budget.Contract.{
  check_row, expected_partitions, is_one_of, names_are, entry_at, Row,
}
use dm_d5102q_rs485_bridge.Budget.Contract.Fixed.{check_row_sound, Says}
use dm_d5102q_rs485_bridge.Budget.Layout.{check_expected, same_names, partition_at, fields_match}
use dm_d5102q_rs485_bridge.Documents.Laws.{find_entry_sound, is_known_sound}
use dm_d5102q_rs485_bridge.Budget.Layout.Agree.{
  Matches, partition_at_sound, same_partition, fields_match-Matches,
}

entry_at_sound :
    (name : Text) (es : List Entry) {d : Fields}
    → entry_at name es ≡ ok d
    → find_entry name es ≡ some d
unfolding entry_at
entry_at_sound name es h = ground arith

one_of_name :
    (names : List Text) (v : Value) (t : Text) → is_one_of names v ≡ true → v ≡ str t → In t names
unfolding is_one_of
one_of_name names v t h e = text_mem-In t names (ap (is_one_of names) (sym e) ∙ h)

str_eq : {s t : Text} → str s ≡ str t → s ≡ t
str_eq e = cc

-- Names and rows as the contract has them, and partitions that agree with its entries
module _ (entries : List Entry) (partitions : List Partition)
    (names : names_are entries (map (λ (r : Row). r.name) expected_partitions) ≡ true)
    (rows : (r : Row) → In r expected_partitions → check_row entries r ≡ ok tt)
    (unique : repeats (map (λ (p : Partition). p.name) partitions) ≡ false)
    (same : same_names partitions entries ≡ true)
    (checked : (e : Entry) → In e entries → check_expected partitions e ≡ ok tt) where
  row_entry :
      (r : Row)
      → In r expected_partitions
      → (e : Entry) × In e entries × (e.id ≡ str r.name) × Says e.entry r
  row_entry r i =
      let (d, at, says) = check_row_sound entries r (rows r i) in
      let (e, j, id, is) = find_entry_sound r.name entries (entry_at_sound r.name entries at) in
      (e, j, value_eq-str e.id r.name id, rw is says)

  matched :
      (q p : Partition) (r : Row) (d : Fields)
      → q ≡ p
      → fields_match q d ≡ true
      → Says d r
      → p.name ≡ r.name
      → Matches p r
  matched q p r d e h s n = fields_match-Matches p r d (ap (λ x. fields_match x d) (sym e) ∙ h) s n

  partition-Matches :
      (p : Partition) (r : Row)
      → In p partitions
      → In r expected_partitions
      → p.name ≡ r.name
      → Matches p r
  unfolding check_expected
  partition-Matches p r i j n =
      let (e, k, id, says) = row_entry r j in
      let a = >>=-eq-ok (partition_at e.id partitions) _ (checked e k) in
      let (l, f) = partition_at_sound e.id partitions a.1 in
      let same_name = str_eq (sym (value_eq-str e.id (a.0).name f) ∙ id) in
      matched a.0 p r e.entry (same_partition partitions a.0 p unique l i (same_name ∙ sym n))
        (require-eq-ok _ _ a.2) says n

  -- Each partition is that of a row.
  pub partition_of_row :
      (p : Partition) → In p partitions → (r : Row) × In r expected_partitions × Matches p r
  unfolding same_names names_are
  partition_of_row p i =
      let known = all-In _ partitions (and-eq-true _ _ same).1 p i in
      let (d, found) = is_known_sound p.name entries known in
      let (e, j, id, is) = find_entry_sound p.name entries found in
      let among =
        one_of_name _ e.id p.name (all-In _ entries (and-eq-true _ _ names).0 e j)
          (value_eq-str e.id p.name id) in
      let (r, k, n) = In-map_sound (λ (r : Row). r.name) expected_partitions among in
      (r, k, partition-Matches p r i k (sym n))

  -- Each row is that of a partition.
  pub row_of_partition :
      (r : Row) → In r expected_partitions → (p : Partition) × In p partitions × Matches p r
  unfolding same_names
  row_of_partition r i =
      let (e, j, id, says) = row_entry r i in
      let among = one_of_name _ e.id r.name (all-In _ entries (and-eq-true _ _ same).0 e j) id in
      let (p, k, n) = In-map_sound (λ (p : Partition). p.name) partitions among in
      (p, k, partition-Matches p r k i n)
