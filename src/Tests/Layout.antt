-- ===== src/Tests/Layout.antt =====
-- The flash layout of partitions/dmbridge_ota.csv.
use dm_d5102q_rs485_bridge.Prelude.{In, ◌≡◌, refl, ℕ, ◌∷◌, [], List, Text, text, text_eq, text_mem}
use dm_d5102q_rs485_bridge.Exec.{err}
use dm_d5102q_rs485_bridge.Budget.{
  Partition, sort_by_offset, insert_by_offset, validate_order, check_ordered, check_partition,
  partition_end, alignment, lower, filesystem_subtypes,
}
use dm_d5102q_rs485_bridge.Budget.Disjoint.{Apart, Lies, validate_order_sound}

abbrev entry : Text → Text → Text → ℕ → ℕ → ℕ → Partition
entry name kind subtype offset size line = record {
  name = name;
  partition_type = kind;
  subtype = subtype;
  offset = offset;
  size = size;
  flags = [];
  line_number = line;
}

-- In another order than in the file.
abbrev layout : List Partition
layout =
    entry (text "app1") (text "app") (text "ota_1") 0x190000 0x180000 5
    ∷ entry (text "nvs") (text "data") (text "nvs") 0x9000 0x5000 2
    ∷ entry (text "diag_nvs") (text "data") (text "nvs") 0x310000 0x5000 6
    ∷ entry (text "otadata") (text "data") (text "ota") 0xe000 0x2000 3
    ∷ entry (text "app0") (text "app") (text "ota_0") 0x10000 0x180000 4
    ∷ []

overlap_refused :
    (e : _) × (validate_order 0x9000 0x400000
        (entry [] [] [] 0xa000 0x1000 1 ∷ entry [] [] [] 0x9000 0x2000 2 ∷ [])
      ≡ err e)
unfolding text text_eq text_mem sort_by_offset insert_by_offset validate_order check_ordered
    check_partition partition_end alignment lower filesystem_subtypes
overlap_refused = (_, refl)

validate_order_sound_example :
    ((p : Partition) → In p layout → Lies 0x9000 0x400000 p) × Apart (sort_by_offset layout)
unfolding text text_eq text_mem sort_by_offset insert_by_offset validate_order check_ordered
    check_partition partition_end alignment lower filesystem_subtypes
validate_order_sound_example = validate_order_sound 0x9000 0x400000 layout refl
