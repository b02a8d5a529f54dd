-- ===== src/Budget.antt =====
-- scripts/validate_memory_budget.py: the partitions in flash, in the order of their offsets, and
-- the size of the firmware image.
pub mod Disjoint
pub mod Table
pub mod Contract
pub mod Layout
use dm_d5102q_rs485_bridge.Prelude.{
  ℕ, ◌+◌, ◌-◌, ◌%◌, Text, text, text_eq, text_mem, Bool, true, false, not, ◌&&◌, Option, none, some,
  List, [], ◌∷◌, map, if◌then◌else◌, ltb, leb, ◌==◌,
}
use dm_d5102q_rs485_bridge.Exec.{Result, ok, err, refused, os_error, require, ◌>>=◌, ◌>>◌}

pub record Partition : Type 0 where
  pub name : Text
  pub partition_type : Text
  pub subtype : Text
  pub offset : ℕ
  pub size : ℕ
  pub flags : Text
  pub line_number : ℕ

-- The property `end`
unfoldable pub partition_end : Partition → ℕ
partition_end p = p.offset + p.size

-- `sorted(partitions, key=lambda item: item.offset)`, which is stable
unfoldable pub insert_by_offset : Partition → List Partition → List Partition
insert_by_offset p [] = p ∷ []
insert_by_offset p (q ∷ qs) =
    let rest = insert_by_offset p qs in if leb p.offset q.offset then p ∷ q ∷ qs else q ∷ rest

unfoldable pub sort_by_offset : List Partition → List Partition
sort_by_offset [] = []
sort_by_offset (p ∷ ps) = insert_by_offset p (sort_by_offset ps)

-- `str.lower` on one character; the file system names are ASCII.
unfoldable pub lower : ℕ → ℕ
lower c = if leb b'A' c && leb c b'Z' then c + 32 else c

-- `FILESYSTEM_SUBTYPES`
unfoldable pub filesystem_subtypes : List Text
filesystem_subtypes = text "spiffs" ∷ text "fat" ∷ text "fatfs" ∷ text "littlefs" ∷ []

unfoldable pub alignment : Partition → ℕ
alignment p = if text_eq p.partition_type (text "app") then 0x10000 else 0x1000

-- One round of the loop over the ordered partitions.
unfoldable pub check_partition : ℕ → ℕ → Partition → Result (Unit {0})
check_partition previous_end total_flash p = do
  require (ltb 0 p.size) (refused "partition must have a positive size")
  require (p.offset % alignment p == 0) (refused "partition offset is not aligned")
  require (p.size % 0x1000 == 0) (refused "partition size is not 4 KiB aligned")
  require (leb previous_end p.offset) (refused "partition overlaps")
  require (leb (partition_end p) total_flash) (refused "partition exceeds 4 MiB flash")
  require (not (text_mem (map lower p.subtype) filesystem_subtypes))
      (refused "filesystem partition is prohibited")
  ok tt

unfoldable pub check_ordered : ℕ → ℕ → List Partition → Result (Unit {0})
check_ordered previous_end total_flash [] = ok tt
check_ordered previous_end total_flash (p ∷ ps) = do
  check_partition previous_end total_flash p
  check_ordered (partition_end p) total_flash ps

-- The part of `validate_partition_layout` from `ordered = …` to the end of the loop. The end of the
-- partition table and the size of the flash are numbers once the budget contract has passed.
unfoldable pub validate_order : ℕ → ℕ → List Partition → Result (Unit {0})
validate_order table_end total_flash partitions =
    check_ordered table_end total_flash (sort_by_offset partitions)

-- `validate_firmware_image`, on the size of the file, which is `none` where there is no file.
unfoldable pub validate_firmware_image : Option ℕ → ℕ → Result (ℕ × ℕ)
validate_firmware_image none maximum_bytes = err (refused "firmware image is unavailable")
validate_firmware_image (some image_bytes) maximum_bytes = do
  require (ltb 0 image_bytes) (refused "firmware image must not be empty")
  require (leb image_bytes maximum_bytes) (refused "firmware image is above the limit")
  ok (image_bytes, maximum_bytes - image_bytes)
