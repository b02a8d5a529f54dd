-- ===== src/Budget/Table.antt =====
-- `parse_size` and `parse_partitions`, on the rows that `csv.reader` yields.
use dm_d5102q_rs485_bridge.Prelude.{
  ℕ, suc, ◌*◌, Text, text, Bool, true, not, ◌&&◌, ◌||◌, Option, none, some, List, [], ◌∷◌,
  if◌then◌else◌, ◌==◌, all,
}
use dm_d5102q_rs485_bridge.Prelude.Int.{ℤ, pos, negsuc}
use dm_d5102q_rs485_bridge.Exec.{Result, ok, err, refused, require, ◌>>=◌, ◌>>◌}
use dm_d5102q_rs485_bridge.Documents.{is_empty}
use dm_d5102q_rs485_bridge.Patterns.{starts_with}
use dm_d5102q_rs485_bridge.Strings.{strip, read_int}
use dm_d5102q_rs485_bridge.Budget.{Partition}

-- The factor that the last character of a size stands for, 1 where it is no suffix
unfoldable pub multiplier : Text → ℕ
multiplier [] = 1
multiplier (c ∷ []) =
    if c == b'K' || c == b'k' then 1024 else if c == b'M' || c == b'm' then 1024 * 1024 else 1
multiplier (c ∷ d ∷ s) = multiplier (d ∷ s)

-- `value[:-1]`
unfoldable pub without_last : Text → Text
without_last [] = []
without_last (c ∷ []) = []
without_last (c ∷ d ∷ s) = c ∷ without_last (d ∷ s)

-- The integer times the factor, which must not be negative
unfoldable pub scaled : Option ℤ → ℕ → Result ℕ
scaled none m = err (refused "not a valid integer size")
scaled (some (pos n)) m = ok (n * m)
scaled (some (negsuc n)) m = err (refused "must not be negative")

-- `parse_size`
unfoldable pub parse_size : Text → Result ℕ
parse_size raw = do
  let value = strip raw
  require (not (is_empty value)) (refused "is empty")
  let m = multiplier value
  scaled (read_int (if m == 1 then value else without_last value)) m

-- A row of six cells that is neither empty nor a comment
unfoldable pub parse_cells : ℕ → List Text → Result Partition
parse_cells n (a ∷ b ∷ c ∷ d ∷ e ∷ f ∷ []) = do
  require (not (is_empty (strip a)) && not (is_empty (strip b)) && not (is_empty (strip c)))
      (refused "partition CSV line has an empty identity field")
  offset ← parse_size (strip d)
  size ← parse_size (strip e)
  ok (record {
    name = strip a;
    partition_type = strip b;
    subtype = strip c;
    offset = offset;
    size = size;
    flags = strip f;
    line_number = n;
  })
parse_cells n row = err (refused "partition CSV line must contain six columns")

-- Blank rows and comments
unfoldable pub is_skipped : List Text → Bool
is_skipped [] = true
is_skipped (cell ∷ cells) =
    all (λ c. is_empty (strip c)) (cell ∷ cells) || starts_with (strip cell) (text "#")

-- The loop over the rows, numbered from `n`
unfoldable pub parse_rows : ℕ → List (List Text) → Result (List Partition)
parse_rows n [] = ok []
parse_rows n (row ∷ rows) =
    let rest = parse_rows (suc n) rows in
    if is_skipped row then rest else (do p ← parse_cells n row; ps ← rest; ok (p ∷ ps))

-- `parse_partitions`; `none` stands for a file that is missing or that cannot be read.
unfoldable pub parse_partitions : Option (List (List Text)) → Result (List Partition)
parse_partitions none = err (refused "missing or unreadable partition CSV")
parse_partitions (some rows) = do
  partitions ← parse_rows 1 rows
  require (not (is_empty partitions)) (refused "partition CSV contains no partitions")
  ok partitions
