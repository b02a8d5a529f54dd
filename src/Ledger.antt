-- ===== src/Ledger.antt =====
-- `validate_ledger` of scripts/validate_project_loop.py: the experiment ledger, a file of JSON rows
-- that are linked by hashes behind a sealed prefix.
pub mod Contract
pub mod Linked
pub mod Tamper
use dm_d5102q_rs485_bridge.Prelude.{
  ℕ, ◌+◌, ◌-◌, Text, text, text_eq, text_mem, Bool, true, false, not, ◌&&◌, ◌||◌, Option, none,
  some, List, [], ◌∷◌, ◌++◌, if◌then◌else◌, ltb, leb, ◌==◌, length, take, all,
}
use dm_d5102q_rs485_bridge.Prelude.Int.{ℤ, ltb_ℤ}
use dm_d5102q_rs485_bridge.Value.{
  value_eq, Value, str, list, obj, Items, nil, cons, Fields, get, field_eq,
}
use dm_d5102q_rs485_bridge.Bytes.{hex}
use dm_d5102q_rs485_bridge.Patterns.{is_hex_char}
use dm_d5102q_rs485_bridge.Exec.{Result, ok, err, refused, require, ◌>>=◌, ◌>>◌}
use dm_d5102q_rs485_bridge.Ota.Reconcile.{item}
use dm_d5102q_rs485_bridge.Documents.{
  is_relative_path, repeats, is_object, push, is_filled, string_list,
}

-- `EXPECTED_SEALED_PREFIX_ROWS`
abbrev pub sealed_prefix_rows : ℕ
sealed_prefix_rows = 24

-- `CORE_LEDGER_FIELDS`
unfoldable pub core_fields : List Text
core_fields = text "timestamp" ∷ text "stage" ∷ text "result" ∷ []

-- `STRUCTURED_LEDGER_FIELDS`
unfoldable pub structured_fields : List Text
structured_fields =
    text "schemaVersion"
    ∷ text "previousRowSha256"
    ∷ text "timestamp"
    ∷ text "stage"
    ∷ text "hypothesis"
    ∷ text "changed_files"
    ∷ text "command"
    ∷ text "result"
    ∷ text "metric"
    ∷ text "gates"
    ∷ text "acceptance"
    ∷ text "rollback"
    ∷ text "lesson"
    ∷ text "next_candidate"
    ∷ []

-- `TEXT_LEDGER_FIELDS`
unfoldable pub text_fields : List Text
text_fields =
    text "timestamp"
    ∷ text "stage"
    ∷ text "hypothesis"
    ∷ text "command"
    ∷ text "result"
    ∷ text "acceptance"
    ∷ text "rollback"
    ∷ text "lesson"
    ∷ text "next_candidate"
    ∷ []

abbrev is_line_end : ℕ → Bool
is_line_end c = c == 10 || c == 13

abbrev starts_line_feed : Text → Bool
starts_line_feed [] = false
starts_line_feed (c ∷ s) = c == 10

-- `raw.splitlines(keepends=True)` of bytes: lines end with LF, CR or CR LF.
unfoldable pub split_lines : Text → List Text
split_lines [] = []
split_lines (c ∷ s) =
    let rest = split_lines s in
    if c == 10 || c == 13 && not (starts_line_feed s) then (c ∷ []) ∷ rest else push c rest

-- `b"".join`
unfoldable pub join : List Text → Text
join [] = []
join (l ∷ ls) = l ++ join ls

-- `line.rstrip(b"\r\n")`
unfoldable pub strip_line_end : Text → Text
strip_line_end [] = []
strip_line_end (c ∷ s) =
    let rest = strip_line_end s in if is_line_end c && text_eq rest [] then [] else c ∷ rest

-- `raw.endswith(b"\n")`
unfoldable pub ends_with_newline : Text → Bool
ends_with_newline [] = false
ends_with_newline (c ∷ []) = c == 10
ends_with_newline (c ∷ d ∷ s) = ends_with_newline (d ∷ s)

unfoldable pub all_filled : Fields → List Text → Bool
all_filled row ks = all (λ k. is_filled (get k row)) ks

abbrev is_present : Option Value → Bool
is_present none = false
is_present (some v) = true

-- `fields - set(row)` is empty.
unfoldable pub has_all : Fields → List Text → Bool
has_all row ks = all (λ k. is_present (get k row)) ks

-- `value.replace("Z", "+00:00")`
unfoldable pub replace_z : Text → Text
replace_z [] = []
replace_z (c ∷ s) = let rest = replace_z s in if c == b'Z' then text "+00:00" ++ rest else c ∷ rest

-- `SHA256_RE`
unfoldable pub is_sha256 : Text → Bool
is_sha256 t = length t == 64 && all is_hex_char t

-- The text of `previous_content or b""`
abbrev pub or_empty : Option Text → Text
or_empty none = []
or_empty (some t) = t

abbrev pub moved_backwards : Option ℤ → ℤ → Bool
moved_backwards none t = false
moved_backwards (some before) t = ltb_ℤ t before

-- What `validate_ledger` returns
pub record Summary : Type 0 where
  pub rows : ℕ
  pub sealed_rows : ℕ
  pub linked_rows : ℕ

-- `fromisoformat` gives the instant of a timestamp, `some none` for one without an offset.
module _ (sha256 : Text → Text) (json_loads : Text → Option Value)
    (fromisoformat : Text → Option (Option ℤ)) where
  -- `parse_timestamp`
  unfoldable pub parse_timestamp : Option Value → Result ℤ
  parse_timestamp (some (str (c ∷ s))) = elim (fromisoformat (replace_z (c ∷ s))) [
    | none ↦ err (refused "timestamp is not ISO-8601")
    | some none ↦ err (refused "timestamp must include a timezone offset")
    | some (some t) ↦ ok t
  ]
  parse_timestamp _ = err (refused "timestamp must be non-empty")

  -- The row of a line
  unfoldable pub parse_row : Text → Result Fields
  parse_row content =
      if text_eq content []
      then err (refused "blank experiment ledger row")
      else elim (json_loads content) [
        | none ↦ err (refused "invalid experiment ledger JSON")
        | some (obj row) ↦ ok row
        | some _ ↦ err (refused "experiment ledger row must be an object")
      ]

  -- A `previousRowSha256` against the content of the row before
  unfoldable pub check_hash : Option Value → Option Text → Result (Unit {0})
  check_hash (some (str h)) previous = do
    require (is_sha256 h) (refused "invalid previousRowSha256")
    require (text_eq h (hex (sha256 (or_empty previous)))) (refused "previous-row hash mismatch")
  check_hash _ previous = err (refused "invalid previousRowSha256")

  unfoldable pub check_link : Fields → Option Text → Result (Unit {0})
  check_link row previous = check_hash (get (text "previousRowSha256") row) previous

  unfoldable pub check_changed_files : Fields → Result (Unit {0})
  check_changed_files row = elim (string_list (get (text "changed_files") row)) [
    | none ↦ err (refused "invalid changed_files")
    | some files ↦
        if repeats files
        then err (refused "repeats changed_files")
        else require (all is_relative_path files) (refused "changed_file escapes the repository")
  ]

  -- The checks of a row behind the sealed prefix
  unfoldable pub check_structured : Fields → Fields → Option Text → Result (Unit {0})
  check_structured ledger_contract row previous = do
    require (has_all row structured_fields) (refused "row is missing required fields")
    version ← item ledger_contract (text "rowSchemaVersion")
    require (field_eq row (text "schemaVersion") version) (refused "wrong schemaVersion")
    check_link row previous
    require (all_filled row text_fields) (refused "row has an invalid field")
    check_changed_files row
    require (is_object (get (text "metric") row) && is_object (get (text "gates") row))
        (refused "row has an invalid field")

  -- The checks that depend on the row's number
  unfoldable pub if_structured : Fields → Fields → ℕ → Option Text → Result (Unit {0})
  if_structured ledger_contract row line_number previous =
      if ltb sealed_prefix_rows line_number
      then check_structured ledger_contract row previous
      else ok tt

  -- One round of the loop: the row's instant, which the next round compares.
  unfoldable pub check_row : Fields → ℕ → Option ℤ → Option Text → Text → Result ℤ
  check_row ledger_contract line_number previous_timestamp previous content = do
    row ← parse_row content
    require (has_all row core_fields && all_filled row core_fields) (refused "lacks core fields")
    timestamp ← parse_timestamp (get (text "timestamp") row)
    require (not (moved_backwards previous_timestamp timestamp))
        (refused "timestamp moved backwards")
    if_structured ledger_contract row line_number previous
    ok timestamp

  unfoldable pub check_rows : Fields → ℕ → Option ℤ → Option Text → List Text → Result (Unit {0})
  check_rows ledger_contract line_number previous_timestamp previous [] = ok tt
  check_rows ledger_contract line_number previous_timestamp previous (line ∷ lines) = do
    timestamp ←
        check_row ledger_contract line_number previous_timestamp previous (strip_line_end line)
    check_rows ledger_contract (line_number + 1) (some timestamp) (some (strip_line_end line)) lines

  -- `validate_ledger`
  unfoldable pub validate_ledger : Text → Fields → Result Summary
  validate_ledger raw ledger_contract = do
    require (ends_with_newline raw) (refused "experiment ledger must end with a newline")
    let lines = split_lines raw
    require (leb sealed_prefix_rows (length lines)) (refused "fewer rows than the sealed prefix")
    digest ← item ledger_contract (text "sealedPrefixSha256")
    require (value_eq (str (hex (sha256 (join (take sealed_prefix_rows lines))))) digest)
        (refused "experiment ledger sealed prefix SHA-256 mismatch")
    check_rows ledger_contract 1 none none lines
    ok (record {
      rows = length lines;
      sealed_rows = sealed_prefix_rows;
      linked_rows = length lines - sealed_prefix_rows;
    })
