-- ===== src/Milestones/Lines.antt =====
-- Lines of a text as the milestone catalog reads them: Python's `str.splitlines`, `str.strip` and
-- the patterns of `find_line`.
pub mod Bounds
use dm_d5102q_rs485_bridge.Prelude.{
  ℕ, suc, ◌+◌, ◌-◌, Text, text, text_eq, Bool, false, ◌&&◌, ◌||◌, Option, none, some, List, [], ◌∷◌,
  if◌then◌else◌, ltb, ◌==◌, length, take, drop, any,
}
use dm_d5102q_rs485_bridge.Patterns.{starts_with, within}
use dm_d5102q_rs485_bridge.Strings.{strip}
use dm_d5102q_rs485_bridge.Documents.{push}
use dm_d5102q_rs485_bridge.Bytes.{decimal}
use dm_d5102q_rs485_bridge.Exec.{Result, ok, err, refused}

-- The characters at which `str.splitlines` breaks
unfoldable pub is_line_break : ℕ → Bool
is_line_break c = within 10 13 c || within 28 30 c || c == 133 || c == 8232 || c == 8233

abbrev starts_line_feed : Text → Bool
starts_line_feed [] = false
starts_line_feed (c ∷ s) = c == 10

-- What a line break does to the lines behind it. The line feed of CR LF has already begun a line
-- of its own, which the CR takes over.
unfoldable pub break_line : ℕ → Text → List Text → List Text
break_line c s rest = if c == 13 && starts_line_feed s then rest else [] ∷ rest

-- `text.splitlines()`
unfoldable pub split_lines : Text → List Text
split_lines [] = []
split_lines (c ∷ s) =
    let rest = split_lines s in if is_line_break c then break_line c s rest else push c rest

-- `value.split(":", 1)[1]` of a text that has a colon
unfoldable pub after_colon : Text → Text
after_colon [] = []
after_colon (c ∷ s) = let rest = after_colon s in if c == b':' then s else rest

-- `f"{n:02d}"`
unfoldable pub two_digits : ℕ → Text
two_digits n = if ltb n 10 then b'0' ∷ decimal n else decimal n

-- The regular expressions of `find_line`: `^…$` and `^…`
pub data Pattern : Type 0 where
  exactly : Text → Pattern
  starting : Text → Pattern

unfoldable pub line_matches : Pattern → Text → Bool
line_matches (exactly t) line = text_eq line t
line_matches (starting t) line = starts_with line t

-- The number of lines before the first that matches one of the patterns
unfoldable pub lines_before : List Pattern → List Text → Option ℕ
lines_before ps [] = none
lines_before ps (line ∷ lines) =
    let rest = lines_before ps lines in
    if any (λ p. line_matches p line) ps
    then some 0
    else elim rest [ none ↦ none | some n ↦ some (suc n) ]

-- `find_line`
unfoldable pub find_line : List Text → Pattern → ℕ → Result ℕ
find_line lines pattern start = elim (lines_before (pattern ∷ []) (drop start lines)) [
  | none ↦ err (refused "governing design section is missing")
  | some n ↦ ok (start + n)
]

-- The index of the first line from `start` on that matches, or the number of lines
unfoldable pub find_or_end : List Text → List Pattern → ℕ → ℕ
find_or_end lines patterns start = elim (lines_before patterns (drop start lines)) [
  | none ↦ length lines
  | some n ↦ start + n
]

-- The lines that start with the prefix, numbered from `n`
unfoldable pub bullets : Text → ℕ → List Text → List (ℕ × Text)
bullets prefix n [] = []
bullets prefix n (line ∷ lines) =
    let rest = bullets prefix (suc n) lines in
    if starts_with line prefix then (n, strip (drop (length prefix) line)) ∷ rest else rest

-- `bullet_rows`
unfoldable pub bullet_rows : List Text → ℕ → ℕ → Bool → List (ℕ × Text)
bullet_rows lines start end checklist =
    bullets (if checklist then text "- [ ] " else text "- ") (start + 1)
      (take (end - start) (drop start lines))
