-- ===== src/Milestones/Catalog.antt =====
-- `derive_catalog` and `validate_catalog`: the criteria that the design document holds.
pub mod Standing
pub mod Traced
use dm_d5102q_rs485_bridge.Prelude.{
  zero, ℕ, suc, ◌+◌, Text, text, text_eq, Bool, true, false, not, ◌&&◌, ◌||◌, none, some, List, [],
  ◌∷◌, ◌++◌, if◌then◌else◌, ltb, ◌==◌, length, map, all,
}
use dm_d5102q_rs485_bridge.Prelude.Int.{pos}
use dm_d5102q_rs485_bridge.Value.{list, bool, Value, int, str, obj, Fields, keys, field_eq, truthy}
use dm_d5102q_rs485_bridge.Bytes.{hex}
use dm_d5102q_rs485_bridge.Exec.{
  Result, ok, err, refused, attribute_error, type_error, require, ◌>>=◌, ◌>>◌,
}
use dm_d5102q_rs485_bridge.Documents.{
  has_container, strings, got, same_set, repeats, object_or, for_each, collect,
}
use dm_d5102q_rs485_bridge.Strings.{split_on, strip, rstrip}
use dm_d5102q_rs485_bridge.Milestones.{
  Criterion, GroupSpec, Counts, milestone_ids, group_specs, expected_counts, expected_total,
}
use dm_d5102q_rs485_bridge.Milestones.Lines.{
  exactly, starting, split_lines, after_colon, two_digits, find_line, find_or_end, bullet_rows,
}

-- The items of the line of deliverables
unfoldable pub deliverable_rows : ℕ → Text → List (ℕ × Text)
deliverable_rows line content =
    map (λ item. (line, rstrip (λ c. c == b'.') (strip item)))
      (split_on b',' (strip (after_colon content)))

-- `lines[n]`
unfoldable pub line_at : List Text → ℕ → Text
line_at [] n = []
line_at (l ∷ ls) zero = l
line_at (l ∷ ls) (suc n) = line_at ls n

-- `milestone_starts`
unfoldable pub milestone_start : List Text → Text → Result (Text × ℕ)
milestone_start lines id = do
  n ← find_line lines (starting (text "### " ++ (id ++ text " — "))) 0
  ok (id, n)

-- `SHA-256` of the text's UTF-8 bytes, and `json.dumps` of the catalog
module _ (sha256 : Text → Text) (dumps : List Criterion → Text) where
  -- `criterion`
  unfoldable pub criterion : Text → Text → Text → Text → ℕ → Result Criterion
  criterion id group kind content line = do
    require (not (text_eq (strip content) [])) (refused "empty criterion derived")
    ok (record {
      id = id;
      group = group;
      kind = kind;
      content = strip content;
      source_line = line;
      text_sha256 = hex (sha256 (strip content));
    })

  -- `for ordinal, (line_number, text) in enumerate(rows, 1): catalog.append(…)`
  unfoldable pub numbered : Text → Text → Text → ℕ → List (ℕ × Text) → Result (List Criterion)
  numbered prefix group kind ordinal [] = ok []
  numbered prefix group kind ordinal ((line, content) ∷ rows) = do
    c ← criterion (prefix ++ two_digits ordinal) group kind content line
    cs ← numbered prefix group kind (suc ordinal) rows
    ok (c ∷ cs)

  -- The criteria of one milestone, in the lines from `start` to `end`
  unfoldable pub derive_milestone : List Text → Text → ℕ → ℕ → Result (List Criterion)
  derive_milestone lines id start end = do
    task ← find_line lines (exactly (text "작업:")) start
    deliverable ← find_line lines (starting (text "산출물: ")) task
    exit ← find_line lines (exactly (text "종료 조건:")) deliverable
    stop ← find_line lines (starting (text "중단 조건: ")) exit
    require
        (ltb start task
          && ltb task deliverable
          && ltb deliverable exit
          && ltb exit stop
          && ltb stop end)
        (refused "unexpected governing design structure")
    tasks ←
        numbered (id ++ text "-T") id (text "task") 1
          (bullet_rows lines (task + 1) deliverable false)
    deliverables ←
        numbered (id ++ text "-D") id (text "deliverable") 1
          (deliverable_rows (deliverable + 1) (line_at lines deliverable))
    exits ← numbered (id ++ text "-E") id (text "exit") 1 (bullet_rows lines (exit + 1) stop false)
    s ←
        criterion (id ++ text "-S01") id (text "stop") (strip (after_colon (line_at lines stop)))
          (stop + 1)
    ok (tasks ++ (deliverables ++ (exits ++ (s ∷ []))))

  -- The loop over the milestones: each ends where the next one starts, the last one at `end`.
  unfoldable pub derive_milestones : List Text → ℕ → List (Text × ℕ) → Result (List Criterion)
  derive_milestones lines end [] = ok []
  derive_milestones lines end ((id, start) ∷ []) = derive_milestone lines id start end
  derive_milestones lines end ((id, start) ∷ (next, stop) ∷ rest) = do
    cs ← derive_milestone lines id start stop
    ds ← derive_milestones lines end ((next, stop) ∷ rest)
    ok (cs ++ ds)

  unfoldable pub derive_group : List Text → GroupSpec → Result (List Criterion)
  derive_group lines g =
      if text_eq g.section (text "20") || text_eq g.section (text "21")
      then (do
        start ← find_line lines (starting (text "## " ++ (g.section ++ text ". "))) 0
        numbered (g.prefix ++ text "-") g.group (text "criterion") 1 (
            bullet_rows lines (start + 1)
              (find_or_end lines (starting (text "## ") ∷ []) (start + 1))
              (text_eq g.section (text "21"))))
      else (do
        start ← find_line lines (starting (text "### " ++ (g.section ++ text " "))) 0
        numbered (g.prefix ++ text "-") g.group (text "criterion") 1 (
            bullet_rows lines (start + 1)
              (find_or_end lines (starting (text "### ") ∷ starting (text "## ") ∷ []) (start + 1))
              false))

  unfoldable pub derive_groups : List Text → List GroupSpec → Result (List Criterion)
  derive_groups lines [] = ok []
  derive_groups lines (g ∷ gs) = do
    cs ← derive_group lines g
    ds ← derive_groups lines gs
    ok (cs ++ ds)

  -- `derive_catalog`
  unfoldable pub derive_catalog : Text → Result (List Criterion)
  derive_catalog design = do
    let lines = split_lines design
    starts ← collect (milestone_start lines) milestone_ids
    end ← find_line lines (starting (text "## 18. ")) 0
    milestones ← derive_milestones lines end starts
    groups ← derive_groups lines group_specs
    require (not (repeats (map (λ (c : Criterion). c.id) (milestones ++ groups))))
        (refused "derived milestone catalog contains duplicate IDs")
    ok (milestones ++ groups)

  -- `catalog_sha256`
  unfoldable pub catalog_sha256 : List Criterion → Text
  catalog_sha256 catalog = hex (sha256 (dumps catalog))

  -- How many criteria of a group are of a kind
  unfoldable pub count_kind : Text → Text → List Criterion → ℕ
  count_kind group kind [] = 0
  count_kind group kind (c ∷ cs) =
      let rest = count_kind group kind cs in
      if text_eq c.group group && text_eq c.kind kind then suc rest else rest

  unfoldable pub count_group : Text → List Criterion → ℕ
  count_group group [] = 0
  count_group group (c ∷ cs) =
      let rest = count_group group cs in if text_eq c.group group then suc rest else rest

  unfoldable pub has_counts : List Criterion → Text × Counts → Bool
  has_counts catalog (id, n) =
      count_kind id (text "task") catalog == n.tasks
      && count_kind id (text "deliverable") catalog == n.deliverables
      && count_kind id (text "exit") catalog == n.exits
      && count_kind id (text "stop") catalog == n.stops

  -- `d.get(label) == n`
  unfoldable pub states : Fields → Text → ℕ → Bool
  states d label n = field_eq d label (int (pos n))

  -- What the state says of one milestone: `expected_milestones[milestone_id].get(label)`
  unfoldable pub states_counts : Fields → Text × Counts → Result (Unit {0})
  states_counts stated (id, n) = do
    d ← object_or (err attribute_error) (got id stated)
    require
        (states d (text "tasks") n.tasks
          && states d (text "deliverables") n.deliverables
          && states d (text "exitConditions") n.exits
          && states d (text "stopConditions") n.stops)
        (refused "state expectation changed")

  -- `set(value or {}) != set(names)` and the indexing by names: only an object passes both.
  unfoldable pub expectations_for : List Text → Value → Result Fields
  expectations_for names (obj d) =
      if same_set (keys d) names
      then ok d
      else err (refused "state catalog expectations are incomplete")
  expectations_for names (list vs) = elim (strings vs) [
    | none ↦
        if has_container vs
        then err type_error
        else err (refused "state catalog expectations are incomplete")
    | some ts ↦
        if same_set ts names
        then err type_error
        else err (refused "state catalog expectations are incomplete")
  ]
  expectations_for names (bool true) = err type_error
  expectations_for names (int n) =
      if truthy (some (int n))
      then err type_error
      else err (refused "state catalog expectations are incomplete")
  expectations_for names _ = err (refused "state catalog expectations are incomplete")

  -- `validate_catalog`
  unfoldable pub validate_catalog : List Criterion → Fields → Result (Unit {0})
  validate_catalog catalog state = do
    require (length catalog == expected_total) (refused "derived catalog has the wrong size")
    require (all (has_counts catalog) expected_counts) (refused "derived counts changed")
    require (all (λ (g : GroupSpec). count_group g.group catalog == g.expected) group_specs)
        (refused "derived count changed")
    d ←
        object_or (err (refused "catalogExpectations.total is missing or incorrect"))
          (got (text "catalogExpectations") state)
    require (states d (text "total") expected_total)
        (refused "catalogExpectations.total is missing or incorrect")
    milestones ← expectations_for milestone_ids (got (text "milestones") d)
    groups ← expectations_for (map (λ (g : GroupSpec). g.group) group_specs) (got (text "groups") d)
    for_each (states_counts milestones) expected_counts
    require (all (λ (g : GroupSpec). states groups g.group g.expected) group_specs)
        (refused "state expectation changed")
    require (field_eq state (text "catalogSha256") (str (catalog_sha256 catalog)))
        (refused "derived catalog hash mismatch")
