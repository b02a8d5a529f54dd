-- ===== src/Tests/Design.antt =====
-- A design document with one criterion of each kind.
use dm_d5102q_rs485_bridge.Prelude.{
  ◌≡◌, refl, false, Text, text, text_eq, text_mem, List, [], ◌∷◌, ◌++◌, any, all, map, In,
}
use dm_d5102q_rs485_bridge.Bytes.{hex, hex8, decimal}
use dm_d5102q_rs485_bridge.Patterns.{starts_with}
use dm_d5102q_rs485_bridge.Strings.{is_space, lstrip, rstrip, strip, split_on}
use dm_d5102q_rs485_bridge.Documents.{repeats, collect}
use dm_d5102q_rs485_bridge.Milestones.{Criterion, milestone_ids, group_specs}
use dm_d5102q_rs485_bridge.Milestones.Lines.{
  is_line_break, break_line, split_lines, after_colon, two_digits, line_matches, lines_before,
  find_line, find_or_end, bullets, bullet_rows,
}
use dm_d5102q_rs485_bridge.Milestones.Catalog.{
  criterion, numbered, deliverable_rows, line_at, derive_milestone, milestone_start,
  derive_milestones, derive_group, derive_groups, derive_catalog,
}
use dm_d5102q_rs485_bridge.Milestones.Catalog.Traced.{IsTraced, derive_catalog-IsTraced}

abbrev line : Text → Text
line t = t ++ (10 ∷ [])

abbrev milestone : Text → Text → Text
milestone id rest =
    line (text "### " ++ (id ++ text " — m"))
    ++ (line (text "작업:")
        ++ (line (text "- a")
            ++ (line (text "산출물: b, c.")
                ++ (line (text "종료 조건:")
                    ++ (line (text "- d") ++ (line (text "중단 조건: e") ++ rest))))))

abbrev milestones_then : List Text → Text → Text
milestones_then [] rest = rest
milestones_then (id ∷ ids) rest = milestone id (milestones_then ids rest)

abbrev section : Text → Text → Text → Text
section heading bullet rest = line heading ++ (line bullet ++ rest)

abbrev design : Text
design = section (text "### 16.1 h") (text "- f") (
    section (text "### 16.2 h") (text "- f") (
      section (text "### 16.3 h") (text "- f") (
        section (text "### 16.4 h") (text "- f") (
          milestones_then milestone_ids (
            section (text "## 18. h") [] (
              section (text "## 20. h") (text "- g")
                (section (text "## 21. h") (text "- [ ] i") [])))))))

derive_catalog-IsTraced_example :
    (cs : List Criterion) × ((c : Criterion)
      → In c cs
      → IsTraced (λ t. t) (λ cs. []) (split_lines design) c)
    × (repeats (map (λ (c : Criterion). c.id) cs) ≡ false)
unfolding text text_eq text_mem any all hex hex8 decimal starts_with is_space lstrip rstrip strip
    split_on repeats collect milestone_ids group_specs is_line_break break_line split_lines
    after_colon two_digits line_matches lines_before find_line find_or_end bullets bullet_rows
    criterion numbered deliverable_rows line_at derive_milestone milestone_start derive_milestones
    derive_group derive_groups derive_catalog
derive_catalog-IsTraced_example =
    let traced = derive_catalog-IsTraced (λ t. t) (λ cs. []) design refl in (_, traced.0, traced.1)
