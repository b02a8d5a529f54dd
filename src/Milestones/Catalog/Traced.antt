-- ===== src/Milestones/Catalog/Traced.antt =====
-- The criteria of the catalog and the lines of the design that they name.
use dm_d5102q_rs485_bridge.Prelude.{
  ◌-◌, ◌≡◌, refl, ℕ, suc, ◌+◌, ◌≤◌, Text, text, text_eq, Bool, Bool-cases, inl, inr, true, false,
  not, ◌||◌, List, [], ◌∷◌, ◌++◌, In, here, there, first_or_later, append-In, length, map, arith,
}
use dm_d5102q_rs485_bridge.Bytes.{hex}
use dm_d5102q_rs485_bridge.Exec.{ok, >>=-eq-ok, >>-eq-ok, ok-injective}
use dm_d5102q_rs485_bridge.Strings.{strip}
use dm_d5102q_rs485_bridge.Documents.{repeats, collect}
use dm_d5102q_rs485_bridge.Milestones.{Criterion, GroupSpec, milestone_ids, group_specs}
use dm_d5102q_rs485_bridge.Milestones.Lines.{exactly, starting, find_line, split_lines}
use dm_d5102q_rs485_bridge.Milestones.Lines.Bounds.{find_line_bound}
use dm_d5102q_rs485_bridge.Strings.Infix.{infix_trans, strip-Infix, contains-Infix}
use dm_d5102q_rs485_bridge.Patterns.{contains}
use dm_d5102q_rs485_bridge.Milestones.Catalog.Standing.{
  Stands, bullet_rows-Stands, deliverable_rows-Stands, stop-Stands,
}
use dm_d5102q_rs485_bridge.Milestones.Catalog.{
  line_at, criterion, numbered, derive_milestone, milestone_start, derive_milestones, derive_group,
  derive_groups, derive_catalog,
}

refuted : (b : Bool) → not b ≡ true → b ≡ false
refuted b h = ground arith

module _ (sha256 : Text → Text) (dumps : List Criterion → Text) where
  -- A criterion has a line of the document, on which its content stands, and the hash of this
  -- content, which is not empty.
  pub record IsTraced (ls : List Text) (c : Criterion) : Type 0 where
    pub line_is : (1 ≤ c.source_line) × (c.source_line ≤ length ls)
    pub stands : contains c.content (line_at ls (c.source_line - 1)) ≡ true
    pub filled : text_eq c.content [] ≡ false
    pub digest : c.text_sha256 ≡ hex (sha256 c.content)

  abbrev AllTraced : List Text → List Criterion → Type 0
  AllTraced ls cs = (c : Criterion) → In c cs → IsTraced ls c

  moved : (ls : List Text) {xs bs : List Criterion} → xs ≡ bs → AllTraced ls xs → AllTraced ls bs
  moved ls e x = rw (← e) x

  criterion-IsTraced :
      (ls : List Text) (id group kind content : Text) (line : ℕ) {c : Criterion}
      → Stands ls (line, content)
      → criterion sha256 dumps id group kind content line ≡ ok c
      → IsTraced ls c
  unfolding criterion
  criterion-IsTraced ls id group kind content line {c} on h =
      let a = >>-eq-ok (not (text_eq (strip content) [])) _ _ h in
      rw (← ok-injective a.1) (record {
        line_is = on.0;
        stands = contains-Infix (infix_trans (strip-Infix content) on.1);
        filled = refuted _ a.0;
        digest = refl;
      })

  numbered-IsTraced :
      (ls : List Text) (prefix group kind : Text) (ordinal : ℕ) (rows : List (ℕ × Text))
      {cs : List Criterion}
      → ((row : ℕ × Text) → In row rows → Stands ls row)
      → numbered sha256 dumps prefix group kind ordinal rows ≡ ok cs
      → AllTraced ls cs
  unfolding numbered
  numbered-IsTraced ls prefix group kind n [] on h = moved ls (ok-injective h) (λ c i. elim i [ ])
  numbered-IsTraced ls prefix group kind n ((line, content) ∷ rows) on h =
      let a = >>=-eq-ok (criterion sha256 dumps _ group kind content line) _ h in
      let b = >>=-eq-ok (numbered sha256 dumps prefix group kind (suc n) rows) _ a.2 in
      moved ls (ok-injective b.2) (λ c i.
        first_or_later (IsTraced ls)
          (criterion-IsTraced ls _ group kind content line (on (line, content) here) a.1)
          (numbered-IsTraced ls prefix group kind (suc n) rows (λ r j. on r (there j)) b.1) i)

  appended :
      (ls : List Text) (xs ys : List Criterion)
      → AllTraced ls xs
      → AllTraced ls ys
      → AllTraced ls (xs ++ ys)
  appended ls xs ys x y = append-In (IsTraced ls) xs ys x y

  alone : (ls : List Text) (c : Criterion) → IsTraced ls c → AllTraced ls (c ∷ [])
  alone ls c x d i = first_or_later (IsTraced ls) {xs = []} x (λ y j. elim j [ ]) i

  derive_milestone-IsTraced :
      (ls : List Text) (id : Text) (start end : ℕ) {cs : List Criterion}
      → derive_milestone sha256 dumps ls id start end ≡ ok cs
      → AllTraced ls cs
  unfolding derive_milestone
  derive_milestone-IsTraced ls id start end h =
      let task = >>=-eq-ok (find_line ls (exactly (text "작업:")) start) _ h in
      let delivery = >>=-eq-ok (find_line ls (starting (text "산출물: ")) task.0) _ task.2 in
      let exit = >>=-eq-ok (find_line ls (exactly (text "종료 조건:")) delivery.0) _ delivery.2 in
      let stop = >>=-eq-ok (find_line ls (starting (text "중단 조건: ")) exit.0) _ exit.2 in
      let order = >>-eq-ok _ _ _ stop.2 in
      let tasks = >>=-eq-ok (numbered sha256 dumps _ id (text "task") 1 _) _ order.1 in
      let items = >>=-eq-ok (numbered sha256 dumps _ id (text "deliverable") 1 _) _ tasks.2 in
      let exits = >>=-eq-ok (numbered sha256 dumps _ id (text "exit") 1 _) _ items.2 in
      let s = >>=-eq-ok (criterion sha256 dumps _ id (text "stop") _ (stop.0 + 1)) _ exits.2 in
      moved ls (ok-injective s.2) (
        appended ls tasks.0 _
          (numbered-IsTraced ls _ id (text "task") 1 _ (bullet_rows-Stands ls _ _ false) tasks.1)
          (appended ls items.0 _
            (numbered-IsTraced ls _ id (text "deliverable") 1 _
              (λ r. deliverable_rows-Stands ls delivery.0 r (find_line_bound ls _ _ delivery.1))
              items.1)
            (appended ls exits.0 _
              (numbered-IsTraced ls _ id (text "exit") 1 _ (bullet_rows-Stands ls _ _ false)
                exits.1)
              (alone ls s.0 (
                criterion-IsTraced ls _ id (text "stop") _ (stop.0 + 1)
                  (stop-Stands ls stop.0 (find_line_bound ls _ _ stop.1)) s.1)))))

  derive_milestones-IsTraced :
      (ls : List Text) (end : ℕ) (starts : List (Text × ℕ)) {cs : List Criterion}
      → derive_milestones sha256 dumps ls end starts ≡ ok cs
      → AllTraced ls cs
  unfolding derive_milestones
  derive_milestones-IsTraced ls end [] h = moved ls (ok-injective h) (λ c i. elim i [ ])
  derive_milestones-IsTraced ls end ((id, start) ∷ []) h =
      derive_milestone-IsTraced ls id start end h
  derive_milestones-IsTraced ls end ((id, start) ∷ (next, stop) ∷ rest) h =
      let a = >>=-eq-ok (derive_milestone sha256 dumps ls id start stop) _ h in
      let b = >>=-eq-ok (derive_milestones sha256 dumps ls end ((next, stop) ∷ rest)) _ a.2 in
      moved ls (ok-injective b.2) (
        appended ls a.0 b.0 (derive_milestone-IsTraced ls id start stop a.1)
          (derive_milestones-IsTraced ls end ((next, stop) ∷ rest) b.1))

  derive_group-IsTraced :
      (ls : List Text) (g : GroupSpec) {cs : List Criterion}
      → derive_group sha256 dumps ls g ≡ ok cs
      → AllTraced ls cs
  unfolding derive_group
  derive_group-IsTraced ls g h =
      elim (Bool-cases (text_eq g.section (text "20") || text_eq g.section (text "21"))) [
        | inl e ↦
            let a =
              >>=-eq-ok (find_line ls (starting (text "## " ++ (g.section ++ text ". "))) 0) _
                (rw e at h) in
            numbered-IsTraced ls _ g.group (text "criterion") 1 _ (bullet_rows-Stands ls _ _ _) a.2
        | inr e ↦
            let a =
              >>=-eq-ok (find_line ls (starting (text "### " ++ (g.section ++ text " "))) 0) _
                (rw e at h) in
            numbered-IsTraced ls _ g.group (text "criterion") 1 _ (bullet_rows-Stands ls _ _ _) a.2
      ]

  derive_groups-IsTraced :
      (ls : List Text) (gs : List GroupSpec) {cs : List Criterion}
      → derive_groups sha256 dumps ls gs ≡ ok cs
      → AllTraced ls cs
  unfolding derive_groups
  derive_groups-IsTraced ls [] h = moved ls (ok-injective h) (λ c i. elim i [ ])
  derive_groups-IsTraced ls (g ∷ gs) h =
      let a = >>=-eq-ok (derive_group sha256 dumps ls g) _ h in
      let b = >>=-eq-ok (derive_groups sha256 dumps ls gs) _ a.2 in
      moved ls (ok-injective b.2)
        (appended ls a.0 b.0 (derive_group-IsTraced ls g a.1) (derive_groups-IsTraced ls gs b.1))

  distinct :
      {xs cs : List Criterion}
      → xs ≡ cs
      → repeats (map (λ (c : Criterion). c.id) xs) ≡ false
      → repeats (map (λ (c : Criterion). c.id) cs) ≡ false
  distinct e x = rw (← e) x

  -- Where derive_catalog returns a catalog, each of its criteria has the number of a line of the
  -- design (from 1 to the number of lines), a content that is not empty and stands on this line,
  -- and the hash of this content, and no two criteria have the same id.
  pub derive_catalog-IsTraced :
      (design : Text) {cs : List Criterion}
      → derive_catalog sha256 dumps design ≡ ok cs
      → AllTraced (split_lines design) cs × (repeats (map (λ (c : Criterion). c.id) cs) ≡ false)
  unfolding derive_catalog
  derive_catalog-IsTraced design h =
      let ls = split_lines design in
      let a = >>=-eq-ok (collect (milestone_start ls) milestone_ids) _ h in
      let b = >>=-eq-ok (find_line ls (starting (text "## 18. ")) 0) _ a.2 in
      let c = >>=-eq-ok (derive_milestones sha256 dumps ls b.0 a.0) _ b.2 in
      let d = >>=-eq-ok (derive_groups sha256 dumps ls group_specs) _ c.2 in
      let e = >>-eq-ok (not (repeats (map (λ (c : Criterion). c.id) (c.0 ++ d.0)))) _ _ d.2 in
      (
        moved ls (ok-injective e.1) (
            appended ls c.0 d.0 (derive_milestones-IsTraced ls b.0 a.0 c.1)
              (derive_groups-IsTraced ls group_specs d.1)),
        distinct (ok-injective e.1) (refuted _ e.0),
      )
