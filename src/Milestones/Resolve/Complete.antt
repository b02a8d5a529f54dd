-- ===== src/Milestones/Resolve/Complete.antt =====
-- `resolve_group` resolves each criterion of its group.
use dm_d5102q_rs485_bridge.Prelude.{
  ◌≡◌, sym, ap, Text, text, text_eq, text_eq_refl, Bool, Bool-cases, inl, inr, false, List, [], ◌∷◌,
  In, here, there, map, first_or_later,
}
use dm_d5102q_rs485_bridge.Value.{Value, obj, end, Fields, get_or, keys}
use dm_d5102q_rs485_bridge.Exec.{ok, >>=-eq-ok, >>-eq-ok, ok-injective}
use dm_d5102q_rs485_bridge.Documents.{Entry, got, in_set, subset, object_or}
use dm_d5102q_rs485_bridge.Documents.Laws.{collect_complete}
use dm_d5102q_rs485_bridge.Milestones.{Criterion, allowed_override_fields}
use dm_d5102q_rs485_bridge.Milestones.Resolve.{
  Resolved, of_group, validate_requirement_ids, validate_resolved_criterion, resolve_item,
  resolve_group,
}

-- Each criterion of the group in a catalog is among the resolved ones.
abbrev pub Covers : List Criterion → Text → List Resolved → Type 0
Covers catalog group items =
    (c : Criterion)
    → In c catalog
    → c.group ≡ group
    → (x : Resolved) × In x items × (x.criterion ≡ c)

of_group_complete :
    (group : Text) (cs : List Criterion) (c : Criterion)
    → In c cs
    → c.group ≡ group
    → In c (of_group group cs)
unfolding of_group
of_group_complete group [] c i e = elim i [ ]
of_group_complete group (d ∷ ds) c i e = elim (Bool-cases (text_eq d.group group)) [
  | inl f ↦ rw f (
      first_or_later (λ x. x.group ≡ group → In x (d ∷ of_group group ds)) (λ e. here)
        (λ x j e. there (of_group_complete group ds x j e)) i e)
  | inr f ↦ rw f (
      first_or_later (λ x. x.group ≡ group → In x (of_group group ds)) (λ e. absurd (apart d e f))
        (λ x j e. of_group_complete group ds x j e) i e)
]
  where
    apart : (d : Criterion) → d.group ≡ group → text_eq d.group group ≡ false → ⊥
    apart d e f = let x = rw e at f in let y = text_eq_refl group in cc

module _ (exists : Text → Bool) (evidence : List Entry) where
  resolve_item-criterion :
      (overrides : Fields) (status stop stage ids : Value) (c : Criterion) {x : Resolved}
      → resolve_item exists overrides evidence status stop stage ids c ≡ ok x
      → x.criterion ≡ c
  unfolding resolve_item
  resolve_item-criterion overrides status stop stage ids c h =
      let a = >>=-eq-ok (object_or _ (get_or c.id (obj end) overrides)) _ h in
      let b = >>-eq-ok (subset (keys a.0) allowed_override_fields) _ _ a.2 in
      let d = >>=-eq-ok (validate_resolved_criterion exists c _ evidence) _ b.1 in
      sym (ap (λ (x : Resolved). x.criterion) (ok-injective d.2))

  pub resolve_group-Covers :
      (catalog : List Criterion) (group : Text) (state : Fields) (known : List Text) (stop : Value)
      {items : List Resolved}
      → resolve_group exists catalog group state evidence known stop ≡ ok items
      → Covers catalog group items
  unfolding resolve_group
  resolve_group-Covers catalog group state known stop h c i e =
      let a = >>=-eq-ok (object_or _ (got (text "overrides") state)) _ h in
      let b =
        >>-eq-ok (subset (keys a.0) (map (λ (c : Criterion). c.id) (of_group group catalog))) _ _
          a.2 in
      let f = >>=-eq-ok (in_set (got (text "defaultProofStage") state) _) _ b.1 in
      let g = >>-eq-ok f.0 _ _ f.2 in
      let k = >>=-eq-ok (in_set (got (text "defaultStatus") state) _) _ g.1 in
      let l = >>-eq-ok k.0 _ _ k.2 in
      let m =
        >>=-eq-ok (validate_requirement_ids (got (text "requirementIds") state) known) _ l.1 in
      let (x, j, r) =
        collect_complete _ (of_group group catalog) m.2 c (of_group_complete group catalog c i e) in
      (x, j, resolve_item-criterion a.0 _ stop _ _ c r)
