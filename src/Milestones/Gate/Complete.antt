-- ===== src/Milestones/Gate/Complete.antt =====
-- The reports of `check_milestones` and `check_group` leave no criterion of the catalog out.
use dm_d5102q_rs485_bridge.Prelude.{
  refl, ◌≡◌, Text, text, Bool, ◌&&◌, ◌++◌, List, [], ◌∷◌, In, first_or_later, map,
}
use dm_d5102q_rs485_bridge.Value.{null, str, Fields}
use dm_d5102q_rs485_bridge.Exec.{ok, >>=-eq-ok, >>-eq-ok, ok-injective}
use dm_d5102q_rs485_bridge.Documents.{Entry, got, subset, object_or, collect}
use dm_d5102q_rs485_bridge.Documents.Laws.{collect_cons, collect_nil}
use dm_d5102q_rs485_bridge.Milestones.{Criterion, GroupSpec, milestone_ids}
use dm_d5102q_rs485_bridge.Milestones.Resolve.{Resolved, resolve_group}
use dm_d5102q_rs485_bridge.Milestones.Resolve.Complete.{Covers, resolve_group-Covers}
use dm_d5102q_rs485_bridge.Milestones.Gate.{
  Report, GroupReport, blocked_by_of, state_of, one_in, check_status, check_milestone,
  check_milestones, check_group,
}
use dm_d5102q_rs485_bridge.Milestones.Gate.Order.{is_satisfied}

module _ (exists : Text → Bool) (catalog : List Criterion) (evidence : List Entry)
    (known : List Text) (states : Fields) where
  check_milestone-Covers :
      (prior : Bool) (id : Text) {r : Report}
      → check_milestone exists catalog evidence known states prior id ≡ ok r
      → Covers catalog r.id r.items
  unfolding check_milestone
  check_milestone-Covers prior id {r} h =
      let a = >>=-eq-ok (state_of states id) _ h in
      let b = >>=-eq-ok (one_in (got (text "status") a.0) _) _ a.2 in
      let c = >>=-eq-ok (one_in (got (text "defaultStopStatus") a.0) _) _ b.2 in
      let d = >>=-eq-ok (resolve_group exists catalog id a.0 evidence known (str c.0)) _ c.2 in
      let e = >>=-eq-ok (blocked_by_of a.0) _ d.2 in
      let f =
        >>-eq-ok (subset e.0 (milestone_ids ++ map (λ (r : Resolved). r.criterion.id) d.0)) _ _
          e.2 in
      let g = >>=-eq-ok (check_status prior b.0 d.0 e.0) _ f.1 in
      reported _ _ (ok-injective g.2)
        (resolve_group-Covers exists evidence catalog id a.0 known (str c.0) d.1)
    where
      reported : (a r : Report) → a ≡ r → Covers catalog a.id a.items → Covers catalog r.id r.items
      reported a r e x = rw (← e) x

  pub check_milestones-Covers :
      (prior : Bool) (ids : List Text) {rs : List Report}
      → check_milestones exists catalog evidence known states prior ids ≡ ok rs
      → (r : Report) → In r rs
      → Covers catalog r.id r.items
  unfolding check_milestones
  check_milestones-Covers prior [] h = rw (← ok-injective h) (λ r i. elim i [ ])
  check_milestones-Covers prior (id ∷ ids) h =
      let a = >>=-eq-ok (check_milestone exists catalog evidence known states prior id) _ h in
      let b =
        >>=-eq-ok
          (check_milestones exists catalog evidence known states (prior && is_satisfied a.0) ids) _
          a.2 in
      rw (← ok-injective b.2) (λ r i.
        first_or_later (λ (r : Report). Covers catalog r.id r.items)
          (check_milestone-Covers prior id a.1)
          (check_milestones-Covers (prior && is_satisfied a.0) ids b.1) i)

  pub check_group-Covers :
      (spec : GroupSpec) {g : GroupReport}
      → check_group exists catalog evidence known states spec ≡ ok g
      → (g.id ≡ spec.group) × Covers catalog g.id g.items
  unfolding check_group
  check_group-Covers spec {g} h =
      let a = >>=-eq-ok (object_or _ (got spec.group states)) _ h in
      let b = >>=-eq-ok (resolve_group exists catalog spec.group a.0 evidence known null) _ a.2 in
      rw (← ok-injective b.2)
        (refl, resolve_group-Covers exists evidence catalog spec.group a.0 known null b.1)

  pub check_groups-id :
      (specs : List GroupSpec) {gs : List GroupReport}
      → collect (check_group exists catalog evidence known states) specs ≡ ok gs
      → map (λ (g : GroupReport). g.id) gs ≡ map (λ (g : GroupSpec). g.group) specs
  check_groups-id [] h = rw (collect_nil _ h) refl
  check_groups-id (spec ∷ specs) h =
      let (g, rest, one, others, e) = collect_cons _ spec specs h in
      rw e (same (check_group-Covers spec one).0 (check_groups-id specs others))
    where
      same : {a b : Text} {xs ys : List Text} → a ≡ b → xs ≡ ys → a ∷ xs ≡ b ∷ ys
      same e f = cc
