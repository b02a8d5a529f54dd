-- ===== src/Milestones/Accepted.antt =====
-- What the milestone gate accepts.
use dm_d5102q_rs485_bridge.Prelude.{
  first_or_later, ◌≡◌, ap, Text, text, text_eq, text_mem, Bool, true, not, ◌&&◌, ◌||◌, none, some,
  List, [], ◌∷◌, if◌then◌else◌, In, here, there, arith, and-eq-true, all, all-In, map,
}
use dm_d5102q_rs485_bridge.Value.{null, Fields, field_eq}
use dm_d5102q_rs485_bridge.Exec.{ok, >>=-eq-ok, >>-eq-ok, ok-injective}
use dm_d5102q_rs485_bridge.Documents.{collect, object_or, got, Entry}
use dm_d5102q_rs485_bridge.Documents.Laws.{collect_sound}
use dm_d5102q_rs485_bridge.Milestones.{Criterion, GroupSpec, milestone_ids, group_specs}
use dm_d5102q_rs485_bridge.Milestones.Resolve.{Resolved, resolve_group}
use dm_d5102q_rs485_bridge.Milestones.Resolve.Backed.{IsBacked, resolve_group-IsBacked}
use dm_d5102q_rs485_bridge.Milestones.Gate.{
  Report, GroupReport, has_status, is_stop, statuses_are, check_milestones, check_group,
  first_unsatisfied, milestone_value, release_groups, release_ready,
}
use dm_d5102q_rs485_bridge.Milestones.Gate.Order.{
  is_satisfied, is_begun, Precedes, IsSound, Chain, next, check_milestones-Chain,
  check_milestones-id,
}
use dm_d5102q_rs485_bridge.Milestones.Resolve.Complete.{Covers}
use dm_d5102q_rs485_bridge.Milestones.Gate.Complete.{
  check_milestones-Covers, check_group-Covers, check_groups-id,
}
use dm_d5102q_rs485_bridge.Milestones.Gate.Frontier.{
  Frontier, begun_after_satisfied, first_unsatisfied-Frontier, none_unsatisfied,
}
use dm_d5102q_rs485_bridge.Milestones.Repository.{Summary, states_for, check_gates}

-- The milestones of a summary are M0 to M9 in this order; what is satisfied or in progress comes
-- after satisfied ones only; the current milestone is the first that is not satisfied, and none
-- behind it is begun.
pub record IsGated (s : Summary) : Type 0 where
  pub ids : map (λ (r : Report). r.id) s.milestones ≡ milestone_ids
  pub in_turn :
      (p r : Report) → Precedes p r s.milestones → is_begun r ≡ true → is_satisfied p ≡ true
  pub frontier : (id : Text) → s.current_milestone ≡ some id → Frontier id s.milestones
  pub finished :
      s.current_milestone ≡ none → (r : Report) → In r s.milestones → is_satisfied r ≡ true

module _ (exists : Text → Bool) (evidence : List Entry) (catalog : List Criterion) where
  -- Each criterion that the catalog has in a milestone is reported, every criterion is satisfied and
  -- every stop condition clear, and each rests on what it cites.
  pub record IsClosed (r : Report) : Type 0 where
    pub complete : Covers catalog r.id r.items
    pub satisfied : is_satisfied r ≡ true
    pub met :
        (x : Resolved)
        → In x r.items
        → (if is_stop x then has_status (text "clear") x else has_status (text "satisfied") x)
          ≡ true
    pub backed : (x : Resolved) → In x r.items → IsBacked exists evidence x.fields

  -- Each criterion that the catalog has in a group is reported, satisfied and rests on what it cites.
  pub record IsMet (g : GroupReport) : Type 0 where
    pub complete : Covers catalog g.id g.items
    pub met : (x : Resolved) → In x g.items → has_status (text "satisfied") x ≡ true
    pub backed : (x : Resolved) → In x g.items → IsBacked exists evidence x.fields

  -- All that a release needs
  pub record IsReleasable (s : Summary) : Type 0 where
    pub ids : map (λ (r : Report). r.id) s.milestones ≡ milestone_ids
    pub group_ids :
        map (λ (g : GroupReport). g.id) s.groups ≡ map (λ (g : GroupSpec). g.group) group_specs
    pub milestones : (r : Report) → In r s.milestones → IsClosed r
    pub groups : (g : GroupReport) → In g s.groups → text_mem g.id release_groups ≡ true → IsMet g

  IsSound-IsClosed :
      (prior : Bool) (r : Report)
      → IsSound exists evidence prior r
      → Covers catalog r.id r.items
      → is_satisfied r ≡ true
      → IsClosed r
  unfolding statuses_are
  IsSound-IsClosed prior r s covers h = record {
    complete = covers;
    satisfied = h;
    met = all-In _ r.items (s.closed h);
    backed = s.backed;
  }

  Chain-IsClosed :
      (rs : List Report) (prior : Bool)
      → Chain exists evidence prior rs
      → ((r : Report) → In r rs → Covers catalog r.id r.items)
      → ((r : Report) → In r rs → is_satisfied r ≡ true)
      → (r : Report) → In r rs
      → IsClosed r
  Chain-IsClosed [] prior c covers h r i = elim i [ ]
  Chain-IsClosed (x ∷ rs) prior (next s c) covers h r i =
      first_or_later IsClosed (IsSound-IsClosed prior x s (covers x here) (h x here))
        (λ y j.
          Chain-IsClosed rs (prior && is_satisfied x) c (λ z k. covers z (there k))
            (λ z k. h z (there k)) y j)
        i

  needed : (m a : Bool) → (not m || a) ≡ true → m ≡ true → a ≡ true
  needed m a h e = ground arith

  module _ (known : List Text) where
    check_group-IsBacked :
        (states : Fields) (spec : GroupSpec) {g : GroupReport}
        → check_group exists catalog evidence known states spec ≡ ok g
        → (x : Resolved) → In x g.items
        → IsBacked exists evidence x.fields
    unfolding check_group
    check_group-IsBacked states spec {g} h x i =
        let a = >>=-eq-ok (object_or _ (got spec.group states)) _ h in
        let b = >>=-eq-ok (resolve_group exists catalog spec.group a.0 evidence known null) _ a.2 in
        resolve_group-IsBacked exists evidence catalog spec.group a.0 known null b.1 x
          (rw (ap (λ (g : GroupReport). g.items) (ok-injective b.2)) i)

    groups_met :
        (states : Fields) (specs : List GroupSpec) {gs : List GroupReport}
        → collect (check_group exists catalog evidence known states) specs ≡ ok gs
        → all
            (λ (g : GroupReport).
              not (text_mem g.id release_groups) || all (has_status (text "satisfied")) g.items)
            gs
          ≡ true
        → (g : GroupReport) → In g gs
        → text_mem g.id release_groups ≡ true
        → IsMet g
    groups_met states specs h r g i m =
        let a = collect_sound (check_group exists catalog evidence known states) specs h g i in
        record {
          complete = (check_group-Covers exists catalog evidence known states a.0 a.2).1;
          met =
              all-In (has_status (text "satisfied")) g.items
                (needed (text_mem g.id release_groups) _ (all-In _ _ r g i) m);
          backed = check_group-IsBacked states a.0 a.2;
        }

    all_satisfied :
        (rs : List Report)
        → all (λ (r : Report). text_eq r.status (text "satisfied")) rs ≡ true
        → (r : Report) → In r rs
        → is_satisfied r ≡ true
    all_satisfied rs h r i = all-In (λ (r : Report). text_eq r.status (text "satisfied")) rs h r i

    gated :
        (states : Fields) {rs : List Report}
        → check_milestones exists catalog evidence known states true milestone_ids ≡ ok rs
        → (groups : List GroupReport) (ready : Bool)
        → IsGated (record {
          catalog = catalog;
          current_milestone = first_unsatisfied rs;
          ready = ready;
          milestones = rs;
          groups = groups;
        })
    gated states {rs} h groups ready =
        let chain =
          check_milestones-Chain exists evidence catalog known states true milestone_ids h in
        record {
          ids = check_milestones-id exists evidence catalog known states true milestone_ids h;
          in_turn = begun_after_satisfied exists evidence rs true chain;
          frontier = λ id. first_unsatisfied-Frontier exists evidence rs true id chain;
          finished = none_unsatisfied exists evidence rs;
        }

    module _ (state : Fields) where
      moved : (a s : Summary) → a ≡ s → IsGated a → IsGated s
      moved a s e x = rw (← e) x

      -- Where check_gates accepts a state, its milestones are M0 to M9 in this order, each
      -- satisfied milestone and each in progress comes after satisfied ones only, the current
      -- milestone is the first that is not satisfied, none behind it is satisfied or in progress,
      -- and where there is no current milestone all are satisfied.
      pub check_gates-IsGated :
          {s : Summary} → check_gates exists state catalog evidence known ≡ ok s → IsGated s
      unfolding check_gates
      check_gates-IsGated {s} h =
          let a = >>=-eq-ok (states_for state (text "milestones") milestone_ids) _ h in
          let b = >>=-eq-ok (states_for state (text "groups") _) _ a.2 in
          let c =
            >>=-eq-ok (check_milestones exists catalog evidence known a.0 true milestone_ids) _
              b.2 in
          let d =
            >>-eq-ok
              (field_eq state (text "currentMilestone") (milestone_value (first_unsatisfied c.0))) _
              _ c.2 in
          let e =
            >>=-eq-ok (collect (check_group exists catalog evidence known b.0) group_specs) _ d.1 in
          moved _ _ (ok-injective e.2) (gated a.0 c.1 e.0 (release_ready c.0 e.0))

      -- Where check_gates reports a release as ready, its reports are those of the milestones M0 to
      -- M9 and of the groups of GROUP_SPECS, and each criterion that the catalog has in a milestone
      -- or in one of the release groups is among the items of its report. Each milestone is
      -- satisfied with each criterion satisfied and each stop condition clear, each criterion of
      -- the release groups is satisfied, and each of these criteria cites only known evidence and
      -- valid artifacts that exist, has at least one of them when it is satisfied, and with a
      -- physical proof stage rests on observed evidence that is there.
      pub check_gates-IsReleasable :
          {s : Summary}
          → check_gates exists state catalog evidence known ≡ ok s
          → s.ready ≡ true
          → IsReleasable s
      unfolding check_gates release_ready
      check_gates-IsReleasable {s} h ready =
          let a = >>=-eq-ok (states_for state (text "milestones") milestone_ids) _ h in
          let b = >>=-eq-ok (states_for state (text "groups") _) _ a.2 in
          let c =
            >>=-eq-ok (check_milestones exists catalog evidence known a.0 true milestone_ids) _
              b.2 in
          let d =
            >>-eq-ok
              (field_eq state (text "currentMilestone") (milestone_value (first_unsatisfied c.0))) _
              _ c.2 in
          let e =
            >>=-eq-ok (collect (check_group exists catalog evidence known b.0) group_specs) _ d.1 in
          let chain =
            check_milestones-Chain exists evidence catalog known a.0 true milestone_ids c.1 in
          released _ _ (ok-injective e.2)
            (λ r.
              let both = and-eq-true _ _ r in
              record {
                ids = check_milestones-id exists evidence catalog known a.0 true milestone_ids c.1;
                group_ids = check_groups-id exists catalog evidence known b.0 group_specs e.1;
                milestones =
                    Chain-IsClosed c.0 true chain
                      (check_milestones-Covers exists catalog evidence known a.0 true milestone_ids
                        c.1)
                      (all_satisfied c.0 both.0);
                groups = groups_met b.0 group_specs e.1 both.1;
              })
            ready
        where
          released :
              (a s : Summary)
              → a ≡ s
              → (a.ready ≡ true → IsReleasable a)
              → s.ready ≡ true
              → IsReleasable s
          released a s e = rw e (λ f. f)
