-- ===== src/Milestones/Gate/Order.antt =====
-- The order of the milestones: what is satisfied or begun comes after what is satisfied.
use dm_d5102q_rs485_bridge.Prelude.{
  refl, map, text_eq_sound, ◌≡◌, sym, ap, ◌∙◌, Text, text, text_eq, Bool, Bool-cases, inl, inr,
  true, false, ◌&&◌, ◌||◌, List, [], ◌∷◌, ◌++◌, In, arith,
}
use dm_d5102q_rs485_bridge.Value.{str, Fields}
use dm_d5102q_rs485_bridge.Exec.{ok, >>=-eq-ok, >>-eq-ok, require-eq-ok, ok-injective}
use dm_d5102q_rs485_bridge.Documents.{subset, got, Entry}
use dm_d5102q_rs485_bridge.Milestones.{milestone_ids, Criterion}
use dm_d5102q_rs485_bridge.Milestones.Resolve.{Resolved, resolve_group}
use dm_d5102q_rs485_bridge.Milestones.Resolve.Backed.{IsBacked, resolve_group-IsBacked}
use dm_d5102q_rs485_bridge.Milestones.Gate.{
  blocked_by_of, state_of, one_in, Report, check_status, check_milestone, check_milestones,
  statuses_are,
}

abbrev pub is_satisfied : Report → Bool
is_satisfied r = text_eq r.status (text "satisfied")

-- Satisfied, or in progress
abbrev pub is_begun : Report → Bool
is_begun r = text_eq r.status (text "satisfied") || text_eq r.status (text "in-progress")

-- `p` stands before `r`.
pub data Precedes (p r : Report) : List Report → Type 0 where
  now : {rs : List Report} → In r rs → Precedes p r (p ∷ rs)
  later : {q : Report} {rs : List Report} → Precedes p r rs → Precedes p r (q ∷ rs)

same_ids : {a b : Text} {xs ys : List Text} → a ≡ b → xs ≡ ys → a ∷ xs ≡ b ∷ ys
same_ids e f = cc

module _ (exists : Text → Bool) (evidence : List Entry) where
  -- What a single report promises, given whether everything before it is satisfied.
  pub record IsSound (prior : Bool) (r : Report) : Type 0 where
    pub in_turn : is_begun r ≡ true → prior ≡ true
    pub closed :
        is_satisfied r ≡ true → statuses_are (text "satisfied") (text "clear") r.items ≡ true
    pub backed : (x : Resolved) → In x r.items → IsBacked exists evidence x.fields

  in_progress_in_turn :
      (prior : Bool) (items : List Resolved) (blocked_by : List Text) {u : Unit {0}}
      → check_status prior (text "in-progress") items blocked_by ≡ ok u
      → prior ≡ true
  unfolding check_status text text_eq
  in_progress_in_turn prior items blocked_by h = require-eq-ok prior _ h

  or_second : (a b : Bool) → (a || b) ≡ true → a ≡ false → b ≡ true
  or_second a b h e = ground arith

  check_status_in_turn :
      (prior : Bool) (status : Text) (items : List Resolved) (blocked_by : List Text) {u : Unit {0}}
      → check_status prior status items blocked_by ≡ ok u
      → (text_eq status (text "satisfied") || text_eq status (text "in-progress")) ≡ true
      → prior ≡ true
  unfolding check_status
  check_status_in_turn prior status items blocked_by h b =
      elim (Bool-cases (text_eq status (text "satisfied"))) [
        | inl e ↦ (>>-eq-ok prior _ _ (rw e at h)).0
        | inr e ↦
            let same = text_eq_sound status (text "in-progress") (or_second _ _ b e) in
            in_progress_in_turn prior items blocked_by
              (ap (λ s. check_status prior s items blocked_by) (sym same) ∙ h)
      ]

  check_status_closed :
      (prior : Bool) (status : Text) (items : List Resolved) (blocked_by : List Text) {u : Unit {0}}
      → check_status prior status items blocked_by ≡ ok u
      → text_eq status (text "satisfied") ≡ true
      → statuses_are (text "satisfied") (text "clear") items ≡ true
  unfolding check_status
  check_status_closed prior status items blocked_by h b =
      let a = >>-eq-ok prior _ _ (rw b at h) in require-eq-ok _ _ a.1

  -- Reports of milestones, each sound after those before it
  pub data Chain : Bool → List Report → Type 0 where
    none_left : {prior : Bool} → Chain prior []
    next :
        {prior : Bool} {r : Report} {rs : List Report}
        → IsSound prior r
        → Chain (prior && is_satisfied r) rs
        → Chain prior (r ∷ rs)

  module _ (catalog : List Criterion) (known : List Text) (states : Fields) where
    check_milestone-IsSound :
        (prior : Bool) (id : Text) {r : Report}
        → check_milestone exists catalog evidence known states prior id ≡ ok r
        → IsSound prior r
    unfolding check_milestone
    check_milestone-IsSound prior id {r} h =
        let a = >>=-eq-ok (state_of states id) _ h in
        let b = >>=-eq-ok (one_in (got (text "status") a.0) _) _ a.2 in
        let c = >>=-eq-ok (one_in (got (text "defaultStopStatus") a.0) _) _ b.2 in
        let d = >>=-eq-ok (resolve_group exists catalog id a.0 evidence known (str c.0)) _ c.2 in
        let e = >>=-eq-ok (blocked_by_of a.0) _ d.2 in
        let f =
          >>-eq-ok (subset e.0 (milestone_ids ++ map (λ (r : Resolved). r.criterion.id) d.0)) _ _
            e.2 in
        let g = >>=-eq-ok (check_status prior b.0 d.0 e.0) _ f.1 in
        reported _ _ (ok-injective g.2) (record {
          in_turn = check_status_in_turn prior b.0 d.0 e.0 g.1;
          closed = check_status_closed prior b.0 d.0 e.0 g.1;
          backed = resolve_group-IsBacked exists evidence catalog id a.0 known (str c.0) d.1;
        })
      where
        reported : (a r : Report) → a ≡ r → IsSound prior a → IsSound prior r
        reported a r e x = rw (← e) x

    pub check_milestones-Chain :
        (prior : Bool) (ids : List Text) {rs : List Report}
        → check_milestones exists catalog evidence known states prior ids ≡ ok rs
        → Chain prior rs
    unfolding check_milestones
    check_milestones-Chain prior [] h = rw (← ok-injective h) none_left
    check_milestones-Chain prior (id ∷ ids) h =
        let a = >>=-eq-ok (check_milestone exists catalog evidence known states prior id) _ h in
        let b =
          >>=-eq-ok
            (check_milestones exists catalog evidence known states (prior && is_satisfied a.0) ids)
            _ a.2 in
        rw (← ok-injective b.2) (
          next (check_milestone-IsSound prior id a.1)
            (check_milestones-Chain (prior && is_satisfied a.0) ids b.1))

    check_milestone-id :
        (prior : Bool) (id : Text) {r : Report}
        → check_milestone exists catalog evidence known states prior id ≡ ok r
        → r.id ≡ id
    unfolding check_milestone
    check_milestone-id prior id {r} h =
        let a = >>=-eq-ok (state_of states id) _ h in
        let b = >>=-eq-ok (one_in (got (text "status") a.0) _) _ a.2 in
        let c = >>=-eq-ok (one_in (got (text "defaultStopStatus") a.0) _) _ b.2 in
        let d = >>=-eq-ok (resolve_group exists catalog id a.0 evidence known (str c.0)) _ c.2 in
        let e = >>=-eq-ok (blocked_by_of a.0) _ d.2 in
        let f =
          >>-eq-ok (subset e.0 (milestone_ids ++ map (λ (r : Resolved). r.criterion.id) d.0)) _ _
            e.2 in
        let g = >>=-eq-ok (check_status prior b.0 d.0 e.0) _ f.1 in
        sym (ap (λ (r : Report). r.id) (ok-injective g.2))

    pub check_milestones-id :
        (prior : Bool) (ids : List Text) {rs : List Report}
        → check_milestones exists catalog evidence known states prior ids ≡ ok rs
        → map (λ (r : Report). r.id) rs ≡ ids
    unfolding check_milestones
    check_milestones-id prior [] h = rw (← ok-injective h) refl
    check_milestones-id prior (id ∷ ids) h =
        let a = >>=-eq-ok (check_milestone exists catalog evidence known states prior id) _ h in
        let b =
          >>=-eq-ok
            (check_milestones exists catalog evidence known states (prior && is_satisfied a.0) ids)
            _ a.2 in
        rw (← ok-injective b.2) (
          same_ids (check_milestone-id prior id a.1)
            (check_milestones-id (prior && is_satisfied a.0) ids b.1))
