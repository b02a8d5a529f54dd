-- ===== src/Milestones/Gate/Frontier.antt =====
-- The satisfied milestones are those before the current one.
use dm_d5102q_rs485_bridge.Documents.{Entry}
use dm_d5102q_rs485_bridge.Prelude.{
  some-injective, ◌≡◌, refl, Text, Bool, Bool-cases, inl, inr, true, false, ◌&&◌, none, some, List,
  [], ◌∷◌, In, arith, and-eq-true, first_or_later,
}
use dm_d5102q_rs485_bridge.Milestones.Gate.{Report, first_unsatisfied}
use dm_d5102q_rs485_bridge.Milestones.Gate.Order.{
  is_satisfied, is_begun, Precedes, now, later, Chain, next,
}

-- Satisfied milestones, then the one with this id, then none that is satisfied.
pub data Frontier (id : Text) : List Report → Type 0 where
  current :
      {r : Report} {rs : List Report}
      → r.id ≡ id
      → is_satisfied r ≡ false
      → ((x : Report) → In x rs → is_begun x ≡ false)
      → Frontier id (r ∷ rs)
  passed :
      {r : Report} {rs : List Report}
      → is_satisfied r ≡ true
      → Frontier id rs
      → Frontier id (r ∷ rs)

begun : (r : Report) → is_satisfied r ≡ true → is_begun r ≡ true
begun r h = rw h

unbegun : (b prior : Bool) → (b ≡ true → prior ≡ true) → prior ≡ false → b ≡ false
unbegun false prior f h = refl
unbegun true prior f h = let x = f refl in cc

module _ (exists : Text → Bool) (evidence : List Entry) where
  begun_in_turn :
      (rs : List Report) (prior : Bool)
      → Chain exists evidence prior rs
      → (r : Report) → In r rs
      → is_begun r ≡ true
      → prior ≡ true
  begun_in_turn [] prior c r i h = elim i [ ]
  begun_in_turn (x ∷ rs) prior (next s c) r i h =
      first_or_later (λ y. is_begun y ≡ true → prior ≡ true) s.in_turn
        (λ y j b.
          (and-eq-true prior (is_satisfied x)
            (begun_in_turn rs (prior && is_satisfied x) c y j b)).0)
        i h

  pub begun_after_satisfied :
      (rs : List Report) (prior : Bool)
      → Chain exists evidence prior rs
      → (p r : Report) → Precedes p r rs
      → is_begun r ≡ true
      → is_satisfied p ≡ true
  begun_after_satisfied [] prior c p r i h = elim i [ ]
  begun_after_satisfied (p ∷ rs) prior (next s c) p' r (now i) h =
      (and-eq-true prior (is_satisfied p) (begun_in_turn rs _ c r i h)).1
  begun_after_satisfied (x ∷ rs) prior (next s c) p r (later y) h =
      begun_after_satisfied rs (prior && is_satisfied x) c p r y h

  pub first_unsatisfied-Frontier :
      (rs : List Report) (prior : Bool) (id : Text)
      → Chain exists evidence prior rs
      → first_unsatisfied rs ≡ some id
      → Frontier id rs
  unfolding first_unsatisfied
  first_unsatisfied-Frontier [] prior id c h = cc
  first_unsatisfied-Frontier (r ∷ rs) prior id (next s c) h = elim (Bool-cases (is_satisfied r)) [
    | inl e ↦ passed e (first_unsatisfied-Frontier rs (prior && is_satisfied r) id c (rw e at h))
    | inr e ↦
        current (some-injective (rw e at h)) e
          (λ x i. unbegun (is_begun x) _ (begun_in_turn rs _ c x i) (rw e (and_false prior)))
  ]
    where
      and_false : (b : Bool) → (b && false) ≡ false
      and_false b = ground arith

  pub none_unsatisfied :
      (rs : List Report)
      → first_unsatisfied rs ≡ none
      → (r : Report) → In r rs
      → is_satisfied r ≡ true
  unfolding first_unsatisfied
  none_unsatisfied [] h r i = elim i [ ]
  none_unsatisfied (x ∷ rs) h r i = elim (Bool-cases (is_satisfied x)) [
    | inl e ↦
        first_or_later (λ y. is_satisfied y ≡ true) e (λ y j. none_unsatisfied rs (rw e at h) y j) i
    | inr e ↦ absurd (some_none (rw e at h))
  ]
    where
      some_none : {id : Text} → some id ≡ none → ⊥
      some_none e = cc
