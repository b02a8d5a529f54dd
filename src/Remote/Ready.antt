-- ===== src/Remote/Ready.antt =====
-- What `ready` of scripts/dmota_remote.py has found out about a target.
use dm_d5102q_rs485_bridge.Prelude.{
  if◌then◌else◌, text, text, ◌≡◌, refl, sym, ◌∙◌, ap, Text, text_eq, text_eq_refl, text_eq_sound,
  text_mem, Bool-cases, inl, inr, true, false, ◌&&◌, Option, none, some, List, [], ◌∷◌, String,
  arith, and-eq-true,
}
use dm_d5102q_rs485_bridge.Value.{field_eq, Value, Fields, end, field, get, value_eq}
use dm_d5102q_rs485_bridge.Exec.{key_error, >>-eq-ok, ok, err, >>=-eq-ok, ok-injective}
use dm_d5102q_rs485_bridge.Remote.{
  null, same_type, has_exactly, require_all, required, safe_fields, select, ready,
}
use dm_d5102q_rs485_bridge.Ota.Reconcile.{item}

-- An item of a dict.
pub data Has (k : Text) (v : Value) : Fields → Type 0 where
  here : {d : Fields} → Has k v (field k v d)
  there : {j : Text} {w : Value} {d : Fields} → Has k v d → Has k v (field j w d)

-- The field is there, with the very type and value.
abbrev pub Exactly : Fields → Text → Value → Type 0
Exactly state k v =
    (w : Value) × (get k state ≡ some w) × (same_type w v ≡ true) × (value_eq w v ≡ true)

has_exactly_sound :
    (state : Fields) (k : Text) (v : Value) → has_exactly state k v ≡ ok true → Exactly state k v
unfolding has_exactly
has_exactly_sound state k v h = go (get k state) refl h
  where
    go :
        (found : Option Value)
        → get k state ≡ found
        → elim found [
          | some w ↦ ok (same_type w v && value_eq w v)
          | none ↦ if same_type null v then err key_error else ok false
        ]
          ≡ ok true
        → Exactly state k v
    go (some w) eq x =
        let both = and-eq-true (same_type w v) (value_eq w v) (ok-injective x) in
        (w, eq, both.0, both.1)
    go none eq x = ground arith

first_or_rest :
    (state : Fields) {k j : Text} {v w : Value} {d : Fields}
    → Has k v (field j w d)
    → has_exactly state j w ≡ ok true
    → (Has k v d → Exactly state k v)
    → Exactly state k v
first_or_rest state here found rest = has_exactly_sound state _ _ found
first_or_rest state (there y) found rest = rest y

require_all_sound :
    (message : String) (state d : Fields) {u : Unit {0}}
    → require_all message state d ≡ ok u
    → (k : Text) (v : Value) → Has k v d
    → Exactly state k v
unfolding require_all
require_all_sound message state end h k v x = elim x [ ]
require_all_sound message state (field j w d) h k v x =
    let a = >>=-eq-ok (has_exactly state j w) _ h in
    let b = >>-eq-ok a.0 _ _ a.2 in
    first_or_rest state x (a.1 ∙ ap ok b.0) (λ y. require_all_sound message state d b.1 k v y)

select_sound :
    (names : List Text) (state : Fields) (k : Text) {v : Value}
    → get k (select names state) ≡ some v
    → (text_mem k names ≡ true) × (get k state ≡ some v)
unfolding select get text_mem
select_sound [] state k h = ground arith
select_sound (n ∷ names) state k {v} h = go (select_sound names state k) (get n state) refl h
  where
    go :
        (get k (select names state) ≡ some v → (text_mem k names ≡ true) × (get k state ≡ some v))
        → (found : Option Value) → get n state ≡ found
        → get k (elim found as (λ _. Fields) [
          | none ↦ select names state
          | some w ↦ field n w (select names state)
        ])
          ≡ some v
        → (text_mem k (n ∷ names) ≡ true) × (get k state ≡ some v)
    go rest none eq e = let x = rest e in (ground (arith, x.0), x.1)
    go rest (some w) eq e = elim (Bool-cases (text_eq n k)) [
      | inl same ↦
          let path = text_eq_sound n k same in
          (
            rw path (ground (arith, text_eq_refl k)),
            ap (λ x. get x state) (sym path) ∙ eq ∙ rw same at e,
          )
      | inr other ↦ let x = rest (rw other at e) in (ground (arith, x.0), x.1)
    ]

-- Where `ready` returns, each field of the profile and each required field is in the state, with
-- exactly that type and value, and what it returns are fields of the state with safe names.
pub ready_sound :
    (state profile : Fields) {r : Fields}
    → ready state profile ≡ ok r
    → ((k : Text) (v : Value) → Has k v profile → Exactly state k v)
      × ((k : Text) (v : Value) → Has k v required → Exactly state k v)
      × ((k : Text) (v : Value)
          → get k r ≡ some v
          → (text_mem k safe_fields ≡ true) × (get k state ≡ some v))
unfolding ready
ready_sound state profile {r} h =
    let a = >>=-eq-ok (require_all "Target/profile mismatch" state profile) _ h in
    let b = >>=-eq-ok (require_all "Target not ready" state required) _ a.2 in
    let c = >>=-eq-ok (item state (text "otaVersion")) _ b.2 in
    let d = >>-eq-ok (field_eq state (text "otaAttemptVersion") c.0) _ _ c.2 in
    (
      require_all_sound _ state profile a.1,
      require_all_sound _ state required b.1,
      λ k v e. select_sound safe_fields state k (ap (get k) (ok-injective d.1) ∙ e),
    )
