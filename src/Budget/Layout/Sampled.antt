-- ===== src/Budget/Layout/Sampled.antt =====
-- What an accepted runtime sample has measured.
use dm_d5102q_rs485_bridge.Prelude.{
  ◌≡◌, ap, sym, ◌∙◌, refl, Text, text, true, not, some, List, [], ◌∷◌, ℕ, arith,
}
use dm_d5102q_rs485_bridge.Prelude.Int.{ℤ, pos, ltb_ℤ, leb_ℤ}
use dm_d5102q_rs485_bridge.Value.{Value, null, bool, int, str, list, obj, Fields, get, value_eq}
use dm_d5102q_rs485_bridge.Exec.{ok, >>=-eq-ok, >>-eq-ok, ok-injective}
use dm_d5102q_rs485_bridge.Documents.{is_filled, got, collect}
use dm_d5102q_rs485_bridge.Documents.Laws.{collect_cons, collect_nil}
use dm_d5102q_rs485_bridge.Ota.Reconcile.{item}
use dm_d5102q_rs485_bridge.Budget.Contract.{
  require_object, number, validate_budget_contract, steady_heap_min, loaded_heap_min,
  largest_block_min,
}
use dm_d5102q_rs485_bridge.Budget.Contract.Fixed.{Thresholds, validate_budget_contract-Fixed}
use dm_d5102q_rs485_bridge.Budget.Layout.{integer, measures, check_measure, validate_runtime_sample}

-- The sample has an integer under the key that is not below the bound, and it is reported.
pub record Reaches (sample : Fields) (key : Text) (bound : ℕ) (m : Text × ℤ) : Type 0 where
  pub key_is : m.0 ≡ key
  pub value_is : got key sample ≡ int m.1
  pub bounded : leb_ℤ (pos bound) m.1 ≡ true

integer_sound : (v : Value) {n : ℤ} → integer v ≡ ok n → v ≡ int n
unfolding integer
integer_sound (int n) h = ap int (ok-injective h)
integer_sound null h = cc
integer_sound (bool b) h = cc
integer_sound (str s) h = cc
integer_sound (list vs) h = cc
integer_sound (obj d) h = cc

not_below : (a b : ℤ) → not (ltb_ℤ a b) ≡ true → leb_ℤ b a ≡ true
not_below a b h = ground arith

fixed_number :
    (d : Fields) (k : Text) (n : ℕ) {v : Value} {t : ℤ}
    → get k d ≡ some (int (pos n))
    → item d k ≡ ok v
    → number v ≡ ok t
    → t ≡ pos n
unfolding item number
fixed_number d k n e h g =
    let v_is = ok-injective (rw (item, e) at h) in sym (ok-injective (ap number v_is ∙ g))

check_measure-Reaches :
    (runtime sample : Fields) (key budget_key : Text) (n : ℕ) {m : Text × ℤ}
    → get budget_key runtime ≡ some (int (pos n))
    → check_measure runtime sample (key, budget_key) ≡ ok m
    → Reaches sample key n m
unfolding check_measure
check_measure-Reaches runtime sample key budget_key n {m} e h =
    let a = >>=-eq-ok (integer (got key sample)) _ h in
    let b = >>=-eq-ok (item runtime budget_key) _ a.2 in
    let c = >>=-eq-ok (number b.0) _ b.2 in
    let d = >>-eq-ok (not (ltb_ℤ a.0 c.0)) _ _ c.2 in
    moved _ m (ok-injective d.1) (record {
      key_is = refl;
      value_is = integer_sound _ a.1;
      bounded =
          ap (λ t. leb_ℤ t a.0) (sym (fixed_number runtime budget_key n e b.1 c.1))
          ∙ not_below a.0 c.0 d.0;
    })
  where
    moved : (a m : Text × ℤ) → a ≡ m → Reaches sample key n a → Reaches sample key n m
    moved a m e x = rw (← e) x

-- The three values that are reported are the sample's, and reach the fixed thresholds.
pub record IsSampled (sample : Fields) (ms : List (Text × ℤ)) : Type 0 where
  pub steady : Text × ℤ
  pub loaded : Text × ℤ
  pub block : Text × ℤ
  pub all_three : ms ≡ steady ∷ loaded ∷ block ∷ []
  pub steady_reaches : Reaches sample (text "steadyStateFreeHeapBytes") steady_heap_min steady
  pub loaded_reaches : Reaches sample (text "loadedFreeHeapBytes") loaded_heap_min loaded
  pub block_reaches : Reaches sample (text "largestFreeBlockBytes") largest_block_min block

measures-IsSampled :
    (runtime sample : Fields) {ms : List (Text × ℤ)}
    → Thresholds runtime
    → collect (check_measure runtime sample) measures ≡ ok ms
    → IsSampled sample ms
unfolding measures
measures-IsSampled runtime sample {ms} t h =
    let (a, xs, a_is, rest, whole) = collect_cons (check_measure runtime sample) _ _ h in
    let (b, ys, b_is, rest', tail) = collect_cons (check_measure runtime sample) _ _ rest in
    let (c, zs, c_is, none_left, last) = collect_cons (check_measure runtime sample) _ _ rest' in
    let nothing = collect_nil (check_measure runtime sample) none_left in
    record {
      steady = a;
      loaded = b;
      block = c;
      all_three = three whole tail last nothing;
      steady_reaches = check_measure-Reaches runtime sample _ _ _ t.steady a_is;
      loaded_reaches = check_measure-Reaches runtime sample _ _ _ t.loaded b_is;
      block_reaches = check_measure-Reaches runtime sample _ _ _ t.block c_is;
    }
  where
    three :
        {a b c : Text × ℤ} {xs ys zs : List (Text × ℤ)}
        → ms ≡ a ∷ xs
        → xs ≡ b ∷ ys
        → ys ≡ c ∷ zs
        → zs ≡ []
        → ms ≡ a ∷ b ∷ c ∷ []
    three e f g h = cc

-- Where a budget passes validate_budget_contract and a sample passes validate_runtime_sample,
-- exactly three values are reported, each the integer that the sample has under its key, and they
-- are at least 80 KiB of free heap in the steady state, 50 KiB under load and 32 KiB in the largest
-- block.
pub validate_runtime_sample-IsSampled :
    (budget sample : Fields) {u : Unit {0}} {ms : List (Text × ℤ)}
    → validate_budget_contract budget ≡ ok u
    → validate_runtime_sample budget sample ≡ ok ms
    → IsSampled sample ms
unfolding validate_runtime_sample
validate_runtime_sample-IsSampled budget sample h k =
    let fixed = validate_budget_contract-Fixed budget h in
    let a = >>=-eq-ok (require_object budget (text "target")) _ k in
    let b = >>=-eq-ok (require_object budget (text "runtime")) _ a.2 in
    let c = >>=-eq-ok (item a.0 (text "boardId")) _ b.2 in
    let d = >>-eq-ok (value_eq (got (text "targetBoardId") sample) c.0) _ _ c.2 in
    let e = >>=-eq-ok (item a.0 (text "sku")) _ d.1 in
    let f = >>-eq-ok (value_eq (got (text "targetSku") sample) e.0) _ _ e.2 in
    let g = >>-eq-ok (is_filled (get (text "buildId") sample)) _ _ f.1 in
    let i = >>-eq-ok (is_filled (get (text "capturedAt") sample)) _ _ g.1 in
    measures-IsSampled fixed.runtime sample fixed.thresholds (
      ap (λ r. collect (check_measure r sample) measures)
        (ok-injective (sym fixed.runtime_is ∙ b.1))
      ∙ i.1)
