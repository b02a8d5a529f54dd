-- ===== src/Budget/Layout/Agree.antt =====
-- What it takes for a partition to agree with its entry in the contract.
use dm_d5102q_rs485_bridge.Prelude.{
  ◌≡◌, refl, ap, sym, ◌∙◌, Text, text, text_eq, text_eq_refl, text_eq_sound, text_mem, In-map, In,
  here, there, Bool, Bool-cases, inl, inr, true, false, ◌||◌, Option, none, some, some-injective,
  List, [], ◌∷◌, and-eq-true, map, arith,
}
use dm_d5102q_rs485_bridge.Value.{
  Value, null, bool, int, str, list, obj, Fields, end, field, get, get_or, value_eq,
}
use dm_d5102q_rs485_bridge.Exec.{ok, err, refused, >>=-eq-ok, ok-injective}
use dm_d5102q_rs485_bridge.Documents.{got, collect, Entry, array, repeats}
use dm_d5102q_rs485_bridge.Value.Laws.{value_eq_texts, value_eq_naturals}
use dm_d5102q_rs485_bridge.Ota.Reconcile.{item}
use dm_d5102q_rs485_bridge.Budget.{Partition}
use dm_d5102q_rs485_bridge.Budget.Contract.{Row, named, partitions_of}
use dm_d5102q_rs485_bridge.Budget.Contract.Fixed.{Says}
use dm_d5102q_rs485_bridge.Budget.Layout.{
  type_error, named_item, items_at, partition_at, actual_values, fields_match,
}

-- A partition is the one of a row.
pub record Matches (p : Partition) (r : Row) : Type 0 where
  pub name : p.name ≡ r.name
  pub partition_type : p.partition_type ≡ r.partition_type
  pub subtype : p.subtype ≡ r.subtype
  pub offset : p.offset ≡ r.offset
  pub size : p.size ≡ r.size
  pub flags : p.flags ≡ r.flags

item-got : (d : Fields) (k : Text) (v : Value) → item d k ≡ ok v → got k d ≡ v
unfolding item got get_or
item-got d k v h = ground arith

cons_eq : {A : Type 0} {x y : A} {xs ys : List A} → x ≡ y → xs ≡ ys → x ∷ xs ≡ y ∷ ys
cons_eq e f = cc

named_first :
    (v : Value) (vs : List Value) (e : Entry) (rest : List Entry)
    → named_item v ≡ ok e
    → rest ≡ named vs
    → e ∷ rest ≡ named (v ∷ vs)
unfolding named_item named
named_first (obj d) vs e rest h r =
    let a = >>=-eq-ok (item d (text "name")) _ h in
    cons_eq (sym (ok-injective a.2) ∙ ap (entry d) (sym (item-got d (text "name") a.0 a.1))) r
  where
    entry : Fields → Value → Entry
    entry d name = record { id = name; entry = d }
named_first null vs e rest h r = cc
named_first (bool b) vs e rest h r = cc
named_first (int n) vs e rest h r = cc
named_first (str s) vs e rest h r = cc
named_first (list ws) vs e rest h r = cc

-- Both functions read the same entries off the contract.
pub collect-named :
    (vs : List Value) {es : List Entry} → collect named_item vs ≡ ok es → es ≡ named vs
unfolding collect named
collect-named [] h = sym (ok-injective h)
collect-named (v ∷ vs) h =
    let a = >>=-eq-ok (named_item v) _ h in
    let b = >>=-eq-ok (collect named_item vs) _ a.2 in
    sym (ok-injective b.2) ∙ named_first v vs a.0 b.0 a.1 (collect-named vs b.1)

pub items_at-partitions_of :
    (flash : Fields) {vs ws : List Value}
    → items_at flash (text "partitions") ≡ ok vs
    → partitions_of flash ≡ ok ws
    → vs ≡ ws
unfolding items_at partitions_of
items_at-partitions_of flash {vs} {ws} h k =
    let a = >>=-eq-ok (item flash (text "partitions")) _ h in
    go (array a.0) a.2 (rw (partitions_of, item-got flash (text "partitions") a.0 a.1) at k)
  where
    go :
        (o : Option (List Value))
        → elim o [ none ↦ err type_error | some xs ↦ ok xs ] ≡ ok vs
        → elim o [
          | none ↦ err (refused "flash.partitions must define exactly five partitions")
          | some xs ↦ ok xs
        ]
          ≡ ok ws
        → vs ≡ ws
    go none h k = cc
    go (some xs) h k = cc

pub partition_at_sound :
    (v : Value) (ps : List Partition) {q : Partition}
    → partition_at v ps ≡ ok q
    → In q ps × (value_eq v (str q.name) ≡ true)
unfolding partition_at
partition_at_sound v [] h = cc
partition_at_sound v (p ∷ ps) {q} h = elim (Bool-cases (value_eq v (str p.name))) [
  | inl e ↦
      let f = ok-injective (rw e at h) in
      (rw (← f) here, ap (λ x. value_eq v (str x.name)) (sym f) ∙ e)
  | inr e ↦ let x = partition_at_sound v ps (rw e at h) in (there x.0, x.1)
]

In-text_mem : (t : Text) (ts : List Text) → In t ts → text_mem t ts ≡ true
unfolding text_mem
In-text_mem t [] i = elim i [ ]
In-text_mem t (t' ∷ ts) here = rw (text_eq_refl t)
In-text_mem t (u ∷ ts) (there i) = rw (In-text_mem t ts i) (or_true (text_eq t u))
  where
    or_true : (b : Bool) → (b || true) ≡ true
    or_true b = ground arith

-- The first of different names is not among the others.
not_again :
    (ps : List Partition) (name : Text) (q : Partition)
    → text_mem name (map (λ (x : Partition). x.name) ps) ≡ false
    → In q ps
    → q.name ≡ name
    → ⊥
not_again ps name q h i e =
    let x =
      In-text_mem q.name (map (λ (x : Partition). x.name) ps)
        (In-map (λ (x : Partition). x.name) i) in
    let y = ap (λ n. text_mem n (map (λ (x : Partition). x.name) ps)) e in cc

both_false : (a b : Bool) → (a || b) ≡ false → (a ≡ false) × (b ≡ false)
both_false a b h = ground arith

-- Two partitions of one name, among different names, are one.
pub same_partition :
    (ps : List Partition) (p q : Partition)
    → repeats (map (λ (x : Partition). x.name) ps) ≡ false
    → In p ps
    → In q ps
    → p.name ≡ q.name
    → p ≡ q
unfolding repeats
same_partition [] p q h i j e = elim i [ ]
same_partition (x ∷ ps) p q h here here e = refl
same_partition (x ∷ ps) p q h here (there j) e =
    absurd (not_again ps _ q (both_false _ _ h).0 j (sym e))
same_partition (x ∷ ps) p q h (there i) here e = absurd (not_again ps _ p (both_false _ _ h).0 i e)
same_partition (x ∷ ps) p q h (there i) (there j) e =
    same_partition ps p q (both_false _ _ h).1 i j e

unnamed :
    (p : Partition) (j k : Text) (w v : Value)
    → j ≡ k
    → w ≡ v
    → (text_eq j (text "name") || value_eq (got j (actual_values p)) w) ≡ true
    → text_eq k (text "name") ≡ false
    → value_eq (got k (actual_values p)) v ≡ true
unnamed p j k w v e f h n =
    second _ _
      (ap (λ x. text_eq x (text "name") || value_eq (got x (actual_values p)) v) (sym e)
        ∙ ap (λ x. text_eq j (text "name") || value_eq (got j (actual_values p)) x) (sym f)
        ∙ h)
      n
  where
    second : (a b : Bool) → (a || b) ≡ true → a ≡ false → b ≡ true
    second a b h e = ground arith

fields_match-got :
    (p : Partition) (d : Fields) (k : Text) {v : Value}
    → fields_match p d ≡ true
    → get k d ≡ some v
    → text_eq k (text "name") ≡ false
    → value_eq (got k (actual_values p)) v ≡ true
unfolding fields_match get
fields_match-got p end k h g n = cc
fields_match-got p (field j w fs) k {v} h g n = elim (Bool-cases (text_eq j k)) [
  | inl e ↦
      unnamed p j k w v (text_eq_sound j k e) (some-injective (rw e at g)) (and-eq-true _ _ h).0 n
  | inr e ↦ fields_match-got p fs k (and-eq-true _ _ h).1 (rw e at g) n
]

pub fields_match-Matches :
    (p : Partition) (r : Row) (d : Fields)
    → fields_match p d ≡ true
    → Says d r
    → p.name ≡ r.name
    → Matches p r
unfolding actual_values got get_or get text text_eq
fields_match-Matches p r d h s e = record {
  name = e;
  partition_type = value_eq_texts _ _ (fields_match-got p d (text "type") h s.partition_type refl);
  subtype = value_eq_texts _ _ (fields_match-got p d (text "subtype") h s.subtype refl);
  offset = value_eq_naturals _ _ (fields_match-got p d (text "offsetBytes") h s.offset refl);
  size = value_eq_naturals _ _ (fields_match-got p d (text "sizeBytes") h s.size refl);
  flags = value_eq_texts _ _ (fields_match-got p d (text "flags") h s.flags refl);
}
