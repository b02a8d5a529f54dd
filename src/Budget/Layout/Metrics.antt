-- ===== src/Budget/Layout/Metrics.antt =====
-- The metrics of an accepted layout.
use dm_d5102q_rs485_bridge.Prelude.{
  refl, all-In, ◌==◌, leb, ◌&&◌, ◌||◌, not, false, Bool, ◌+◌, ◌-◌, not, leb, sym, ◌∙◌, all, ap, ◌≡◌,
  ◌≤◌, min, Text, text, text_eq, In, here, there, first_or_later, Bool-cases, inl, inr, true, some,
  List, [], ◌∷◌, ℕ, arith,
}
use dm_d5102q_rs485_bridge.Prelude.Int.{ltb_ℤ, pos}
use dm_d5102q_rs485_bridge.Value.{Value, int, Fields, get}
use dm_d5102q_rs485_bridge.Exec.{ok-injective, >>=-eq-ok, >>-eq-ok, ok}
use dm_d5102q_rs485_bridge.Ota.Reconcile.{item}
use dm_d5102q_rs485_bridge.Budget.{Partition, partition_end}
use dm_d5102q_rs485_bridge.Budget.Contract.{
  Row, expected_partitions, flash_bytes, image_max, app_slot_bytes,
}
use dm_d5102q_rs485_bridge.Budget.Layout.{
  minimum_spare, check_slots, LayoutMetrics, natural, natural_at, app_partitions, least_size,
  greatest_end,
}
use dm_d5102q_rs485_bridge.Budget.Layout.Agree.{Matches}
use dm_d5102q_rs485_bridge.Documents.{same_set}

-- The partitions are those of the rows, and the metrics are those of the rows.
pub record IsPinned (partitions : List Partition) (m : LayoutMetrics) : Type 0 where
  pub each_is_expected :
      (p : Partition) → In p partitions → (r : Row) × In r expected_partitions × Matches p r
  pub each_is_there :
      (r : Row) → In r expected_partitions → (p : Partition) × In p partitions × Matches p r
  pub flash : m.flash_bytes ≡ flash_bytes
  pub slot : m.app_slot_bytes ≡ app_slot_bytes
  pub image : m.firmware_image_max_bytes ≡ image_max
  pub spare : m.unallocated_spare_bytes ≡ 0xeb000

pub natural_at_fixed :
    (d : Fields) (k : Text) (m n : ℕ) → get k d ≡ some (int (pos n)) → natural_at d k ≡ ok m → m ≡ n
unfolding natural_at natural item
natural_at_fixed d k m n e h = let x = rw (natural_at, item, e) at h in cc

item-natural :
    (d : Fields) (k : Text) (v : Value) (n : ℕ)
    → item d k ≡ ok v
    → natural v ≡ ok n
    → natural_at d k ≡ ok n
unfolding natural_at
item-natural d k v n h e = rw (natural_at, h) e

refuted : (b : Bool) → not b ≡ true → b ≡ false
refuted b h = ground arith

app_partitions_sound :
    (ps : List Partition) (p : Partition)
    → In p (app_partitions ps)
    → In p ps × (text_eq p.partition_type (text "app") ≡ true)
unfolding app_partitions
app_partitions_sound [] p i = elim i [ ]
app_partitions_sound (x ∷ ps) p i = elim (Bool-cases (text_eq x.partition_type (text "app"))) [
  | inl e ↦
      first_or_later (λ y. In y (x ∷ ps) × (text_eq y.partition_type (text "app") ≡ true)) (here, e)
        (λ y j. let r = app_partitions_sound ps y j in (there r.0, r.1)) (rw e at i)
  | inr e ↦ let r = app_partitions_sound ps p (rw e at i) in (there r.0, r.1)
]

app_partitions-In :
    (ps : List Partition) (p : Partition)
    → In p ps
    → text_eq p.partition_type (text "app") ≡ true
    → In p (app_partitions ps)
unfolding app_partitions
app_partitions-In [] p i h = elim i [ ]
app_partitions-In (p ∷ ps) p' here h = rw h here
app_partitions-In (x ∷ ps) p (there i) h =
    elim (Bool-cases (text_eq x.partition_type (text "app"))) [
      | inl e ↦ rw e (there (app_partitions-In ps p i h))
      | inr e ↦ rw e (app_partitions-In ps p i h)
    ]

-- The least of equal sizes
least_size_equal :
    (ps : List Partition) (n : ℕ) (p : Partition)
    → In p ps
    → ((q : Partition) → In q ps → q.size ≡ n)
    → least_size ps ≡ n
unfolding least_size
least_size_equal [] n p i h = elim i [ ]
least_size_equal (x ∷ []) n p i h = h x here
least_size_equal (x ∷ y ∷ ps) n p i h =
    rw (h x here, least_size_equal (y ∷ ps) n y here (λ q j. h q (there j))) (min_same n)
  where
    min_same : (n : ℕ) → min n n ≡ n
    min_same n = omega arith

greatest_end_most :
    (ps : List Partition) (n : ℕ)
    → ((q : Partition) → In q ps → partition_end q ≤ n)
    → greatest_end ps ≤ n
unfolding greatest_end
greatest_end_most [] n h = omega arith
greatest_end_most (p ∷ ps) n h =
    ground (arith, h p here, greatest_end_most ps n (λ q j. h q (there j)))

greatest_end_least :
    (ps : List Partition) (p : Partition) → In p ps → partition_end p ≤ greatest_end ps
unfolding greatest_end
greatest_end_least [] p i = elim i [ ]
greatest_end_least (p ∷ ps) p' here = ground arith
greatest_end_least (x ∷ ps) p (there i) = ground (arith, greatest_end_least ps p i)

-- Where the last row ends
abbrev rows_end : ℕ
rows_end = 0x315000

row_fits :
    (r : Row)
    → In r expected_partitions
    → (r.offset + r.size ≤ rows_end)
      × (text_eq r.partition_type (text "app") ≡ true → r.size ≡ app_slot_bytes)
unfolding expected_partitions text text_eq all
row_fits r i = split _ _ _ (
    all-In
      (λ (r : Row).
        leb (r.offset + r.size) rows_end
        && (not (text_eq r.partition_type (text "app")) || r.size == app_slot_bytes))
      expected_partitions refl r i)
  where
    split :
        (m n : ℕ) (app : Bool)
        → (leb m rows_end && (not app || n == app_slot_bytes)) ≡ true
        → (m ≤ rows_end) × (app ≡ true → n ≡ app_slot_bytes)
    split m n app h = (ground arith, λ e. ground arith)

abbrev app0 : Row
app0 = record {
  name = text "app0";
  partition_type = text "app";
  subtype = text "ota_0";
  offset = 0x10000;
  size = 0x180000;
  flags = [];
}

abbrev diag_nvs : Row
diag_nvs = record {
  name = text "diag_nvs";
  partition_type = text "data";
  subtype = text "nvs";
  offset = 0x310000;
  size = 0x5000;
  flags = [];
}

module _ (partitions : List Partition)
    (each : (p : Partition) → In p partitions → (r : Row) × In r expected_partitions × Matches p r)
    (present : (r : Row)
      → In r expected_partitions
      → (p : Partition) × In p partitions × Matches p r) where
  partition_ends : (p : Partition) → In p partitions → partition_end p ≤ rows_end
  unfolding partition_end
  partition_ends p i = let (r, j, m) = each p i in omega (arith, m.offset, m.size, (row_fits r j).0)

  app_size :
      (p : Partition)
      → In p partitions
      → text_eq p.partition_type (text "app") ≡ true
      → p.size ≡ app_slot_bytes
  app_size p i h =
      let (r, j, m) = each p i in
      m.size ∙ (row_fits r j).1 (ap (λ t. text_eq t (text "app")) (sym m.partition_type) ∙ h)

  slots : least_size (app_partitions partitions) ≡ app_slot_bytes
  unfolding expected_partitions text text_eq
  slots =
      let (p, i, m) = present app0 (there (there here)) in
      least_size_equal (app_partitions partitions) app_slot_bytes p
        (app_partitions-In partitions p i (ap (λ t. text_eq t (text "app")) m.partition_type))
        (λ q j. let x = app_partitions_sound partitions q j in app_size q x.0 x.1)

  last_end : greatest_end partitions ≡ rows_end
  unfolding expected_partitions partition_end
  last_end =
      let (p, i, m) = present diag_nvs (there (there (there (there here)))) in
      omega (
        arith,
        m.offset,
        m.size,
        greatest_end_most partitions rows_end partition_ends,
        greatest_end_least partitions p i,
      )

  pub check_slots-IsPinned :
      (flash : Fields) (total_flash : ℕ) {m : LayoutMetrics}
      → get (text "firmwareImageMaxBytes") flash ≡ some (int (pos image_max))
      → total_flash ≡ flash_bytes
      → check_slots flash total_flash partitions ≡ ok m
      → IsPinned partitions m
  unfolding check_slots
  check_slots-IsPinned flash total_flash {m} image e h =
      let a = >>-eq-ok (same_set _ _) _ _ h in
      let b = >>=-eq-ok (item flash (text "firmwareImageMaxBytes")) _ a.1 in
      let c = >>=-eq-ok (natural b.0) _ b.2 in
      let d = >>-eq-ok (leb c.0 (least_size (app_partitions partitions))) _ _ c.2 in
      let f = >>=-eq-ok (minimum_spare _) _ d.1 in
      let g = >>-eq-ok (not (ltb_ℤ (pos (total_flash - greatest_end partitions)) f.0)) _ _ f.2 in
      moved _ m (ok-injective g.1) (record {
        each_is_expected = each;
        each_is_there = present;
        flash = e;
        slot = slots;
        image =
            natural_at_fixed flash (text "firmwareImageMaxBytes") c.0 image_max image
              (item-natural flash _ b.0 c.0 b.1 c.1);
        spare = omega (arith, e, last_end);
      })
    where
      moved : (a m : LayoutMetrics) → a ≡ m → IsPinned partitions a → IsPinned partitions m
      moved a m e x = rw (← e) x
