-- ===== src/Budget/Disjoint.antt =====
-- Accepted partitions do not overlap and lie where they may.
use dm_d5102q_rs485_bridge.Prelude.{
  In, here, there, first_or_later, Bool, ℕ, ◌%◌, ◌≤◌, ◌<◌, ◌≡◌, inl, inr, arith, Bool-cases,
  text_mem, true, false, not, List, [], ◌∷◌, map, ltb, leb, ◌==◌,
}
use dm_d5102q_rs485_bridge.Exec.{ok, >>=-eq-ok, >>-eq-ok}
use dm_d5102q_rs485_bridge.Budget.{
  Partition, partition_end, insert_by_offset, sort_by_offset, lower, filesystem_subtypes, alignment,
  check_partition, check_ordered, validate_order,
}

-- Each partition ends before each later one begins.
pub data Apart : List Partition → Type 0 where
  empty : Apart []
  before :
      {p : Partition} {ps : List Partition}
      → ((q : Partition) → In q ps → partition_end p ≤ q.offset)
      → Apart ps
      → Apart (p ∷ ps)

pub record Lies (start total_flash : ℕ) (p : Partition) : Type 0 where
  pub begins : start ≤ p.offset
  pub ends : partition_end p ≤ total_flash
  pub is_not_empty : 0 < p.size
  pub aligned : p.offset % alignment p ≡ 0
  pub whole_sectors : p.size % 0x1000 ≡ 0
  pub no_filesystem : text_mem (map lower p.subtype) filesystem_subtypes ≡ false

at_most : (m n : ℕ) → leb m n ≡ true → m ≤ n
at_most m n h = ground arith

positive : (n : ℕ) → ltb 0 n ≡ true → 0 < n
positive n h = ground arith

equal : (m n : ℕ) → (m == n) ≡ true → m ≡ n
equal m n h = ground arith

refuted : (b : Bool) → not b ≡ true → b ≡ false
refuted b h = ground arith

check_partition_sound :
    (start total_flash : ℕ) (p : Partition) {u : Unit {0}}
    → check_partition start total_flash p ≡ ok u
    → Lies start total_flash p
unfolding check_partition
check_partition_sound start total_flash p h =
    let a = >>-eq-ok _ _ _ h in
    let b = >>-eq-ok _ _ _ a.1 in
    let c = >>-eq-ok _ _ _ b.1 in
    let d = >>-eq-ok _ _ _ c.1 in
    let e = >>-eq-ok _ _ _ d.1 in
    let f = >>-eq-ok _ _ _ e.1 in
    record {
      begins = at_most _ _ d.0;
      ends = at_most _ _ e.0;
      is_not_empty = positive _ a.0;
      aligned = equal _ _ b.0;
      whole_sectors = equal _ _ c.0;
      no_filesystem = refuted _ f.0;
    }

later : (s t total_flash : ℕ) (p : Partition) → s ≤ t → Lies t total_flash p → Lies s total_flash p
later s t total_flash p h x = record {
  begins = omega (arith, x.begins);
  ends = x.ends;
  is_not_empty = x.is_not_empty;
  aligned = x.aligned;
  whole_sectors = x.whole_sectors;
  no_filesystem = x.no_filesystem;
}

end_after :
    (start total_flash : ℕ) (p : Partition) → Lies start total_flash p → start ≤ partition_end p
unfolding partition_end
end_after start total_flash p x = omega (arith, x.begins)

check_ordered_sound :
    (start total_flash : ℕ) (ps : List Partition) {u : Unit {0}}
    → check_ordered start total_flash ps ≡ ok u
    → ((p : Partition) → In p ps → Lies start total_flash p) × Apart ps
unfolding check_ordered
check_ordered_sound start total_flash [] h = ((λ p x. elim x [ ]), empty)
check_ordered_sound start total_flash (p ∷ ps) h =
    let a = >>=-eq-ok (check_partition start total_flash p) _ h in
    let first = check_partition_sound start total_flash p a.1 in
    let rest = check_ordered_sound (partition_end p) total_flash ps a.2 in
    (
      (λ q.
          first_or_later (Lies start total_flash) first (λ r y.
            later start _ total_flash r (end_after start total_flash p first) (rest.0 r y))),
      before (λ q y. (rest.0 q y).begins) rest.1,
    )

insert-In :
    (p : Partition) (qs : List Partition)
    → In p (insert_by_offset p qs) × ((r : Partition) → In r qs → In r (insert_by_offset p qs))
unfolding insert_by_offset
insert-In p [] = (here, λ r x. elim x [ ])
insert-In p (q ∷ qs) = elim (Bool-cases (leb p.offset q.offset)) [
  | inl le ↦ rw le (here, λ r x. there x)
  | inr gt ↦
      let ih = insert-In p qs in
      rw gt (
        there ih.0,
        λ r. first_or_later (λ r. In r (q ∷ insert_by_offset p qs)) here (λ s y. there (ih.1 s y)),
      )
]

sort-In : (r : Partition) (ps : List Partition) → In r ps → In r (sort_by_offset ps)
unfolding sort_by_offset
sort-In r [] x = elim x [ ]
sort-In r (p ∷ ps) x =
    let put = insert-In p (sort_by_offset ps) in
    first_or_later (λ s. In s (insert_by_offset p (sort_by_offset ps))) put.0
      (λ s y. put.1 s (sort-In s ps y)) x

-- Where the order is accepted, each partition lies behind the partition table and within the
-- flash, is not empty, is aligned and holds no file system, and in the order of their offsets each
-- one ends before the later ones begin.
pub validate_order_sound :
    (table_end total_flash : ℕ) (partitions : List Partition) {u : Unit {0}}
    → validate_order table_end total_flash partitions ≡ ok u
    → ((p : Partition) → In p partitions → Lies table_end total_flash p)
      × Apart (sort_by_offset partitions)
unfolding validate_order
validate_order_sound table_end total_flash partitions h =
    let x = check_ordered_sound table_end total_flash (sort_by_offset partitions) h in
    ((λ p y. x.0 p (sort-In p partitions y)), x.1)
