-- ===== src/Milestones/Catalog/Standing.antt =====
-- On which line of the design a row of `bullet_rows` or of the deliverables stands.
use dm_d5102q_rs485_bridge.Prelude.{
  ◌≡◌, refl, ap, ◌∙◌, ℕ, zero, suc, ◌+◌, ◌-◌, ◌<◌, Text, Bool, Bool-cases, inl, inr, List, [], ◌∷◌,
  In, first_or_later, length, take, drop, arith, In-map_sound, ◌==◌,
}
use dm_d5102q_rs485_bridge.Patterns.{starts_with}
use dm_d5102q_rs485_bridge.Strings.{strip}
use dm_d5102q_rs485_bridge.Strings.Infix.{
  Infix, infix_refl, infix_trans, strip-Infix, rstrip-Infix, drop-Infix, split_on-Infix,
}
use dm_d5102q_rs485_bridge.Milestones.Lines.{bullets, bullet_rows, after_colon}
use dm_d5102q_rs485_bridge.Milestones.Lines.Bounds.{On, bullet_rows_bound}
use dm_d5102q_rs485_bridge.Milestones.Catalog.{line_at, deliverable_rows}

-- The text of a row stands on the line with the row's number.
abbrev pub Stands : List Text → ℕ × Text → Type 0
Stands ls row = On ls row × Infix row.1 (line_at ls (row.0 - 1))

after_colon-Infix : (t : Text) → Infix (after_colon t) t
unfolding after_colon
after_colon-Infix [] = infix_refl []
after_colon-Infix (c ∷ s) = elim (Bool-cases (c == b':')) [
  | inl e ↦ rw e (Infix.later (infix_refl s))
  | inr e ↦ rw e (Infix.later (after_colon-Infix s))
]

-- A row of bullets that are numbered from `n`
record IsBullet (n : ℕ) (ls : List Text) (row : ℕ × Text) : Type 0 where
  index : ℕ
  number : row.0 ≡ n + index
  inside : index < length ls
  stands : Infix row.1 (line_at ls index)

bullets-IsBullet :
    (prefix : Text) (n : ℕ) (ls : List Text) (row : ℕ × Text)
    → In row (bullets prefix n ls)
    → IsBullet n ls row
unfolding bullets line_at
bullets-IsBullet prefix n [] row i = elim i [ ]
bullets-IsBullet prefix n (l ∷ ls) row i = elim (Bool-cases (starts_with l prefix)) [
  | inl e ↦
      first_or_later (IsBullet n (l ∷ ls))
        (record {
          index = 0;
          number = omega arith;
          inside = omega arith;
          stands = infix_trans (strip-Infix _) (drop-Infix (length prefix) l);
        })
        (λ y j. wider y (bullets-IsBullet prefix (suc n) ls y j)) (rw e at i)
  | inr e ↦ wider row (bullets-IsBullet prefix (suc n) ls row (rw e at i))
]
  where
    wider : (y : ℕ × Text) → IsBullet (suc n) ls y → IsBullet n (l ∷ ls) y
    wider y x = record {
      index = suc x.index;
      number = omega (arith, x.number);
      inside = omega (arith, x.inside);
      stands = x.stands;
    }

line_at-take :
    (m : ℕ) (ls : List Text) (k : ℕ) → k < length (take m ls) → line_at (take m ls) k ≡ line_at ls k
unfolding line_at
line_at-take zero ls k h = absurd (omega (arith, h))
line_at-take (suc m) [] k h = refl
line_at-take (suc m) (l ∷ ls) zero h = refl
line_at-take (suc m) (l ∷ ls) (suc k) h = line_at-take m ls k (omega (arith, h))

shift : (s k : ℕ) → suc (s + k) ≡ suc s + k
shift s k = omega arith

line_at-drop : (s : ℕ) (ls : List Text) (k : ℕ) → line_at (drop s ls) k ≡ line_at ls (s + k)
unfolding line_at
line_at-drop zero ls k = ap (line_at ls) (omega arith)
line_at-drop (suc s) [] k = refl
line_at-drop (suc s) (l ∷ ls) k = line_at-drop s ls k ∙ ap (line_at (l ∷ ls)) (shift s k)

stands_on : {t a b : Text} → a ≡ b → Infix t a → Infix t b
stands_on e x = rw (← e) x

pub bullet_rows-Stands :
    (ls : List Text) (start end : ℕ) (checklist : Bool) (row : ℕ × Text)
    → In row (bullet_rows ls start end checklist)
    → Stands ls row
unfolding bullet_rows
bullet_rows-Stands ls start end checklist row i =
    let x = bullets-IsBullet _ (start + 1) (take (end - start) (drop start ls)) row i in
    let same =
      line_at-take (end - start) (drop start ls) x.index x.inside
      ∙ line_at-drop start ls x.index
      ∙ ap (line_at ls) (before row.0 x.index x.number) in
    (bullet_rows_bound ls start end checklist row i, stands_on same x.stands)
  where
    before : (n k : ℕ) → n ≡ start + 1 + k → start + k ≡ n - 1
    before n k h = omega (arith, h)

-- What is on the line behind `n` lines
pub numbered-Stands :
    (ls : List Text) (n : ℕ) (t : Text)
    → n < length ls
    → Infix t (line_at ls n)
    → Stands ls (n + 1, t)
numbered-Stands ls n t h x =
    ((omega arith, omega (arith, h)), stands_on (ap (line_at ls) (omega arith)) x)

pub deliverable_rows-Stands :
    (ls : List Text) (n : ℕ) (row : ℕ × Text)
    → n < length ls
    → In row (deliverable_rows (n + 1) (line_at ls n))
    → Stands ls row
unfolding deliverable_rows
deliverable_rows-Stands ls n row h i =
    let (item, j, e) = In-map_sound _ _ i in
    moved _ _ e (
      numbered-Stands ls n _ h (
        infix_trans (rstrip-Infix _ (strip item)) (
          infix_trans (strip-Infix item) (
            infix_trans (split_on-Infix b',' _ item j)
              (infix_trans (strip-Infix _) (after_colon-Infix (line_at ls n)))))))
  where
    moved : (r s : ℕ × Text) → r ≡ s → Stands ls r → Stands ls s
    moved r s e x = rw (← e) x

-- The text of a stop condition stands on its line.
pub stop-Stands :
    (ls : List Text) (n : ℕ) → n < length ls → Stands ls (n + 1, strip (after_colon (line_at ls n)))
stop-Stands ls n h =
    numbered-Stands ls n _ h (infix_trans (strip-Infix _) (after_colon-Infix (line_at ls n)))
