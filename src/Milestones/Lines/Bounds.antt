-- ===== src/Milestones/Lines/Bounds.antt =====
-- Where the lines lie that the searches find.
use dm_d5102q_rs485_bridge.Prelude.{
  ◌≡◌, refl, ℕ, zero, suc, ◌+◌, ◌-◌, ◌≤◌, ◌<◌, Text, Bool, Bool-cases, inl, inr, Option, none, some,
  some-injective, List, [], ◌∷◌, In, first_or_later, length, take, drop, any, arith,
}
use dm_d5102q_rs485_bridge.Exec.{ok, err, refused, ok-injective}
use dm_d5102q_rs485_bridge.Patterns.{starts_with}
use dm_d5102q_rs485_bridge.Milestones.Lines.{
  Pattern, line_matches, lines_before, find_line, bullets, bullet_rows,
}

lines_before_bound :
    (ps : List Pattern) (ls : List Text) {n : ℕ} → lines_before ps ls ≡ some n → n < length ls
unfolding lines_before
lines_before_bound ps [] h = cc
lines_before_bound ps (l ∷ ls) {n} h = elim (Bool-cases (any (λ p. line_matches p l) ps)) [
  | inl e ↦ omega (arith, some-injective (rw e at h))
  | inr e ↦ go (lines_before ps ls) refl (rw e at h) (λ m e. lines_before_bound ps ls e)
]
  where
    go :
        (o : Option ℕ)
        → lines_before ps ls ≡ o
        → elim o [ none ↦ none | some m ↦ some (suc m) ] ≡ some n
        → ((m : ℕ) → lines_before ps ls ≡ some m → m < length ls)
        → n < length (l ∷ ls)
    go none e h f = cc
    go (some m) e h f = omega (arith, some-injective h, f m e)

drop_bound : (s n : ℕ) (ls : List Text) → n < length (drop s ls) → s + n < length ls
drop_bound zero n ls h = omega (arith, h)
drop_bound (suc s) n [] h = omega (arith, h)
drop_bound (suc s) n (l ∷ ls) h = omega (arith, drop_bound s n ls h)

pub find_line_bound :
    (ls : List Text) (p : Pattern) (s : ℕ) {n : ℕ} → find_line ls p s ≡ ok n → n < length ls
unfolding find_line
find_line_bound ls p s {n} h = go (lines_before (p ∷ []) (drop s ls)) refl h
  where
    go :
        (o : Option ℕ)
        → lines_before (p ∷ []) (drop s ls) ≡ o
        → elim o [
          | none ↦ err (refused "governing design section is missing")
          | some m ↦ ok (s + m)
        ]
          ≡ ok n
        → n < length ls
    go none e h = cc
    go (some m) e h =
        omega (arith, ok-injective h, drop_bound s m ls (lines_before_bound (p ∷ []) (drop s ls) e))

-- A numbered row of a list of lines
abbrev Within : ℕ → ℕ → ℕ × Text → Type 0
Within lo hi row = (lo ≤ row.0) × (row.0 < hi)

bullets_bound :
    (prefix : Text) (n : ℕ) (ls : List Text) (row : ℕ × Text)
    → In row (bullets prefix n ls)
    → Within n (n + length ls) row
unfolding bullets
bullets_bound prefix n [] row i = elim i [ ]
bullets_bound prefix n (l ∷ ls) row i = elim (Bool-cases (starts_with l prefix)) [
  | inl e ↦
      first_or_later (Within n (n + length (l ∷ ls))) (omega arith, omega arith)
        (λ y j. wider y (bullets_bound prefix (suc n) ls y j)) (rw e at i)
  | inr e ↦ wider row (bullets_bound prefix (suc n) ls row (rw e at i))
]
  where
    wider : (y : ℕ × Text) → Within (suc n) (suc n + length ls) y → Within n (n + length (l ∷ ls)) y
    wider y w = (omega (arith, w.0), omega (arith, w.1))

take_shorter : (n : ℕ) (ls : List Text) → length (take n ls) ≤ length ls
take_shorter zero ls = omega arith
take_shorter (suc n) [] = omega arith
take_shorter (suc n) (l ∷ ls) = omega (arith, take_shorter n ls)

-- The rows of a document, numbered from 1
abbrev pub On : List Text → ℕ × Text → Type 0
On ls row = (1 ≤ row.0) × (row.0 ≤ length ls)

pub bullet_rows_bound :
    (ls : List Text) (start end : ℕ) (checklist : Bool) (row : ℕ × Text)
    → In row (bullet_rows ls start end checklist)
    → On ls row
unfolding bullet_rows
bullet_rows_bound ls start end checklist row i =
    let w = bullets_bound _ (start + 1) (take (end - start) (drop start ls)) row i in
    let short = take_shorter (end - start) (drop start ls) in
    let below = drop_bound start (row.0 - (start + 1)) ls (omega (arith, w.0, w.1, short)) in
    (omega (arith, w.0), omega (arith, w.0, below))
