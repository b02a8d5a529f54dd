-- ===== src/Strings/Infix.antt =====
-- What the functions on texts leave of a text stands within it.
use dm_d5102q_rs485_bridge.Prelude.{
  ◌≡◌, refl, ℕ, zero, suc, Text, text_eq, Bool, Bool-cases, inl, inr, true, ◌&&◌, ◌||◌, List, [],
  ◌∷◌, In, first_or_later, drop, ◌==◌, arith,
}
use dm_d5102q_rs485_bridge.Documents.{push}
use dm_d5102q_rs485_bridge.Patterns.{starts_with, contains}
use dm_d5102q_rs485_bridge.Strings.{is_space, lstrip, rstrip, strip, split_on}

pub data Prefix : Text → Text → Type 0 where
  none_left : {t : Text} → Prefix [] t
  one_more : {c : ℕ} {s t : Text} → Prefix s t → Prefix (c ∷ s) (c ∷ t)

pub data Infix : Text → Text → Type 0 where
  begin : {s t : Text} → Prefix s t → Infix s t
  later : {c : ℕ} {s t : Text} → Infix s t → Infix s (c ∷ t)

prefix_refl : (t : Text) → Prefix t t
prefix_refl [] = none_left
prefix_refl (c ∷ t) = one_more (prefix_refl t)

pub infix_refl : (t : Text) → Infix t t
infix_refl t = begin (prefix_refl t)

prefix_trans : {r s t : Text} → Prefix r s → Prefix s t → Prefix r t
prefix_trans none_left y = none_left
prefix_trans (one_more x) (one_more y) = one_more (prefix_trans x y)

infix_prefix : {r s t : Text} → Infix r s → Prefix s t → Infix r t
infix_prefix (begin x) y = begin (prefix_trans x y)
infix_prefix (later x) (one_more y) = later (infix_prefix x y)

pub infix_trans : {r s t : Text} → Infix r s → Infix s t → Infix r t
infix_trans x (begin y) = infix_prefix x y
infix_trans x (later y) = later (infix_trans x y)

starts_with-Prefix : {s t : Text} → Prefix s t → starts_with t s ≡ true
unfolding starts_with
starts_with-Prefix {t = []} none_left = refl
starts_with-Prefix {t = c ∷ t} none_left = refl
starts_with-Prefix (one_more {c} x) = equal_and c _ (starts_with-Prefix x)
  where
    equal_and : (c : ℕ) (b : Bool) → b ≡ true → (c == c && b) ≡ true
    equal_and c b h = ground arith

pub contains-Infix : {s t : Text} → Infix s t → contains s t ≡ true
unfolding contains
contains-Infix {t = []} (begin x) = starts_with-Prefix x
contains-Infix {t = c ∷ t} (begin x) = first _ _ (starts_with-Prefix x)
  where
    first : (a b : Bool) → a ≡ true → (a || b) ≡ true
    first a b h = ground arith
contains-Infix (later x) = second _ _ (contains-Infix x)
  where
    second : (a b : Bool) → b ≡ true → (a || b) ≡ true
    second a b h = ground arith

rstrip-Prefix : (p : ℕ → Bool) (t : Text) → Prefix (rstrip p t) t
unfolding rstrip
rstrip-Prefix p [] = none_left
rstrip-Prefix p (c ∷ s) = elim (Bool-cases (p c && text_eq (rstrip p s) [])) [
  | inl e ↦ rw e none_left
  | inr e ↦ rw e (one_more (rstrip-Prefix p s))
]

pub rstrip-Infix : (p : ℕ → Bool) (t : Text) → Infix (rstrip p t) t
rstrip-Infix p t = begin (rstrip-Prefix p t)

lstrip-Infix : (t : Text) → Infix (lstrip t) t
unfolding lstrip
lstrip-Infix [] = infix_refl []
lstrip-Infix (c ∷ s) = elim (Bool-cases (is_space c)) [
  | inl e ↦ rw e (later (lstrip-Infix s))
  | inr e ↦ rw e (infix_refl (c ∷ s))
]

pub strip-Infix : (t : Text) → Infix (strip t) t
unfolding strip
strip-Infix t = infix_trans (rstrip-Infix is_space (lstrip t)) (lstrip-Infix t)

pub drop-Infix : (n : ℕ) (t : Text) → Infix (drop n t) t
drop-Infix zero t = infix_refl t
drop-Infix (suc n) [] = infix_refl []
drop-Infix (suc n) (c ∷ t) = later (drop-Infix n t)

-- Parts of a text, the first of them at its start
data Parts (t : Text) : List Text → Type 0 where
  parts :
      {h : Text} {ts : List Text}
      → Prefix h t
      → ((s : Text) → In s ts → Infix s t)
      → Parts t (h ∷ ts)

split_on-Parts : (sep : ℕ) (t : Text) → Parts t (split_on sep t)
unfolding split_on
split_on-Parts sep [] = parts none_left (λ s i. elim i [ ])
split_on-Parts sep (c ∷ s) = elim (Bool-cases (c == sep)) [
  | inl e ↦ rw e (parts none_left (each (split_on sep s) (split_on-Parts sep s)))
  | inr e ↦ rw e (pushed (split_on sep s) (split_on-Parts sep s))
]
  where
    each : (ts : List Text) → Parts s ts → (r : Text) → In r ts → Infix r (c ∷ s)
    each ts (parts x y) r i =
        first_or_later (λ r. Infix r (c ∷ s)) (later (begin x)) (λ r j. later (y r j)) i

    pushed : (ts : List Text) → Parts s ts → Parts (c ∷ s) (push c ts)
    pushed ts (parts x y) = parts (one_more x) (λ r i. later (y r i))

pub split_on-Infix : (sep : ℕ) (t s : Text) → In s (split_on sep t) → Infix s t
split_on-Infix sep t s i = go (split_on sep t) (split_on-Parts sep t) i
  where
    go : (ts : List Text) → Parts t ts → In s ts → Infix s t
    go ts (parts x y) i = first_or_later (λ r. Infix r t) (begin x) y i
