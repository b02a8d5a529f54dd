-- ===== src/Usb/Boot/Lines.antt =====
-- The lines of a buffer that grows.
use dm_d5102q_rs485_bridge.Prelude.{
  ◌≢◌, ◌≡◌, refl, ap, ◌∙◌, ℕ, Text, Bool, Bool-cases, inl, inr, true, false, ◌||◌, List, [], ◌∷◌,
  ◌++◌, ◌==◌, arith,
}
use dm_d5102q_rs485_bridge.Usb.Boot.{extend, complete, has_line, remainder}

pub append_assoc : {A : Type 0} (xs ys zs : List A) → (xs ++ ys) ++ zs ≡ xs ++ (ys ++ zs)
append_assoc [] ys zs = refl
append_assoc (x ∷ xs) ys zs = ap (λ t. x ∷ t) (append_assoc xs ys zs)

pub append_nil : {A : Type 0} (xs : List A) → xs ++ [] ≡ xs
append_nil [] = refl
append_nil (x ∷ xs) = ap (λ t. x ∷ t) (append_nil xs)

extend_append :
    (c : ℕ) (ls rest : List Text) → ls ≢ [] → extend c (ls ++ rest) ≡ extend c ls ++ rest
unfolding extend
extend_append c [] rest h = absurd (h refl)
extend_append c (l ∷ ls) rest h = refl

extend_nil : (c : ℕ) (ls : List Text) → extend c ls ≡ [] → ls ≡ []
unfolding extend
extend_nil c [] h = refl
extend_nil c (l ∷ ls) h = cc

lines_append : (xs ys zs : List Text) → (xs ++ ys) ++ zs ≡ xs ++ (ys ++ zs)
lines_append [] ys zs = refl
lines_append (x ∷ xs) ys zs = ap (λ t. x ∷ t) (lines_append xs ys zs)

neither : (a b : Bool) → (a || b) ≡ false → (a ≡ false) × (b ≡ false)
neither a b h = ground arith

pub complete_without_line : (s : Text) → has_line s ≡ false → complete s ≡ []
unfolding complete has_line extend
complete_without_line [] h = refl
complete_without_line (c ∷ s) h =
    let both = neither (c == 10) (has_line s) h in rw (both.0, complete_without_line s both.1) refl

complete_with_line : (s : Text) → has_line s ≡ true → complete s ≢ []
unfolding complete has_line
complete_with_line [] h e = cc
complete_with_line (c ∷ s) h e = elim (Bool-cases (c == 10)) [
  | inl b ↦ absurd (no_line (rw b at e))
  | inr b ↦ complete_with_line s (rw b at h) (extend_nil c (complete s) (rw b at e))
]
  where
    no_line : {ls : List Text} → [] ∷ ls ≡ [] → ⊥
    no_line e = cc

pub remainder_without_line : (s : Text) → has_line s ≡ false → remainder s ≡ s
unfolding remainder has_line
remainder_without_line [] h = refl
remainder_without_line (c ∷ s) h = rw h refl

has_line-append : (s t : Text) → has_line (s ++ t) ≡ (has_line s || has_line t)
unfolding has_line
has_line-append [] t = refl
has_line-append (c ∷ s) t = ground (arith, has_line-append s t)

pub has_line-remainder : (s : Text) → has_line (remainder s) ≡ false
unfolding remainder has_line
has_line-remainder [] = refl
has_line-remainder (c ∷ s) = elim (Bool-cases (c == 10 || has_line s)) [
  | inl e ↦ rw e (has_line-remainder s)
  | inr e ↦ rw e e
]

-- The lines of two texts are those of the first, and those of what it leaves with the second.
pub complete-append : (s t : Text) → complete (s ++ t) ≡ complete s ++ complete (remainder s ++ t)
unfolding complete remainder extend
complete-append [] t = refl
complete-append (c ∷ s) t = elim (Bool-cases (c == 10)) [
  | inl e ↦ rw e (ap (λ ls. [] ∷ ls) (complete-append s t))
  | inr e ↦ elim (Bool-cases (has_line s)) [
    | inl h ↦
        rw (e, h)
          (ap (extend c) (complete-append s t)
            ∙ extend_append c (complete s) _ (complete_with_line s h))
    | inr h ↦ rw (e, h, complete_without_line s h, e) refl
  ]
]

wider : (a b c d : Bool) → (a || b) ≡ true → d ≡ (b || c) → (a || d) ≡ true
wider a b c d h e = ground arith

pub remainder-append : (s t : Text) → remainder (s ++ t) ≡ remainder (remainder s ++ t)
unfolding remainder
remainder-append [] t = refl
remainder-append (c ∷ s) t = elim (Bool-cases (c == 10 || has_line s)) [
  | inl e ↦
      rw (e, wider (c == 10) (has_line s) (has_line t) (has_line (s ++ t)) e (has_line-append s t))
        (remainder-append s t)
  | inr e ↦ rw e refl
]
