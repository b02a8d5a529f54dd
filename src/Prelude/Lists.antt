-- ===== src/Prelude/Lists.antt =====
-- Lists measured by native numbers, under the library's names.
use Prim.Native.Nat.{ℕ, zero, suc, ◌+◌, ◌≤◌}
use mathlib.Core.Path.{◌≡◌, refl, ap}
use mathlib.Core.Logic.{◌⊎◌, inl, inr}
use dm_d5102q_rs485_bridge.Prelude.Tests.{Text, text_eq, text_mem, text_eq_sound, Bool-cases}
use mathlib.Core.Bool.{Bool, true, false, ◌&&◌, ◌||◌}
use mathlib.Core.List.{List, [], ◌∷◌, ◌++◌, map}
use native.Mathlib.Omega.{arith}

module _ {ℓ} {A : Type ℓ} where
  abbrev pub length : List A → ℕ
  length [] = 0
  length (x ∷ xs) = suc (length xs)

  abbrev pub take : ℕ → List A → List A
  take zero xs = []
  take (suc n) [] = []
  take (suc n) (x ∷ xs) = x ∷ take n xs

  abbrev pub drop : ℕ → List A → List A
  drop zero xs = xs
  drop (suc n) [] = []
  drop (suc n) (x ∷ xs) = drop n xs

  abbrev pub replicate : ℕ → A → List A
  replicate zero a = []
  replicate (suc n) a = a ∷ replicate n a

  pub length-append : (xs ys : List A) → length (xs ++ ys) ≡ length xs + length ys
  length-append [] ys = omega arith
  length-append (x ∷ xs) ys = omega (arith, length-append xs ys)

  pub length-replicate : (n : ℕ) (a : A) → length (replicate n a) ≡ n
  length-replicate zero a = refl
  length-replicate (suc n) a = ap suc (length-replicate n a)

  pub take-append-drop : (n : ℕ) (xs : List A) → take n xs ++ drop n xs ≡ xs
  take-append-drop zero xs = refl
  take-append-drop (suc n) [] = refl
  take-append-drop (suc n) (x ∷ xs) = ap (λ ys. x ∷ ys) (take-append-drop n xs)

module _ {ℓ} {A : Type ℓ} where
  pub take-append : (xs ys : List A) → take (length xs) (xs ++ ys) ≡ xs
  take-append [] ys = refl
  take-append (x ∷ xs) ys = ap (λ zs. x ∷ zs) (take-append xs ys)

  pub drop-append : (xs ys : List A) → drop (length xs) (xs ++ ys) ≡ ys
  drop-append [] ys = refl
  drop-append (x ∷ xs) ys = drop-append xs ys

  -- `any(p(x) for x in xs)` and `all(p(x) for x in xs)`
  unfoldable pub any : (A → Bool) → List A → Bool
  any p [] = false
  any p (x ∷ xs) = p x || any p xs

  unfoldable pub all : (A → Bool) → List A → Bool
  all p [] = true
  all p (x ∷ xs) = p x && all p xs

  -- The members of a list satisfy a predicate.
  abbrev pub All {κ} : (A → Type κ) → List A → Type κ
  All P [] = Unit
  All P (x ∷ xs) = P x × All P xs

-- Cutting exactly what stands in front, or nothing.
module _ {ℓ} {A : Type ℓ} where
  pub take_exact : (n : ℕ) (xs ys : List A) → length xs ≡ n → take n (xs ++ ys) ≡ xs
  take_exact n xs ys e = rw (← e) (take-append xs ys)

  pub drop_exact : (n : ℕ) (xs ys : List A) → length xs ≡ n → drop n (xs ++ ys) ≡ ys
  drop_exact n xs ys e = rw (← e) (drop-append xs ys)

  pub take_all : (n : ℕ) (xs : List A) → length xs ≤ n → take n xs ≡ xs
  take_all zero [] h = refl
  take_all zero (x ∷ xs) h = absurd (omega arith)
  take_all (suc n) [] h = refl
  take_all (suc n) (x ∷ xs) h = ap (λ ys. x ∷ ys) (take_all n xs (omega arith))

  pub take_short : (n : ℕ) (xs : List A) → suc (length (take n xs)) ≤ n → take n xs ≡ xs
  take_short zero xs h = absurd (omega arith)
  take_short (suc n) [] h = refl
  take_short (suc n) (x ∷ xs) h = ap (λ ys. x ∷ ys) (take_short n xs (omega arith))

pub and-eq-true : (a b : Bool) → (a && b) ≡ true → (a ≡ true) × (b ≡ true)
and-eq-true a b h = ground arith

-- An item of a list.
pub data In {ℓ} {A : Type ℓ} (a : A) : List A → Type ℓ where
  here : {xs : List A} → In a (a ∷ xs)
  there : {x : A} {xs : List A} → In a xs → In a (x ∷ xs)

pub first_or_later {ℓ κ} :
    {A : Type ℓ} (C : A → Type κ) {a x : A} {xs : List A}
    → C x
    → ((y : A) → In y xs → C y)
    → In a (x ∷ xs)
    → C a
first_or_later C h f here = h
first_or_later C h f (there i) = f _ i

pub In-map {ℓ κ} :
    {A : Type ℓ} {B : Type κ} (f : A → B) {a : A} {xs : List A} → In a xs → In (f a) (map f xs)
In-map f here = here
In-map f (there i) = there (In-map f i)

pub all-In {ℓ} :
    {A : Type ℓ} (p : A → Bool) (xs : List A) → all p xs ≡ true → (x : A) → In x xs → p x ≡ true
unfolding all
all-In p [] h x i = elim i [ ]
all-In p (x ∷ xs) h y i =
    let both = and-eq-true (p x) (all p xs) h in
    first_or_later (λ z. p z ≡ true) both.0 (all-In p xs both.1) i

pub In-map_sound {ℓ κ} :
    {A : Type ℓ} {B : Type κ} (f : A → B) (xs : List A) {b : B}
    → In b (map f xs)
    → (a : A) × In a xs × (f a ≡ b)
In-map_sound {A} {B} f [] i = elim i [ ]
In-map_sound {A} {B} f (x ∷ xs) i =
    first_or_later (λ c. (a : A) × In a (x ∷ xs) × (f a ≡ c)) (x, here, refl)
      (λ y j. let r = In-map_sound f xs j in (r.0, there r.1, r.2)) i

pub text_mem-In : (t : Text) (ts : List Text) → text_mem t ts ≡ true → In t ts
unfolding text_mem
text_mem-In t [] h = cc
text_mem-In t (u ∷ us) h = elim (Bool-cases (text_eq t u)) [
  | inl e ↦ rw (text_eq_sound t u e) here
  | inr e ↦ there (text_mem-In t us (rw e at h))
]

pub In-snoc {ℓ} :
    {A : Type ℓ} (a : A) (xs : List A) (x : A) → In a (xs ++ (x ∷ [])) → In a xs ⊎ (a ≡ x)
In-snoc a [] a' here = inr refl
In-snoc a [] x (there i) = elim i [ ]
In-snoc a (a' ∷ xs) x here = inl here
In-snoc a (y ∷ xs) x (there i) = elim (In-snoc a xs x i) [ inl j ↦ inl (there j) | inr e ↦ inr e ]

-- What holds of the items of two lists holds of those of their append.
pub append-In {ℓ κ} :
    {A : Type ℓ} (C : A → Type κ) (xs ys : List A)
    → ((x : A) → In x xs → C x)
    → ((x : A) → In x ys → C x)
    → (x : A) → In x (xs ++ ys)
    → C x
append-In C [] ys f g x i = g x i
append-In C (y ∷ xs) ys f g x i =
    first_or_later C (f y here) (append-In C xs ys (λ z j. f z (there j)) g) i
