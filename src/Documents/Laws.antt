-- ===== src/Documents/Laws.antt =====
-- Laws of the loops that may fail.
use dm_d5102q_rs485_bridge.Prelude.{
  sym, refl, none, some, Option, inr, some-injective, inl, Bool-cases, Option, some, Text, ◌≡◌,
  Bool, true, false, List, [], ◌∷◌, In, here, there, first_or_later,
}
use dm_d5102q_rs485_bridge.Exec.{Result, ok, >>=-eq-ok, ok-injective}
use dm_d5102q_rs485_bridge.Documents.{str, Entry, is_known, find_entry, for_each, collect, any_of}
use dm_d5102q_rs485_bridge.Value.{value_eq, Fields}

-- A loop of checks that passes has passed each of them.
pub for_each_sound :
    {A : Type 0} (check : A → Result (Unit {0})) (xs : List A) {u : Unit {0}}
    → for_each check xs ≡ ok u
    → (x : A) → In x xs
    → check x ≡ ok tt
unfolding for_each
for_each_sound check [] h x i = elim i [ ]
for_each_sound check (x ∷ xs) h y i =
    let a = >>=-eq-ok (check x) _ h in
    first_or_later (λ z. check z ≡ ok tt) a.1 (for_each_sound check xs a.2) i

-- Each collected result is the result of an item.
pub collect_sound :
    {A B : Type 0} (f : A → Result B) (xs : List A) {ys : List B}
    → collect f xs ≡ ok ys
    → (y : B) → In y ys
    → (x : A) × In x xs × (f x ≡ ok y)
unfolding collect
collect_sound {A} {B} f [] h y i = absurd (no_item (rw (← ok-injective h) at i))
  where
    no_item : In y [] → ⊥
    no_item i = elim i [ ]
collect_sound {A} {B} f (x ∷ xs) {ys} h y i =
    let a = >>=-eq-ok (f x) _ h in
    let b = >>=-eq-ok (collect f xs) _ a.2 in
    first_or_later (λ z. (x' : A) × In x' (x ∷ xs) × (f x' ≡ ok z)) (x, here, a.1)
      (λ z j. let c = collect_sound f xs b.1 z j in (c.0, there c.1, c.2))
      (rw (← ok-injective b.2) at i)

-- Where `any` holds, there is an item for which the test does.
pub any_of_sound :
    {A : Type 0} (test : A → Result Bool) (xs : List A)
    → any_of test xs ≡ ok true
    → (x : A) × In x xs × (test x ≡ ok true)
unfolding any_of
any_of_sound {A} test [] h = cc
any_of_sound {A} test (x ∷ xs) h =
    let a = >>=-eq-ok (test x) _ h in go a.0 a.1 a.2 (any_of_sound test xs)
  where
    go :
        (b : Bool)
        → test x ≡ ok b
        → elim b [ true ↦ ok true | false ↦ any_of test xs ] ≡ ok true
        → (any_of test xs ≡ ok true → (y : A) × In y xs × (test y ≡ ok true))
        → (y : A) × In y (x ∷ xs) × (test y ≡ ok true)
    go true e h rest = (x, here, e)
    go false e h rest = let c = rest h in (c.0, there c.1, c.2)

-- What is found under a key is one of the entries, filed under that key.
pub find_entry_sound :
    (name : Text) (es : List Entry) {d : Fields}
    → find_entry name es ≡ some d
    → (e : Entry) × In e es × (value_eq e.id (str name) ≡ true) × (e.entry ≡ d)
unfolding find_entry
find_entry_sound name [] h = cc
find_entry_sound name (e ∷ es) h = elim (Bool-cases (value_eq e.id (str name))) [
  | inl b ↦ (e, here, b, some-injective (rw b at h))
  | inr b ↦ let x = find_entry_sound name es (rw b at h) in (x.0, there x.1, x.2, x.3)
]

pub is_known_sound :
    (name : Text) (es : List Entry)
    → is_known es name ≡ true
    → (d : Fields) × (find_entry name es ≡ some d)
unfolding is_known
is_known_sound name es h = go (find_entry name es) refl
  where
    go : (o : Option Fields) → find_entry name es ≡ o → (d : Fields) × (o ≡ some d)
    go none e = let x = rw (is_known, e) at h in cc
    go (some d) e = (d, refl)

pub collect_cons :
    {A B : Type 0} (f : A → Result B) (x : A) (xs : List A) {ys : List B}
    → collect f (x ∷ xs) ≡ ok ys
    → (y : B) × (zs : List B) × (f x ≡ ok y) × (collect f xs ≡ ok zs) × (ys ≡ y ∷ zs)
unfolding collect
collect_cons f x xs h =
    let a = >>=-eq-ok (f x) _ h in
    let b = >>=-eq-ok (collect f xs) _ a.2 in (a.0, b.0, a.1, b.1, sym (ok-injective b.2))

pub collect_nil : {A B : Type 0} (f : A → Result B) {ys : List B} → collect f [] ≡ ok ys → ys ≡ []
unfolding collect
collect_nil f h = sym (ok-injective h)

-- Each item has a result among the collected ones.
pub collect_complete :
    {A B : Type 0} (f : A → Result B) (xs : List A) {ys : List B}
    → collect f xs ≡ ok ys
    → (x : A) → In x xs
    → (y : B) × In y ys × (f x ≡ ok y)
unfolding collect
collect_complete {A} {B} f [] h x i = elim i [ ]
collect_complete {A} {B} f (z ∷ zs) {ys} h x i =
    let a = >>=-eq-ok (f z) _ h in
    let b = >>=-eq-ok (collect f zs) _ a.2 in
    moved (ok-injective b.2) (
      first_or_later (λ w. (y : B) × In y (a.0 ∷ b.0) × (f w ≡ ok y)) (a.0, here, a.1)
        (λ w j. let c = collect_complete f zs b.1 w j in (c.0, there c.1, c.2)) i)
  where
    moved :
        {us : List B}
        → us ≡ ys
        → (y : B) × In y us × (f x ≡ ok y)
        → (y : B) × In y ys × (f x ≡ ok y)
    moved e r = rw (← e) r
