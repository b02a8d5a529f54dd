-- ===== src/Ledger/Tamper.antt =====
-- A ledger cannot be rewritten under its last row, unless two of its rows or sealed prefixes clash.
use dm_d5102q_rs485_bridge.Prelude.{
  refl, length, some-injective, ◌≡◌, sym, ◌∙◌, ap, ℕ, zero, suc, ◌+◌, ◌<◌, arith, Text, text,
  text_eq, text_eq_sound, Bool-cases, ◌⊎◌, inl, inr, true, false, Option, some, List, [], ◌∷◌, take,
  drop, map,
}
use dm_d5102q_rs485_bridge.Prelude.Int.{ℤ}
use dm_d5102q_rs485_bridge.Value.{null, bool, int, list, Value, str, obj, Fields, get, value_eq}
use dm_d5102q_rs485_bridge.Bytes.{hex}
use dm_d5102q_rs485_bridge.Exec.{ok}
use dm_d5102q_rs485_bridge.Ledger.{
  sealed_prefix_rows, strip_line_end, split_lines, join, validate_ledger, Summary,
}
use dm_d5102q_rs485_bridge.Ledger.Linked.{done, link, link, Linked, validate_ledger_sound}

-- As many lines, and a last one with the same content.
pub data SameEnd : List Text → List Text → Type 0 where
  last : {l l' : Text} → strip_line_end l ≡ strip_line_end l' → SameEnd (l ∷ []) (l' ∷ [])
  more : {l l' : Text} {ls ls' : List Text} → SameEnd ls ls' → SameEnd (l ∷ ls) (l' ∷ ls')

abbrev pub contents : List Text → List Text
contents lines = map strip_line_end lines

cons_eq : {a b : Text} {xs ys : List Text} → a ≡ b → xs ≡ ys → a ∷ xs ≡ b ∷ ys
cons_eq h k = cc

head_eq : {a b : Text} {xs ys : List Text} → a ∷ xs ≡ b ∷ ys → a ≡ b
head_eq h = cc

tail_eq : {a b : Text} {xs ys : List Text} → a ∷ xs ≡ b ∷ ys → xs ≡ ys
tail_eq h = cc

module _ (sha256 : Text → Text) (json_loads : Text → Option Value)
    (fromisoformat : Text → Option (Option ℤ)) where
  -- Two different texts with one hash.
  abbrev pub Clash : Text → Text → Type 0
  Clash s t = (text_eq s t ≡ false) × (hex (sha256 s) ≡ hex (sha256 t))

  -- Two rows of the same number whose contents clash.
  pub data RowClash : List Text → List Text → Type 0 where
    here :
        {l l' : Text} {ls ls' : List Text}
        → Clash (strip_line_end l) (strip_line_end l')
        → RowClash (l ∷ ls) (l' ∷ ls')
    there : {l l' : Text} {ls ls' : List Text} → RowClash ls ls' → RowClash (l ∷ ls) (l' ∷ ls')

  -- The sealed prefixes of two ledgers clash, or two of their rows do.
  abbrev pub Collision : Text → Text → Type 0
  Collision raw raw' =
      Clash (join (take sealed_prefix_rows (split_lines raw)))
        (join (take sealed_prefix_rows (split_lines raw')))
      ⊎ RowClash (split_lines raw) (split_lines raw')

  same_or_Clash : (s t : Text) → hex (sha256 s) ≡ hex (sha256 t) → (s ≡ t) ⊎ Clash s t
  same_or_Clash s t h = elim (Bool-cases (text_eq s t)) [
    | inl e ↦ inl (text_eq_sound s t e)
    | inr e ↦ inr (e, h)
  ]

  -- Two rows of the same content hold the same hash of the row before.
  same_hash :
      {row row' : Fields} (c c' p p' : Text)
      → c ≡ c'
      → json_loads c ≡ some (obj row)
      → json_loads c' ≡ some (obj row')
      → get (text "previousRowSha256") row ≡ some (str (hex (sha256 p)))
      → get (text "previousRowSha256") row' ≡ some (str (hex (sha256 p')))
      → hex (sha256 p) ≡ hex (sha256 p')
  same_hash c c' p p' e j j' h h' = cc

  -- Behind two rows, the rows are the same and so are these two, or two of them clash.
  same_history :
      {l l' : Text} {ls ls' : List Text}
      → SameEnd (l ∷ ls) (l' ∷ ls')
      → (n : ℕ) {t t' : Option ℤ} → sealed_prefix_rows < n
      → Linked sha256 json_loads fromisoformat n t (some (strip_line_end l)) ls
      → Linked sha256 json_loads fromisoformat n t' (some (strip_line_end l')) ls'
      → (contents (l ∷ ls) ≡ contents (l' ∷ ls')) ⊎ RowClash (l ∷ ls) (l' ∷ ls')
  same_history (last e) n behind x x' = inl (ap (λ c. c ∷ []) e)
  same_history (more x) n behind done x' = elim x [ ]
  same_history (more x) n behind (link row i j ts m h rest) done = elim x [ ]
  same_history (more x) n behind (link row i j ts m h rest) (link row' i' j' ts' m' h' rest') =
      elim (same_history x (n + 1) (omega arith) rest rest') [
        | inr found ↦ inr (there found)
        | inl tail ↦
            elim (same_or_Clash _ _
              (same_hash _ _ _ _ (head_eq tail) j j' (h behind) (h' behind))) [
                | inl same ↦ inl (cons_eq same tail)
                | inr found ↦ inr (here found)
              ]
      ]

  -- The same from the first row on, behind the first `k + 1` rows.
  same_rows :
      (k : ℕ) {ls ls' : List Text} (n : ℕ) {t t' : Option ℤ} {p p' : Option Text}
      → SameEnd ls ls'
      → k < length ls
      → sealed_prefix_rows < n + k + 1
      → Linked sha256 json_loads fromisoformat n t p ls
      → Linked sha256 json_loads fromisoformat n t' p' ls'
      → (contents (drop (suc k) ls) ≡ contents (drop (suc k) ls')) ⊎ RowClash ls ls'
  same_rows zero n x b behind done y' = elim x [ ]
  same_rows zero n x b behind (link row i j ts m h rest) done = elim x [ ]
  same_rows zero n x b behind (link row i j ts m h rest) (link row' i' j' ts' m' h' rest') =
      elim (same_history x (n + 1) (omega (arith, behind)) rest rest') [
        | inl same ↦ inl (tail_eq same)
        | inr found ↦ inr found
      ]
  same_rows (suc k) n (last e) b behind y y' = inl refl
  same_rows (suc k) n (more x) b behind (link row i j ts m h rest)
        (link row' i' j' ts' m' h' rest') =
      elim (same_rows k (n + 1) x (omega (arith, b)) (omega (arith, behind)) rest rest') [
        | inl same ↦ inl same
        | inr found ↦ inr (there found)
      ]

  same_digest :
      (a b : Text) (v : Value) → value_eq (str a) v ≡ true → value_eq (str b) v ≡ true → a ≡ b
  unfolding value_eq
  same_digest a b (str t) h k = text_eq_sound a t h ∙ sym (text_eq_sound b t k)
  same_digest a b null h k = cc
  same_digest a b (bool x) h k = cc
  same_digest a b (int x) h k = cc
  same_digest a b (list x) h k = cc
  same_digest a b (obj x) h k = cc

  same_digest_value :
      (a b : Text) (v w : Value)
      → v ≡ w
      → value_eq (str a) v ≡ true
      → value_eq (str b) w ≡ true
      → a ≡ b
  same_digest_value a b v w e h k = same_digest a b v h (rw e k)

  -- Two accepted ledgers, under one contract, with as many rows and with the same last row have the
  -- same sealed prefix and behind it the same rows, or their sealed prefixes are different texts with
  -- the same hash, or two of their rows of the same number are.
  pub same_last_row_same_ledger :
      (raw raw' : Text) (ledger_contract : Fields) {s s' : Summary}
      → validate_ledger sha256 json_loads fromisoformat raw ledger_contract ≡ ok s
      → validate_ledger sha256 json_loads fromisoformat raw' ledger_contract ≡ ok s'
      → SameEnd (split_lines raw) (split_lines raw')
      → ((join (take sealed_prefix_rows (split_lines raw))
            ≡ join (take sealed_prefix_rows (split_lines raw')))
          × (contents (drop sealed_prefix_rows (split_lines raw))
              ≡ contents (drop sealed_prefix_rows (split_lines raw'))))
        ⊎ Collision raw raw'
  same_last_row_same_ledger raw raw' ledger_contract h h' x =
      let (d, e, f, g, linked) =
        validate_ledger_sound sha256 json_loads fromisoformat raw ledger_contract h in
      let (d', e', f', g', linked') =
        validate_ledger_sound sha256 json_loads fromisoformat raw' ledger_contract h' in
      let same_value : d ≡ d' = some-injective (sym e ∙ e') in
      elim (same_or_Clash _ _ (same_digest_value _ _ d d' same_value f f')) [
        | inr found ↦ inr (inl found)
        | inl same ↦ elim (same_rows 23 1 x (omega (arith, g)) (omega arith) linked linked') [
          | inr found ↦ inr (inr found)
          | inl rows ↦ inl (same, rows)
        ]
      ]
