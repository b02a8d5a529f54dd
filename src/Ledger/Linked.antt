-- ===== src/Ledger/Linked.antt =====
-- What an accepted ledger is.
use dm_d5102q_rs485_bridge.Prelude.{
  sym, ◌∙◌, ◌&&◌, ◌≡◌, ap, ℕ, ◌+◌, ◌≤◌, ◌<◌, arith, Text, text, text_eq_sound, Bool, true, false,
  not, Option, none, some, List, [], ◌∷◌, ltb, leb, length, take,
}
use dm_d5102q_rs485_bridge.Prelude.Int.{ℤ}
use dm_d5102q_rs485_bridge.Value.{
  null, bool, int, list, field_eq, Value, str, obj, Fields, get, value_eq,
}
use dm_d5102q_rs485_bridge.Bytes.{hex}
use dm_d5102q_rs485_bridge.Exec.{require-eq-ok, ok, >>=-eq-ok, >>-eq-ok, ok-injective}
use dm_d5102q_rs485_bridge.Ota.Reconcile.{item}
use dm_d5102q_rs485_bridge.Ledger.{
  check_hash, sealed_prefix_rows, strip_line_end, split_lines, join, or_empty, moved_backwards,
  is_sha256, parse_row, parse_timestamp, check_link, check_structured, if_structured, check_row,
  check_rows, validate_ledger, Summary, has_all, core_fields, all_filled,
}

module _ (sha256 : Text → Text) (json_loads : Text → Option Value)
    (fromisoformat : Text → Option (Option ℤ)) where
  -- Rows from `line_number` on, behind a row with this instant and this content: the instants do
  -- not decrease, and behind the sealed prefix each row holds the hash of the row before it.
  pub data Linked : ℕ → Option ℤ → Option Text → List Text → Type 0 where
    done : {n : ℕ} {t : Option ℤ} {p : Option Text} → Linked n t p []
    link :
        {n : ℕ} {t : Option ℤ} {p : Option Text} {line : Text} {lines : List Text} (row : Fields)
        (instant : ℤ)
        → json_loads (strip_line_end line) ≡ some (obj row)
        → parse_timestamp sha256 json_loads fromisoformat (get (text "timestamp") row) ≡ ok instant
        → moved_backwards t instant ≡ false
        → (sealed_prefix_rows < n
            → get (text "previousRowSha256") row ≡ some (str (hex (sha256 (or_empty p)))))
        → Linked (n + 1) (some instant) (some (strip_line_end line)) lines
        → Linked n t p (line ∷ lines)

  parse_row_sound :
      (content : Text) (row : Fields)
      → parse_row sha256 json_loads fromisoformat content ≡ ok row
      → json_loads content ≡ some (obj row)
  unfolding parse_row
  parse_row_sound content row h = ground arith

  check_hash_sound :
      (v : Option Value) (p : Option Text) {u : Unit {0}}
      → check_hash sha256 json_loads fromisoformat v p ≡ ok u
      → v ≡ some (str (hex (sha256 (or_empty p))))
  unfolding check_hash
  check_hash_sound (some (str t)) p h =
      let a = >>-eq-ok (is_sha256 t) _ _ h in
      ap (λ x. some (str x)) (text_eq_sound _ _ (require-eq-ok _ _ a.1))
  check_hash_sound none p h = cc
  check_hash_sound (some null) p h = cc
  check_hash_sound (some (bool b)) p h = cc
  check_hash_sound (some (int n)) p h = cc
  check_hash_sound (some (list vs)) p h = cc
  check_hash_sound (some (obj d)) p h = cc

  check_link_sound :
      (row : Fields) (p : Option Text) {u : Unit {0}}
      → check_link sha256 json_loads fromisoformat row p ≡ ok u
      → get (text "previousRowSha256") row ≡ some (str (hex (sha256 (or_empty p))))
  unfolding check_link
  check_link_sound row p h = check_hash_sound _ p h

  check_structured_sound :
      (ledger_contract row : Fields) (p : Option Text) {u : Unit {0}}
      → check_structured sha256 json_loads fromisoformat ledger_contract row p ≡ ok u
      → get (text "previousRowSha256") row ≡ some (str (hex (sha256 (or_empty p))))
  unfolding check_structured
  check_structured_sound ledger_contract row p h =
      let a = >>-eq-ok _ _ _ h in
      let b = >>=-eq-ok (item ledger_contract (text "rowSchemaVersion")) _ a.1 in
      let c = >>-eq-ok (field_eq row (text "schemaVersion") b.0) _ _ b.2 in
      let d = >>=-eq-ok (check_link sha256 json_loads fromisoformat row p) _ c.1 in
      check_link_sound row p d.1

  if_structured_sound :
      (ledger_contract row : Fields) (n : ℕ) (p : Option Text) {u : Unit {0}}
      → if_structured sha256 json_loads fromisoformat ledger_contract row n p ≡ ok u
      → sealed_prefix_rows < n
      → get (text "previousRowSha256") row ≡ some (str (hex (sha256 (or_empty p))))
  unfolding if_structured
  if_structured_sound ledger_contract row n p h behind =
      check_structured_sound ledger_contract row p (rw (is_behind n behind) at h)
    where
      is_behind : (n : ℕ) → sealed_prefix_rows < n → ltb sealed_prefix_rows n ≡ true
      is_behind n h = ground arith

  refuted : (b : Bool) → not b ≡ true → b ≡ false
  refuted b h = ground arith

  item_sound : (d : Fields) (k : Text) (v : Value) → item d k ≡ ok v → get k d ≡ some v
  unfolding item
  item_sound d k v h = ground arith

  at_most : (m n : ℕ) → leb m n ≡ true → m ≤ n
  at_most m n h = ground arith

  check_rows_sound :
      (ledger_contract : Fields) (n : ℕ) (t : Option ℤ) (p : Option Text) (lines : List Text)
      {u : Unit {0}}
      → check_rows sha256 json_loads fromisoformat ledger_contract n t p lines ≡ ok u
      → Linked n t p lines
  unfolding check_rows check_row
  check_rows_sound ledger_contract n t p [] h = done
  check_rows_sound ledger_contract n t p (line ∷ lines) h =
      let a =
        >>=-eq-ok
          (check_row sha256 json_loads fromisoformat ledger_contract n t p (strip_line_end line)) _
          h in
      let b = >>=-eq-ok (parse_row sha256 json_loads fromisoformat (strip_line_end line)) _ a.1 in
      let c = >>-eq-ok (has_all b.0 core_fields && all_filled b.0 core_fields) _ _ b.2 in
      let d =
        >>=-eq-ok (parse_timestamp sha256 json_loads fromisoformat (get (text "timestamp") b.0)) _
          c.1 in
      let e = >>-eq-ok (not (moved_backwards t d.0)) _ _ d.2 in
      let f =
        >>=-eq-ok (if_structured sha256 json_loads fromisoformat ledger_contract b.0 n p) _ e.1 in
      let instant : d.0 ≡ a.0 = ok-injective f.2 in
      link b.0 a.0 (parse_row_sound _ b.0 b.1) (d.1 ∙ ap ok instant)
        (ap (moved_backwards t) (sym instant) ∙ refuted _ e.0)
        (if_structured_sound ledger_contract b.0 n p f.1)
        (check_rows_sound ledger_contract (n + 1) _ _ lines a.2)

  -- An accepted ledger has the sealed prefix that the contract names, at least that many rows, and
  -- from its first row on rows whose instants do not decrease and which, behind the prefix, each
  -- hold the hash of the row before.
  pub validate_ledger_sound :
      (raw : Text) (ledger_contract : Fields) {s : Summary}
      → validate_ledger sha256 json_loads fromisoformat raw ledger_contract ≡ ok s
      → (digest : Value) × (get (text "sealedPrefixSha256") ledger_contract ≡ some digest)
        × (value_eq (str (hex (sha256 (join (take sealed_prefix_rows (split_lines raw)))))) digest
            ≡ true)
        × (sealed_prefix_rows ≤ length (split_lines raw))
        × Linked 1 none none (split_lines raw)
  unfolding validate_ledger
  validate_ledger_sound raw ledger_contract h =
      let a = >>-eq-ok _ _ _ h in
      let b = >>-eq-ok _ _ _ a.1 in
      let c = >>=-eq-ok (item ledger_contract (text "sealedPrefixSha256")) _ b.1 in
      let d =
        >>-eq-ok
          (value_eq (str (hex (sha256 (join (take sealed_prefix_rows (split_lines raw)))))) c.0) _ _
          c.2 in
      let e =
        >>=-eq-ok
          (check_rows sha256 json_loads fromisoformat ledger_contract 1 none none (split_lines raw))
          _ d.1 in
      (
        c.0,
        item_sound ledger_contract _ c.0 c.1,
        d.0,
        at_most _ _ b.0,
        check_rows_sound ledger_contract 1 none none (split_lines raw) e.1,
      )
