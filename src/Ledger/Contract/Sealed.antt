-- ===== src/Ledger/Contract/Sealed.antt =====
-- A ledger that passes against a contract that passes has the pinned prefix.
use dm_d5102q_rs485_bridge.Prelude.{
  Option, ◌≡◌, sym, ap, ◌∙◌, ◌≤◌, Text, text, ◌&&◌, none, some, some-injective, length, take, all,
}
use dm_d5102q_rs485_bridge.Prelude.Int.{ℤ}
use dm_d5102q_rs485_bridge.Value.{Value, str, Fields, get, field_eq}
use dm_d5102q_rs485_bridge.Value.Laws.{value_eq_texts, field_eq-str}
use dm_d5102q_rs485_bridge.Bytes.{hex}
use dm_d5102q_rs485_bridge.Exec.{ok, >>=-eq-ok, >>-eq-ok, ok-injective}
use dm_d5102q_rs485_bridge.Ledger.{Summary, sealed_prefix_rows, split_lines, join, validate_ledger}
use dm_d5102q_rs485_bridge.Ledger.Linked.{Linked, validate_ledger_sound}
use dm_d5102q_rs485_bridge.Ledger.Contract.{
  sealed_prefix_sha256, ledger_path, check_ledger_section, section, require_set, state_files,
  expected_target, validate_contract,
}

check_ledger_section_sealed :
    (ledger : Fields) {u : Unit {0}}
    → check_ledger_section ledger ≡ ok u
    → get (text "sealedPrefixSha256") ledger ≡ some (str sealed_prefix_sha256)
unfolding check_ledger_section
check_ledger_section_sealed ledger h =
    let a = >>-eq-ok (field_eq ledger (text "path") (str ledger_path)) _ _ h in
    let b = >>-eq-ok (field_eq ledger (text "sealedPrefixRows") _) _ _ a.1 in
    let c = >>-eq-ok (field_eq ledger (text "sealedPrefixSha256") _) _ _ b.1 in
    field_eq-str ledger _ _ c.0

module _ (sha256 : Text → Text) (canonical : Fields → Text) where
  validate_contract-ledger :
      (contract : Fields) {u : Unit {0}}
      → validate_contract sha256 canonical contract ≡ ok u
      → (ledger : Fields) × (section contract (text "ledger") ≡ ok ledger)
        × (check_ledger_section ledger ≡ ok tt)
  unfolding validate_contract
  validate_contract-ledger contract h =
      let a = >>-eq-ok (field_eq contract (text "schemaVersion") _) _ _ h in
      let b = >>-eq-ok (field_eq contract (text "designSha256") _) _ _ a.1 in
      let c = >>-eq-ok (field_eq contract (text "designAmendment") _) _ _ b.1 in
      let d = >>-eq-ok (field_eq contract (text "currentMilestone") _) _ _ c.1 in
      let e = >>=-eq-ok (section contract (text "target")) _ d.1 in
      let f = >>-eq-ok (all _ expected_target) _ _ e.2 in
      let g = >>=-eq-ok (require_set contract (text "stateFiles") state_files) _ f.1 in
      let i = >>=-eq-ok (require_set contract (text "evidenceStageDirectories") _) _ g.2 in
      let j = >>=-eq-ok (section contract (text "nextTodo")) _ i.2 in
      let k =
        >>-eq-ok (field_eq j.0 (text "openTasks") _ && field_eq j.0 (text "owner") _) _ _ j.2 in
      let l = >>=-eq-ok (section contract (text "ledger")) _ k.1 in
      let m = >>=-eq-ok (check_ledger_section l.0) _ l.2 in (l.0, l.1, m.1)

  module _ (json_loads : Text → Option Value) (fromisoformat : Text → Option (Option ℤ)) where
    -- Where a contract passes validate_contract and a ledger passes validate_ledger against the
    -- contract's section on it, the first 24 rows of the ledger have the pinned hash, the ledger
    -- has at least as many rows, and its rows are linked behind them.
    pub validate_ledger-IsSealed :
        (contract ledger : Fields) (raw : Text) {u : Unit {0}} {s : Summary}
        → validate_contract sha256 canonical contract ≡ ok u
        → section contract (text "ledger") ≡ ok ledger
        → validate_ledger sha256 json_loads fromisoformat raw ledger ≡ ok s
        → (hex (sha256 (join (take sealed_prefix_rows (split_lines raw)))) ≡ sealed_prefix_sha256)
          × (sealed_prefix_rows ≤ length (split_lines raw))
          × Linked sha256 json_loads fromisoformat 1 none none (split_lines raw)
    validate_ledger-IsSealed contract ledger raw h e k =
        let (l, at, checked) = validate_contract-ledger contract h in
        let (digest, found, same, enough, linked) =
          validate_ledger_sound sha256 json_loads fromisoformat raw ledger k in
        let pinned = check_ledger_section_sealed l checked in
        let digest_is =
          some-injective (
            sym found
            ∙ ap (get (text "sealedPrefixSha256")) (ok-injective (sym e ∙ at))
            ∙ pinned) in
        (value_eq_texts _ _ (rw digest_is at same), enough, linked)
