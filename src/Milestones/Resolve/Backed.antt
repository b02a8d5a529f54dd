-- ===== src/Milestones/Resolve/Backed.antt =====
-- What a resolved criterion rests on.
use dm_d5102q_rs485_bridge.Prelude.{
  all-In, ◌≡◌, refl, sym, ap, ◌∙◌, Text, text, Bool, true, false, not, ◌&&◌, Option, none, some,
  List, [], ◌∷◌, if◌then◌else◌, In, here, there, arith, all, first_or_later,
}
use dm_d5102q_rs485_bridge.Value.{Value, str, list, nil, Fields, get_or, value_eq, field_eq}
use dm_d5102q_rs485_bridge.Exec.{refused, Result, ok, err, >>=-eq-ok, >>-eq-ok, ok-injective}
use dm_d5102q_rs485_bridge.Ota.Reconcile.{item, and_then}
use dm_d5102q_rs485_bridge.Documents.{
  object_or, got, in_set, repeats, string_list, array, for_each, any_of, is_empty, Entry,
  find_entry, is_known,
}
use dm_d5102q_rs485_bridge.Documents.Laws.{collect_sound, for_each_sound, any_of_sound}
use dm_d5102q_rs485_bridge.Milestones.{allowed_proof_stages, Criterion, physical_proof_stages}
use dm_d5102q_rs485_bridge.Milestones.Resolve.{
  Resolved, resolve_group, validate_resolved_criterion, resolve_item, validate_requirement_ids,
  entries_of, is_observed, validate_artifact_path, check_references,
}

-- An entry of the register, with its id among some, that was observed and is neither missing nor
-- unresolved.
pub record Observation (evidence : List Entry) (ids : List Text) : Type 0 where
  pub id : Text
  pub cited : In id ids
  pub entry : Fields
  pub found : find_entry id evidence ≡ some entry
  pub observed : field_eq entry (text "classification") (str (text "OBS")) ≡ true
  pub present :
      in_set (got (text "status") entry) (text "missing" ∷ text "unresolved" ∷ []) ≡ ok false

item-field_eq :
    (d : Fields) (k : Text) (v w : Value) → item d k ≡ ok v → field_eq d k w ≡ value_eq v w
unfolding item field_eq
item-field_eq d k v w h = ground arith

refuted : (b : Bool) → not b ≡ true → b ≡ false
refuted b h = ground arith

entries_of_sound :
    (evidence : List Entry) (ids : List Text) (d : Fields)
    → In d (entries_of evidence ids)
    → (id : Text) × In id ids × (find_entry id evidence ≡ some d)
unfolding entries_of
entries_of_sound evidence [] d i = elim i [ ]
entries_of_sound evidence (id ∷ ids) d i =
    go (find_entry id evidence) refl i (entries_of_sound evidence ids)
  where
    go :
        (found : Option Fields)
        → find_entry id evidence ≡ found
        → In d (elim found as (λ _. List Fields) [
          | none ↦ entries_of evidence ids
          | some e ↦ e ∷ entries_of evidence ids
        ])
        → ((y : Fields)
            → In y (entries_of evidence ids)
            → (id' : Text) × In id' ids × (find_entry id' evidence ≡ some y))
        → (id' : Text) × In id' (id ∷ ids) × (find_entry id' evidence ≡ some d)
    go none e j rest = let x = rest d j in (x.0, there x.1, x.2)
    go (some f) e j rest =
        first_or_later (λ z. (id' : Text) × In id' (id ∷ ids) × (find_entry id' evidence ≡ some z))
          (id, here, e) (λ y k. let x = rest y k in (x.0, there x.1, x.2)) j

and_then_sound : (a b : Result Bool) → and_then a b ≡ ok true → (a ≡ ok true) × (b ≡ ok true)
unfolding and_then
and_then_sound (ok true) b h = (refl, h)
and_then_sound (ok false) b h = cc
and_then_sound (err e) b h = cc

is_observed_sound :
    (d : Fields)
    → is_observed d ≡ ok true
    → (field_eq d (text "classification") (str (text "OBS")) ≡ true)
      × (in_set (got (text "status") d) (text "missing" ∷ text "unresolved" ∷ []) ≡ ok false)
unfolding is_observed
is_observed_sound d h =
    let a = and_then_sound _ _ h in
    let b = >>=-eq-ok (in_set (got (text "status") d) _) _ a.1 in
    (ok-injective a.0, b.1 ∙ ap ok (refuted b.0 (ok-injective b.2)))

module _ (exists : Text → Bool) (evidence : List Entry) where
  -- What the criterion cites is known and there; where it is satisfied it cites something, and
  -- where that takes a physical proof, an observation.
  pub record IsBacked (d : Fields) : Type 0 where
    pub ids : List Text
    pub paths : List Value
    pub cites : string_list (some (get_or (text "evidenceIds") (list nil) d)) ≡ some ids
    pub names : array (get_or (text "artifactPaths") (list nil) d) ≡ some paths
    pub known : (id : Text) → In id ids → is_known evidence id ≡ true
    pub there_is : (p : Value) → In p paths → validate_artifact_path exists p ≡ ok tt
    pub supported :
        field_eq d (text "status") (str (text "satisfied")) ≡ true
        → (is_empty ids && is_empty paths) ≡ false
    pub physical :
        (stage : Value)
        → item d (text "proofStage") ≡ ok stage
        → in_set stage physical_proof_stages ≡ ok true
        → field_eq d (text "status") (str (text "satisfied")) ≡ true
        → Observation evidence ids

  observation :
      (ids : List Text)
      → any_of is_observed (entries_of evidence ids) ≡ ok true
      → Observation evidence ids
  observation ids h =
      let (d, i, o) = any_of_sound is_observed _ h in
      let (id, cited, found) = entries_of_sound evidence ids d i in
      let (seen, present) = is_observed_sound d o in
      record {
        id = id;
        cited = cited;
        entry = d;
        found = found;
        observed = seen;
        present = present;
      }

  satisfied_supported :
      (satisfied a b : Bool)
      → not (satisfied && a && b) ≡ true
      → satisfied ≡ true
      → (a && b) ≡ false
  satisfied_supported satisfied a b h e = ground arith

  physical_observed :
      (satisfied physical : Bool) (r : Result Bool) {b : Bool}
      → (if satisfied && physical then r else ok true) ≡ ok b
      → b ≡ true
      → satisfied ≡ true
      → physical ≡ true
      → r ≡ ok true
  physical_observed satisfied physical r h e s p = ground arith

  check_references_sound :
      (d : Fields) (status stage : Value) (ids : List Text) (paths : List Value) {u : Unit {0}}
      → check_references exists evidence d status stage ids paths ≡ ok u
      → ((id : Text) → In id ids → is_known evidence id ≡ true)
        × ((p : Value) → In p paths → validate_artifact_path exists p ≡ ok tt)
        × (value_eq status (str (text "satisfied")) ≡ true
            → (is_empty ids && is_empty paths) ≡ false)
        × (in_set stage physical_proof_stages ≡ ok true
            → value_eq status (str (text "satisfied")) ≡ true
            → Observation evidence ids)
  unfolding check_references
  check_references_sound d status stage ids paths h =
      let satisfied = value_eq status (str (text "satisfied")) in
      let a = >>-eq-ok (not (repeats ids)) _ _ h in
      let b = >>-eq-ok (all (is_known evidence) ids) _ _ a.1 in
      let c = >>=-eq-ok (for_each (validate_artifact_path exists) paths) _ b.1 in
      let e = >>-eq-ok (not (satisfied && is_empty ids && is_empty paths)) _ _ c.2 in
      let f = >>=-eq-ok (in_set stage physical_proof_stages) _ e.1 in
      let g =
        >>=-eq-ok
          (if satisfied && f.0 then any_of is_observed (entries_of evidence ids) else ok true) _
          f.2 in
      let k = >>-eq-ok g.0 _ _ g.2 in
      (
        all-In (is_known evidence) ids b.0,
        for_each_sound (validate_artifact_path exists) paths c.1,
        satisfied_supported satisfied _ _ e.0,
        λ physical s.
            observation ids
              (physical_observed satisfied f.0 _ g.1 k.0 s (ok-injective (sym f.1 ∙ physical))),
      )

  -- A criterion that passes is backed.
  validate_resolved_criterion-IsBacked :
      (c : Criterion) (d : Fields) {u : Unit {0}}
      → validate_resolved_criterion exists c d evidence ≡ ok u
      → IsBacked d
  unfolding validate_resolved_criterion
  validate_resolved_criterion-IsBacked c d h =
      let a = >>=-eq-ok (item d (text "status")) _ h in
      let b = >>=-eq-ok (in_set a.0 _) _ a.2 in
      let e = >>-eq-ok b.0 _ _ b.2 in
      let f = >>=-eq-ok (item d (text "proofStage")) _ e.1 in
      let g = >>=-eq-ok (in_set f.0 allowed_proof_stages) _ f.2 in
      let k = >>-eq-ok g.0 _ _ g.2 in backed a.0 f.0 a.1 f.1 _ _ refl refl k.1
    where
      backed :
          (status stage : Value)
          → item d (text "status") ≡ ok status
          → item d (text "proofStage") ≡ ok stage
          → (ids : Option (List Text)) (paths : Option (List Value))
          → string_list (some (get_or (text "evidenceIds") (list nil) d)) ≡ ids
          → array (get_or (text "artifactPaths") (list nil) d) ≡ paths
          → {v : Unit {0}}
          → elim ids as (λ _. Result (Unit {0})) [
            | none ↦ err (refused "invalid evidenceIds")
            | some xs ↦ elim paths as (λ _. Result (Unit {0})) [
              | none ↦ err (refused "invalid artifactPaths")
              | some ys ↦ check_references exists evidence d status stage xs ys
            ]
          ]
            ≡ ok v
          → IsBacked d
      backed status stage s t none paths i j e = cc
      backed status stage s t (some xs) none i j e = cc
      backed status stage s t (some xs) (some ys) i j e =
          let x = check_references_sound d status stage xs ys e in
          let same = item-field_eq d (text "status") status (str (text "satisfied")) s in
          record {
            ids = xs;
            paths = ys;
            cites = i;
            names = j;
            known = x.0;
            there_is = x.1;
            supported = λ f. x.2 (sym same ∙ f);
            physical = λ stage' t' p f.
                x.3 (ap (λ v. in_set v physical_proof_stages) (ok-injective (sym t ∙ t')) ∙ p)
                  (sym same ∙ f);
          }

  moved : (a r : Resolved) → a ≡ r → IsBacked a.fields → IsBacked r.fields
  moved a r e x = rw (← e) x

  resolve_item-IsBacked :
      (overrides : Fields) (default stop stage requirements : Value) (c : Criterion) {r : Resolved}
      → resolve_item exists overrides evidence default stop stage requirements c ≡ ok r
      → IsBacked r.fields
  unfolding resolve_item
  resolve_item-IsBacked overrides default stop stage requirements c h =
      let a = >>=-eq-ok (object_or _ _) _ h in
      let b = >>-eq-ok _ _ _ a.2 in
      let e = >>=-eq-ok (validate_resolved_criterion exists c _ evidence) _ b.1 in
      moved _ _ (ok-injective e.2) (validate_resolved_criterion-IsBacked c _ e.1)

  -- Each criterion that `resolve_group` returns is backed.
  pub resolve_group-IsBacked :
      (catalog : List Criterion) (group : Text) (state : Fields) (known : List Text) (stop : Value)
      {rs : List Resolved}
      → resolve_group exists catalog group state evidence known stop ≡ ok rs
      → (r : Resolved) → In r rs
      → IsBacked r.fields
  unfolding resolve_group
  resolve_group-IsBacked catalog group state known stop h r i =
      let a = >>=-eq-ok (object_or _ _) _ h in
      let b = >>-eq-ok _ _ _ a.2 in
      let c = >>=-eq-ok (in_set (got (text "defaultProofStage") state) _) _ b.1 in
      let d = >>-eq-ok c.0 _ _ c.2 in
      let e = >>=-eq-ok (in_set (got (text "defaultStatus") state) _) _ d.1 in
      let f = >>-eq-ok e.0 _ _ e.2 in
      let g = >>=-eq-ok (validate_requirement_ids _ known) _ f.1 in
      let x = collect_sound _ _ g.2 r i in resolve_item-IsBacked _ _ _ _ _ x.0 x.2
