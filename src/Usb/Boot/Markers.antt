-- ===== src/Usb/Boot/Markers.antt =====
-- What the lines of a first boot leave in the redacted log and in the count of the errors.
use dm_d5102q_rs485_bridge.Prelude.{
  refl, ◌≡◌, sym, ◌∙◌, ap, ℕ, suc, Text, text, text_eq, Bool, Bool-cases, inl, inr, true, false,
  Option, none, some, List, [], ◌∷◌, ◌++◌, In, first_or_later, any, map, ◌||◌, arith, if◌then◌else◌,
}
use dm_d5102q_rs485_bridge.Usb.Boot.Lines.{append_assoc, append_nil}
use dm_d5102q_rs485_bridge.Exec.{Err, ok, err, refused, >>=-eq-ok, ok-injective}
use dm_d5102q_rs485_bridge.Patterns.{starts_with, contains}
use dm_d5102q_rs485_bridge.Usb.Boot.{
  Log, announce, write_redacted, keep_key, classify_boot_line, handle_line, handle_lines,
  error_markers,
}

-- A line that announces neither the name nor the address of the access point has no error marker.
abbrev pub IsUnmarked : Text → Type 0
IsUnmarked l =
    (m : Text)
    → In m error_markers
    → starts_with l (text "AP_SSID=") ≡ false
    → starts_with l (text "AP_URL=") ≡ false
    → contains m l ≡ false

any-In : (p : Text → Bool) (xs : List Text) → any p xs ≡ false → (x : Text) → In x xs → p x ≡ false
unfolding any
any-In p [] h x i = elim i [ ]
any-In p (y ∷ ys) h x i =
    first_or_later (λ z. p z ≡ false) (or_first _ _ h) (any-In p ys (or_second _ _ h)) i
  where
    or_first : (a b : Bool) → (a || b) ≡ false → a ≡ false
    or_first a b h = ground arith

    or_second : (a b : Bool) → (a || b) ≡ false → b ≡ false
    or_second a b h = ground arith

announce-redacted : (safe : Text) (log : Log) → (announce safe log).redacted ≡ log.redacted
unfolding announce
announce-redacted safe log = elim (Bool-cases (starts_with safe (text "AP_SSID="))) [
  | inl e ↦ rw e refl
  | inr e ↦ elim (Bool-cases (starts_with safe (text "AP_URL="))) [
    | inl f ↦ rw (e, f) refl
    | inr f ↦ elim (Bool-cases (any (λ m. contains m safe) error_markers)) [
      | inl g ↦ rw (e, f, g) refl
      | inr g ↦ rw (e, f, g) refl
    ]
  ]
]

true_false : {A : Type 0} → true ≡ false → A
true_false e = absurd (cc)

suc_zero : {A : Type 0} {n : ℕ} → suc n ≡ 0 → A
suc_zero e = absurd (omega (arith, e))

announce-IsUnmarked :
    (safe : Text) (log : Log) → (announce safe log).errors ≡ 0 → (log.errors ≡ 0) × IsUnmarked safe
unfolding announce
announce-IsUnmarked safe log h = elim (Bool-cases (starts_with safe (text "AP_SSID="))) [
  | inl e ↦ (rw e at h, λ m i x y. true_false (sym e ∙ x))
  | inr e ↦ elim (Bool-cases (starts_with safe (text "AP_URL="))) [
    | inl f ↦ (rw (e, f) at h, λ m i x y. true_false (sym f ∙ y))
    | inr f ↦ elim (Bool-cases (any (λ m. contains m safe) error_markers)) [
      | inl g ↦ suc_zero (rw (e, f, g) at h)
      | inr g ↦ (rw (e, f, g) at h, λ m i x y. any-In (λ m. contains m safe) error_markers g m i)
    ]
  ]
]

-- A key changes neither.
keep_key_lem :
    (candidate : Option Text) (log : Log) {after : Log}
    → keep_key candidate log ≡ ok after
    → (after.redacted ≡ log.redacted) × (after.errors ≡ log.errors)
unfolding keep_key
keep_key_lem none log h = rw (← ok-injective h) (refl, refl)
keep_key_lem (some c) log {after} h = go log.key h
  where
    accepted :
        (b : Bool) (e : Err)
        → (if b then ok log else err e) ≡ ok after
        → (after.redacted ≡ log.redacted) × (after.errors ≡ log.errors)
    accepted true e h = rw (← ok-injective h) (refl, refl)
    accepted false e h = cc

    go :
        (o : Option Text)
        → elim o [
          | some key ↦
              if text_eq c key
              then ok log
              else err (refused "Multiple different installation keys in one boot")
          | none ↦ ok (record {
            key = some c;
            ap_ssid = log.ap_ssid;
            ap_url = log.ap_url;
            errors = log.errors;
            redacted = log.redacted;
            credentials = log.credentials ++ (c ∷ []);
          })
        ]
          ≡ ok after
        → (after.redacted ≡ log.redacted) × (after.errors ≡ log.errors)
    go (some key) h = accepted (text_eq c key) _ h
    go none h = rw (← ok-injective h) (refl, refl)

module _ (decode : Text → Text) where
  abbrev pub safe_line : Text → Text
  safe_line line = (classify_boot_line decode line).0

  handle_line_lem :
      (log : Log) (line : Text) {after : Log}
      → handle_line decode log line ≡ ok after
      → (after.redacted ≡ log.redacted ++ (safe_line line ∷ []))
        × (after.errors ≡ 0 → (log.errors ≡ 0) × IsUnmarked (safe_line line))
  unfolding handle_line write_redacted
  handle_line_lem log line h =
      let a = >>=-eq-ok (keep_key (classify_boot_line decode line).1 log) _ h in
      let (same, count) = keep_key_lem _ log a.1 in
      rw (← ok-injective a.2) (
        announce-redacted _ _ ∙ ap (λ r. r ++ (safe_line line ∷ [])) same,
        λ z. let x = announce-IsUnmarked _ _ z in (sym count ∙ x.0, x.1),
      )

  -- The log holds what is said of each line, in order.
  pub handle_lines-redacted :
      (log : Log) (lines : List Text) {after : Log}
      → handle_lines decode log lines ≡ ok after
      → after.redacted ≡ log.redacted ++ map safe_line lines
  unfolding handle_lines
  handle_lines-redacted log [] h = rw (← ok-injective h) (sym (append_nil log.redacted))
  handle_lines-redacted log (l ∷ ls) h =
      let a = >>=-eq-ok (handle_line decode log l) _ h in
      let x = handle_line_lem log l a.1 in
      handle_lines-redacted a.0 ls a.2
      ∙ ap (λ r. r ++ map safe_line ls) x.0
      ∙ append_assoc log.redacted (safe_line l ∷ []) (map safe_line ls)

  -- Where no error is counted, no line has a marker.
  pub handle_lines-IsUnmarked :
      (log : Log) (lines : List Text) {after : Log}
      → handle_lines decode log lines ≡ ok after
      → after.errors ≡ 0
      → (log.errors ≡ 0) × ((l : Text) → In l (map safe_line lines) → IsUnmarked l)
  unfolding handle_lines
  handle_lines-IsUnmarked log [] h z =
      (ap (λ (l : Log). l.errors) (ok-injective h) ∙ z, λ l i. elim i [ ])
  handle_lines-IsUnmarked log (l ∷ ls) h z =
      let a = >>=-eq-ok (handle_line decode log l) _ h in
      let x = handle_lines-IsUnmarked a.0 ls a.2 z in
      let y = (handle_line_lem log l a.1).1 x.0 in (y.0, λ t i. first_or_later IsUnmarked y.1 x.1 i)
