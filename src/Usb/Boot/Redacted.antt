-- ===== src/Usb/Boot/Redacted.antt =====
-- What a capture writes of the installation key.
use dm_d5102q_rs485_bridge.Prelude.{
  map, In-snoc, text, ◌≡◌, refl, sym, ap, ◌∙◌, ℕ, Text, text_eq, Bool, Bool-cases, inl, inr, ◌⊎◌,
  true, false, ◌&&◌, Option, none, some, some-injective, List, [], ◌∷◌, ◌++◌, In, ◌==◌, any, drop,
  length, and-eq-true, if◌then◌else◌, arith,
}
use dm_d5102q_rs485_bridge.Exec.{Err, ok, err, refused, >>=-eq-ok, >>-eq-ok, ok-injective}
use dm_d5102q_rs485_bridge.Patterns.{starts_with, contains, is_installation_key}
use dm_d5102q_rs485_bridge.Usb.Boot.{
  Log, Capture, Report, marker, key_prefix, redaction, match_key, announce, write_redacted,
  keep_key, complete, classify_boot_line, handle_line, handle_lines, no_log, no_capture, feed_all,
  has_line, is_some_text, accept_boot, capture_boot, strip_line_end, error_markers,
}
use dm_d5102q_rs485_bridge.Usb.Boot.Markers.{
  IsUnmarked, safe_line, handle_lines-redacted, handle_lines-IsUnmarked,
}
use dm_d5102q_rs485_bridge.Usb.Boot.Chunks.{joined, feed_all-After}

-- A line of the redacted log is the redaction, or does not name the key.
abbrev pub Safe : Text → Type 0
Safe l = (l ≡ redaction) ⊎ (contains marker l ≡ false)

-- The credentials that are written are the key that is kept, once.
pub data Kept : Option Text → List Text → Type 0 where
  nothing : Kept none []
  once : {k : Text} → is_installation_key k ≡ true → Kept (some k) (k ∷ [])

pub record IsClean (log : Log) : Type 0 where
  pub lines : (l : Text) → In l log.redacted → Safe l
  pub kept : Kept log.key log.credentials

match_key_sound : (t k : Text) → match_key t ≡ some k → is_installation_key k ≡ true
unfolding match_key
match_key_sound t k h =
    elim (Bool-cases
      (starts_with t key_prefix && is_installation_key (drop (length key_prefix) t))) [
        | inl e ↦ ap is_installation_key (sym (some-injective (rw e at h))) ∙ (and-eq-true _ _ e).1
        | inr e ↦ absurd (none_some (rw e at h))
      ]
  where
    none_some : none ≡ some k → ⊥
    none_some e = cc

announce-IsClean : (safe : Text) (log : Log) → IsClean log → IsClean (announce safe log)
unfolding announce
announce-IsClean safe log x = elim (Bool-cases (starts_with safe (text "AP_SSID="))) [
  | inl e ↦ rw e (record { lines = x.lines; kept = x.kept })
  | inr e ↦ elim (Bool-cases (starts_with safe (text "AP_URL="))) [
    | inl f ↦ rw (e, f) (record { lines = x.lines; kept = x.kept })
    | inr f ↦ elim (Bool-cases (any (λ m. contains m safe) error_markers)) [
      | inl g ↦ rw (e, f, g) (record { lines = x.lines; kept = x.kept })
      | inr g ↦ rw (e, f, g) x
    ]
  ]
]

write_redacted-IsClean :
    (safe : Text) (log : Log) → Safe safe → IsClean log → IsClean (write_redacted safe log)
unfolding write_redacted
write_redacted-IsClean safe log s x = record {
  lines = λ l i. elim (In-snoc l log.redacted safe i) [ inl j ↦ x.lines l j | inr e ↦ rw e s ];
  kept = x.kept;
}

Kept-none : {o : Option Text} {cs : List Text} → Kept o cs → o ≡ none → cs ≡ []
Kept-none nothing e = refl
Kept-none (once h) e = cc

keep_key-IsClean :
    (candidate : Option Text) (log : Log) {after : Log}
    → ((k : Text) → candidate ≡ some k → is_installation_key k ≡ true)
    → IsClean log
    → keep_key candidate log ≡ ok after
    → IsClean after
unfolding keep_key
keep_key-IsClean none log k x h = rw (← ok-injective h) x
keep_key-IsClean (some c) log {after} k x h = go log.key refl h
  where
    accepted : (b : Bool) (e : Err) → (if b then ok log else err e) ≡ ok after → IsClean after
    accepted true e h = rw (← ok-injective h) x
    accepted false e h = cc

    go :
        (o : Option Text)
        → log.key ≡ o
        → elim o [
          | some key ↦
              if text_eq c key
              then ok log
              else err (refused "Multiple different installation keys in one boot")
          | none ↦ ok (record {
            key = some c;
            ap_ssid = log.ap_ssid;
            ap_url = log.ap_url;
            errors = log.errors;
            redacted = log.redacted;
            credentials = log.credentials ++ (c ∷ []);
          })
        ]
          ≡ ok after
        → IsClean after
    go (some key) e h = accepted (text_eq c key) _ h
    go none e h =
        rw (← ok-injective h)
          (record { lines = x.lines; kept = rw (Kept-none x.kept e) (once (k c refl)) })

module _ (decode : Text → Text) where
  classified :
      (raw : Text)
      → Safe (classify_boot_line decode raw).0
        × ((k : Text) → (classify_boot_line decode raw).1 ≡ some k → is_installation_key k ≡ true)
  unfolding classify_boot_line
  classified raw =
      let line = strip_line_end (decode raw) in
      elim (Bool-cases (contains marker line)) [
        | inl e ↦ rw e (inl refl, match_key_sound line)
        | inr e ↦ rw e (inr e, λ k h. absurd (none_some h))
      ]
    where
      none_some : {k : Text} → none ≡ some k → ⊥
      none_some e = cc

  handle_line-IsClean :
      (log : Log) (line : Text) {after : Log}
      → IsClean log
      → handle_line decode log line ≡ ok after
      → IsClean after
  unfolding handle_line
  handle_line-IsClean log line x h =
      let a = >>=-eq-ok (keep_key (classify_boot_line decode line).1 log) _ h in
      let c = classified line in
      rw (← ok-injective a.2)
        (announce-IsClean _ _ (write_redacted-IsClean _ a.0 c.0 (keep_key-IsClean _ log c.1 x a.1)))

  handle_lines-IsClean :
      (log : Log) (lines : List Text) {after : Log}
      → IsClean log
      → handle_lines decode log lines ≡ ok after
      → IsClean after
  unfolding handle_lines
  handle_lines-IsClean log [] x h = rw (← ok-injective h) x
  handle_lines-IsClean log (l ∷ ls) x h =
      let a = >>=-eq-ok (handle_line decode log l) _ h in
      handle_lines-IsClean a.0 ls (handle_line-IsClean log l x a.1) a.2

-- What an accepted capture has kept
pub record IsPrivate (decode : Text → Text) (chunks : List Text) (c : Capture) : Type 0 where
  pub redacted_is : c.log.redacted ≡ map (safe_line decode) (complete (joined chunks))
  pub lines : (l : Text) → In l c.log.redacted → Safe l
  pub key : Text
  pub well_formed : is_installation_key key ≡ true
  pub key_is : c.log.key ≡ some key
  pub written_once : c.log.credentials ≡ key ∷ []
  pub unmarked : (l : Text) → In l c.log.redacted → IsUnmarked l

Kept-text :
    {o : Option Text} {cs : List Text}
    → Kept o cs
    → is_some_text o ≡ true
    → (k : Text) × (is_installation_key k ≡ true) × (o ≡ some k) × (cs ≡ k ∷ [])
unfolding is_some_text
Kept-text nothing h = cc
Kept-text (once {k} w) h = (k, w, refl, refl)

-- An accepted first boot has a key of 20 characters of the key alphabet, which is written to the
-- credentials once and nothing else is. Its redacted log is the classified lines of the stream in
-- order: each is the redaction or does not contain INSTALL_KEY_ONCE, and each that starts with
-- neither AP_SSID= nor AP_URL= contains none of the error markers.
pub capture_boot-IsPrivate :
    (decode : Text → Text) (chunks : List Text) {c : Capture} {r : Report}
    → capture_boot decode chunks ≡ ok (c, r)
    → IsPrivate decode chunks c
unfolding capture_boot no_capture no_log has_line accept_boot
capture_boot-IsPrivate decode chunks {c} {r} h =
    let a = >>=-eq-ok (feed_all decode no_capture chunks) _ h in
    let b = >>=-eq-ok (accept_boot a.0) _ a.2 in
    let x = feed_all-After decode no_capture chunks refl a.1 in
    let clean =
      handle_lines-IsClean decode no_log (complete (joined chunks))
        (record { lines = λ l i. elim i [ ]; kept = nothing }) x.log_is in
    let redacted_is = handle_lines-redacted decode no_log (complete (joined chunks)) x.log_is in
    let tests = >>-eq-ok _ _ _ b.1 in
    let three = and-eq-true _ _ tests.0 in
    let two = and-eq-true _ _ three.0 in
    let one = and-eq-true _ _ two.0 in
    let (k, w, key_is, credentials) = Kept-text clean.kept one.0 in
    private_of _ c (ap (λ (p : Capture × Report). p.0) (ok-injective b.2)) (record {
      lines = clean.lines;
      key = k;
      well_formed = w;
      key_is = key_is;
      written_once = credentials;
      redacted_is = redacted_is;
      unmarked = λ l i.
          (handle_lines-IsUnmarked decode no_log (complete (joined chunks)) x.log_is
              (equal _ _ three.1)).1
            l (rw redacted_is at i);
    })
  where
    equal : (m n : ℕ) → (m == n) ≡ true → m ≡ n
    equal m n h = ground arith

    private_of : (a c : Capture) → a ≡ c → IsPrivate decode chunks a → IsPrivate decode chunks c
    private_of a c e x = rw (← e) x
