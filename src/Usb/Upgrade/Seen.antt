-- ===== src/Usb/Upgrade/Seen.antt =====
-- What an accepted upgrade has said.
use dm_d5102q_rs485_bridge.Prelude.{
  In, ◌&&◌, ◌==◌, arith, Bool, ℕ, any, true, ◌≡◌, refl, sym, ap, ◌∙◌, ◌+◌, ◌*◌, Text, Bool-cases,
  inl, inr, false, Option, none, some, List, [], ◌∷◌, ◌++◌, ltb, length, map,
}
use dm_d5102q_rs485_bridge.Exec.{Err}
use dm_d5102q_rs485_bridge.Usb.Boot.{complete, remainder, has_line}
use dm_d5102q_rs485_bridge.Usb.Boot.Lines.{
  append_assoc, append_nil, complete_without_line, remainder_without_line, complete-append,
  remainder-append, has_line-remainder,
}
use dm_d5102q_rs485_bridge.Usb.Boot.Chunks.{joined}
use dm_d5102q_rs485_bridge.Usb.Upgrade.{new_boot_state, boot_accepted, Kind}
use dm_d5102q_rs485_bridge.Usb.Upgrade.Kinds.{
  is_bad, is_reuse, is_unarmed, count_builds, noted, noted-append, noted_clean, noted_builds,
  noted_reuse, noted_unarmed,
}
use dm_d5102q_rs485_bridge.Usb.Upgrade.Capture.{
  new_capture, capture_upgrade, judge, observe_rest, UpgradeCapture, line_kind, observe_line,
  observe_lines, boot_metadata, feed, feed_all,
}

-- The lines of a whole stream; what stands behind the last line end is one too.
abbrev leftover : Text → List Text
leftover [] = []
leftover (c ∷ s) = (c ∷ s) ∷ []

unfoldable pub all_lines : Text → List Text
all_lines t = complete t ++ leftover (remainder t)

map-append : {A B : Type 0} (f : A → B) (xs ys : List A) → map f (xs ++ ys) ≡ map f xs ++ map f ys
map-append f [] ys = refl
map-append f (x ∷ xs) ys = ap (λ t. f x ∷ t) (map-append f xs ys)

judged : (c : UpgradeCapture) → (judge c).1 ≡ none → boot_accepted c.state ≡ true
unfolding judge
judged c h = elim (Bool-cases (boot_accepted c.state)) [
  | inl e ↦ e
  | inr e ↦ absurd (some_none (rw e at h))
]
  where
    some_none : {e : Err} → some e ≡ none → ⊥
    some_none e = cc

module _ (decode : Text → Text) where
  unfoldable pub kinds : List Text → List Kind
  kinds ls = map (line_kind decode) ls

  observed :
      (ls : List Text) (c : UpgradeCapture)
      → ((observe_lines decode ls c).state ≡ noted (kinds ls) c.state)
        × ((observe_lines decode ls c).buffered ≡ c.buffered)
  unfolding observe_lines observe_line boot_metadata noted kinds
  observed [] c = (refl, refl)
  observed (l ∷ ls) c = let x = observed ls (observe_line decode l c) in (x.0, x.1)

  -- What a capture has after the stream `t`
  record After (c : UpgradeCapture) (t : Text) (d : UpgradeCapture) : Type 0 where
    state_is : d.state ≡ noted (kinds (complete (c.buffered ++ t))) c.state
    buffered_is : d.buffered ≡ remainder (c.buffered ++ t)

  fed-After :
      (c : UpgradeCapture) (chunk : Text)
      → (feed decode c chunk).1 ≡ none
      → After c chunk (feed decode c chunk).0
  unfolding feed
  fed-After c chunk h = elim (Bool-cases (ltb (1024 * 1024) (c.count + length chunk))) [
    | inl e ↦ absurd (some_none (rw e at h))
    | inr e ↦ elim (Bool-cases (ltb 8192 (length (c.buffered ++ chunk)))) [
      | inl f ↦ absurd (some_none (rw (e, f) at h))
      | inr f ↦
          rw (e, f)
            (let x = observed (complete (c.buffered ++ chunk)) (record c {
              count = c.count + length chunk;
              raw = c.raw ++ chunk;
              buffered = remainder (c.buffered ++ chunk);
            }) in
              record { state_is = x.0; buffered_is = x.1 })
    ]
  ]
    where
      some_none : {e : Err} → some e ≡ none → ⊥
      some_none e = cc

  composed :
      (c : UpgradeCapture) (s t : Text) {d e : UpgradeCapture}
      → After c s d
      → After d t e
      → After c (s ++ t) e
  unfolding kinds
  composed c s t {d} {e} x y = record {
    state_is =
        y.state_is
        ∙ ap (λ b. noted (kinds (complete (b ++ t))) d.state) x.buffered_is
        ∙ ap (noted (kinds (complete (remainder (c.buffered ++ s) ++ t)))) x.state_is
        ∙ sym (noted-append (kinds (complete (c.buffered ++ s))) _ c.state)
        ∙ ap (λ ks. noted ks c.state)
            (sym (map-append (line_kind decode) (complete (c.buffered ++ s)) _))
        ∙ ap (λ ls. noted (kinds ls) c.state) (sym (complete-append (c.buffered ++ s) t))
        ∙ ap (λ b. noted (kinds (complete b)) c.state) (append_assoc c.buffered s t);
    buffered_is =
        y.buffered_is
        ∙ ap (λ r. remainder (r ++ t)) x.buffered_is
        ∙ sym (remainder-append (c.buffered ++ s) t)
        ∙ ap remainder (append_assoc c.buffered s t);
  }

  feed_all-After :
      (c : UpgradeCapture) (chunks : List Text)
      → has_line c.buffered ≡ false
      → (feed_all decode c chunks).1 ≡ none
      → After c (joined chunks) (feed_all decode c chunks).0
  unfolding feed_all joined noted kinds
  feed_all-After c [] h k = record {
    state_is =
        ap (λ ls. noted (kinds ls) c.state)
          (sym (ap complete (append_nil c.buffered) ∙ complete_without_line c.buffered h));
    buffered_is =
        sym (remainder_without_line c.buffered h) ∙ ap remainder (sym (append_nil c.buffered));
  }
  feed_all-After c (chunk ∷ chunks) h k =
      go (feed decode c chunk).1 refl k (feed_all-After (feed decode c chunk).0 chunks)
    where
      go :
          (o : Option Err)
          → (feed decode c chunk).1 ≡ o
          → (elim o as (λ _. UpgradeCapture × Option Err) [
            | none ↦ feed_all decode (feed decode c chunk).0 chunks
            | some e ↦ ((feed decode c chunk).0, some e)
          ]).1
            ≡ none
          → (has_line (feed decode c chunk).0.buffered ≡ false
              → (feed_all decode (feed decode c chunk).0 chunks).1 ≡ none
              → After
                  (feed decode c chunk).0
                  (joined chunks)
                  (feed_all decode (feed decode c chunk).0 chunks).0)
          → After c
              (chunk ++ joined chunks)
              (elim o as (λ _. UpgradeCapture × Option Err) [
                | none ↦ feed_all decode (feed decode c chunk).0 chunks
                | some e ↦ ((feed decode c chunk).0, some e)
              ]).0
      go none e k rest =
          let x = fed-After c chunk e in
          composed c chunk (joined chunks) x
            (rest (ap has_line x.buffered_is ∙ has_line-remainder (c.buffered ++ chunk)) k)
      go (some f) e k rest = cc

  rest_state :
      (c : UpgradeCapture)
      → (observe_rest decode c).state ≡ noted (kinds (leftover c.buffered)) c.state
  unfolding observe_rest observe_line boot_metadata noted kinds
  rest_state c = go c.buffered
    where
      go :
          (b : Text)
          → (elim b as (λ _. UpgradeCapture) [
            | [] ↦ c
            | y ∷ s ↦ observe_line decode (y ∷ s) c
          ]).state
            ≡ noted (kinds (leftover b)) c.state
      go [] = refl
      go (y ∷ s) = refl

  -- All that the device has said, line by line
  pub record HasBooted (ks : List Kind) : Type 0 where
    pub one_build : count_builds ks ≡ 1
    pub key_reused : any is_reuse ks ≡ true
    pub reset_unarmed : any is_unarmed ks ≡ true
    pub nothing_bad : (k : Kind) → In k ks → is_bad k ≡ false

  accepted-HasBooted :
      (ks : List Kind) → boot_accepted (noted ks new_boot_state) ≡ true → HasBooted ks
  unfolding boot_accepted new_boot_state
  accepted-HasBooted ks h =
      let s = noted ks new_boot_state in
      let (builds, reused, unarmed, clean) = tests _ _ _ _ _ _ _ h in
      record {
        one_build = from_zero _ (sym (noted_builds ks new_boot_state) ∙ builds);
        key_reused = noted_reuse ks new_boot_state reused;
        reset_unarmed = noted_unarmed ks new_boot_state unarmed;
        nothing_bad = (noted_clean ks new_boot_state clean).1;
      }
    where
      from_zero : (n : ℕ) → 0 + n ≡ 1 → n ≡ 1
      from_zero n h = omega (arith, h)

      tests :
          (n : ℕ) (a b c d e f : Bool)
          → (n == 1 && a && b && c && d && e && f) ≡ true
          → (n ≡ 1) × (a ≡ true) × (b ≡ true) × ((c && d && e) ≡ true)
      tests n a b c d e f h = (ground arith, ground arith, ground arith, ground arith)

  -- Where the capture of an upgrade is accepted, then of the lines of the whole stream, the one
  -- without a line end included, exactly one is the marker of the new build, at least one says that
  -- the key was reused, at least one that no reset was armed, and none makes a key, has a reset
  -- marker, an invalid address or a boot error.
  pub capture_upgrade-HasBooted :
      (chunks : List Text)
      → (capture_upgrade decode chunks).1 ≡ none
      → HasBooted (kinds (all_lines (joined chunks)))
  unfolding capture_upgrade new_capture has_line kinds all_lines
  capture_upgrade-HasBooted chunks h = go (feed_all decode new_capture chunks).1 refl h
    where
      go :
          (o : Option Err)
          → (feed_all decode new_capture chunks).1 ≡ o
          → (elim o as (λ _. UpgradeCapture × Option Err) [
            | none ↦ judge (observe_rest decode (feed_all decode new_capture chunks).0)
            | some e ↦ ((feed_all decode new_capture chunks).0, some e)
          ]).1
            ≡ none
          → HasBooted (kinds (all_lines (joined chunks)))
      go (some e) f h = cc
      go none f h =
          let x = feed_all-After new_capture chunks refl f in
          let t = joined chunks in
          let state =
            rest_state (feed_all decode new_capture chunks).0
            ∙ ap (λ b. noted (kinds (leftover b)) (feed_all decode new_capture chunks).0.state)
                x.buffered_is
            ∙ ap (noted (kinds (leftover (remainder t)))) x.state_is
            ∙ sym (noted-append (kinds (complete t)) _ new_boot_state)
            ∙ ap (λ ks. noted ks new_boot_state)
                (sym (map-append (line_kind decode) (complete t) (leftover (remainder t)))) in
          accepted-HasBooted _ (ap boot_accepted (sym state) ∙ judged _ h)
