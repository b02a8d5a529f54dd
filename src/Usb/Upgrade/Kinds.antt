-- ===== src/Usb/Upgrade/Kinds.antt =====
-- What the lines of a boot leave in its state.
use dm_d5102q_rs485_bridge.Prelude.{
  ◌≡◌, refl, ap, ◌∙◌, ℕ, suc, ◌+◌, Bool, true, false, not, ◌&&◌, ◌||◌, List, [], ◌∷◌, ◌++◌, In,
  first_or_later, if◌then◌else◌, ◌==◌, any, arith,
}
use dm_d5102q_rs485_bridge.Usb.Upgrade.{
  Kind, key_creation, build_marker, key_reuse, reset_unarmed, reset_armed, sta_attempt,
  ssid_announced, url_announced, sta_address, invalid_sta_address, mdns_announced, core_dump,
  boot_error, unclassified, BootState, note_kind,
}

-- Whether a kind of line is a failure of the boot
unfoldable pub is_bad : Kind → Bool
is_bad key_creation = true
is_bad build_marker = false
is_bad key_reuse = false
is_bad reset_unarmed = false
is_bad reset_armed = true
is_bad sta_attempt = false
is_bad ssid_announced = false
is_bad url_announced = false
is_bad (sta_address a) = false
is_bad invalid_sta_address = true
is_bad mdns_announced = false
is_bad core_dump = false
is_bad boot_error = true
is_bad unclassified = false

unfoldable pub is_build : Kind → Bool
is_build Kind.build_marker = true
is_build _ = false

unfoldable pub is_reuse : Kind → Bool
is_reuse Kind.key_reuse = true
is_reuse _ = false

unfoldable pub is_unarmed : Kind → Bool
is_unarmed Kind.reset_unarmed = true
is_unarmed _ = false

unfoldable pub count_builds : List Kind → ℕ
count_builds [] = 0
count_builds (k ∷ ks) = let rest = count_builds ks in if is_build k then suc rest else rest

unfoldable pub noted : List Kind → BootState → BootState
noted [] s = s
noted (k ∷ ks) s = noted ks (note_kind k s)

pub noted-append : (xs ys : List Kind) (s : BootState) → noted (xs ++ ys) s ≡ noted ys (noted xs s)
unfolding noted
noted-append [] ys s = refl
noted-append (x ∷ xs) ys s = noted-append xs ys (note_kind x s)

abbrev pub is_clean : BootState → Bool
is_clean s = not s.unexpected_key_creation && not s.unexpected_reset && s.errors == 0

note_kind_clean :
    (k : Kind) (s : BootState)
    → is_clean (note_kind k s) ≡ true
    → (is_clean s ≡ true) × (is_bad k ≡ false)
unfolding note_kind is_bad
note_kind_clean key_creation s h = ground arith
note_kind_clean build_marker s h = (h, refl)
note_kind_clean key_reuse s h = (h, refl)
note_kind_clean reset_unarmed s h = (h, refl)
note_kind_clean reset_armed s h = ground arith
note_kind_clean sta_attempt s h = (h, refl)
note_kind_clean ssid_announced s h = (h, refl)
note_kind_clean url_announced s h = (h, refl)
note_kind_clean (sta_address a) s h = (h, refl)
note_kind_clean invalid_sta_address s h = ground arith
note_kind_clean mdns_announced s h = (h, refl)
note_kind_clean core_dump s h = (h, refl)
note_kind_clean boot_error s h = ground arith
note_kind_clean unclassified s h = (h, refl)

pub noted_clean :
    (ks : List Kind) (s : BootState)
    → is_clean (noted ks s) ≡ true
    → (is_clean s ≡ true) × ((k : Kind) → In k ks → is_bad k ≡ false)
unfolding noted
noted_clean [] s h = (h, λ k i. elim i [ ])
noted_clean (x ∷ ks) s h =
    let rest = noted_clean ks (note_kind x s) h in
    let first = note_kind_clean x s rest.0 in
    (first.0, λ k i. first_or_later (λ y. is_bad y ≡ false) first.1 rest.1 i)

note_kind_builds :
    (k : Kind) (s : BootState)
    → (note_kind k s).build_markers ≡ (if is_build k then suc s.build_markers else s.build_markers)
unfolding note_kind is_build
note_kind_builds key_creation s = refl
note_kind_builds build_marker s = refl
note_kind_builds key_reuse s = refl
note_kind_builds reset_unarmed s = refl
note_kind_builds reset_armed s = refl
note_kind_builds sta_attempt s = refl
note_kind_builds ssid_announced s = refl
note_kind_builds url_announced s = refl
note_kind_builds (sta_address a) s = refl
note_kind_builds invalid_sta_address s = refl
note_kind_builds mdns_announced s = refl
note_kind_builds core_dump s = refl
note_kind_builds boot_error s = refl
note_kind_builds unclassified s = refl

pub noted_builds :
    (ks : List Kind) (s : BootState)
    → (noted ks s).build_markers ≡ s.build_markers + count_builds ks
unfolding noted count_builds
noted_builds [] s = omega arith
noted_builds (k ∷ ks) s =
    noted_builds ks (note_kind k s)
    ∙ ap (λ n. n + count_builds ks) (note_kind_builds k s)
    ∙ shift (is_build k) s.build_markers (count_builds ks)
  where
    shift : (b : Bool) (m n : ℕ) → (if b then suc m else m) + n ≡ m + (if b then suc n else n)
    shift b m n = ground arith

note_kind_reuse :
    (k : Kind) (s : BootState)
    → (note_kind k s).key_reused ≡ true
    → (s.key_reused || is_reuse k) ≡ true
unfolding note_kind is_reuse
note_kind_reuse key_creation s h = ground arith
note_kind_reuse build_marker s h = ground arith
note_kind_reuse key_reuse s h = ground arith
note_kind_reuse reset_unarmed s h = ground arith
note_kind_reuse reset_armed s h = ground arith
note_kind_reuse sta_attempt s h = ground arith
note_kind_reuse ssid_announced s h = ground arith
note_kind_reuse url_announced s h = ground arith
note_kind_reuse (sta_address a) s h = ground arith
note_kind_reuse invalid_sta_address s h = ground arith
note_kind_reuse mdns_announced s h = ground arith
note_kind_reuse core_dump s h = ground arith
note_kind_reuse boot_error s h = ground arith
note_kind_reuse unclassified s h = ground arith

note_kind_unarmed :
    (k : Kind) (s : BootState)
    → (note_kind k s).reset_not_armed ≡ true
    → (s.reset_not_armed || is_unarmed k) ≡ true
unfolding note_kind is_unarmed
note_kind_unarmed key_creation s h = ground arith
note_kind_unarmed build_marker s h = ground arith
note_kind_unarmed key_reuse s h = ground arith
note_kind_unarmed reset_unarmed s h = ground arith
note_kind_unarmed reset_armed s h = ground arith
note_kind_unarmed sta_attempt s h = ground arith
note_kind_unarmed ssid_announced s h = ground arith
note_kind_unarmed url_announced s h = ground arith
note_kind_unarmed (sta_address a) s h = ground arith
note_kind_unarmed invalid_sta_address s h = ground arith
note_kind_unarmed mdns_announced s h = ground arith
note_kind_unarmed core_dump s h = ground arith
note_kind_unarmed boot_error s h = ground arith
note_kind_unarmed unclassified s h = ground arith

either : (a b c d : Bool) → (a || b) ≡ true → (a ≡ true → (c || d) ≡ true) → (c || (d || b)) ≡ true
either a b c d h f = ground arith

pub noted_reuse :
    (ks : List Kind) (s : BootState)
    → (noted ks s).key_reused ≡ true
    → (s.key_reused || any is_reuse ks) ≡ true
unfolding noted any
noted_reuse [] s h = ground arith
noted_reuse (k ∷ ks) s h =
    either _ _ s.key_reused (is_reuse k) (noted_reuse ks (note_kind k s) h) (note_kind_reuse k s)

pub noted_unarmed :
    (ks : List Kind) (s : BootState)
    → (noted ks s).reset_not_armed ≡ true
    → (s.reset_not_armed || any is_unarmed ks) ≡ true
unfolding noted any
noted_unarmed [] s h = ground arith
noted_unarmed (k ∷ ks) s h =
    either _ _ s.reset_not_armed (is_unarmed k) (noted_unarmed ks (note_kind k s) h)
      (note_kind_unarmed k s)
