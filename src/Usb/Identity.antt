-- ===== src/Usb/Identity.antt =====
-- The port that `identify` returns.
use dm_d5102q_rs485_bridge.Prelude.{
  ◌≡◌, refl, sym, ap, ◌∙◌, Text, text, Bool-cases, inl, inr, true, List, [], ◌∷◌, In, here, there,
  first_or_later,
}
use dm_d5102q_rs485_bridge.Exec.{ok, >>-eq-ok, ok-injective}
use dm_d5102q_rs485_bridge.Patterns.{starts_with}
use dm_d5102q_rs485_bridge.Usb.{Port, is_target, matching, only_device, identify}

matching_sound : (ps : List Port) (p : Port) → In p (matching ps) → In p ps × (is_target p ≡ true)
unfolding matching
matching_sound [] p i = elim i [ ]
matching_sound (x ∷ ps) p i = elim (Bool-cases (is_target x)) [
  | inl e ↦
      first_or_later (λ y. In y (x ∷ ps) × (is_target y ≡ true)) (here, e)
        (λ y j. let r = matching_sound ps y j in (there r.0, r.1)) (rw e at i)
  | inr e ↦ let r = matching_sound ps p (rw e at i) in (there r.0, r.1)
]

matching-In : (ps : List Port) (p : Port) → In p ps → is_target p ≡ true → In p (matching ps)
unfolding matching
matching-In [] p i h = elim i [ ]
matching-In (p ∷ ps) p' here h = rw h here
matching-In (x ∷ ps) p (there i) h = elim (Bool-cases (is_target x)) [
  | inl e ↦ rw e (there (matching-In ps p i h))
  | inr e ↦ rw e (matching-In ps p i h)
]

-- The only port of the target
pub record IsOnly (ports : List Port) (device : Text) : Type 0 where
  pub port : Port
  pub listed : In port ports
  pub target : is_target port ≡ true
  pub device_is : port.device ≡ device
  pub path : starts_with device (text "/dev/cu.usbserial-") ≡ true
  pub unique : (q : Port) → In q ports → is_target q ≡ true → q ≡ port

only_device-IsOnly :
    (ports ms : List Port) {d : Text} → matching ports ≡ ms → only_device ms ≡ ok d → IsOnly ports d
unfolding only_device
only_device-IsOnly ports [] e h = cc
only_device-IsOnly ports (p ∷ q ∷ ms) e h = cc
only_device-IsOnly ports (p ∷ []) {d} e h =
    let a = >>-eq-ok (starts_with p.device (text "/dev/cu.usbserial-")) _ _ h in
    let device_is = ok-injective a.1 in
    let found = matching_sound ports p (rw e here) in
    record {
      port = p;
      listed = found.0;
      target = found.1;
      device_is = device_is;
      path = ap (λ t. starts_with t (text "/dev/cu.usbserial-")) (sym device_is) ∙ a.0;
      unique = λ q i t.
          first_or_later (λ y. y ≡ p) refl (λ y j. elim j [ ]) (rw e at (matching-In ports q i t));
    }

-- Where identify returns a device, it is that of a listed port with the approved vendor, product
-- and serial numbers, its path is one of a USB serial port, and each listed port with these numbers
-- is this port.
pub identify-IsOnly : (ports : List Port) {d : Text} → identify ports ≡ ok d → IsOnly ports d
unfolding identify
identify-IsOnly ports h = only_device-IsOnly ports (matching ports) refl h
