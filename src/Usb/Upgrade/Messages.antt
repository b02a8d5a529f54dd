-- ===== src/Usb/Upgrade/Messages.antt =====
-- What `boot_metadata` may return: an explicit list of texts, and printed addresses.
use dm_d5102q_rs485_bridge.Prelude.{
  text_mem-In, ◌∙◌, refl, ◌≡◌, ℕ, ◌+◌, ◌≤◌, ◌<◌, Text, text, text_eq, text_eq_sound, text_mem, Bool,
  Bool-cases, inl, inr, true, false, Option, none, some, some-injective, List, [], ◌∷◌, ◌++◌, In,
  here, there, all, map, In-map_sound, ◌||◌, ◌&&◌, not, ◌==◌, leb, arith, if◌then◌else◌, length,
  drop, ◌⊎◌,
}
use dm_d5102q_rs485_bridge.Bytes.{decimal}
use dm_d5102q_rs485_bridge.Strings.{split_on}
use dm_d5102q_rs485_bridge.Patterns.{is_digit}
use dm_d5102q_rs485_bridge.Usb.Boot.{redaction}
use dm_d5102q_rs485_bridge.Usb.Upgrade.{
  Kind, key_creation, build_marker, key_reuse, reset_unarmed, reset_armed, sta_attempt,
  ssid_announced, url_announced, mdns_announced, core_dump, boot_error, unclassified, Address,
  read_decimal, read_octet, four_octets, read_address, print_address, is_invalid_device, build_text,
  ssid_text, url_text, mdns_text, sta_kind, kind_of, message,
}

-- The lines that stand for what the device said
abbrev pub fixed_texts : List Text
fixed_texts =
    text "INSTALL_KEY_ONCE=[REDACTED]"
    ∷ text "USB_BOOTSTRAP_0.1.2 RS485_DISABLED OTA_UNAVAILABLE"
    ∷ text "INSTALL_KEY_REUSED"
    ∷ text "BOOT_RESET_NOT_ARMED"
    ∷ text "UNEXPECTED_RESET_MARKER"
    ∷ text "STA_CONNECT_ATTEMPT"
    ∷ text "AP_SSID=DM-BRIDGE-8810A1"
    ∷ text "AP_URL=http://192.168.4.1"
    ∷ text "INVALID_STA_IP"
    ∷ text "MDNS_URL=http://dm-bridge-8810a1.local"
    ∷ text "CORE_DUMP_PARTITION_DIAGNOSTIC [details private]"
    ∷ text "BOOT_ERROR [details private]"
    ∷ text "UNCLASSIFIED_BOOT_LINE [details private]"
    ∷ []

-- Four octets of an address that a device can have
pub record IsDeviceAddress (a b c d : ℕ) : Type 0 where
  pub octets : (a ≤ 255) × (b ≤ 255) × (c ≤ 255) × (d ≤ 255)
  pub specified : 0 < a + b + c + d
  pub no_multicast : (a < 224) ⊎ (239 < a)
  pub no_loopback : a ≡ 127 → ⊥

-- One of the fixed texts, or a device's address
pub data IsAllowed : Text → Type 0 where
  fixed : {l : Text} → In l fixed_texts → IsAllowed l
  address :
      (a b c d : ℕ)
      → IsDeviceAddress a b c d
      → IsAllowed (
          text "STA_IP="
          ++ (decimal a
              ++ (text "." ++ (decimal b ++ (text "." ++ (decimal c ++ (text "." ++ decimal d)))))))

known : (l : Text) → text_mem l fixed_texts ≡ true → IsAllowed l
known l h = fixed (text_mem-In l fixed_texts h)

-- A text that equals a known one is known.
same : (t l : Text) → text_mem l fixed_texts ≡ true → text_eq t l ≡ true → IsAllowed t
same t l h e = known t (rw (text_eq_sound t l e) h)

read_octet_bound : (t : Text) (n : ℕ) → read_octet t ≡ some n → n ≤ 255
unfolding read_octet
read_octet_bound [] n h = cc
read_octet_bound (c ∷ s) n h =
    bounded (all is_digit (c ∷ s)) (leb (length (c ∷ s)) 3) (not (c == 48) || length s == 0)
      (read_decimal 0 (c ∷ s)) h
  where
    at_most : (x y : ℕ) → x ≡ y → leb x 255 ≡ true → y ≤ 255
    at_most x y e h = ground arith

    bounded :
        (a b c : Bool) (m : ℕ)
        → (if a && b && c && leb m 255 then some m else none) ≡ some n
        → n ≤ 255
    bounded a b c m h = elim (Bool-cases (a && b && c && leb m 255)) [
      | inl e ↦ at_most m n (some-injective (rw e at h)) (last_of a b c (leb m 255) e)
      | inr e ↦ absurd (none_some (rw e at h))
    ]
      where
        none_some : none ≡ some n → ⊥
        none_some e = cc

        last_of : (a b c d : Bool) → (a && b && c && d) ≡ true → d ≡ true
        last_of a b c d h = ground arith

abbrev Small : Option ℕ → Type 0
Small o = (n : ℕ) → o ≡ some n → n ≤ 255

abbrev Below : Address → Type 0
Below (a, b, c, d) = (a ≤ 255) × (b ≤ 255) × (c ≤ 255) × (d ≤ 255)

four_octets-Small :
    (os : List (Option ℕ)) (a : Address)
    → ((o : Option ℕ) → In o os → Small o)
    → four_octets os ≡ some a
    → Below a
unfolding four_octets
four_octets-Small (some a ∷ some b ∷ some c ∷ some d ∷ []) e x h = rw (← some-injective h) (
  x (some a) here a refl,
  x (some b) (there here) b refl,
  x (some c) (there (there here)) c refl,
  x (some d) (there (there (there here))) d refl,
)
four_octets-Small [] e x h = cc
four_octets-Small (none ∷ os) e x h = cc
four_octets-Small (some a ∷ []) e x h = cc
four_octets-Small (some a ∷ none ∷ os) e x h = cc
four_octets-Small (some a ∷ some b ∷ []) e x h = cc
four_octets-Small (some a ∷ some b ∷ none ∷ os) e x h = cc
four_octets-Small (some a ∷ some b ∷ some c ∷ []) e x h = cc
four_octets-Small (some a ∷ some b ∷ some c ∷ none ∷ os) e x h = cc
four_octets-Small (some a ∷ some b ∷ some c ∷ some d ∷ o ∷ os) e x h = cc

read_address-Below : (t : Text) (a : Address) → read_address t ≡ some a → Below a
unfolding read_address
read_address-Below t a h =
    four_octets-Small (map read_octet (split_on b'.' t)) a
      (λ o i n e. let (s, j, f) = In-map_sound _ _ i in read_octet_bound s n (f ∙ e)) h

valid_address :
    (a b c d : ℕ)
    → Below (a, b, c, d)
    → is_invalid_device (a, b, c, d) ≡ false
    → IsDeviceAddress a b c d
unfolding is_invalid_device
valid_address a b c d octets h = record {
  octets = octets;
  specified = ground arith;
  no_multicast = ground arith;
  no_loopback = λ e. ground arith;
}

-- What is returned for a text of some kind is allowed.
record Says (t : Text) (k : Kind) : Type 0 where
  said : IsAllowed (message k t)

-- Both ways of a test
choose :
    (b : Bool) {t : Text} {k r : Kind}
    → (b ≡ true → Says t k)
    → Says t r
    → Says t (if b then k else r)
choose true x y = x refl
choose false x y = y

sta_kind-Says :
    (t : Text) (o : Option Address) → ((a : Address) → o ≡ some a → Below a) → Says t (sta_kind o)
unfolding sta_kind message print_address text text_eq text_mem
sta_kind-Says t none h = record { said = known _ refl }
sta_kind-Says t (some (a, b, c, d)) h = elim (Bool-cases (is_invalid_device (a, b, c, d))) [
  | inl e ↦ rw e (record { said = known _ refl })
  | inr e ↦ rw e (record { said = address a b c d (valid_address a b c d (h (a, b, c, d) refl) e) })
]

fixed_kind : (k : Kind) (t : Text) → text_mem (message k t) fixed_texts ≡ true → Says t k
fixed_kind k t h = record { said = known _ h }

exact_kind :
    (k : Kind) (t l : Text)
    → message k t ≡ t
    → text_mem l fixed_texts ≡ true
    → text_eq t l ≡ true
    → Says t k
exact_kind k t l m h e = record { said = rw m (same t l h e) }

kind_of-Says : (t : Text) → Says t (kind_of t)
unfolding kind_of message text text_eq text_mem redaction build_text ssid_text url_text mdns_text
kind_of-Says t =
    choose _ (λ e. fixed_kind key_creation t refl)
      (choose _ (exact_kind build_marker t _ refl refl) (
        choose _ (exact_kind key_reuse t _ refl refl) (
          choose _ (exact_kind reset_unarmed t _ refl refl) (
            choose _ (λ e. fixed_kind reset_armed t refl)
              (choose _ (exact_kind sta_attempt t _ refl refl) (
                choose _ (exact_kind ssid_announced t _ refl refl) (
                  choose _ (exact_kind url_announced t _ refl refl) (
                    choose _ (λ e. sta_kind-Says t _ (read_address-Below (drop 7 t)))
                      (choose _ (exact_kind mdns_announced t _ refl refl) (
                        choose _ (λ e. fixed_kind core_dump t refl)
                          (choose _ (λ e. fixed_kind boot_error t refl)
                            (fixed_kind unclassified t refl))))))))))))

pub message-IsAllowed : (t : Text) → IsAllowed (message (kind_of t) t)
message-IsAllowed t = let x = kind_of-Says t in x.said
