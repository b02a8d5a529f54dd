-- ===== src/Usb/Upgrade.antt =====
-- scripts/upgrade_usb_bootstrap.py: what the first boot behind an upgrade says, and whether it is
-- accepted. A line is first classified, as the conditions of `boot_metadata` do in their order; what
-- each kind of line answers and changes stands in functions of its own.
pub mod Capture
pub mod Messages
pub mod Allowed
pub mod Kinds
pub mod Seen
use dm_d5102q_rs485_bridge.Prelude.{
  ◌-◌, ℕ, suc, ◌+◌, ◌*◌, Text, text, text_eq, Bool, true, false, not, ◌&&◌, ◌||◌, Option, none,
  some, List, [], ◌∷◌, ◌++◌, if◌then◌else◌, leb, ltb, ◌==◌, length, drop, any, all, map,
}
use dm_d5102q_rs485_bridge.Bytes.{decimal}
use dm_d5102q_rs485_bridge.Strings.{split_on}
use dm_d5102q_rs485_bridge.Exec.{Err, refused}
use dm_d5102q_rs485_bridge.Patterns.{starts_with, contains, is_digit}
use dm_d5102q_rs485_bridge.Usb.Boot.{
  marker, redaction, error_markers, complete, remainder, classify_boot_line, is_some_text,
}

-- The octets of an IPv4 address
abbrev pub Address : Type 0
Address = ℕ × ℕ × ℕ × ℕ

unfoldable pub read_decimal : ℕ → Text → ℕ
read_decimal n [] = n
read_decimal n (c ∷ s) = read_decimal (n * 10 + (c - b'0')) s

-- An octet: up to three digits, with no zero before others, at most 255
unfoldable pub read_octet : Text → Option ℕ
read_octet [] = none
read_octet (c ∷ s) =
    let n = read_decimal 0 (c ∷ s) in
    if all is_digit (c ∷ s)
      && leb (length (c ∷ s)) 3
      && (not (c == b'0') || length s == 0)
      && leb n 255
    then some n
    else none

unfoldable pub four_octets : List (Option ℕ) → Option Address
four_octets (some a ∷ some b ∷ some c ∷ some d ∷ []) = some (a, b, c, d)
four_octets _ = none

-- `ipaddress.IPv4Address(text)`
unfoldable pub read_address : Text → Option Address
read_address t = four_octets (map read_octet (split_on b'.' t))

-- `str(address)`
unfoldable pub print_address : Address → Text
print_address (a, b, c, d) =
    decimal a ++ (text "." ++ (decimal b ++ (text "." ++ (decimal c ++ (text "." ++ decimal d)))))

-- Unspecified, multicast or loopback
unfoldable pub is_invalid_device : Address → Bool
is_invalid_device (a, b, c, d) =
    (a == 0 && b == 0 && c == 0 && d == 0) || (leb 224 a && leb a 239) || a == 127

-- The cases of `boot_metadata`
pub data Kind : Type 0 where
  key_creation build_marker key_reuse reset_unarmed reset_armed sta_attempt ssid_announced : Kind
  url_announced : Kind
  sta_address : Address → Kind
  invalid_sta_address mdns_announced core_dump boot_error unclassified : Kind

unfoldable pub build_text : Text
build_text = text "USB_BOOTSTRAP_0.1.2 RS485_DISABLED OTA_UNAVAILABLE"

unfoldable pub ssid_text : Text
ssid_text = text "DM-BRIDGE-8810A1"

unfoldable pub url_text : Text
url_text = text "http://192.168.4.1"

unfoldable pub mdns_text : Text
mdns_text = text "http://dm-bridge-8810a1.local"

unfoldable pub sta_kind : Option Address → Kind
sta_kind none = invalid_sta_address
sta_kind (some a) = if is_invalid_device a then invalid_sta_address else sta_address a

-- The conditions of `boot_metadata`
unfoldable pub kind_of : Text → Kind
kind_of t =
    if contains marker t
    then key_creation
    else if text_eq t build_text
    then build_marker
    else if text_eq t (text "INSTALL_KEY_REUSED")
    then key_reuse
    else if text_eq t (text "BOOT_RESET_NOT_ARMED")
    then reset_unarmed
    else if contains (text "BOOT_RESET_ARMED") t || contains (text "WIFI_RESET_COMPLETE") t
    then reset_armed
    else if text_eq t (text "STA_CONNECT_ATTEMPT")
    then sta_attempt
    else if text_eq t (text "AP_SSID=" ++ ssid_text)
    then ssid_announced
    else if text_eq t (text "AP_URL=" ++ url_text)
    then url_announced
    else if starts_with t (text "STA_IP=")
    then sta_kind (read_address (drop 7 t))
    else if text_eq t (text "MDNS_URL=" ++ mdns_text)
    then mdns_announced
    else if contains (text "core_dump") t || contains (text "core dump") t
    then core_dump
    else if any (λ m. contains m t) error_markers
    then boot_error
    else unclassified

-- What `boot_metadata` returns for a text of some kind
unfoldable pub message : Kind → Text → Text
message key_creation t = redaction
message build_marker t = t
message key_reuse t = t
message reset_unarmed t = t
message reset_armed t = text "UNEXPECTED_RESET_MARKER"
message sta_attempt t = t
message ssid_announced t = t
message url_announced t = t
message (sta_address a) t = text "STA_IP=" ++ print_address a
message invalid_sta_address t = text "INVALID_STA_IP"
message mdns_announced t = t
message core_dump t = text "CORE_DUMP_PARTITION_DIAGNOSTIC [details private]"
message boot_error t = text "BOOT_ERROR [details private]"
message unclassified t = text "UNCLASSIFIED_BOOT_LINE [details private]"

-- `state`
pub record BootState : Type 0 where
  pub build_markers : ℕ
  pub key_reused : Bool
  pub reset_not_armed : Bool
  pub unexpected_key_creation : Bool
  pub unexpected_reset : Bool
  pub sta_attempted : Bool
  pub ap_ssid : Option Text
  pub ap_url : Option Text
  pub sta_ip : Option Text
  pub mdns_url : Option Text
  pub core_dump_diagnostics : ℕ
  pub errors : ℕ

-- `new_boot_state`
unfoldable pub new_boot_state : BootState
new_boot_state = record {
  build_markers = 0;
  key_reused = false;
  reset_not_armed = false;
  unexpected_key_creation = false;
  unexpected_reset = false;
  sta_attempted = false;
  ap_ssid = none;
  ap_url = none;
  sta_ip = none;
  mdns_url = none;
  core_dump_diagnostics = 0;
  errors = 0;
}

-- What `boot_metadata` changes
unfoldable pub note_kind : Kind → BootState → BootState
note_kind key_creation s = record s { unexpected_key_creation = true }
note_kind build_marker s = record s { build_markers = suc s.build_markers }
note_kind key_reuse s = record s { key_reused = true }
note_kind reset_unarmed s = record s { reset_not_armed = true }
note_kind reset_armed s = record s { unexpected_reset = true }
note_kind sta_attempt s = record s { sta_attempted = true }
note_kind ssid_announced s = record s { ap_ssid = some ssid_text }
note_kind url_announced s = record s { ap_url = some url_text }
note_kind (sta_address a) s = record s { sta_ip = some (print_address a) }
note_kind invalid_sta_address s = record s { errors = suc s.errors }
note_kind mdns_announced s = record s { mdns_url = some mdns_text }
note_kind core_dump s = record s { core_dump_diagnostics = suc s.core_dump_diagnostics }
note_kind boot_error s = record s { errors = suc s.errors }
note_kind unclassified s = s

-- `boot_accepted`
unfoldable pub boot_accepted : BootState → Bool
boot_accepted s =
    s.build_markers == 1
    && s.key_reused
    && s.reset_not_armed
    && not s.unexpected_key_creation
    && not s.unexpected_reset
    && s.errors == 0
    && ((is_some_text s.ap_ssid && is_some_text s.ap_url) || s.sta_attempted)
