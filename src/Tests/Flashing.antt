-- ===== src/Tests/Flashing.antt =====
-- Small segments and a short first boot.
use dm_d5102q_rs485_bridge.Prelude.{
  take, drop, ◌≡◌, refl, ◌≤◌, Bool, true, false, Text, text, text_eq, Option, some, List, [], ◌∷◌,
  ◌++◌, any, all, In,
}
use dm_d5102q_rs485_bridge.Bytes.{hex, hex8}
use dm_d5102q_rs485_bridge.Documents.{for_each}
use dm_d5102q_rs485_bridge.Exec.{err}
use dm_d5102q_rs485_bridge.Patterns.{starts_with, contains, is_installation_key, is_key_char}
use dm_d5102q_rs485_bridge.Strings.{rstrip}
use dm_d5102q_rs485_bridge.Usb.{Port, is_target, matching, only_device, identify}
use dm_d5102q_rs485_bridge.Usb.Identity.{IsOnly, identify-IsOnly}
use dm_d5102q_rs485_bridge.Usb.Segments.{
  File, Segment, segment, erase_end, preserved, check_region, read_segment, check_segment,
  check_each,
}
use dm_d5102q_rs485_bridge.Usb.Segments.Preserved.{Approved, Spares, Apart, check_each_sound}
use dm_d5102q_rs485_bridge.Usb.Boot.{
  Capture, Report, marker, key_prefix, redaction, match_key, strip_line_end, after_prefix,
  error_markers, no_log, announce, write_redacted, keep_key, extend, complete, has_line, remainder,
  no_capture, is_some_text, accept_boot, classify_boot_line, handle_line, handle_lines, feed,
  feed_all, capture_boot,
}
use dm_d5102q_rs485_bridge.Usb.Boot.Redacted.{IsPrivate, capture_boot-IsPrivate}
use dm_d5102q_rs485_bridge.Usb.Boot.Chunks.{joined, same_stream_same_capture}

-- Two files of three bytes, with the identity for a hash
abbrev two_segments : List Segment
two_segments =
    segment 0x1000 (text "bootloader") 3 (text "010203")
    ∷ segment 0xe000 (text "boot") 1 (text "ff")
    ∷ []

abbrev on_disk : Text → Option File
on_disk path = if_path (text_eq path (text "bootloader")) (1 ∷ 2 ∷ 3 ∷ []) (255 ∷ [])
  where
    if_path : Bool → Text → Text → Option File
    if_path true a b = some (record { is_symlink = false; mode = 0; bytes = a })
    if_path false a b = some (record { is_symlink = false; mode = 0; bytes = b })

check_each_sound_example :
    ((s : Segment) → In s two_segments → Approved (λ t. t) on_disk s × Spares s × (0 ≤ s.offset))
    × Apart two_segments
unfolding text text_eq hex hex8 erase_end preserved check_region read_segment check_segment
    check_each for_each
check_each_sound_example = check_each_sound (λ t. t) on_disk 0 two_segments refl

abbrev boot_stream : Text
boot_stream =
    text "AP_SSID=bridge"
    ++ (13 ∷ 10 ∷ [])
    ++ (text "INSTALL_KEY_ONCE=ABCDEFGHJKLMNPQRSTUV" ++ (10 ∷ []))
    ++ (text "AP_URL=http://192.168.4.1/" ++ (10 ∷ []))

capture_boot-IsPrivate_example : (c : Capture) × IsPrivate (λ t. t) (boot_stream ∷ []) c
unfolding text text_eq any all starts_with contains is_installation_key is_key_char rstrip marker
    key_prefix redaction match_key strip_line_end after_prefix error_markers no_log announce
    write_redacted keep_key extend complete has_line remainder no_capture is_some_text accept_boot
    classify_boot_line handle_line handle_lines feed feed_all capture_boot joined
capture_boot-IsPrivate_example = (_, capture_boot-IsPrivate (λ t. t) (boot_stream ∷ []) refl)

-- The same stream in two reads, cut within the key
same_stream_same_capture_example :
    (c : Capture) × (d : Capture) × (q : Report) × (r : Report) × (c ≡ d) × (q ≡ r)
unfolding text text_eq any all starts_with contains is_installation_key is_key_char rstrip marker
    key_prefix redaction match_key strip_line_end after_prefix error_markers no_log announce
    write_redacted keep_key extend complete has_line remainder no_capture is_some_text accept_boot
    classify_boot_line handle_line handle_lines feed feed_all capture_boot joined
same_stream_same_capture_example =
    let same =
      same_stream_same_capture (λ t. t) (boot_stream ∷ [])
        (take 40 boot_stream ∷ drop 40 boot_stream ∷ []) refl refl refl in
    (_, _, _, _, same.0, same.1)

abbrev port : Text → Text → Port
port serial device = record {
  vid = some 0x0403;
  pid = some 0x6001;
  serial_number = some serial;
  device = device;
}

abbrev ports : List Port
ports =
    port (text "other") (text "/dev/cu.usbserial-1")
    ∷ port (text "2956578B12") (text "/dev/cu.usbserial-2956578B12")
    ∷ []

identify-IsOnly_example : IsOnly ports (text "/dev/cu.usbserial-2956578B12")
unfolding text text_eq starts_with is_target matching only_device identify
identify-IsOnly_example = identify-IsOnly ports refl

two_targets_refused :
    (e : _) × (identify
        (port (text "2956578B12") (text "/dev/a") ∷ port (text "2956578B12") (text "/dev/b") ∷ [])
      ≡ err e)
unfolding text text_eq starts_with is_target matching only_device identify
two_targets_refused = (_, refl)
