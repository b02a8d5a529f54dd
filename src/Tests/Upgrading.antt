-- ===== src/Tests/Upgrading.antt =====
-- The first boot behind an upgrade.
use dm_d5102q_rs485_bridge.Prelude.{
  ◌≡◌, refl, Text, text, text_eq, [], ◌∷◌, ◌++◌, any, all, take, drop,
}
use dm_d5102q_rs485_bridge.Bytes.{decimal}
use dm_d5102q_rs485_bridge.Patterns.{starts_with, contains, is_digit}
use dm_d5102q_rs485_bridge.Strings.{rstrip, split_on}
use dm_d5102q_rs485_bridge.Usb.Boot.{
  marker, redaction, error_markers, key_prefix, match_key, strip_line_end, extend, complete,
  has_line, remainder, is_some_text, classify_boot_line,
}
use dm_d5102q_rs485_bridge.Usb.Boot.Chunks.{joined}
use dm_d5102q_rs485_bridge.Usb.Upgrade.{
  read_decimal, read_octet, four_octets, read_address, print_address, is_invalid_device, build_text,
  ssid_text, url_text, mdns_text, sta_kind, kind_of, message, new_boot_state, note_kind,
  boot_accepted,
}
use dm_d5102q_rs485_bridge.Usb.Upgrade.Capture.{
  new_capture, line_kind, boot_metadata, observe_line, observe_lines, feed, feed_all, observe_rest,
  judge, capture_upgrade,
}
use dm_d5102q_rs485_bridge.Usb.Upgrade.Allowed.{OnlyMessages, capture_upgrade-OnlyMessages}
use dm_d5102q_rs485_bridge.Usb.Upgrade.Seen.{HasBooted, kinds, all_lines, capture_upgrade-HasBooted}

abbrev line : Text → Text
line t = t ++ (13 ∷ 10 ∷ [])

abbrev boot_stream : Text
boot_stream =
    line (text "USB_BOOTSTRAP_0.1.2 RS485_DISABLED OTA_UNAVAILABLE")
    ++ (line (text "INSTALL_KEY_REUSED")
        ++ (line (text "BOOT_RESET_NOT_ARMED")
            ++ (line (text "STA_CONNECT_ATTEMPT")
                ++ (line (text "hello") ++ text "STA_IP=10.0.0.7"))))

capture_upgrade-HasBooted_example :
    HasBooted
      (λ t. t)
      (kinds (λ t. t) (all_lines (joined (take 60 boot_stream ∷ drop 60 boot_stream ∷ []))))
unfolding text text_eq any all starts_with contains is_digit rstrip split_on decimal marker
    redaction error_markers key_prefix match_key strip_line_end extend complete has_line remainder
    is_some_text classify_boot_line joined read_decimal read_octet four_octets read_address
    print_address is_invalid_device build_text ssid_text url_text mdns_text sta_kind kind_of message
    new_boot_state note_kind boot_accepted new_capture line_kind boot_metadata observe_line
    observe_lines feed feed_all observe_rest judge capture_upgrade
capture_upgrade-HasBooted_example =
    capture_upgrade-HasBooted (λ t. t) (take 60 boot_stream ∷ drop 60 boot_stream ∷ []) refl

last_message :
    (capture_upgrade (λ t. t) (boot_stream ∷ [])).0.redacted
    ≡ build_text
      ∷ text "INSTALL_KEY_REUSED"
      ∷ text "BOOT_RESET_NOT_ARMED"
      ∷ text "STA_CONNECT_ATTEMPT"
      ∷ text "UNCLASSIFIED_BOOT_LINE [details private]"
      ∷ text "STA_IP=10.0.0.7"
      ∷ []
unfolding text text_eq any all starts_with contains is_digit rstrip split_on decimal marker
    redaction error_markers key_prefix match_key strip_line_end extend complete has_line remainder
    is_some_text classify_boot_line joined read_decimal read_octet four_octets read_address
    print_address is_invalid_device build_text ssid_text url_text mdns_text sta_kind kind_of message
    new_boot_state note_kind boot_accepted new_capture line_kind boot_metadata observe_line
    observe_lines feed feed_all observe_rest judge capture_upgrade
last_message = refl

-- A key that is cut off by the end of the capture, and is then refused
capture_upgrade-OnlyMessages_example :
    OnlyMessages (capture_upgrade (λ t. t) (text "INSTALL_KEY_ONCE=ABCDEFGHJKL" ∷ [])).0
capture_upgrade-OnlyMessages_example =
    capture_upgrade-OnlyMessages (λ t. t) (text "INSTALL_KEY_ONCE=ABCDEFGHJKL" ∷ [])
