-- ===== src/Usb.antt =====
-- scripts/upload_usb_bootstrap.py: the port, the segments that are flashed, and the first boot.
pub mod Identity
pub mod Segments
pub mod Boot
pub mod Upgrade
use dm_d5102q_rs485_bridge.Prelude.{
  false, Option, none, some, ℕ, Text, text, text_eq, Bool, ◌&&◌, List, [], ◌∷◌, ◌==◌, if◌then◌else◌,
}
use dm_d5102q_rs485_bridge.Exec.{Result, ok, err, refused, require, ◌>>◌}
use dm_d5102q_rs485_bridge.Patterns.{starts_with}

-- A port as `list_ports.comports` describes it; one that is not on USB has no numbers.
pub record Port : Type 0 where
  pub vid : Option ℕ
  pub pid : Option ℕ
  pub serial_number : Option Text
  pub device : Text

-- Whether a port has the numbers of `TARGET`
unfoldable pub is_target : Port → Bool
is_target p = elim p.vid [
  | none ↦ false
  | some vid ↦ elim p.pid [
    | none ↦ false
    | some pid ↦ elim p.serial_number [
      | none ↦ false
      | some serial ↦ vid == 0x0403 && pid == 0x6001 && text_eq serial (text "2956578B12")
    ]
  ]
]

unfoldable pub matching : List Port → List Port
matching [] = []
matching (p ∷ ps) = let rest = matching ps in if is_target p then p ∷ rest else rest

-- The device of the only match
unfoldable pub only_device : List Port → Result Text
only_device (p ∷ []) = do
  require (starts_with p.device (text "/dev/cu.usbserial-"))
      (refused "Unexpected target path; review before opening")
  ok p.device
only_device ps = err (refused "Exactly one approved FTDI VID/PID/serial must be enumerated")

-- `identify`
unfoldable pub identify : List Port → Result Text
identify ports = only_device (matching ports)
