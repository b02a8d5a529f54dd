-- ===== src/Usb/Upgrade/Capture.antt =====
-- `boot_metadata` and `capture_upgrade`, whose parameters `metadata` and `accepted` are taken at
-- their defaults, `boot_metadata` and `boot_accepted`. A capture that fails still leaves the files
-- that it wrote: the result is what there is, with the failure if there is one.
use dm_d5102q_rs485_bridge.Prelude.{
  ℕ, ◌+◌, ◌*◌, Text, Option, none, some, List, [], ◌∷◌, ◌++◌, if◌then◌else◌, ltb, length,
}
use dm_d5102q_rs485_bridge.Exec.{Err, refused}
use dm_d5102q_rs485_bridge.Usb.Boot.{complete, remainder, classify_boot_line}
use dm_d5102q_rs485_bridge.Usb.Upgrade.{
  Kind, kind_of, message, BootState, new_boot_state, note_kind, boot_accepted,
}

pub record UpgradeCapture : Type 0 where
  pub count : ℕ
  pub raw : Text
  pub buffered : Text
  pub redacted : List Text
  pub state : BootState

unfoldable pub new_capture : UpgradeCapture
new_capture = record { count = 0; raw = []; buffered = []; redacted = []; state = new_boot_state }

unfoldable pub judge : UpgradeCapture → UpgradeCapture × Option Err
judge c =
    if boot_accepted c.state
    then (c, none)
    else (c, some (refused "Upgrade first-boot acceptance incomplete"))

-- `raw.decode("utf-8", errors="replace")`
module _ (decode : Text → Text) where
  unfoldable pub line_kind : Text → Kind
  line_kind line = kind_of (classify_boot_line decode line).0

  -- `boot_metadata`
  unfoldable pub boot_metadata : Text → BootState → Text × BootState
  boot_metadata line state = (
    message (line_kind line) (classify_boot_line decode line).0,
    note_kind (line_kind line) state,
  )

  -- What is done with one line
  unfoldable pub observe_line : Text → UpgradeCapture → UpgradeCapture
  observe_line line c =
      let m = boot_metadata line c.state in
      record c { redacted = c.redacted ++ (m.0 ∷ []); state = m.1 }

  unfoldable pub observe_lines : List Text → UpgradeCapture → UpgradeCapture
  observe_lines [] c = c
  observe_lines (l ∷ ls) c = observe_lines ls (observe_line l c)

  -- What is done with the data of one read
  unfoldable pub feed : UpgradeCapture → Text → UpgradeCapture × Option Err
  feed c chunk =
      let n = c.count + length chunk in
      let buffer = c.buffered ++ chunk in
      if ltb (1024 * 1024) n
      then (record c { count = n }, some (refused "Boot capture exceeded byte bound"))
      else if ltb 8192 (length buffer)
      then (
        record c { count = n; raw = c.raw ++ chunk; buffered = buffer },
        some (refused "Boot capture exceeded line bound"),
      )
      else (
        observe_lines (complete buffer)
            (record c { count = n; raw = c.raw ++ chunk; buffered = remainder buffer }),
        none,
      )

  -- The loop, which a failure ends
  unfoldable pub feed_all : UpgradeCapture → List Text → UpgradeCapture × Option Err
  feed_all c [] = (c, none)
  feed_all c (chunk ∷ chunks) =
      let fed = feed c chunk in
      elim fed.1 [ none ↦ feed_all fed.0 chunks | some e ↦ (fed.0, some e) ]

  -- What is left without a line end counts as a line.
  unfoldable pub observe_rest : UpgradeCapture → UpgradeCapture
  observe_rest c = elim c.buffered [ [] ↦ c | x ∷ s ↦ observe_line (x ∷ s) c ]

  -- `capture_upgrade`
  unfoldable pub capture_upgrade : List Text → UpgradeCapture × Option Err
  capture_upgrade chunks =
      let fed = feed_all new_capture chunks in
      elim fed.1 [ none ↦ judge (observe_rest fed.0) | some e ↦ (fed.0, some e) ]
