-- ===== src/Usb/Segments.antt =====
-- `check_segments`: the files that are flashed, and what flashing them erases.
pub mod Preserved
use dm_d5102q_rs485_bridge.Prelude.{
  ℕ, ◌+◌, ◌*◌, ◌/◌, ◌%◌, Text, text, text_eq, Bool, true, false, not, ◌&&◌, Option, none, some,
  List, [], ◌∷◌, ltb, leb, ◌==◌, length,
}
use dm_d5102q_rs485_bridge.Bytes.{hex}
use dm_d5102q_rs485_bridge.Exec.{Result, ok, err, refused, os_error, require, ◌>>=◌, ◌>>◌}
use dm_d5102q_rs485_bridge.Documents.{for_each}

-- What a path leads to. `mode` has the permission bits.
pub record File : Type 0 where
  pub is_symlink : Bool
  pub mode : ℕ
  pub bytes : Text

-- One entry of `SEGMENTS`
pub record Segment : Type 0 where
  pub offset : ℕ
  pub path : Text
  pub size : ℕ
  pub digest : Text

abbrev pub segment : ℕ → Text → ℕ → Text → Segment
segment offset path size digest = record {
  offset = offset;
  path = path;
  size = size;
  digest = digest;
}

-- `SEGMENTS`, with paths below the repository's root
unfoldable pub segments : List Segment
segments =
    segment 0x1000 (text ".arduino/build/usb-bootstrap-0.1.0-1ced44aa4041/bootloader.bin") 17536
      (text "3d234a7471f67b013686dabd4dee7c1fa915c9928463616a94bc9297acf1abf8")
    ∷ segment 0x8000 (text ".arduino/build/usb-bootstrap-0.1.0-1ced44aa4041/partitions.bin") 3072
        (text "fb9da29aa7639cfae2ffb31c94bdff9a4d99eb23bc0813d72fed72e7f4f3ae04")
    ∷ segment 0xe000
        (text ".platformio/packages/framework-arduinoespressif32/tools/partitions/boot_app0.bin")
        8192 (text "f94c5d786a7a8fab06ac5d10e33bf37711a6697636dc037559ea19cc410a17f0")
    ∷ segment 0x10000 (text ".arduino/build/usb-bootstrap-0.1.0-1ced44aa4041/firmware.bin") 763280
        (text "1ced44aa40418d1e8f7d304d753b90586b2b2b52d7612d894181713548bee4fe")
    ∷ []

-- `FLASH_SIZE`
abbrev pub flash_size : ℕ
flash_size = 0x400000

-- The end of what is erased: whole sectors, `(offset + size + 4095) & ~4095`
unfoldable pub erase_end : Segment → ℕ
erase_end s = (s.offset + s.size + 4095) / 4096 * 4096

-- The regions that an upload must leave alone
unfoldable pub preserved : List (ℕ × ℕ)
preserved = (0x9000, 0xe000) ∷ (0x310000, 0x315000) ∷ []

-- What a segment erases is apart from a region.
unfoldable pub check_region : Segment → ℕ × ℕ → Result (Unit {0})
check_region s (start, end) =
    require (not (ltb s.offset end && ltb start (erase_end s)))
      (refused "Upload would overwrite a preserved NVS region")

module _ (sha256 : Text → Text) (files : Text → Option File) where
  -- `path.read_bytes()`, where no symbolic link leads to the file
  unfoldable pub read_segment : Segment → Result Text
  read_segment s = elim (files s.path) [
    | none ↦ err os_error
    | some f ↦ do
      require (not f.is_symlink) (refused "Candidate segment must not be a symlink")
      ok f.bytes
  ]

  -- One round of the loop
  unfoldable pub check_segment : ℕ → Segment → Result (Unit {0})
  check_segment previous_end s = do
    data_read ← read_segment s
    require (length data_read == s.size && text_eq (hex (sha256 data_read)) s.digest)
        (refused "Approved segment identity changed")
    require (leb previous_end s.offset && leb (erase_end s) flash_size)
        (refused "Overlapping or out-of-flash segment")
    for_each (check_region s) preserved

  -- The loop
  unfoldable pub check_each : ℕ → List Segment → Result (Unit {0})
  check_each previous_end [] = ok tt
  check_each previous_end (s ∷ ss) = do check_segment previous_end s; check_each (erase_end s) ss

  -- The backup is private, and is the one that was reviewed.
  unfoldable pub check_backup : Option File → Result (Unit {0})
  check_backup none = err os_error
  check_backup (some f) =
      require
        (f.mode % 64 == 0
          && text_eq (hex (sha256 f.bytes))
              (text "3f2a06f6ecd7d8bf358201923d00b4f10bf5ad847cb66a1473d220b787e13c8c"))
        (refused "Historical rollback backup identity/privacy check failed")

  -- `check_segments`
  unfoldable pub check_segments : Result (Unit {0})
  check_segments = do
    check_each 0 segments
    check_backup (files (text ".arduino/evidence/deployment/atom-lite-pre-smoke-4mb.bin"))
