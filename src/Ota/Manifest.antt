-- ===== src/Ota/Manifest.antt =====
-- The signed manifest of scripts/ota_controller.py: packing, and reading back with its policy.
pub mod RoundTrip
use dm_d5102q_rs485_bridge.Prelude.{
  ℕ, zero, suc, ◌≤◌, String, Text, text, text_eq, Bool, true, false, not, ◌&&◌, ◌||◌, Option, none,
  some, List, [], ◌∷◌, ◌++◌, if◌then◌else◌, ltb, leb, ◌==◌, length, take, drop, all,
}
use dm_d5102q_rs485_bridge.Bytes.{pack_u32, unpack_u32, pad, hex, decimal}
use dm_d5102q_rs485_bridge.Patterns.{is_text, contains}
use dm_d5102q_rs485_bridge.Exec.{Err, Result, ok, err, refused, value_error, require, ◌>>=◌, ◌>>◌}

abbrev pub max_image : ℕ
max_image = 1310720

abbrev pub manifest_size : ℕ
manifest_size = 116

-- `b"DMOTA1\r\n"`
unfoldable pub magic : Text
unfolding text
magic = text "DMOTA1" ++ (13 ∷ 10 ∷ [])

unfoldable pub board : Text
unfolding text
board = text "m5stack-atom"

-- What `unpack_manifest` returns; `sha256` is in hexadecimal.
pub record Manifest : Type 0 where
  pub version : ℕ
  pub image_size : ℕ
  pub min_schema : ℕ
  pub board_id : Text
  pub build_id : Text
  pub sha256 : Text

-- `struct.pack("<8sIII16s48s32s", …)`
unfoldable pub pack : Text → ℕ → ℕ → ℕ → Text → Text → Text → Text
pack magic version size schema board build digest =
    pad 8 magic
    ++ (pack_u32 version
        ++ (pack_u32 size
            ++ (pack_u32 schema ++ (pad 16 board ++ (pad 48 build ++ pad 32 digest)))))

-- `image[0] != 0xe9` of an image that is not empty
unfoldable pub has_esp_header : Text → Bool
has_esp_header [] = false
has_esp_header (b ∷ bs) = b == 0xe9

unfoldable pub in_u32 : ℕ → Bool
in_u32 n = ltb 0 n && leb n 0xffffffff

unfoldable pub is_build_id : Text → Bool
is_build_id build = is_text build && leb (length build) 47

unfoldable pub is_image_size : ℕ → Bool
is_image_size n = leb 32 n && leb n max_image

-- `f"DMOTA-RELEASE:{build}:{version}"` and a zero byte
unfoldable pub release_tag : Text → ℕ → Text
release_tag build version = text "DMOTA-RELEASE:" ++ (build ++ (58 ∷ (decimal version ++ (0 ∷ []))))

-- `raw.partition(b"\0")`: the text before the first zero byte and the bytes behind it.
unfoldable pub partition_zero : Text → Option (Text × Text)
partition_zero [] = none
partition_zero (c ∷ cs) =
    let rest = partition_zero cs in
    if c == 0
    then some ([], cs)
    else elim rest [ none ↦ none | some (before, behind) ↦ some (c ∷ before, behind) ]

unfoldable pub is_ascii : ℕ → Bool
is_ascii c = ltb c 128

-- The local function `field` of `unpack_manifest`.
unfoldable pub read_field : Text → Result Text
unfolding partition_zero is_ascii
read_field raw = elim (partition_zero raw) [
  | none ↦ err (refused "Manifest field is not canonically zero-padded")
  | some (before, behind) ↦
      if not (all (λ c. c == 0) behind)
      then err (refused "Manifest field is not canonically zero-padded")
      else if not (all is_ascii before)
      then err value_error
      else if is_text before
      then ok before
      else err (refused "Invalid manifest text")
]

module _ (sha256 : Text → Text) where
  -- `manifest_bytes`
  unfoldable pub manifest_bytes : ℕ → Text → Text → ℕ → Result Text
  manifest_bytes version build image schema = do
    require (in_u32 version && in_u32 schema)
        (refused "Version and schema must be positive uint32 values")
    require (is_build_id build) (refused "Invalid buildId")
    require (is_image_size (length image) && has_esp_header image)
        (refused "Invalid ESP32 image size/header")
    require (contains (release_tag build version) image)
        (refused "Image does not contain the requested compiled release identity")
    ok (pack magic version (length image) schema board build (sha256 image))

-- `field(board), field(build)` and the policy on the numbers.
unfoldable pub accept : Text → ℕ → ℕ → ℕ → Text → Text → Text → Result Manifest
accept found version size schema raw_board raw_build digest = do
  board_id ← read_field raw_board
  build_id ← read_field raw_build
  require
      (text_eq found magic
        && text_eq board_id board
        && not (version == 0)
        && not (schema == 0)
        && is_image_size size)
      (refused "Manifest policy rejected")
  ok (record {
    version = version;
    image_size = size;
    min_schema = schema;
    board_id = board_id;
    build_id = build_id;
    sha256 = hex digest;
  })

-- `unpack_manifest`
unfoldable pub unpack_manifest : Text → Result Manifest
unpack_manifest d = do
  require (length d == manifest_size) (refused "Manifest length mismatch")
  let d1 = drop 8 d
  let d2 = drop 4 d1
  let d3 = drop 4 d2
  let d4 = drop 4 d3
  let d5 = drop 16 d4
  accept (take 8 d) (unpack_u32 (take 4 d1)) (unpack_u32 (take 4 d2)) (unpack_u32 (take 4 d3))
      (take 16 d4) (take 48 d5) (drop 48 d5)
