-- ===== src/Ota/Release.antt =====
-- A release directory of scripts/ota_controller.py: the signature and `load_release`.
pub mod Loaded
use dm_d5102q_rs485_bridge.Prelude.{
  ◌+◌, Text, text, text_eq, Bool, true, false, not, ◌&&◌, ◌||◌, Option, none, some, if◌then◌else◌,
  ◌==◌, length, take, drop,
}
use dm_d5102q_rs485_bridge.Prelude.Int.{pos}
use dm_d5102q_rs485_bridge.Value.{Value, str, int, obj, Fields, end, field, field_eq}
use dm_d5102q_rs485_bridge.Bytes.{hex}
use dm_d5102q_rs485_bridge.Exec.{
  Result, ok, err, refused, value_error, type_error, require, ◌>>=◌, ◌>>◌,
}
use dm_d5102q_rs485_bridge.Ota.Manifest.{Manifest, manifest_size, manifest_bytes, unpack_manifest}
use dm_d5102q_rs485_bridge.Ota.Reconcile.{item}
use dm_d5102q_rs485_bridge.Ota.Deploy.{Release}

-- The dict that `unpack_manifest` returns.
unfoldable pub manifest_fields : Manifest → Fields
manifest_fields m = field (text "version") (int (pos m.version)) (
    field (text "imageSize") (int (pos m.image_size)) (
      field (text "minSchema") (int (pos m.min_schema)) (
        field (text "boardId") (str m.board_id)
          (field (text "buildId") (str m.build_id) (field (text "sha256") (str m.sha256) end)))))

-- `not any(metadata.get(k) != v for k, v in signed.items())`
unfoldable pub agrees : Fields → Fields → Bool
agrees metadata end = true
agrees metadata (field k v signed) = field_eq metadata k v && agrees metadata signed

-- `json.loads` of the release file, which is then indexed; `none` is no JSON.
unfoldable pub release_object : Option Value → Result Fields
release_object none = err value_error
release_object (some (obj d)) = ok d
release_object (some _) = err type_error

-- `bytes.fromhex` is an argument: `none` where it raises `ValueError`.
module _ (sha256 : Text → Text) (signed_by : Text → Text → Text → Bool)
    (fromhex : Text → Option Text) where
  -- `bytes.fromhex(value)`
  unfoldable pub key_bytes : Value → Result Text
  key_bytes (str t) = elim (fromhex t) [ none ↦ err value_error | some b ↦ ok b ]
  key_bytes _ = err type_error

  -- `verify_signature`
  unfoldable pub verify_signature : Text → Text → Result (Unit {0})
  verify_signature key envelope = do
    require (length key == 32 && length envelope == manifest_size + 64)
        (refused "Signature envelope length mismatch")
    require (signed_by key (take manifest_size envelope) (drop manifest_size envelope))
        (refused "OpenSSL operation failed; no secret or raw diagnostic printed")

  -- `load_release`, on the contents of release.json, manifest.bin and firmware.bin
  unfoldable pub load_release : Option Value → Text → Text → Result Release
  load_release json envelope image = do
    metadata ← release_object json
    public ← item metadata (text "publicKey")
    key ← key_bytes public
    verify_signature key envelope
    signed ← unpack_manifest (take manifest_size envelope)
    require
        (agrees metadata (manifest_fields signed)
          && field_eq metadata (text "channel") (str (text "dev")))
        (refused "Release metadata does not match the signed manifest/dev channel")
    require (field_eq metadata (text "keyId") (str (hex (sha256 key))))
        (refused "Release key fingerprint mismatch")
    made ← manifest_bytes sha256 signed.version signed.build_id image signed.min_schema
    require (text_eq made (take manifest_size envelope))
        (refused "Image does not match the signed manifest")
    ok (record { metadata = metadata; envelope = envelope; image = image })
