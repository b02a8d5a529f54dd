-- ===== src/Tests/Packages.antt =====
-- One image, its manifest and its package.
use dm_d5102q_rs485_bridge.Prelude.{
  some, refl, ◌≡◌, text_eq, all, Text, text, Bool, true, [], ◌∷◌, ◌++◌, replicate,
}
use dm_d5102q_rs485_bridge.Exec.{Result, ok, err}
use dm_d5102q_rs485_bridge.Bytes.{pad, unpack_u32, pack_u32, decimal, hex}
use dm_d5102q_rs485_bridge.Ota.Manifest.{
  accept, pack, read_field, is_ascii, partition_zero, release_tag, has_esp_header, is_image_size,
  is_build_id, in_u32, Manifest,
}
use dm_d5102q_rs485_bridge.Package.{
  verify_parts, matches, is_manifest_of, verify_header, checked_signature, updater_tag,
  channel_field, Metadata, manifest_bytes, verify,
}
use dm_d5102q_rs485_bridge.Ota.Manifest
use dm_d5102q_rs485_bridge.Package
use dm_d5102q_rs485_bridge.Patterns.{
  is_digit, is_alnum, is_text_char, is_text, starts_with, contains,
}
use dm_d5102q_rs485_bridge.Package.Verified.{verify-IsVerified, IsVerified}
use dm_d5102q_rs485_bridge.Ota.Manifest.RoundTrip.{unpack_manifest-manifest_bytes}
use dm_d5102q_rs485_bridge.Value.{obj, Fields, str, field, end, merge, put, get, field_eq, value_eq}
use dm_d5102q_rs485_bridge.Ota.Reconcile.{item}
use dm_d5102q_rs485_bridge.Ota.Release.{
  manifest_fields, agrees, release_object, key_bytes, verify_signature, load_release,
}
use dm_d5102q_rs485_bridge.Ota.Release.Loaded.{IsSigned, load_release-IsSigned}

abbrev zero_digest : Text → Text
zero_digest t = replicate 32 0

abbrev key : Text
key = replicate 32 65

abbrev image : Text
image = 0xe9 ∷ (text "DMOTA-RELEASE:b:7" ++ (0 ∷ (text "DMOTA-UPDATER:2" ++ (0 ∷ key))))

abbrev trusting : Text → Text → Text → Bool
trusting _ _ _ = true

abbrev bytes_of : Result Text → Text
bytes_of (ok t) = t
bytes_of (err e) = []

abbrev manifest_payload : Text
manifest_payload = bytes_of (Manifest.manifest_bytes zero_digest 7 (text "b") image 1)

abbrev payload : Text
payload = bytes_of (manifest_bytes zero_digest 7 (text "b") image 1)

abbrev file : Text
file = payload ++ (replicate 64 1 ++ image)

abbrev run : Result Metadata
run = verify zero_digest trusting file key

abbrev sample : Manifest
sample = record {
  version = 7;
  image_size = 67;
  min_schema = 1;
  board_id = text "m5stack-atom";
  build_id = text "b";
  sha256 = hex (replicate 32 0);
}

abbrev sample_metadata : Metadata
sample_metadata = record {
  manifest = sample;
  key_id = hex (replicate 32 0);
  package_sha256 = hex (replicate 32 0);
  package_size = 259;
}

unpack_manifest-manifest_bytes_example : Manifest.unpack_manifest manifest_payload ≡ ok sample
unfolding Manifest.manifest_bytes Manifest.unpack_manifest Manifest.magic Manifest.board all text
    text_eq hex decimal pack_u32 unpack_u32 pad contains starts_with is_text is_text_char is_alnum
    is_digit in_u32 is_build_id is_image_size has_esp_header release_tag partition_zero is_ascii
    read_field pack accept
unpack_manifest-manifest_bytes_example =
    unpack_manifest-manifest_bytes zero_digest 7 (text "b") image 1 refl refl

verify-IsVerified_example : IsVerified zero_digest trusting file key sample_metadata
unfolding Package.manifest_bytes Package.unpack_manifest Package.magic channel_field updater_tag
    checked_signature verify_header is_manifest_of matches verify_parts verify
    Manifest.manifest_bytes Manifest.unpack_manifest Manifest.magic Manifest.board all text text_eq
    hex decimal pack_u32 unpack_u32 pad contains starts_with is_text is_text_char is_alnum is_digit
    in_u32 is_build_id is_image_size has_esp_header release_tag partition_zero is_ascii read_field
    pack accept
verify-IsVerified_example = verify-IsVerified zero_digest trusting file key sample_metadata refl

-- A release directory with the same image.
abbrev release_metadata : Fields
release_metadata = merge (manifest_fields sample) (
    field (text "publicKey") (str key) (
      field (text "keyId") (str (hex (replicate 32 0)))
        (field (text "channel") (str (text "dev")) end)))

abbrev envelope : Text
envelope = manifest_payload ++ replicate 64 1

load_release-IsSigned_example :
    (envelope ≡ envelope)
    × (image ≡ image)
    × (k : Text) × (m : Manifest) × IsSigned zero_digest trusting some
        (record { metadata = release_metadata; envelope = envelope; image = image })
        k
        m
unfolding Manifest.manifest_bytes Manifest.unpack_manifest Manifest.magic Manifest.board all text
    text_eq hex decimal pack_u32 unpack_u32 pad contains starts_with is_text is_text_char is_alnum
    is_digit in_u32 is_build_id is_image_size has_esp_header release_tag partition_zero is_ascii
    read_field pack accept agrees release_object key_bytes verify_signature load_release
    manifest_fields item field_eq get value_eq merge put
load_release-IsSigned_example =
    load_release-IsSigned zero_digest trusting some (some (obj release_metadata)) envelope image
      refl
