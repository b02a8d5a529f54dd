-- ===== src/Package.antt =====
-- scripts/dmota_package.py: the single-file DMOTA2 package, made and verified.
pub mod Verified
use dm_d5102q_rs485_bridge.Prelude.{
  ℕ, ◌+◌, Text, text, text_eq, Bool, true, false, not, ◌&&◌, ◌||◌, List, [], ◌∷◌, ◌++◌,
  if◌then◌else◌, ltb, leb, ◌==◌, length, take, drop,
}
use dm_d5102q_rs485_bridge.Bytes.{pack_u32, unpack_u32, pad, hex}
use dm_d5102q_rs485_bridge.Patterns.{contains}
use dm_d5102q_rs485_bridge.Exec.{Err, Result, ok, err, refused, os_error, require, ◌>>=◌, ◌>>◌}
use dm_d5102q_rs485_bridge.Ota.Manifest.{Manifest, max_image}
use dm_d5102q_rs485_bridge.Ota.Manifest

abbrev pub manifest_size : ℕ
manifest_size = 128

abbrev pub header_bytes : ℕ
header_bytes = 192

-- `b"DMOTA2\r\n"`
unfoldable pub magic : Text
unfolding text
magic = text "DMOTA2" ++ (13 ∷ 10 ∷ [])

abbrev pub protocol : ℕ
protocol = 2

-- `b"stable"` in its field of eight bytes
unfoldable pub channel_field : Text
unfolding text
channel_field = text "stable" ++ (0 ∷ 0 ∷ [])

-- `b"DMOTA-UPDATER:2\0"`
unfoldable pub updater_tag : Text
unfolding text
updater_tag = text "DMOTA-UPDATER:2" ++ (0 ∷ [])

-- What `verify` returns beside the constants of the format.
pub record Metadata : Type 0 where
  pub manifest : Manifest
  pub key_id : Text
  pub package_sha256 : Text
  pub package_size : ℕ

-- `unpack_manifest`
unfoldable pub unpack_manifest : Text → Result Manifest
unpack_manifest payload = do
  require (length payload == manifest_size && text_eq (take 8 payload) magic)
      (refused "DMOTA2 manifest length/domain mismatch")
  metadata ← Manifest.unpack_manifest (Manifest.magic ++ take 108 (drop 8 payload))
  require
      (unpack_u32 (take 4 (drop 116 payload)) == protocol
        && text_eq (drop 4 (drop 116 payload)) channel_field)
      (refused "Unsupported signed updater protocol/channel")
  ok metadata

-- `signature` of scripts/ota_controller.py, on the answer of OpenSSL.
unfoldable pub checked_signature : Result Text → Result Text
checked_signature answer = do
  value ← answer
  require (length value == 64) (refused "Unexpected signature length")
  ok value

-- SHA-256, OpenSSL's verification (of a public key, a message and a signature) and its signing.
module _ (sha256 : Text → Text) where
  -- `manifest_bytes`
  unfoldable pub manifest_bytes : ℕ → Text → Text → ℕ → Result Text
  manifest_bytes version build image schema = do
    v1 ← Manifest.manifest_bytes sha256 version build image schema
    require (contains updater_tag image)
        (refused "Image lacks the compiled DMOTA2 updater identity")
    ok (magic ++ (drop 8 v1 ++ (pack_u32 protocol ++ channel_field)))

  module _ (signed_by : Text → Text → Text → Bool) where
    -- `verify_header`
    unfoldable pub verify_header : Text → Text → Result Manifest
    verify_header key header = do
      require (length key == 32 && length header == header_bytes)
          (refused "DMOTA2 signature header length mismatch")
      metadata ← unpack_manifest (take manifest_size header)
      require (signed_by key (take manifest_size header) (drop manifest_size header))
          (refused "OpenSSL operation failed; no secret or raw diagnostic printed")
      ok metadata

    -- `manifest_bytes(…) != header[:MANIFEST.size]`
    unfoldable pub is_manifest_of : Manifest → Text → Text → Result Bool
    is_manifest_of m image header = do
      expected ← manifest_bytes m.version m.build_id image m.min_schema
      ok (text_eq expected (take manifest_size header))

    -- `pub not in image or manifest_bytes(…) != …`, where the second is not evaluated without need.
    unfoldable pub matches : Text → Manifest → Text → Text → Result Bool
    matches key m image header =
        if contains key image then is_manifest_of m image header else ok false

    unfoldable pub verify_parts : Text → Text → Text → Text → Result Metadata
    verify_parts key content header image = do
      m ← verify_header key header
      same ← matches key m image header
      require same (refused "DMOTA2 application/hash/identity mismatch")
      ok (record {
        manifest = m;
        key_id = hex (sha256 key);
        package_sha256 = hex (sha256 content);
        package_size = length content;
      })

    -- `verify`, on the content of the file.
    unfoldable pub verify : Text → Text → Result Metadata
    verify file key = do
      let content = take (max_image + header_bytes + 1) file
      require (leb (length content) (max_image + header_bytes))
          (refused "DMOTA2 file exceeds the application ceiling")
      verify_parts key content (take header_bytes content) (drop header_bytes content)

    -- `package`: the file that it writes and what it returns. `signature` is the answer of OpenSSL
    -- to the request to sign, `key` the public half, and `exists` says that there is such a file.
    unfoldable pub package_file :
        Text → Text → (Text → Result Text) → Bool → ℕ → Text → Result (Text × Metadata)
    package_file file key signature exists version build = do
      let image = take (max_image + 1) file
      payload ← manifest_bytes version build image 1
      require (contains key image)
          (refused "Image does not contain the signing key's public verification key")
      mark ← checked_signature (signature payload)
      trusted ← verify_header key (payload ++ mark)
      require (not exists) os_error
      metadata ← verify ((payload ++ mark) ++ image) key
      ok ((payload ++ mark) ++ image, metadata)
