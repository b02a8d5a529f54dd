-- ===== src/Remote.antt =====
-- scripts/dmota_remote.py: the checks on a target, the candidate and the one-shot transfer.
pub mod Transfer
pub mod Ready
pub mod Once
pub mod Blocked
use dm_d5102q_rs485_bridge.Prelude.{
  ◌||◌, ℕ, String, Text, text, text_eq, Bool, true, false, not, ◌&&◌, Option, none, some, List, [],
  ◌∷◌, if◌then◌else◌,
}
use dm_d5102q_rs485_bridge.Prelude.Int.{pos, ltb_ℤ}
use dm_d5102q_rs485_bridge.Value.{
  Value, null, bool, int, str, list, obj, Fields, end, field, get, value_eq, field_eq,
}
use dm_d5102q_rs485_bridge.Exec.{Err, Result, ok, err, refused, key_error, require, ◌>>=◌, ◌>>◌}
use dm_d5102q_rs485_bridge.Bytes.{hex}
use dm_d5102q_rs485_bridge.Ota.Reconcile.{item, same_item, and_then}
use dm_d5102q_rs485_bridge.Ota.Deploy.{less}
use dm_d5102q_rs485_bridge.Package.{Metadata, verify, header_bytes, protocol}

-- `type(v) is type(w)`
unfoldable pub same_type : Value → Value → Bool
same_type null w = elim w [ null ↦ true | _ ↦ false ]
same_type (bool a) w = elim w [ bool b ↦ true | _ ↦ false ]
same_type (int m) w = elim w [ int n ↦ true | _ ↦ false ]
same_type (str s) w = elim w [ str t ↦ true | _ ↦ false ]
same_type (list xs) w = elim w [ list ys ↦ true | _ ↦ false ]
same_type (obj d) w = elim w [ obj e ↦ true | _ ↦ false ]

-- `type(state.get(field)) is type(expected) and state[field] == expected`. A missing field has the
-- type of `None`, and `state[field]` raises.
unfoldable pub has_exactly : Fields → Text → Value → Result Bool
has_exactly state k expected = elim (get k state) [
  | some v ↦ ok (same_type v expected && value_eq v expected)
  | none ↦ if same_type null expected then err key_error else ok false
]

-- The loop of `ready` over the items of a dict. The message has no field name here.
unfoldable pub require_all : String → Fields → Fields → Result (Unit {0})
require_all message state end = ok tt
require_all message state (field k expected rest) = do
  same ← has_exactly state k expected
  require same (refused message)
  require_all message state rest

-- The dict `required`
unfoldable pub required : Fields
required = field (text "boardId") (str (text "m5stack-atom")) (
    field (text "otaProtocol") (int (pos 2)) (
      field (text "connected") (bool true) (
        field (text "mode") (str (text "STA")) (
          field (text "txBlocked") (bool true) (
            field (text "otaHealthy") (bool true) (
              field (text "otaSupported") (bool true) (
                field (text "otaBootState") (str (text "VALID")) (
                  field (text "otaPhase") (str (text "IDLE")) (
                    field (text "otaReason") (str (text "NONE")) (
                      field (text "githubAutomatic") (bool false)
                        (field (text "githubState") (str (text "AUTOMATIC_DISABLED")) end)))))))))))

-- `SAFE`
unfoldable pub safe_fields : List Text
safe_fields =
    text "deviceId"
    ∷ text "boardId"
    ∷ text "buildId"
    ∷ text "otaVersion"
    ∷ text "otaKeyId"
    ∷ text "configSchema"
    ∷ text "configRevision"
    ∷ text "otaBootState"
    ∷ text "otaPhase"
    ∷ text "otaHealthy"
    ∷ text "txBlocked"
    ∷ text "githubAutomatic"
    ∷ text "connected"
    ∷ text "mode"
    ∷ []

-- `{field: state[field] for field in names if field in state}`
unfoldable pub select : List Text → Fields → Fields
select [] state = end
select (k ∷ ks) state =
    let rest = select ks state in elim (get k state) [ none ↦ rest | some v ↦ field k v rest ]

-- `ready`
unfoldable pub ready : Fields → Fields → Result Fields
ready state profile = do
  require_all "Target/profile mismatch" state profile
  require_all "Target not ready" state required
  version ← item state (text "otaVersion")
  require (field_eq state (text "otaAttemptVersion") version) (refused "Unresolved OTA attempt")
  ok (select safe_fields state)

-- The dict that `verify` of the package returns.
unfoldable pub metadata_fields : Metadata → Fields
metadata_fields m = field (text "version") (int (pos m.manifest.version)) (
    field (text "imageSize") (int (pos m.manifest.image_size)) (
      field (text "minSchema") (int (pos m.manifest.min_schema)) (
        field (text "boardId") (str m.manifest.board_id) (
          field (text "buildId") (str m.manifest.build_id) (
            field (text "sha256") (str m.manifest.sha256) (
              field (text "minUpdater") (int (pos protocol)) (
                field (text "channel") (str (text "stable")) (
                  field (text "format") (str (text "DMOTA2")) (
                    field (text "headerBytes") (int (pos header_bytes)) (
                      field (text "keyId") (str m.key_id) (
                        field (text "packageSha256") (str m.package_sha256)
                          (field (text "packageSize") (int (pos m.package_size)) end))))))))))))

-- The last test of `candidate`, condition by condition.
unfoldable pub is_newer : Fields → Fields → Result Bool
is_newer metadata profile = do
  version ← item metadata (text "version")
  old ← item profile (text "otaVersion")
  less old version

unfoldable pub fits_schema : Fields → Fields → Result Bool
fits_schema metadata profile = do
  schema ← item metadata (text "minSchema")
  present ← item profile (text "configSchema")
  too_old ← less present schema
  ok (not too_old)

unfoldable pub fits_profile : Fields → Fields → Result Bool
fits_profile metadata profile =
    and_then (same_item metadata (text "keyId") profile (text "otaKeyId")) (
      and_then (ok (field_eq metadata (text "boardId") (str (text "m5stack-atom"))))
        (and_then (is_newer metadata profile) (fits_schema metadata profile)))

module _ (sha256 : Text → Text) (signed_by : Text → Text → Text → Bool) where
  -- `candidate`: the file is read twice, so the two contents are two arguments.
  unfoldable pub candidate : Text → Text → Text → Fields → Result (Fields × Text)
  candidate file again key profile = do
    m ← verify sha256 signed_by file key
    require (text_eq (hex (sha256 again)) m.package_sha256)
        (refused "Package changed after signature verification")
    fits ← fits_profile (metadata_fields m) profile
    require fits (refused "Candidate/profile mismatch")
    ok (metadata_fields m, again)
