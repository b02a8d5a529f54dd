-- ===== src/Ota/Deploy.antt =====
-- `deploy` of the controller: one attempt for a device, fenced by its private state file.
use dm_d5102q_rs485_bridge.Prelude.{
  String, Text, text, Bool, true, false, not, ◌||◌, Option, none, some, [], if◌then◌else◌,
}
use dm_d5102q_rs485_bridge.Prelude.Int.{ℤ, pos, ltb_ℤ}
use dm_d5102q_rs485_bridge.Value.{
  Value, bool, int, str, obj, Fields, end, field, get, get_or, put, field_eq, is_bool, truthy,
  bool_int,
}
use dm_d5102q_rs485_bridge.Exec.{
  Err, Result, ok, err, refused, type_error, value_error, attribute_error,
}
use dm_d5102q_rs485_bridge.Exec.Action.{Action, pure, raise, lift, gets, rescue, ◌>>=◌, ◌>>◌}
use dm_d5102q_rs485_bridge.Ota.World.{World, StateFile, write_state}
use dm_d5102q_rs485_bridge.Ota.Client.{Client, signed, status, hex32_or_refuse}
use dm_d5102q_rs485_bridge.Ota.Reconcile.{item, same_item, and_then, is_caught, reconcile}

-- What `load_release` returns.
pub record Release : Type 0 where
  pub metadata : Fields
  pub envelope : Text
  pub image : Text

-- What the call meets around it: whether the state directory is a real owner-only directory, and
-- whether no other deployment holds the device's lock.
pub record Setting : Type 0 where
  pub directory_private : Bool
  pub lock_free : Bool

-- `json.loads(private_file(path)) if path.exists() else {}`; a value that is no dict has no `get`.
unfoldable pub load_prior : Option StateFile → Result Fields
load_prior none = ok end
load_prior (some f) =
    if not f.owner_only
    then err (refused "Secret/state file must be a regular owner-only file (0600)")
    else elim f.content [
      | none ↦ err value_error
      | some (obj d) ↦ ok d
      | some _ ↦ err attribute_error
    ]

-- A JSON number as Python compares it: booleans are 0 and 1.
unfoldable pub as_int : Value → Result ℤ
as_int (int n) = ok n
as_int (bool b) = ok (bool_int b)
as_int _ = err type_error

-- `a < b` of two values
unfoldable pub less : Value → Value → Result Bool
unfolding as_int
less v w = elim (as_int v) [
  | err e ↦ err e
  | ok a ↦ elim (as_int w) [ err e ↦ err e | ok b ↦ ok (ltb_ℤ a b) ]
]

-- `not isinstance(current, int) or current >= version`
unfoldable pub not_newer : Option Value → Value → Result Bool
unfolding less as_int
not_newer none version = ok true
not_newer (some v) version = elim (as_int v) [
  | err e ↦ ok true
  | ok a ↦ elim (less v version) [ ok b ↦ ok (not b) | err e ↦ err e ]
]

-- `a or b`, where `b` is looked at only if `a` does not hold.
unfoldable pub or_else : Result Bool → Result Bool → Result Bool
or_else (ok true) r = ok true
or_else (ok false) r = r
or_else (err e) r = err e

unfoldable pub one_of : Fields → Text → Text → Text → Bool
one_of d k a b = field_eq d k (str a) || field_eq d k (str b)

abbrev pub deny : String → Bool → Result (Unit {0})
deny message true = err (refused message)
deny message false = ok tt

-- The first test after the status: the device is ready and trusts the release's key.
unfoldable pub unready : Fields → Fields → Result Bool
unready state metadata =
    if not (is_bool true (get (text "otaSupported") state))
      || not (is_bool true (get (text "otaHealthy") state))
    then ok true
    else elim (same_item state (text "otaKeyId") metadata (text "keyId")) [
      | ok same ↦ ok (not same)
      | err e ↦ err e
    ]

unfoldable pub already_current : Fields → Fields → Result Bool
already_current state metadata =
    and_then (same_item state (text "buildId") metadata (text "buildId")) (
      and_then (same_item state (text "otaVersion") metadata (text "version"))
        (ok (one_of state (text "otaBootState") (text "VALID") (text "USB_BASELINE"))))

unfoldable pub downgrade : Fields → Fields → Result Bool
downgrade state metadata = elim (item metadata (text "version")) [
  | err e ↦ err e
  | ok version ↦
      or_else (not_newer (get (text "otaVersion") state) version)
        (elim (item metadata (text "minSchema")) [
          | err e ↦ err e
          | ok schema ↦ less (get_or (text "configSchema") (int (pos 0)) state) schema
        ])
]

unfoldable pub busy : Fields → Bool
busy state =
    not (one_of state (text "otaPhase") (text "IDLE") (text "FAILED"))
    || field_eq state (text "otaBootState") (str (text "PENDING_VERIFY"))

-- `dict(status="IN_PROGRESS", …)`
unfoldable pub intent : Client → Fields → Result Fields
intent c metadata = elim (item metadata (text "buildId")) [
  | err e ↦ err e
  | ok build ↦ elim (item metadata (text "sha256")) [
    | err e ↦ err e
    | ok sha ↦ ok (
        field (text "status") (str (text "IN_PROGRESS")) (
          field (text "deviceId") (str c.device)
            (field (text "buildId") build (field (text "sha256") sha end))))
  ]
]

unfoldable pub with_status : String → Fields → Fields
with_status s d = put (text "status") (str (text s)) d

-- `{"status": …, "buildId": metadata["buildId"]}`
unfoldable pub outcome : String → Fields → Result Fields
outcome s metadata = elim (item metadata (text "buildId")) [
  | err e ↦ err e
  | ok build ↦ ok (field (text "status") (str (text s)) (field (text "buildId") build end))
]

-- The `except` of the attempt: the device is quarantined and the call fails.
unfoldable pub quarantine : {A : Type 0} → Fields → Action World A
quarantine d = do
  write_state (with_status "FAILED" d)
  raise (refused "Deployment unconfirmed and quarantined; image was not automatically retried")

-- `except (OSError, HTTPException, OtaError)` around the upload.
unfoldable pub is_lost_response : Err → Bool
is_lost_response (refused _) = true
is_lost_response Err.os_error = true
is_lost_response Err.http_error = true
is_lost_response _ = false

module _ (sha256 : Text → Text) (json_loads : Text → Option Value) where
  -- The prior attempt was interrupted: watch it, and never upload again.
  unfoldable pub resume_prior : Client → Release → Fields → Action World Fields
  resume_prior c release prior = do
    same ← lift (same_item prior (text "sha256") release.metadata (text "sha256"))
    lift (
        deny "Interrupted deployment requires explicit reconciliation; no new upload"
          (not same || not (truthy (get (text "transaction") prior))))
    token ← lift (item prior (text "transaction"))
    success ← reconcile sha256 json_loads 45 c release.metadata token
    write_state (with_status (if success then "SUCCESS" else "FAILED") prior)
    lift (deny "Prior deployment was not confirmed; quarantined" (not success))
    lift (outcome "SUCCESS" release.metadata)

  -- `POST …/prepare`, and the token that the device gives.
  unfoldable pub prepare : Client → Release → Fields → Action World Text
  prepare c release state = do
    csrf ← lift (item state (text "csrfToken"))
    prepared ←
        signed sha256 json_loads c "POST" "/api/v1/ota/prepare" release.envelope csrf (str [])
    lift (hex32_or_refuse "Missing upload token" (get_or (text "uploadToken") (str []) prepared))

  unfoldable pub upload : Client → Release → Fields → Text → Action World Fields
  upload c release state token = do
    csrf ← lift (item state (text "csrfToken"))
    signed sha256 json_loads c "POST" "/api/v1/ota/upload" release.image csrf (str token)

  -- From the token to the verdict. A lost answer to the upload is no reason to send it again.
  unfoldable pub transfer : Client → Release → Fields → Text → Fields → Action World (Unit {0})
  transfer c release state token d = do
    write_state d
    rescue (upload c release state token) is_lost_response (λ _. pure end)
    success ← reconcile sha256 json_loads 45 c release.metadata (str token)
    lift (deny "Candidate was not confirmed" (not success))

  -- The `try` block. `record` gains the token halfway, so what an exception writes depends on how
  -- far the block has come.
  unfoldable pub attempt : Client → Release → Fields → Fields → Action World Fields
  attempt c release state d = do
    token ← rescue (prepare c release state) is_caught (λ _. quarantine d)
    let d' = put (text "transaction") (str token) d
    rescue (transfer c release state token d') is_caught (λ _. quarantine d')
    pure d'

  -- From the intent on, which is written before the device is asked to change.
  unfoldable pub carry_out : Client → Release → Fields → Fields → Action World Fields
  carry_out c release state d = do
    write_state d
    done ← attempt c release state d
    write_state (with_status "SUCCESS" done)
    result ← lift (outcome "SUCCESS" release.metadata)
    sha ← lift (item release.metadata (text "sha256"))
    pure (put (text "sha256") sha result)

  unfoldable pub start : Client → Release → Fields → Action World Fields
  start c release state = do
    old ← lift (downgrade state release.metadata)
    lift (deny "Downgrade/schema policy rejected" old)
    lift (deny "Updater is busy or awaiting confirmation" (busy state))
    d ← lift (intent c release.metadata)
    carry_out c release state d

  -- The device has no open attempt.
  unfoldable pub deploy_fresh : Client → Release → Action World Fields
  deploy_fresh c release = do
    state ← status sha256 json_loads c
    wrong ← lift (unready state release.metadata)
    lift (deny "OTA readiness or signing-key identity mismatch" wrong)
    current ← lift (already_current state release.metadata)
    if current then lift (outcome "ALREADY_CURRENT" release.metadata) else start c release state

  unfoldable pub deploy_prior : Client → Release → Fields → Action World Fields
  deploy_prior c release prior =
      if one_of prior (text "status") (text "FAILED") (text "UNKNOWN")
      then raise (refused "Device deployment is quarantined; review recovery before a new attempt")
      else if field_eq prior (text "status") (str (text "IN_PROGRESS"))
      then resume_prior c release prior
      else deploy_fresh c release

  -- `deploy`, after `load_release`.
  unfoldable pub deploy : Setting → Client → Release → Action World Fields
  deploy setting c release = do
    lift (deny "Deployment state directory must be owner-only" (not setting.directory_private))
    lift (deny "Another deployment owns this device" (not setting.lock_free))
    file ← gets (λ w. w.saved)
    prior ← lift (load_prior file)
    deploy_prior c release prior
