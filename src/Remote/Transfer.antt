-- ===== src/Remote/Transfer.antt =====
-- The transfer of scripts/dmota_remote.py: the fence, the one upload and the watch behind it. The
-- state file of the world is the fence.
use dm_d5102q_rs485_bridge.Prelude.{
  ◌∷◌, ℕ, zero, suc, ◌+◌, ◌*◌, Text, text, true, false, not, ◌&&◌, Option, none, some, [], ◌++◌,
  if◌then◌else◌, ltb, take, drop,
}
use dm_d5102q_rs485_bridge.Value.{
  Value, str, obj, Fields, end, field, get, get_or, put, value_eq, field_eq, truthy,
}
use dm_d5102q_rs485_bridge.Bytes.{hex}
use dm_d5102q_rs485_bridge.Patterns.{is_hex32}
use dm_d5102q_rs485_bridge.Exec.{Err, Result, ok, err, refused, os_error, type_error, value_error}
use dm_d5102q_rs485_bridge.Exec.Action.{Action, pure, raise, lift, gets, rescue, ◌>>=◌, ◌>>◌}
use dm_d5102q_rs485_bridge.Ota.World.{
  World, wrote, StateFile, next_fault, later_faults, sleep, write_state,
}
use dm_d5102q_rs485_bridge.Ota.Client.{Client, signed, status}
use dm_d5102q_rs485_bridge.Ota.Reconcile.{item, same_item, is_caught}
use dm_d5102q_rs485_bridge.Ota.Deploy.{deny}
use dm_d5102q_rs485_bridge.Remote.{ready}

-- `os.open(path, O_WRONLY | O_CREAT | O_EXCL, 0o600)`: never over another file.
unfoldable pub create : Action World (Unit {0})
create w = elim w.saved [
  | some f ↦ (err os_error, w)
  | none ↦
      if next_fault w.disk_faults
      then (err os_error, record w { disk_faults = later_faults w.disk_faults })
      else (
        ok tt,
        record w {
          disk_faults = later_faults w.disk_faults;
          saved = some (record { owner_only = true; content = none });
        },
      )
]

-- The write to the new file. A write that fails leaves the file, without a JSON value.
unfoldable pub fill : Fields → Action World (Unit {0})
fill d w =
    if next_fault w.disk_faults
    then (err os_error, record w { disk_faults = later_faults w.disk_faults })
    else (
      ok tt,
      record w {
        disk_faults = later_faults w.disk_faults;
        saved = some (record { owner_only = true; content = some (obj d) });
        trace = wrote d ∷ w.trace;
      },
    )

-- `os.open` and `os.fsync` of the directory
unfoldable pub sync_directory : Action World (Unit {0})
sync_directory w = (
  if next_fault w.disk_faults then err os_error else ok tt,
  record w { disk_faults = later_faults w.disk_faults },
)

-- `reserve`
unfoldable pub reserve : Fields → Action World (Unit {0})
reserve d = do create; fill d; sync_directory

-- `self.origin`
unfoldable pub origin : Client → Text
origin c = text "http://" ++ c.host

-- `v[key]` of a value that should be a dict
unfoldable pub member : Value → Text → Result Value
member (obj d) k = item d k
member _ k = err type_error

-- `expected` of `reconcile`
unfoldable pub expected_profile : Fields → Result Fields
expected_profile d = elim (item d (text "profile")) [
  | err e ↦ err e
  | ok profile ↦ elim (item d (text "candidate")) [
    | err e ↦ err e
    | ok candidate ↦ elim (member candidate (text "version")) [
      | err e ↦ err e
      | ok version ↦ elim (member candidate (text "buildId")) [
        | err e ↦ err e
        | ok build ↦ elim profile [
          | obj p ↦ ok (put (text "buildId") build (put (text "otaVersion") version p))
          | _ ↦ err type_error
        ]
      ]
    ]
  ]
]

-- What one status says: the result, or `none` to go on.
unfoldable pub verdict : Fields → Fields → Fields → Result (Option Fields)
verdict d expected state = elim (same_item state (text "otaVersion") expected (text "otaVersion")) [
  | err e ↦ err e
  | ok false ↦ ok none
  | ok true ↦ elim (same_item state (text "otaTransaction") d (text "transaction")) [
    | err e ↦ err e
    | ok false ↦ err (refused "Transaction mismatch")
    | ok true ↦
        if field_eq state (text "otaBootState") (str (text "VALID"))
        then (elim (ready state expected) [ err e ↦ err e | ok r ↦ ok (some r) ])
        else ok none
  ]
]

-- The verdict on a status that was read, if one was.
unfoldable pub verdict_if_read : Fields → Fields → Option Fields → Result (Option Fields)
verdict_if_read d expected none = ok none
verdict_if_read d expected (some state) = verdict d expected state

module _ (sha256 : Text → Text) (json_loads : Text → Option Value) where
  unfoldable pub read_status : Client → Action World (Option Fields)
  read_status c = do state ← status sha256 json_loads c; pure (some state)

  unfoldable pub watch : ℕ → ℕ → Client → Fields → Fields → Action World Fields
  watch zero deadline c d expected = raise Err.diverged
  watch (suc fuel) deadline c d expected = do
    now ← gets (λ w. w.now)
    elim (ltb now deadline) [
      | false ↦ raise (refused "Outcome unconfirmed; use reconcile, never repeat upload")
      | true ↦ do
        state ← rescue (read_status c) is_caught (λ _. pure none)
        found ← lift (verdict_if_read d expected state)
        elim found [ some r ↦ pure r | none ↦ do sleep; watch fuel deadline c d expected ]
    ]

  -- `reconcile`; each round sleeps for a second, so that many rounds and one test of the clock are
  -- enough.
  unfoldable pub reconcile : ℕ → Client → Fields → Action World Fields
  reconcile seconds c d = do
    expected ← lift (expected_profile d)
    started ← gets (λ w. w.now)
    watch (seconds + 1) (started + 1000 * seconds) c d expected

  -- The status, checked against the profile.
  unfoldable pub preflight : Client → Fields → Action World Fields
  preflight c profile = do
    before ← status sha256 json_loads c
    lift (ready before profile)
    pure before

  unfoldable pub upload_token : Fields → Result Text
  upload_token prepared = elim (get_or (text "uploadToken") (str []) prepared) [
    | str t ↦ if is_hex32 t then ok t else err (refused "Invalid upload token")
    | _ ↦ err (refused "Invalid upload token")
  ]

  -- The watch, and the record of its success.
  unfoldable pub settle : Client → Fields → Action World Fields
  settle c d = do
    result ← reconcile 90 c d
    write_state (put (text "phase") (str (text "VALID")) d)
    pure result

  -- From the token on.
  unfoldable pub send_image : Client → Text → Fields → Text → Fields → Action World Fields
  send_image c content before token d = do
    write_state d
    rescue
        (do
          csrf ← lift (item before (text "csrfToken"))
          signed sha256 json_loads c "POST" "/api/v1/ota/upload" (drop 192 content) csrf
              (str token))
        is_caught (λ _. pure end)
    settle c d

  unfoldable pub transfer : Client → Fields → Text → Fields → Action World Fields
  transfer c profile content d = do
    before ← preflight c profile
    csrf ← lift (item before (text "csrfToken"))
    prepared ←
        signed sha256 json_loads c "POST" "/api/v1/ota/file/prepare" (take 192 content) csrf
          (str [])
    token ← lift (upload_token prepared)
    send_image c content before token (
        put (text "phase") (str (text "UPLOAD_MAY_HAVE_STARTED"))
          (put (text "transaction") (str token) d))

  -- `deploy`
  unfoldable pub deploy : Client → Fields → Fields → Text → Action World Fields
  deploy c profile metadata content = do
    digest ← lift (item metadata (text "packageSha256"))
    lift (deny "Package digest mismatch" (not (value_eq (str (hex (sha256 content))) digest)))
    preflight c profile
    let d = field (text "profile") (obj profile) (
        field (text "candidate") (obj metadata) (
          field (text "origin") (str (origin c))
            (field (text "phase") (str (text "RESERVED")) end)))
    reserve d
    transfer c profile content d

  -- `json.loads(ota.private_file(fence))`, which is then indexed.
  unfoldable pub load_fence : Option StateFile → Result Fields
  load_fence none = err os_error
  load_fence (some f) =
      if not f.owner_only
      then err (refused "Secret/state file must be a regular owner-only file (0600)")
      else elim f.content [ none ↦ err value_error | some (obj d) ↦ ok d | some _ ↦ err type_error ]

  -- The `reconcile` command of `main`, after `fence_path`.
  unfoldable pub resume : Client → Fields → Action World Fields
  resume c profile = do
    file ← gets (λ w. w.saved)
    d ← lift (load_fence file)
    mine ← lift (item d (text "profile"))
    here ← lift (if value_eq mine (obj profile) then item d (text "origin") else ok (str []))
    lift (
        deny "Fence/profile/origin mismatch"
          (not (value_eq mine (obj profile) && value_eq here (str (origin c)))))
    lift (
        deny "Prepare outcome unknown; inspect manually, no retry"
          (not (truthy (get (text "transaction") d))))
    settle c d
