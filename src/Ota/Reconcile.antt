-- ===== src/Ota/Reconcile.antt =====
-- `reconcile` of the controller: it watches the device until the deadline, and never uploads.
use dm_d5102q_rs485_bridge.Prelude.{
  ℕ, zero, suc, ◌+◌, ◌*◌, Text, text, Bool, true, false, ◌&&◌, Option, none, some, [],
  if◌then◌else◌, ltb,
}
use dm_d5102q_rs485_bridge.Value.{Value, Fields, str, get, field_eq, is_bool}
use dm_d5102q_rs485_bridge.Exec.{Err, Result, ok, err, key_error}
use dm_d5102q_rs485_bridge.Exec.Action.{Action, pure, raise, lift, gets, rescue, ◌>>=◌, ◌>>◌}
use dm_d5102q_rs485_bridge.Ota.World.{World, sleep}
use dm_d5102q_rs485_bridge.Ota.Client.{Client, signed, status}

-- `d[key]`
unfoldable pub item : Fields → Text → Result Value
item d k = elim (get k d) [ none ↦ err key_error | some v ↦ ok v ]

-- `state.get(a) == metadata[b]`
unfoldable pub same_item : Fields → Text → Fields → Text → Result Bool
same_item state a metadata b = elim (item metadata b) [
  | ok v ↦ ok (field_eq state a v)
  | err e ↦ err e
]

-- `a and b`, where `b` may raise and is looked at only if `a` holds.
unfoldable pub and_then : Result Bool → Result Bool → Result Bool
and_then (ok true) r = r
and_then (ok false) r = ok false
and_then (err e) r = err e

-- The device runs the release, for this transaction.
unfoldable pub runs_release : Fields → Fields → Value → Result Bool
runs_release state metadata token =
    and_then (same_item state (text "buildId") metadata (text "buildId")) (
      and_then (same_item state (text "otaVersion") metadata (text "version")) (
        and_then (same_item state (text "otaKeyId") metadata (text "keyId"))
          (ok (field_eq state (text "otaTransaction") token))))

-- The exceptions of `except (OSError, HTTPException, OtaError, ValueError, KeyError)`.
unfoldable pub is_caught : Err → Bool
is_caught Err.type_error = false
is_caught Err.attribute_error = false
is_caught Err.diverged = false
is_caught _ = true

module _ (sha256 : Text → Text) (json_loads : Text → Option Value) where
  -- One look at a status: a verdict, or `none` to go on.
  unfoldable pub confirm : Client → Value → Fields → Action World (Option Bool)
  confirm c token state = do
    csrf ← lift (item state (text "csrfToken"))
    signed sha256 json_loads c "POST" "/api/v1/ota/confirm" [] csrf token
    pure none

  unfoldable pub judge_ours : Client → Value → Fields → Action World (Option Bool)
  judge_ours c token state =
      if field_eq state (text "otaBootState") (str (text "VALID"))
      then pure (some true)
      else if field_eq state (text "otaBootState") (str (text "PENDING_VERIFY"))
          && is_bool true (get (text "otaHealthy") state)
      then confirm c token state
      else pure none

  unfoldable pub judge_other : Value → Fields → Action World (Option Bool)
  judge_other token state =
      if field_eq state (text "otaBootState") (str (text "ROLLED_BACK_OR_INTERRUPTED"))
        && field_eq state (text "otaTransaction") token
      then pure (some false)
      else pure none

  unfoldable pub judge : Client → Fields → Value → Fields → Action World (Option Bool)
  judge c metadata token state = do
    ours ← lift (runs_release state metadata token)
    if ours then judge_ours c token state else judge_other token state

  unfoldable pub poll : Client → Fields → Value → Action World (Option Bool)
  poll c metadata token = do state ← status sha256 json_loads c; judge c metadata token state

  unfoldable pub watch : ℕ → ℕ → Client → Fields → Value → Action World Bool
  watch zero deadline c metadata token = raise Err.diverged
  watch (suc fuel) deadline c metadata token = do
    now ← gets (λ w. w.now)
    elim (ltb now deadline) [
      | false ↦ pure false
      | true ↦ do
        verdict ← rescue (poll c metadata token) is_caught (λ _. pure none)
        elim verdict [ some v ↦ pure v | none ↦ do sleep; watch fuel deadline c metadata token ]
    ]

  -- `seconds` is 45 in every call. Each round sleeps for a second, so that many rounds and one
  -- test of the clock are enough.
  unfoldable pub reconcile : ℕ → Client → Fields → Value → Action World Bool
  reconcile seconds c metadata token = do
    started ← gets (λ w. w.now)
    watch (seconds + 1) (started + 1000 * seconds) c metadata token
