-- ===== src/Tests/Controller.antt =====
-- A device that takes one release, for scripts/ota_controller.py.
use dm_d5102q_rs485_bridge.Prelude.{
  all, refl, ◌≡◌, ◌≤◌, ◌≡◌, ◌≤◌, text_mem, text_eq, ◌==◌, if◌then◌else◌, ℕ, Text, text, true,
  Option, none, some, [], ◌∷◌, replicate,
}
use dm_d5102q_rs485_bridge.Prelude.Int.{pos}
use dm_d5102q_rs485_bridge.Value.{
  bool_int, truthy, is_bool, value_eq, field_eq, put, get_or, get, Value, Fields, end, field, str,
  int, bool, obj,
}
use dm_d5102q_rs485_bridge.Exec.{err, Err, Result}
use dm_d5102q_rs485_bridge.Ota.World.{
  write_state, sleep, decode, note_received, exchange, later_faults, next_fault, later_replies,
  next_reply, World, Reply, answered,
}
use dm_d5102q_rs485_bridge.Ota.Client.{
  status, check_status, signed, authorize, optional_hex32, count_request, challenge_nonce, raw,
  colon, digest, hex32_or_refuse, Client,
}
use dm_d5102q_rs485_bridge.Ota.Deploy.{
  deploy_prior, deploy_fresh, start, carry_out, attempt, transfer, upload, prepare, outcome,
  with_status, intent, busy, downgrade, already_current, unready, one_of, or_else, not_newer, less,
  as_int, load_prior, Release, Setting, deploy,
}
use dm_d5102q_rs485_bridge.Ota.Trace.{sends}
use dm_d5102q_rs485_bridge.Bytes.{hex8, hex}
use dm_d5102q_rs485_bridge.Ota.Fence.{IsFenced, fenced}
use dm_d5102q_rs485_bridge.Ota.Safety.{
  deploy_success-Settled, deploy_prepares_once, deploy-IsFenced, deploy_uploads_once,
}
use dm_d5102q_rs485_bridge.Exec.Action.{◌>>=◌, rescue, handle, resume, gets, lift, raise, pure}
use dm_d5102q_rs485_bridge.Patterns.{is_hex32, is_hex_char, is_digit}
use dm_d5102q_rs485_bridge.Ota.Reconcile.{
  reconcile, watch, poll, judge, judge_other, judge_ours, is_caught, runs_release, and_then,
  same_item, item,
}
use dm_d5102q_rs485_bridge.Ota.Settled.{Settled}
use dm_d5102q_rs485_bridge.Ota.Quarantine.{deploy_quarantined, deploy_resumes_without_upload}
use dm_d5102q_rs485_bridge.Ota.Termination.{reconcile_ends, Ended}

-- A digest of the right length.
abbrev zero_digest : Text → Text
zero_digest t = replicate 32 0

abbrev token : Text
token = replicate 32 48

abbrev challenge : Fields
challenge = field (text "realm") (str (text "DM-BRIDGE-USB")) (
    field (text "algorithm") (str (text "SHA-256"))
      (field (text "qop") (str (text "auth")) (field (text "nonce") (str token) end)))

-- The fields that each status has.
abbrev status_of : Text → ℕ → Fields → Fields
status_of build version d = field (text "deviceId") (str (text "dm-bridge-abcdef")) (
    field (text "boardId") (str (text "m5stack-atom")) (
      field (text "txBlocked") (bool true) (
        field (text "otaKeyId") (str (text "k")) (
          field (text "buildId") (str build) (
            field (text "otaVersion") (int (pos version))
              (field (text "otaBootState") (str (text "VALID")) d))))))

abbrev before : Fields
before = status_of (text "b1") 1 (
    field (text "otaSupported") (bool true) (
      field (text "otaHealthy") (bool true) (
        field (text "configSchema") (int (pos 1)) (
          field (text "otaPhase") (str (text "IDLE")) (field (text "csrfToken") (str token) end)))))

abbrev after : Fields
after = status_of (text "b2") 2 (field (text "otaTransaction") (str token) end)

-- Each body of the run is a single byte.
unfoldable sample_loads : Text → Option Value
sample_loads [] = none
sample_loads (n ∷ _) =
    if n == 1
    then some (obj challenge)
    else if n == 2
    then some (obj before)
    else if n == 3
    then some (obj (field (text "uploadToken") (str token) end))
    else if n == 4
    then some (obj end)
    else if n == 5
    then some (obj after)
    else none

abbrev reply : ℕ → Reply
reply n = record { elapsed = 5; outcome = answered 200 (n ∷ []) }

abbrev first_world : World
first_world = record {
  nonce = [];
  count = 0;
  now = 0;
  replies = reply 1 ∷ reply 2 ∷ reply 1 ∷ reply 3 ∷ reply 1 ∷ reply 4 ∷ reply 1 ∷ reply 5 ∷ [];
  disk_faults = [];
  saved = none;
  trace = [];
}

abbrev sample_client : Client
sample_client = record {
  host = text "device.lan";
  key = replicate 20 65;
  device = text "dm-bridge-abcdef";
  cnonce = token;
}

abbrev sample_release : Release
sample_release = record {
  metadata = field (text "buildId") (str (text "b2")) (
      field (text "version") (int (pos 2)) (
        field (text "keyId") (str (text "k"))
          (field (text "minSchema") (int (pos 1)) (field (text "sha256") (str (text "s")) end))));
  envelope = 1 ∷ [];
  image = 2 ∷ [];
}

abbrev open_setting : Setting
open_setting = record { directory_private = true; lock_free = true }

abbrev run : Result Fields × World
run = deploy zero_digest sample_loads open_setting sample_client sample_release first_world

run-trace : sends "/api/v1/ota/upload" run.1.trace ≡ 1
unfolding all text text_eq text_mem hex hex8 get get_or put field_eq value_eq is_bool truthy
    bool_int pure raise lift gets resume ◌>>=◌ handle rescue is_digit is_hex_char is_hex32
    next_reply later_replies next_fault later_faults exchange note_received decode sleep write_state
    hex32_or_refuse digest colon raw challenge_nonce count_request optional_hex32 authorize signed
    check_status status item same_item and_then runs_release is_caught judge_ours judge_other judge
    poll watch reconcile load_prior as_int less not_newer or_else one_of unready already_current
    downgrade busy intent with_status outcome prepare upload transfer attempt carry_out start
    deploy_fresh deploy_prior deploy sends sample_loads
run-trace = refl

deploy_uploads_once_example : sends "/api/v1/ota/upload" run.1.trace ≤ 1
unfolding sends
deploy_uploads_once_example =
    deploy_uploads_once zero_digest sample_loads open_setting sample_client sample_release
      first_world

deploy_prepares_once_example : sends "/api/v1/ota/prepare" run.1.trace ≤ 1
unfolding sends
deploy_prepares_once_example =
    deploy_prepares_once zero_digest sample_loads open_setting sample_client sample_release
      first_world

deploy-IsFenced_example : IsFenced run.1
unfolding fenced
deploy-IsFenced_example =
    deploy-IsFenced zero_digest sample_loads open_setting sample_client sample_release first_world
      refl

deploy_success-Settled_example : Settled sample_release.metadata run.1
unfolding all text text_eq text_mem hex hex8 get get_or put field_eq value_eq is_bool truthy
    bool_int pure raise lift gets resume ◌>>=◌ handle rescue is_digit is_hex_char is_hex32
    next_reply later_replies next_fault later_faults exchange note_received decode sleep write_state
    hex32_or_refuse digest colon raw challenge_nonce count_request optional_hex32 authorize signed
    check_status status item same_item and_then runs_release is_caught judge_ours judge_other judge
    poll watch reconcile load_prior as_int less not_newer or_else one_of unready already_current
    downgrade busy intent with_status outcome prepare upload transfer attempt carry_out start
    deploy_fresh deploy_prior deploy sample_loads
deploy_success-Settled_example =
    deploy_success-Settled zero_digest sample_loads open_setting sample_client sample_release
      first_world refl refl

reconcile_ends_example :
    Ended
      (reconcile zero_digest sample_loads 45 sample_client sample_release.metadata
        (str token)
        first_world).0
reconcile_ends_example =
    reconcile_ends zero_digest sample_loads sample_client sample_release.metadata (str token) 45
      first_world

abbrev prior_of : Text → Fields
prior_of s = field (text "status") (str s) end

-- The world of a controller that finds an earlier attempt.
abbrev with_prior : Text → World
with_prior s = record first_world {
  saved = some (record { owner_only = true; content = some (obj (prior_of s)) });
}

deploy_quarantined_example :
    (e : Err) × (deploy zero_digest sample_loads open_setting sample_client sample_release
        (with_prior (text "FAILED"))
      ≡ (err e, with_prior (text "FAILED")))
unfolding text text_eq one_of field_eq get value_eq
deploy_quarantined_example =
    deploy_quarantined zero_digest sample_loads sample_client sample_release open_setting
      (with_prior (text "FAILED")) (prior_of (text "FAILED")) refl refl

deploy_resumes_without_upload_example :
    (sends "/api/v1/ota/upload"
        (deploy zero_digest sample_loads open_setting sample_client sample_release
          (with_prior (text "IN_PROGRESS"))).1.trace
      ≤ 0)
    × (sends "/api/v1/ota/prepare"
          (deploy zero_digest sample_loads open_setting sample_client sample_release
            (with_prior (text "IN_PROGRESS"))).1.trace
        ≤ 0)
unfolding text text_eq field_eq get value_eq sends
deploy_resumes_without_upload_example =
    deploy_resumes_without_upload zero_digest sample_loads sample_client sample_release open_setting
      (with_prior (text "IN_PROGRESS")) (prior_of (text "IN_PROGRESS")) refl refl
