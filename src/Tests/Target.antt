-- ===== src/Tests/Target.antt =====
-- A target of scripts/dmota_remote.py.
use dm_d5102q_rs485_bridge.Prelude.{
  all, all, ◌≡◌, refl, ◌≤◌, Text, text, text_eq, text_mem, true, Option, none, some, [], ◌∷◌,
  replicate,
}
use dm_d5102q_rs485_bridge.Prelude.Int.{pos}
use dm_d5102q_rs485_bridge.Value.{
  bool_int, Value, Fields, end, field, str, int, obj, get, value_eq, merge, put, field_eq,
}
use dm_d5102q_rs485_bridge.Exec.{Err, err}
use dm_d5102q_rs485_bridge.Ota.World.{World, StateFile}
use dm_d5102q_rs485_bridge.Ota.Client.{Client}
use dm_d5102q_rs485_bridge.Ota.Trace.{sends}
use dm_d5102q_rs485_bridge.Ota.Reconcile.{item}
use dm_d5102q_rs485_bridge.Remote.{
  same_type, has_exactly, require_all, required, safe_fields, select, ready,
}
use dm_d5102q_rs485_bridge.Remote.Transfer.{deploy, resume}
use dm_d5102q_rs485_bridge.Remote.Once.{deploy-sends_once}
use dm_d5102q_rs485_bridge.Remote.Blocked.{deploy_blocked, resume_never_mutates, Unsent}
use dm_d5102q_rs485_bridge.Remote.Ready.{Has, Exactly, ready_sound}

abbrev profile : Fields
profile =
    field (text "deviceId") (str (text "dm-bridge-abcdef"))
      (field (text "otaVersion") (int (pos 1)) end)

abbrev extra : Fields
extra =
    field (text "otaAttemptVersion") (int (pos 1))
      (field (text "csrfToken") (str (replicate 32 48)) profile)

unfoldable state : Fields
unfolding merge put required text text_eq
state = merge required extra

abbrev digest : Text → Text
digest t = t

unfoldable loads : Text → Option Value
loads t = some (obj state)

abbrev client : Client
client = record {
  host = text "device.lan";
  key = replicate 20 65;
  device = text "dm-bridge-abcdef";
  cnonce = replicate 32 48;
}

abbrev metadata : Fields
metadata = field (text "packageSha256") (str (text "00")) end

abbrev fence : StateFile
fence = record { owner_only = true; content = none }

abbrev world : Option StateFile → World
world saved = record {
  nonce = [];
  count = 0;
  now = 0;
  replies = [];
  disk_faults = [];
  saved = saved;
  trace = [];
}

deploy-sends_once_example :
    (sends "/api/v1/ota/upload"
        (deploy digest loads client profile metadata (0 ∷ []) (world none)).1.trace
      ≤ 1)
    × (sends "/api/v1/ota/file/prepare"
          (deploy digest loads client profile metadata (0 ∷ []) (world none)).1.trace
        ≤ 1)
unfolding sends
deploy-sends_once_example =
    deploy-sends_once digest loads client profile metadata (0 ∷ []) (world none)

deploy_blocked_example :
    ((e : Err) × ((deploy digest loads client profile metadata (0 ∷ []) (world (some fence))).0
        ≡ err e))
    × ((deploy digest loads client profile metadata (0 ∷ []) (world (some fence))).1.saved
        ≡ some fence)
    × Unsent
        (world (some fence))
        (deploy digest loads client profile metadata (0 ∷ []) (world (some fence))).1
deploy_blocked_example =
    deploy_blocked digest loads client profile metadata (0 ∷ []) (world (some fence)) refl

resume_never_mutates_example :
    (sends "/api/v1/ota/upload" (resume digest loads client profile (world (some fence))).1.trace
      ≤ 0)
    × (sends "/api/v1/ota/file/prepare"
          (resume digest loads client profile (world (some fence))).1.trace
        ≤ 0)
unfolding sends
resume_never_mutates_example = resume_never_mutates digest loads client profile (world (some fence))

abbrev shown : Fields
shown = select safe_fields state

ready_sound_example :
    ((k : Text) (v : Value) → Has k v profile → Exactly state k v)
    × ((k : Text) (v : Value) → Has k v required → Exactly state k v)
    × ((k : Text) (v : Value)
        → get k shown ≡ some v
        → (text_mem k safe_fields ≡ true) × (get k state ≡ some v))
unfolding all select safe_fields ready require_all has_exactly same_type value_eq bool_int item
    field_eq get text text_eq state merge put required
ready_sound_example = ready_sound state profile refl
