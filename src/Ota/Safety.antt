-- ===== src/Ota/Safety.antt =====
-- What a call of `deploy` may do to a device.
use dm_d5102q_rs485_bridge.Prelude.{◌≡◌, true, ◌+◌, ◌≤◌, refl, Text, Option}
use dm_d5102q_rs485_bridge.Value.{Value, Fields}
use dm_d5102q_rs485_bridge.Ota.World.{World}
use dm_d5102q_rs485_bridge.Ota.Client.{Client}
use dm_d5102q_rs485_bridge.Ota.Deploy.{Release, Setting, deploy}
use dm_d5102q_rs485_bridge.Ota.Trace.{sends}
use dm_d5102q_rs485_bridge.Ota.Sends.{signed-AtMost, signed-AtMost_other}
use dm_d5102q_rs485_bridge.Ota.Attempts.{deploy-AtMost}
use dm_d5102q_rs485_bridge.Ota.Fence.{IsFenced}
use dm_d5102q_rs485_bridge.Ota.FencedDeploy.{deploy-Keeps}
use dm_d5102q_rs485_bridge.Exec.{Result, ok, err, ok-injective}
use dm_d5102q_rs485_bridge.Ota.Confirmed.{AnyErr}
use dm_d5102q_rs485_bridge.Ota.Settled.{Settled, is_success, deploy-Reported}
use dm_d5102q_rs485_bridge.Exec.Action.{Ends}

module _ (sha256 : Text → Text) (json_loads : Text → Option Value) (setting : Setting) (c : Client)
    (release : Release) where
  -- A call of `deploy` sends at most one image, whatever the device answers, however the writes of
  -- the state file end, and whatever an earlier call has left in it.
  pub deploy_uploads_once :
      (w : World)
      → sends "/api/v1/ota/upload" (deploy sha256 json_loads setting c release w).1.trace
        ≤ sends "/api/v1/ota/upload" w.trace + 1
  deploy_uploads_once =
      (deploy-AtMost sha256 json_loads "/api/v1/ota/upload" refl refl refl 0 1
        (λ c body csrf token.
          signed-AtMost_other sha256 json_loads "/api/v1/ota/upload" refl c _ _ body csrf token
            refl)
        (λ c body csrf token.
          signed-AtMost sha256 json_loads "/api/v1/ota/upload" refl c _ _ body csrf token)
        setting c release).at

  -- A call of `deploy` asks the device at most once to prepare for an image.
  pub deploy_prepares_once :
      (w : World)
      → sends "/api/v1/ota/prepare" (deploy sha256 json_loads setting c release w).1.trace
        ≤ sends "/api/v1/ota/prepare" w.trace + 1
  deploy_prepares_once =
      (deploy-AtMost sha256 json_loads "/api/v1/ota/prepare" refl refl refl 1 0
        (λ c body csrf token.
          signed-AtMost sha256 json_loads "/api/v1/ota/prepare" refl c _ _ body csrf token)
        (λ c body csrf token.
          signed-AtMost_other sha256 json_loads "/api/v1/ota/prepare" refl c _ _ body csrf token
            refl)
        setting c release).at

  -- Each request of `deploy` to prepare for an image or to take one is sent while the last state
  -- that was written is an attempt in progress, so a controller that stops at any point leaves the
  -- intent behind it.
  pub deploy-IsFenced :
      (w : World) → IsFenced w → IsFenced (deploy sha256 json_loads setting c release w).1
  deploy-IsFenced w f = either _ _ ((deploy-Keeps sha256 json_loads setting c release).at w f)
    where
      either :
          (r : Result Fields) (v : World) → Ends (λ _. IsFenced) (λ _. IsFenced) r v → IsFenced v
      either (ok a) v x = x
      either (err e) v x = x

  -- A result `SUCCESS` of `deploy` means that the device has answered, as its last answer, that it
  -- runs the release's build, version and key for a transaction, and is `VALID`, and that the
  -- success was then recorded in the state file.
  pub deploy_success-Settled :
      (w : World) {r : Fields}
      → (deploy sha256 json_loads setting c release w).0 ≡ ok r
      → is_success r ≡ true
      → Settled release.metadata (deploy sha256 json_loads setting c release w).1
  deploy_success-Settled w {r} e h =
      reported _ _ e ((deploy-Reported sha256 json_loads setting c release).at w tt)
    where
      reported :
          (t : Result Fields) (v : World)
          → t ≡ ok r
          → Ends {A = Fields} (λ a v'. is_success a ≡ true → Settled release.metadata v') AnyErr t v
          → Settled release.metadata v
      reported (ok a) v eq x = x (rw (ok-injective eq) h)
      reported (err e) v eq x = cc
