-- ===== src/Remote/Once.antt =====
-- How often the transfer of scripts/dmota_remote.py sends.
use dm_d5102q_rs485_bridge.Prelude.{
  ◌≡◌, refl, ℕ, zero, suc, ◌+◌, ◌≤◌, arith, Text, String, Option, none, some, Bool, true, false,
  ltb,
}
use dm_d5102q_rs485_bridge.Value.{Value, Fields}
use dm_d5102q_rs485_bridge.Exec.Action.{Action, pure}
use dm_d5102q_rs485_bridge.Ota.World.{World}
use dm_d5102q_rs485_bridge.Ota.Client.{Client, signed}
use dm_d5102q_rs485_bridge.Ota.Trace.{
  same_path, sends, AtMost, AtMost-bind, AtMost-rescue, AtMost-weaken, AtMost-bind_quiet,
  AtMost-write_state, AtMost-pure, AtMost-raise, at_most_rules,
}
use dm_d5102q_rs485_bridge.Ota.Sends.{status-AtMost, signed-AtMost, signed-AtMost_other}
use dm_d5102q_rs485_bridge.Remote.Transfer.{
  create, fill, sync_directory, reserve, read_status, watch, reconcile, preflight, settle,
  send_image, transfer, deploy, resume,
}

module _ (path : String) where
  create-AtMost : AtMost path 0 create
  unfolding create
  create-AtMost = record { at = λ w. ground arith }

  fill-AtMost : (d : Fields) → AtMost path 0 (fill d)
  unfolding fill sends
  fill-AtMost d = record { at = λ w. ground arith }

  sync_directory-AtMost : AtMost path 0 sync_directory
  unfolding sync_directory
  sync_directory-AtMost = record { at = λ w. omega arith }

  reserve-AtMost : (d : Fields) → AtMost path 0 (reserve d)
  unfolding reserve
  reserve-AtMost d =
      AtMost-bind_quiet path 0 _ _ create-AtMost
        λ u. AtMost-bind_quiet path 0 _ _ (fill-AtMost d) (λ u'. sync_directory-AtMost)

  module _ (sha256 : Text → Text) (json_loads : Text → Option Value)
      (auth : same_path "/api/v1/auth" path ≡ false)
      (look : same_path "/api/v1/ota/status" path ≡ false) where
    read_status-AtMost : (c : Client) → AtMost path 0 (read_status sha256 json_loads c)
    unfolding read_status
    read_status-AtMost c =
        AtMost-bind_quiet path 0 _ _ (status-AtMost sha256 json_loads path auth look c)
          (λ state. search at_most_rules)

    in_time-AtMost :
        (b : Bool) (m k : Action World Fields)
        → AtMost path 0 m
        → AtMost path 0 k
        → AtMost path 0 (elim b as (λ _. Action World Fields) [ false ↦ m | true ↦ k ])
    in_time-AtMost true m k x y = y
    in_time-AtMost false m k x y = x

    found-AtMost :
        (v : Option Fields) (m : Action World Fields)
        → AtMost path 0 m
        → AtMost path 0 (elim v as (λ _. Action World Fields) [ some r ↦ pure r | none ↦ m ])
    found-AtMost (some r) m x = AtMost-pure path r
    found-AtMost none m x = x

    watch-AtMost :
        (fuel deadline : ℕ) (c : Client) (d expected : Fields)
        → AtMost path 0 (watch sha256 json_loads fuel deadline c d expected)
    unfolding watch
    watch-AtMost zero deadline c d expected = search at_most_rules
    watch-AtMost (suc fuel) deadline c d expected =
        AtMost-bind_quiet path 0 _ _ (search at_most_rules) λ now.
          in_time-AtMost (ltb now deadline) _ _ (AtMost-raise path _) (
            AtMost-bind_quiet path 0 _ _
              (AtMost-rescue path 0 0 _ _ _ (read_status-AtMost c) (λ e. search at_most_rules))
              λ state. AtMost-bind_quiet path 0 _ _ (search at_most_rules) λ found.
                found-AtMost found _ (
                  AtMost-bind_quiet path 0 _ _ (search at_most_rules)
                    (λ u. watch-AtMost fuel deadline c d expected)))

    settle-AtMost : (c : Client) (d : Fields) → AtMost path 0 (settle sha256 json_loads c d)
    unfolding settle reconcile
    settle-AtMost c d =
        AtMost-bind_quiet path 0 _ _
          (AtMost-bind_quiet path 0 _ _ (search at_most_rules) λ expected.
            AtMost-bind_quiet path 0 _ _ (search at_most_rules)
              (λ started. watch-AtMost _ _ c d expected))
          λ result.
            AtMost-bind_quiet path 0 _ _ (AtMost-write_state path _) (λ u. search at_most_rules)

    pub resume-AtMost :
        (c : Client) (profile : Fields) → AtMost path 0 (resume sha256 json_loads c profile)
    unfolding resume
    resume-AtMost c profile = AtMost-bind_quiet path 0 _ _ (search at_most_rules) λ file.
        AtMost-bind_quiet path 0 _ _ (search at_most_rules) λ d.
          AtMost-bind_quiet path 0 _ _ (search at_most_rules) λ mine.
            AtMost-bind_quiet path 0 _ _ (search at_most_rules) λ here.
              AtMost-bind_quiet path 0 _ _ (search at_most_rules)
                λ u. AtMost-bind_quiet path 0 _ _ (search at_most_rules) (λ u'. settle-AtMost c d)

    preflight-AtMost :
        (c : Client) (profile : Fields) → AtMost path 0 (preflight sha256 json_loads c profile)
    unfolding preflight
    preflight-AtMost c profile =
        AtMost-bind_quiet path 0 _ _ (status-AtMost sha256 json_loads path auth look c)
          λ before. AtMost-bind_quiet path 0 _ _ (search at_most_rules) (λ r. search at_most_rules)

    module _ (n k : ℕ)
        (prepares : (c : Client) (body : Text) (csrf token : Value)
          → AtMost path n
              (signed sha256 json_loads c "POST" "/api/v1/ota/file/prepare" body csrf token))
        (uploads : (c : Client) (body : Text) (csrf token : Value)
          → AtMost path k
              (signed sha256 json_loads c "POST" "/api/v1/ota/upload" body csrf token)) where
      send_image-AtMost :
          (c : Client) (content : Text) (before : Fields) (token : Text) (d : Fields)
          → AtMost path k (send_image sha256 json_loads c content before token d)
      unfolding send_image
      send_image-AtMost c content before token d =
          AtMost-bind_quiet path k _ _ (AtMost-write_state path d) λ u.
            AtMost-weaken path (k + 0 + 0) k _
              (AtMost-bind path (k + 0) 0 _ _
                (AtMost-rescue path k 0 _ _ _
                  (AtMost-bind_quiet path k _ _ (search at_most_rules) (λ csrf. uploads c _ csrf _))
                  (λ e. search at_most_rules))
                (λ v. settle-AtMost c d))
              (omega arith)

      transfer-AtMost :
          (c : Client) (profile : Fields) (content : Text) (d : Fields)
          → AtMost path (n + k) (transfer sha256 json_loads c profile content d)
      unfolding transfer
      transfer-AtMost c profile content d =
          AtMost-bind_quiet path (n + k) _ _ (preflight-AtMost c profile) λ before.
            AtMost-bind_quiet path (n + k) _ _ (search at_most_rules) λ csrf.
              AtMost-bind path n k _ _ (prepares c _ csrf _) λ prepared.
                AtMost-bind_quiet path k _ _ (search at_most_rules)
                  (λ token. send_image-AtMost c content before token _)

      pub deploy-AtMost :
          (c : Client) (profile metadata : Fields) (content : Text)
          → AtMost path (n + k) (deploy sha256 json_loads c profile metadata content)
      unfolding deploy
      deploy-AtMost c profile metadata content =
          AtMost-bind_quiet path (n + k) _ _ (search at_most_rules) λ digest.
            AtMost-bind_quiet path (n + k) _ _ (search at_most_rules) λ u.
              AtMost-bind_quiet path (n + k) _ _ (preflight-AtMost c profile) λ before.
                AtMost-bind_quiet path (n + k) _ _ (reserve-AtMost _)
                  (λ u'. transfer-AtMost c profile content _)

module _ (sha256 : Text → Text) (json_loads : Text → Option Value) (c : Client)
    (profile : Fields) where
  -- A remote deployment sends at most one image and at most one request to prepare for it,
  -- whatever the device answers and whatever fails.
  pub deploy-sends_once :
      (metadata : Fields) (content : Text) (w : World)
      → (sends "/api/v1/ota/upload" (deploy sha256 json_loads c profile metadata content w).1.trace
          ≤ sends "/api/v1/ota/upload" w.trace + 1)
        × (sends "/api/v1/ota/file/prepare"
              (deploy sha256 json_loads c profile metadata content w).1.trace
            ≤ sends "/api/v1/ota/file/prepare" w.trace + 1)
  deploy-sends_once metadata content w = (
    (deploy-AtMost "/api/v1/ota/upload" sha256 json_loads refl refl 0 1
          (λ c body csrf token.
            signed-AtMost_other sha256 json_loads "/api/v1/ota/upload" refl c _ _ body csrf token
              refl)
          (λ c body csrf token.
            signed-AtMost sha256 json_loads "/api/v1/ota/upload" refl c _ _ body csrf token)
          c profile metadata content).at
        w,
    (deploy-AtMost "/api/v1/ota/file/prepare" sha256 json_loads refl refl 1 0
          (λ c body csrf token.
            signed-AtMost sha256 json_loads "/api/v1/ota/file/prepare" refl c _ _ body csrf token)
          (λ c body csrf token.
            signed-AtMost_other sha256 json_loads "/api/v1/ota/file/prepare" refl c _ _ body csrf
              token refl)
          c profile metadata content).at
        w,
  )
