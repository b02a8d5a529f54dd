-- ===== src/Ota/Sends.antt =====
-- What the controller's operations send: at most one image, and none while they only watch.
use dm_d5102q_rs485_bridge.Prelude.{ℕ, ◌≡◌, refl, String, Text, true, false, not, Option, arith}
use dm_d5102q_rs485_bridge.Value.{Value, Fields}
use dm_d5102q_rs485_bridge.Ota.World.{Request}
use dm_d5102q_rs485_bridge.Ota.Client.{Client, raw, signed, status, count_request}
use dm_d5102q_rs485_bridge.Ota.Reconcile.{reconcile}
use dm_d5102q_rs485_bridge.Ota.Emits.{AtMost-of_Emits}
use dm_d5102q_rs485_bridge.Ota.Watching.{kind, status-Emits, reconcile-Emits}
use dm_d5102q_rs485_bridge.Ota.Trace.{
  same_path, AtMost, AtMost-bind, AtMost-exchange, AtMost-exchange_other, AtMost-bind_quiet,
  at_most_rules,
}

module _ (sha256 : Text → Text) (json_loads : Text → Option Value) (path : String) where
  pub raw-AtMost : (r : Request) → AtMost path 1 (raw sha256 json_loads r)
  unfolding raw
  raw-AtMost r = AtMost-bind path 1 0 _ _ (AtMost-exchange path r) (λ o. search at_most_rules)

  raw-AtMost_other :
      (r : Request) → same_path r.path path ≡ false → AtMost path 0 (raw sha256 json_loads r)
  unfolding raw
  raw-AtMost_other r h =
      AtMost-bind_quiet path 0 _ _ (AtMost-exchange_other path r h) (λ o. search at_most_rules)

  count_request-AtMost : (nonce : Text) → AtMost path 0 (count_request sha256 json_loads nonce)
  unfolding count_request
  count_request-AtMost nonce = record { at = λ w. ground arith }

  module _ (auth : same_path "/api/v1/auth" path ≡ false) where
    signed-AtMost_of_raw :
        (n : ℕ) (c : Client) (method p : String) (body : Text) (csrf token : Value)
        → ((r : Request) → r.path ≡ p → AtMost path n (raw sha256 json_loads r))
        → AtMost path n (signed sha256 json_loads c method p body csrf token)
    unfolding signed
    signed-AtMost_of_raw n c method p body csrf token h =
        AtMost-bind_quiet path n _ _ (raw-AtMost_other _ auth) λ ch.
          AtMost-bind_quiet path n _ _ (search at_most_rules) λ nonce.
            AtMost-bind_quiet path n _ _ (count_request-AtMost nonce) λ k.
              AtMost-bind_quiet path n _ _ (search at_most_rules) λ csrf_token.
                AtMost-bind_quiet path n _ _ (search at_most_rules) λ ota_token. h _ refl

    pub signed-AtMost :
        (c : Client) (method p : String) (body : Text) (csrf token : Value)
        → AtMost path 1 (signed sha256 json_loads c method p body csrf token)
    signed-AtMost c method p body csrf token =
        signed-AtMost_of_raw 1 c method p body csrf token (λ r e. raw-AtMost r)

    pub signed-AtMost_other :
        (c : Client) (method p : String) (body : Text) (csrf token : Value)
        → same_path p path ≡ false
        → AtMost path 0 (signed sha256 json_loads c method p body csrf token)
    signed-AtMost_other c method p body csrf token h =
        signed-AtMost_of_raw 0 c method p body csrf token (λ r e. raw-AtMost_other r (rw e h))

    other : (q : String) → not (same_path q path) ≡ true → same_path q path ≡ false
    other q h = ground arith

    module _ (look : same_path "/api/v1/ota/status" path ≡ false) where
      pub status-AtMost : (c : Client) → AtMost path 0 (status sha256 json_loads c)
      status-AtMost c =
          AtMost-of_Emits (kind (λ q. not (same_path q path)) true) path _ (λ r h. other r.path h)
            (status-Emits sha256 json_loads _ true (rw auth) (rw look) c)

      -- Watching sends only status requests and confirmations.
      pub reconcile-AtMost :
          same_path "/api/v1/ota/confirm" path ≡ false
          → (seconds : ℕ) (c : Client) (metadata : Fields) (token : Value)
          → AtMost path 0 (reconcile sha256 json_loads seconds c metadata token)
      reconcile-AtMost commit seconds c metadata token =
          AtMost-of_Emits (kind (λ q. not (same_path q path)) true) path _ (λ r h. other r.path h)
            (reconcile-Emits sha256 json_loads _ true (rw auth) (rw look) (rw commit) seconds c
              metadata token)
