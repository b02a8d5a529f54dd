-- ===== src/Ota/Watching.antt =====
-- Looking at the status and watching an attempt: which requests that takes.
use dm_d5102q_rs485_bridge.Prelude.{
  ℕ, zero, suc, ◌≡◌, refl, String, Text, Bool, true, false, ◌||◌, Option, none, some, ltb,
}
use dm_d5102q_rs485_bridge.Value.{Value, Fields}
use dm_d5102q_rs485_bridge.Exec.Action.{Action, pure}
use dm_d5102q_rs485_bridge.Ota.World.{Event, sent, received, wrote, Request, World}
use dm_d5102q_rs485_bridge.Ota.Client.{Client, raw, signed, status, count_request}
use dm_d5102q_rs485_bridge.Ota.Reconcile.{
  confirm, judge_ours, judge_other, judge, poll, watch, reconcile,
}
use dm_d5102q_rs485_bridge.Ota.Trace.{same_path}
use dm_d5102q_rs485_bridge.Ota.Emits.{
  Emits, Emits-pure, Emits-bind, Emits-rescue, Emits-sleep, Emits-exchange, Emits-note_received,
  emits_rules, same,
}

-- Answers, requests for the paths that `on` holds of, and writes of the state file if `writes`.
abbrev pub kind : (String → Bool) → Bool → Event → Bool
kind on writes (sent r) = on r.path
kind on writes (received d) = true
kind on writes (wrote d) = writes

-- The paths that change nothing on the device but confirm an image that it has.
abbrev pub watches : String → Bool
watches path =
    same_path path "/api/v1/auth"
    || same_path path "/api/v1/ota/status"
    || same_path path "/api/v1/ota/confirm"

module _ (sha256 : Text → Text) (json_loads : Text → Option Value) (on : String → Bool)
    (writes : Bool) (auth : on "/api/v1/auth" ≡ true) where
  raw-Emits : (r : Request) → on r.path ≡ true → Emits (kind on writes) (raw sha256 json_loads r)
  unfolding raw
  raw-Emits r h = Emits-bind _ _ _ (Emits-exchange _ r h) λ o.
      Emits-bind _ _ _ (search emits_rules)
        λ d. Emits-bind _ _ _ (Emits-note_received _ d refl) (λ u. search emits_rules)

  count_request-Emits :
      (nonce : Text) → Emits (kind on writes) (count_request sha256 json_loads nonce)
  unfolding count_request
  count_request-Emits nonce = record { at = λ w. same }

  pub signed-Emits :
      (c : Client) (method path : String) (body : Text) (csrf token : Value)
      → on path ≡ true
      → Emits (kind on writes) (signed sha256 json_loads c method path body csrf token)
  unfolding signed
  signed-Emits c method path body csrf token h = Emits-bind _ _ _ (raw-Emits _ auth) λ ch.
      Emits-bind _ _ _ (search emits_rules) λ nonce.
        Emits-bind _ _ _ (count_request-Emits nonce) λ n.
          Emits-bind _ _ _ (search emits_rules)
            λ csrf_token. Emits-bind _ _ _ (search emits_rules) (λ ota_token. raw-Emits _ h)

  module _ (look : on "/api/v1/ota/status" ≡ true) where
    pub status-Emits : (c : Client) → Emits (kind on writes) (status sha256 json_loads c)
    unfolding status
    status-Emits c = Emits-bind _ _ _ (signed-Emits c _ _ _ _ _ look) (λ d. search emits_rules)

    module _ (commit : on "/api/v1/ota/confirm" ≡ true) where
      confirm-Emits :
          (c : Client) (token : Value) (state : Fields)
          → Emits (kind on writes) (confirm sha256 json_loads c token state)
      unfolding confirm
      confirm-Emits c token state =
          Emits-bind _ _ _ (search emits_rules)
            λ csrf. Emits-bind _ _ _ (signed-Emits c _ _ _ _ _ commit) (λ d. search emits_rules)

      judge-Emits :
          (c : Client) (metadata : Fields) (token : Value) (state : Fields)
          → Emits (kind on writes) (judge sha256 json_loads c metadata token state)
      unfolding judge judge_ours judge_other
      judge-Emits c metadata token state = search (emits_rules, confirm-Emits) depth 8

      poll-Emits :
          (c : Client) (metadata : Fields) (token : Value)
          → Emits (kind on writes) (poll sha256 json_loads c metadata token)
      unfolding poll
      poll-Emits c metadata token =
          Emits-bind _ _ _ (status-Emits c) (λ state. judge-Emits c metadata token state)

      after_poll-Emits :
          (v : Option Bool) (m : Action World Bool)
          → Emits (kind on writes) m
          → Emits
              (kind on writes)
              (elim v as (λ _. Action World Bool) [ some b ↦ pure b | none ↦ m ])
      after_poll-Emits (some b) m h = Emits-pure _ b
      after_poll-Emits none m h = h

      in_time-Emits :
          (b : Bool) (m : Action World Bool)
          → Emits (kind on writes) m
          → Emits
              (kind on writes)
              (elim b as (λ _. Action World Bool) [ false ↦ pure false | true ↦ m ])
      in_time-Emits true m h = h
      in_time-Emits false m h = Emits-pure _ false

      watch-Emits :
          (fuel deadline : ℕ) (c : Client) (metadata : Fields) (token : Value)
          → Emits (kind on writes) (watch sha256 json_loads fuel deadline c metadata token)
      unfolding watch
      watch-Emits zero deadline c metadata token = search emits_rules
      watch-Emits (suc fuel) deadline c metadata token =
          Emits-bind _ _ _ (search emits_rules) λ now. in_time-Emits (ltb now deadline) _ (
            Emits-bind _ _ _
              (Emits-rescue _ _ _ _ (poll-Emits c metadata token) (λ e. search emits_rules))
              λ v.
                after_poll-Emits v _ (
                  Emits-bind _ _ _ (Emits-sleep _) λ u. watch-Emits fuel deadline c metadata token))

      pub reconcile-Emits :
          (seconds : ℕ) (c : Client) (metadata : Fields) (token : Value)
          → Emits (kind on writes) (reconcile sha256 json_loads seconds c metadata token)
      unfolding reconcile
      reconcile-Emits seconds c metadata token =
          Emits-bind _ _ _ (search emits_rules) (λ started. watch-Emits _ _ c metadata token)
