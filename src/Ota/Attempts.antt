-- ===== src/Ota/Attempts.antt =====
-- The requests of an attempt for one path, given how many of them its two mutations are.
use dm_d5102q_rs485_bridge.Prelude.{text, ℕ, ◌+◌, ◌≡◌, String, Text, false, Option, arith}
use dm_d5102q_rs485_bridge.Value.{Value, Fields, str, field_eq}
use dm_d5102q_rs485_bridge.Exec.Action.{Action, raise}
use dm_d5102q_rs485_bridge.Ota.World.{World}
use dm_d5102q_rs485_bridge.Ota.Client.{Client, signed}
use dm_d5102q_rs485_bridge.Ota.Deploy.{
  one_of, Release, Setting, quarantine, resume_prior, prepare, upload, transfer, attempt, carry_out,
  start, deploy_fresh, deploy_prior, deploy,
}
use dm_d5102q_rs485_bridge.Ota.Sends.{status-AtMost, reconcile-AtMost}
use dm_d5102q_rs485_bridge.Ota.Trace.{
  AtMost-raise, same_path, AtMost, AtMost-bind, AtMost-rescue, AtMost-weaken, AtMost-if,
  AtMost-bind_quiet, AtMost-write_state, at_most_rules,
}

module _ (sha256 : Text → Text) (json_loads : Text → Option Value) (path : String)
    (auth : same_path "/api/v1/auth" path ≡ false)
    (look : same_path "/api/v1/ota/status" path ≡ false)
    (commit : same_path "/api/v1/ota/confirm" path ≡ false) where
  quarantine-AtMost : {A : Type 0} (d : Fields) → AtMost path 0 (quarantine {A = A} d)
  unfolding quarantine
  quarantine-AtMost d =
      AtMost-bind_quiet path 0 _ _ (AtMost-write_state path _) (λ u. search at_most_rules)

  pub resume_prior-AtMost :
      (c : Client) (release : Release) (prior : Fields)
      → AtMost path 0 (resume_prior sha256 json_loads c release prior)
  unfolding resume_prior
  resume_prior-AtMost c release prior = AtMost-bind_quiet path 0 _ _ (search at_most_rules) λ same.
      AtMost-bind_quiet path 0 _ _ (search at_most_rules) λ u.
        AtMost-bind_quiet path 0 _ _ (search at_most_rules) λ token.
          AtMost-bind_quiet path 0 _ _
            (reconcile-AtMost sha256 json_loads path auth look commit 45 c _ token)
            λ success.
              AtMost-bind_quiet path 0 _ _ (AtMost-write_state path _) λ u'.
                AtMost-bind_quiet path 0 _ _ (search at_most_rules) λ u''. search at_most_rules

  module _ (n k : ℕ)
      (prepares : (c : Client) (body : Text) (csrf token : Value)
        → AtMost path n (signed sha256 json_loads c "POST" "/api/v1/ota/prepare" body csrf token))
      (uploads : (c : Client) (body : Text) (csrf token : Value)
        → AtMost path k
            (signed sha256 json_loads c "POST" "/api/v1/ota/upload" body csrf token)) where
    prepare-AtMost :
        (c : Client) (release : Release) (state : Fields)
        → AtMost path n (prepare sha256 json_loads c release state)
    unfolding prepare
    prepare-AtMost c release state = AtMost-bind_quiet path n _ _ (search at_most_rules) λ csrf.
        AtMost-weaken path (n + 0) n _
          (AtMost-bind path n 0 _ _ (prepares c _ csrf _) (λ d. search at_most_rules)) (omega arith)

    upload-AtMost :
        (c : Client) (release : Release) (state : Fields) (token : Text)
        → AtMost path k (upload sha256 json_loads c release state token)
    unfolding upload
    upload-AtMost c release state token =
        AtMost-bind_quiet path k _ _ (search at_most_rules) (λ csrf. uploads c _ csrf _)

    transfer-AtMost :
        (c : Client) (release : Release) (state : Fields) (token : Text) (d : Fields)
        → AtMost path k (transfer sha256 json_loads c release state token d)
    unfolding transfer
    transfer-AtMost c release state token d =
        AtMost-bind_quiet path k _ _ (AtMost-write_state path d) λ u.
          AtMost-weaken path (k + 0 + 0) k _
            (AtMost-bind path (k + 0) 0 _ _
              (AtMost-rescue path k 0 _ _ _ (upload-AtMost c release state token)
                (λ e. search at_most_rules))
              λ v.
                AtMost-bind_quiet path 0 _ _
                  (reconcile-AtMost sha256 json_loads path auth look commit 45 c _ _)
                  (λ success. search at_most_rules))
            (omega arith)

    attempt-AtMost :
        (c : Client) (release : Release) (state d : Fields)
        → AtMost path (n + k) (attempt sha256 json_loads c release state d)
    unfolding attempt
    attempt-AtMost c release state d =
        AtMost-weaken path (n + 0 + (k + 0 + 0)) (n + k) _
          (AtMost-bind path (n + 0) (k + 0 + 0) _ _
            (AtMost-rescue path n 0 _ _ _ (prepare-AtMost c release state)
              (λ e. quarantine-AtMost d))
            λ token.
              AtMost-bind path (k + 0) 0 _ _
                (AtMost-rescue path k 0 _ _ _ (transfer-AtMost c release state token _)
                  (λ e. quarantine-AtMost _))
                (λ u. search at_most_rules))
          (omega arith)

    carry_out-AtMost :
        (c : Client) (release : Release) (state d : Fields)
        → AtMost path (n + k) (carry_out sha256 json_loads c release state d)
    unfolding carry_out
    carry_out-AtMost c release state d =
        AtMost-bind_quiet path (n + k) _ _ (AtMost-write_state path d) λ u.
          AtMost-weaken path (n + k + 0) (n + k) _
            (AtMost-bind path (n + k) 0 _ _ (attempt-AtMost c release state d) λ done.
              AtMost-bind_quiet path 0 _ _ (AtMost-write_state path _) λ v.
                AtMost-bind_quiet path 0 _ _ (search at_most_rules) λ result. search at_most_rules)
            (omega arith)

    start-AtMost :
        (c : Client) (release : Release) (state : Fields)
        → AtMost path (n + k) (start sha256 json_loads c release state)
    unfolding start
    start-AtMost c release state = AtMost-bind_quiet path (n + k) _ _ (search at_most_rules) λ old.
        AtMost-bind_quiet path (n + k) _ _ (search at_most_rules) λ u.
          AtMost-bind_quiet path (n + k) _ _ (search at_most_rules) λ u'.
            AtMost-bind_quiet path (n + k) _ _ (search at_most_rules)
              λ d. carry_out-AtMost c release state d

    zero-AtMost : {A : Type 0} (m : Action World A) → AtMost path 0 m → AtMost path (n + k) m
    zero-AtMost m h = AtMost-weaken path 0 (n + k) m h (omega arith)

    deploy_fresh-AtMost :
        (c : Client) (release : Release)
        → AtMost path (n + k) (deploy_fresh sha256 json_loads c release)
    unfolding deploy_fresh
    deploy_fresh-AtMost c release =
        AtMost-bind_quiet path (n + k) _ _ (status-AtMost sha256 json_loads path auth look c)
          λ state. AtMost-bind_quiet path (n + k) _ _ (search at_most_rules) λ wrong.
            AtMost-bind_quiet path (n + k) _ _ (search at_most_rules) λ u.
              AtMost-bind_quiet path (n + k) _ _ (search at_most_rules) λ current.
                AtMost-if path (n + k) current _ _ (zero-AtMost _ (search at_most_rules))
                  (start-AtMost c release state)

    deploy_prior-AtMost :
        (c : Client) (release : Release) (prior : Fields)
        → AtMost path (n + k) (deploy_prior sha256 json_loads c release prior)
    unfolding deploy_prior
    deploy_prior-AtMost c release prior =
        AtMost-if path (n + k) (one_of prior (text "status") (text "FAILED") (text "UNKNOWN")) _ _
          (zero-AtMost (raise _) (AtMost-raise path _))
          (AtMost-if path (n + k) (field_eq prior (text "status") (str (text "IN_PROGRESS"))) _ _
            (zero-AtMost _ (resume_prior-AtMost c release prior)) (deploy_fresh-AtMost c release))

    pub deploy-AtMost :
        (setting : Setting) (c : Client) (release : Release)
        → AtMost path (n + k) (deploy sha256 json_loads setting c release)
    unfolding deploy
    deploy-AtMost setting c release = AtMost-bind_quiet path (n + k) _ _ (search at_most_rules) λ u.
        AtMost-bind_quiet path (n + k) _ _ (search at_most_rules) λ u'.
          AtMost-bind_quiet path (n + k) _ _ (search at_most_rules) λ file.
            AtMost-bind_quiet path (n + k) _ _ (search at_most_rules)
              λ prior. deploy_prior-AtMost c release prior
