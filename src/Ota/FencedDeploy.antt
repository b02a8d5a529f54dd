-- ===== src/Ota/FencedDeploy.antt =====
-- `deploy` keeps the fence.
use dm_d5102q_rs485_bridge.Prelude.{◌≡◌, refl, Text, text, text_eq, true, false, Option, arith}
use dm_d5102q_rs485_bridge.Value.{Value, Fields, str, put, field_eq}
use dm_d5102q_rs485_bridge.Value.Laws.{field_eq-put}
use dm_d5102q_rs485_bridge.Exec.{Result, ok}
use dm_d5102q_rs485_bridge.Exec.Action.{Action, raise, ◌>>=◌, lift, Triple}
use dm_d5102q_rs485_bridge.Exec.Triple.{
  Triple-pure, Triple-raise, Triple-lift, Triple-gets, Triple-if, Triple-bind, Triple-rescue,
  Triple-weaken,
}
use dm_d5102q_rs485_bridge.Ota.World.{World}
use dm_d5102q_rs485_bridge.Ota.Client.{Client}
use dm_d5102q_rs485_bridge.Ota.Reconcile.{reconcile}
use dm_d5102q_rs485_bridge.Ota.Deploy.{
  one_of, Release, Setting, intent, quarantine, resume_prior, prepare, upload, transfer, attempt,
  carry_out, start, deploy_fresh, deploy_prior, deploy,
}
use dm_d5102q_rs485_bridge.Ota.Emits.{Emits, Emits-bind, emits_rules}
use dm_d5102q_rs485_bridge.Ota.Watching.{kind, signed-Emits, status-Emits, reconcile-Emits}
use dm_d5102q_rs485_bridge.Ota.Fence.{
  in_progress, IsFenced, IsArmed, watching-IsFenced, requests-IsArmed, write-IsFenced,
  write-IsArmed,
}

-- A call that keeps the fence, however it ends.
abbrev Keeps : {A : Type 0} → Action World A → Type 0
Keeps m = Triple IsFenced m (λ _. IsFenced) (λ _. IsFenced)

module _ {A : Type 0} where
  Keeps-lift : (r : Result A) → Keeps (lift r)
  Keeps-lift r = Triple-lift _ _ _ r (λ a e w f. f) (λ x e w f. f)

module _ {A B : Type 0} where
  Keeps-bind :
      (m : Action World A) (f : A → Action World B)
      → Keeps m
      → ((a : A) → Keeps (f a))
      → Keeps (m >>= f)
  Keeps-bind m f = Triple-bind _ _ _ _ m f

-- Adding the transaction leaves the status of a record alone.
open_with_token :
    (d : Fields) (v : Value)
    → field_eq d (text "status") in_progress ≡ true
    → field_eq (put (text "transaction") v d) (text "status") in_progress ≡ true
unfolding text text_eq
open_with_token d v h = rw field_eq-put h

intent_open :
    (c : Client) (metadata d : Fields)
    → intent c metadata ≡ ok d
    → field_eq d (text "status") in_progress ≡ true
unfolding intent field_eq text text_eq
intent_open c metadata d h = ground arith

module _ (sha256 : Text → Text) (json_loads : Text → Option Value) where
  quarantine-Keeps : {A : Type 0} (d : Fields) → Keeps (quarantine {A = A} d)
  unfolding quarantine
  quarantine-Keeps d = Keeps-bind _ _ (write-IsFenced _) (λ u. Triple-raise _ _ _ _ (λ w f. f))

  reconcile-Keeps :
      (c : Client) (metadata : Fields) (token : Value)
      → Keeps (reconcile sha256 json_loads 45 c metadata token)
  reconcile-Keeps c metadata token =
      watching-IsFenced _
        (reconcile-Emits sha256 json_loads _ false refl refl refl 45 c metadata token)

  prepare-Emits :
      (c : Client) (release : Release) (state : Fields)
      → Emits (kind (λ _. true) false) (prepare sha256 json_loads c release state)
  unfolding prepare
  prepare-Emits c release state = Emits-bind _ _ _ (search emits_rules) λ csrf.
      Emits-bind _ _ _ (signed-Emits sha256 json_loads (λ _. true) false refl c _ _ _ csrf _ refl)
        (λ d. search emits_rules)

  upload-Emits :
      (c : Client) (release : Release) (state : Fields) (token : Text)
      → Emits (kind (λ _. true) false) (upload sha256 json_loads c release state token)
  unfolding upload
  upload-Emits c release state token =
      Emits-bind _ _ _ (search emits_rules)
        (λ csrf. signed-Emits sha256 json_loads (λ _. true) false refl c _ _ _ csrf _ refl)

  transfer-Keeps :
      (c : Client) (release : Release) (state : Fields) (token : Text) (d : Fields)
      → field_eq d (text "status") in_progress ≡ true
      → Keeps (transfer sha256 json_loads c release state token d)
  unfolding transfer
  transfer-Keeps c release state token d open_status =
      Triple-bind IsFenced (λ _. IsArmed) _ _ _ _ (write-IsArmed d open_status)
        λ u.
          Triple-bind IsArmed (λ _. IsFenced) _ _ _ _
            (Triple-weaken IsArmed IsArmed (λ _. IsArmed) (λ _. IsFenced) (λ _. IsFenced)
              (λ _. IsFenced) _
              (Triple-rescue IsArmed (λ _. IsArmed) (λ _. IsArmed) (λ _. IsFenced) _ _ _
                (requests-IsArmed _ (upload-Emits c release state token))
                (λ e h. Triple-pure _ _ _ _ (λ w f. f)) (λ e h w f. f.0))
              (λ w f. f) (λ a w f. f.0) (λ e w f. f))
            λ v.
              Keeps-bind _ _ (reconcile-Keeps c release.metadata (str token))
                (λ success. Keeps-lift _)

  attempt-Keeps :
      (c : Client) (release : Release) (state d : Fields)
      → field_eq d (text "status") in_progress ≡ true
      → Triple IsArmed (attempt sha256 json_loads c release state d) (λ _. IsFenced) (λ _. IsFenced)
  unfolding attempt
  attempt-Keeps c release state d open_status =
      Triple-bind IsArmed (λ _. IsFenced) _ _ _ _
        (Triple-rescue IsArmed (λ _. IsFenced) (λ _. IsFenced) (λ _. IsFenced) _ _ _
          (Triple-weaken IsArmed IsArmed (λ _. IsArmed) (λ _. IsFenced) (λ _. IsArmed)
            (λ _. IsFenced) _ (requests-IsArmed _ (prepare-Emits c release state)) (λ w f. f)
            (λ a w f. f.0) (λ e w f. f.0))
          (λ e h. quarantine-Keeps d) (λ e h w f. f))
        λ token.
          Keeps-bind _ _
            (Triple-rescue IsFenced (λ _. IsFenced) (λ _. IsFenced) (λ _. IsFenced) _ _ _
              (transfer-Keeps c release state token _ (open_with_token d (str token) open_status))
              (λ e h. quarantine-Keeps _) (λ e h w f. f))
            (λ u. Triple-pure _ _ _ _ (λ w f. f))

  carry_out-Keeps :
      (c : Client) (release : Release) (state d : Fields)
      → field_eq d (text "status") in_progress ≡ true
      → Keeps (carry_out sha256 json_loads c release state d)
  unfolding carry_out
  carry_out-Keeps c release state d open_status =
      Triple-bind IsFenced (λ _. IsArmed) _ _ _ _ (write-IsArmed d open_status)
        λ u.
          Triple-bind IsArmed (λ _. IsFenced) _ _ _ _ (attempt-Keeps c release state d open_status)
            λ done. Keeps-bind _ _ (write-IsFenced _) λ v.
              Keeps-bind _ _ (Keeps-lift _)
                λ result. Keeps-bind _ _ (Keeps-lift _) (λ sha. Triple-pure _ _ _ _ (λ w f. f))

  start-Keeps :
      (c : Client) (release : Release) (state : Fields)
      → Keeps (start sha256 json_loads c release state)
  unfolding start
  start-Keeps c release state = Keeps-bind _ _ (Keeps-lift _) λ old.
      Keeps-bind _ _ (Keeps-lift _) λ u. Keeps-bind _ _ (Keeps-lift _) λ u'.
        Triple-bind IsFenced (λ d w. IsFenced w × (field_eq d (text "status") in_progress ≡ true)) _
          _ _ _
          (Triple-lift _ _ _ (intent c release.metadata)
            (λ d e w f. (f, intent_open c release.metadata d e)) (λ x e w f. f))
          λ d. record { at = λ w f. (carry_out-Keeps c release state d f.1).at w f.0 }

  resume_prior-Keeps :
      (c : Client) (release : Release) (prior : Fields)
      → Keeps (resume_prior sha256 json_loads c release prior)
  unfolding resume_prior
  resume_prior-Keeps c release prior = Keeps-bind _ _ (Keeps-lift _) λ same.
      Keeps-bind _ _ (Keeps-lift _) λ u. Keeps-bind _ _ (Keeps-lift _) λ token.
        Keeps-bind _ _ (reconcile-Keeps c release.metadata token) λ success.
          Keeps-bind _ _ (write-IsFenced _) λ v. Keeps-bind _ _ (Keeps-lift _) (λ v'. Keeps-lift _)

  deploy_fresh-Keeps :
      (c : Client) (release : Release) → Keeps (deploy_fresh sha256 json_loads c release)
  unfolding deploy_fresh
  deploy_fresh-Keeps c release =
      Keeps-bind _ _ (watching-IsFenced _ (status-Emits sha256 json_loads _ false refl refl c))
        λ state. Keeps-bind _ _ (Keeps-lift _) λ wrong. Keeps-bind _ _ (Keeps-lift _) λ u.
          Keeps-bind _ _ (Keeps-lift _) λ current.
            Triple-if _ _ _ current _ _ (λ e. Keeps-lift _) (λ e. start-Keeps c release state)

  deploy_prior-Keeps :
      (c : Client) (release : Release) (prior : Fields)
      → Keeps (deploy_prior sha256 json_loads c release prior)
  unfolding deploy_prior
  deploy_prior-Keeps c release prior =
      Triple-if _ _ _ (one_of prior (text "status") (text "FAILED") (text "UNKNOWN")) (raise _) _
        (λ e. Triple-raise _ _ _ _ (λ w f. f))
        λ e.
          Triple-if _ _ _ (field_eq prior (text "status") in_progress) _ _
            (λ e'. resume_prior-Keeps c release prior) (λ e'. deploy_fresh-Keeps c release)

  pub deploy-Keeps :
      (setting : Setting) (c : Client) (release : Release)
      → Triple IsFenced (deploy sha256 json_loads setting c release) (λ _. IsFenced) (λ _. IsFenced)
  unfolding deploy
  deploy-Keeps setting c release = Keeps-bind _ _ (Keeps-lift _) λ u.
      Keeps-bind _ _ (Keeps-lift _) λ u'.
        Keeps-bind _ _ (Triple-gets _ _ _ _ (λ w f. f))
          λ file. Keeps-bind _ _ (Keeps-lift _) (λ prior. deploy_prior-Keeps c release prior)
