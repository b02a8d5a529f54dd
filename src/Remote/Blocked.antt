-- ===== src/Remote/Blocked.antt =====
-- The fence of scripts/dmota_remote.py: while there is one, no deployment begins.
use dm_d5102q_rs485_bridge.Prelude.{◌≡◌, refl, ℕ, ◌≤◌, arith, Text, Option, some, false}
use dm_d5102q_rs485_bridge.Value.{Value, Fields}
use dm_d5102q_rs485_bridge.Exec.{Err, Result, ok, err}
use dm_d5102q_rs485_bridge.Exec.Action.{Action, lift, ◌>>=◌, Triple, Ends}
use dm_d5102q_rs485_bridge.Exec.Triple.{Triple-pure, Triple-lift, Triple-bind}
use dm_d5102q_rs485_bridge.Ota.World.{World, StateFile, Request, exchange, note_received}
use dm_d5102q_rs485_bridge.Ota.Client.{Client, raw, signed, status, count_request}
use dm_d5102q_rs485_bridge.Ota.Trace.{same_path, sends}
use dm_d5102q_rs485_bridge.Remote.Transfer.{create, reserve, preflight, deploy, resume}
use dm_d5102q_rs485_bridge.Remote.Once.{resume-AtMost}

module _ (fence : StateFile) (uploads prepares : ℕ) where
  -- The fence stands, and no more mutations were sent.
  abbrev Stands : World → Type 0
  Stands w =
      (w.saved ≡ some fence)
      × (sends "/api/v1/ota/upload" w.trace ≡ uploads)
      × (sends "/api/v1/ota/file/prepare" w.trace ≡ prepares)

  abbrev Still : {A : Type 0} → Action World A → Type 0
  Still m = Triple Stands m (λ _. Stands) (λ _. Stands)

  ends :
      {A : Type 0} (r : Result A) (w : World)
      → Stands w
      → Ends {A = A} (λ _. Stands) (λ _. Stands) r w
  ends (ok a) w s = s
  ends (err e) w s = s

  never :
      {A : Type 0} (m : Action World A) (Q : A → World → Type 0) (R : Err → World → Type 0)
      → Triple (λ _. ⊥) m Q R
  never m Q R = record { at = λ w x. absurd x }

  create-blocked : Triple Stands create (λ _ _. ⊥) (λ _. Stands)
  unfolding create
  create-blocked = record { at = λ w s. rw s.0 (refl, s.1, s.2) }

  Still-bind :
      {A B : Type 0} (m : Action World A) (f : A → Action World B)
      → Still m
      → ((a : A) → Still (f a))
      → Still (m >>= f)
  Still-bind m f = Triple-bind _ _ _ _ m f

  Still-lift : {A : Type 0} (r : Result A) → Still (lift r)
  Still-lift r = Triple-lift _ _ _ r (λ a e w f. f) (λ x e w f. f)

  exchange-Still :
      (r : Request)
      → same_path r.path "/api/v1/ota/upload" ≡ false
      → same_path r.path "/api/v1/ota/file/prepare" ≡ false
      → Still (exchange r)
  unfolding exchange sends
  exchange-Still r h k = record { at = λ w s. (s.0, rw h s.1, rw k s.2) }

  note-Still : (d : Fields) → Still (note_received d)
  unfolding note_received sends
  note-Still d = record { at = λ w s. s }

  module _ (sha256 : Text → Text) (json_loads : Text → Option Value) where
    raw-Still :
        (r : Request)
        → same_path r.path "/api/v1/ota/upload" ≡ false
        → same_path r.path "/api/v1/ota/file/prepare" ≡ false
        → Still (raw sha256 json_loads r)
    unfolding raw
    raw-Still r h k = Still-bind _ _ (exchange-Still r h k) λ o.
        Still-bind _ _ (Still-lift _)
          λ d. Still-bind _ _ (note-Still d) (λ u. Triple-pure _ _ _ _ (λ w s. s))

    count_request-Still : (nonce : Text) → Still (count_request sha256 json_loads nonce)
    unfolding count_request
    count_request-Still nonce = record { at = λ w s. ends _ _ s }

    status-Still : (c : Client) → Still (status sha256 json_loads c)
    unfolding status signed
    status-Still c =
        Still-bind _ _
          (Still-bind _ _ (raw-Still _ refl refl) λ ch. Still-bind _ _ (Still-lift _) λ nonce.
            Still-bind _ _ (count_request-Still nonce) λ n.
              Still-bind _ _ (Still-lift _)
                λ csrf_token. Still-bind _ _ (Still-lift _) (λ ota_token. raw-Still _ refl refl))
          (λ d. Still-lift _)

    preflight-Still :
        (c : Client) (profile : Fields) → Still (preflight sha256 json_loads c profile)
    unfolding preflight
    preflight-Still c profile =
        Still-bind _ _ (status-Still c)
          λ before. Still-bind _ _ (Still-lift _) (λ r. Triple-pure _ _ _ _ (λ w s. s))

    -- Nothing is created over the fence.
    reserve-blocked : (d : Fields) → Triple Stands (reserve d) (λ _ _. ⊥) (λ _. Stands)
    unfolding reserve
    reserve-blocked d = Triple-bind Stands (λ _ _. ⊥) _ _ _ _ create-blocked (λ u. never _ _ _)

    deploy-blocked :
        (c : Client) (profile metadata : Fields) (content : Text)
        → Triple Stands
            (deploy sha256 json_loads c profile metadata content)
            (λ _ _. ⊥)
            (λ _. Stands)
    unfolding deploy
    deploy-blocked c profile metadata content =
        Triple-bind Stands (λ _. Stands) _ _ _ _ (Still-lift _)
          λ digest.
            Triple-bind Stands (λ _. Stands) _ _ _ _ (Still-lift _)
              λ u.
                Triple-bind Stands (λ _. Stands) _ _ _ _ (preflight-Still c profile)
                  λ before.
                    Triple-bind Stands (λ _ _. ⊥) _ _ _ _ (reserve-blocked _) (λ u'. never _ _ _)

-- Neither an image nor a request to prepare for one was sent from the one world to the other.
abbrev pub Unsent : World → World → Type 0
Unsent w v =
    (sends "/api/v1/ota/upload" v.trace ≡ sends "/api/v1/ota/upload" w.trace)
    × (sends "/api/v1/ota/file/prepare" v.trace ≡ sends "/api/v1/ota/file/prepare" w.trace)

module _ (sha256 : Text → Text) (json_loads : Text → Option Value) (c : Client)
    (profile : Fields) where
  -- Where there is a fence already, whatever it holds, a deployment fails, sends neither an image
  -- nor a request to prepare for one, and leaves the fence as it is.
  pub deploy_blocked :
      (metadata : Fields) (content : Text) (w : World) {fence : StateFile}
      → w.saved ≡ some fence
      → ((e : Err) × ((deploy sha256 json_loads c profile metadata content w).0 ≡ err e))
        × ((deploy sha256 json_loads c profile metadata content w).1.saved ≡ some fence)
        × Unsent w (deploy sha256 json_loads c profile metadata content w).1
  deploy_blocked metadata content w {fence} saved = split _ _ (
      (deploy-blocked fence _ _ sha256 json_loads c profile metadata content).at w
        (saved, refl, refl))
    where
      split :
          (r : Result Fields) (v : World)
          → Ends {A = Fields}
              (λ _ _. ⊥)
              (λ _.
                Stands fence
                  (sends "/api/v1/ota/upload" w.trace)
                  (sends "/api/v1/ota/file/prepare" w.trace))
              r
              v
          → ((e : Err) × (r ≡ err e)) × (v.saved ≡ some fence) × Unsent w v
      split (ok a) v x = absurd x
      split (err e) v x = ((e, refl), x.0, (x.1, x.2))

  -- The command that reconciles an attempt sends neither an image nor a request to prepare for one.
  pub resume_never_mutates :
      (w : World)
      → (sends "/api/v1/ota/upload" (resume sha256 json_loads c profile w).1.trace
          ≤ sends "/api/v1/ota/upload" w.trace)
        × (sends "/api/v1/ota/file/prepare" (resume sha256 json_loads c profile w).1.trace
            ≤ sends "/api/v1/ota/file/prepare" w.trace)
  resume_never_mutates w =
      let image = (resume-AtMost "/api/v1/ota/upload" sha256 json_loads refl refl c profile).at w in
      let asked =
        (resume-AtMost "/api/v1/ota/file/prepare" sha256 json_loads refl refl c profile).at w in
      (omega arith, omega arith)
