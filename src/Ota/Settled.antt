-- ===== src/Ota/Settled.antt =====
-- A deployment that reports success has been confirmed by the device and recorded.
use mathlib.Core.Bool.{false≢true}
use dm_d5102q_rs485_bridge.Prelude.{
  ◌≡◌, refl, Text, text, text_eq, Bool, true, false, not, Option, List, ◌∷◌, arith, if◌then◌else◌,
  Bool-cases, inl, inr, sym, ◌∙◌,
}
use dm_d5102q_rs485_bridge.Value.{Value, Fields, str, get, field_eq, value_eq}
use dm_d5102q_rs485_bridge.Value.Laws.{field_eq-put}
use dm_d5102q_rs485_bridge.Exec.{Result, ok}
use dm_d5102q_rs485_bridge.Exec.Action.{Action, ◌>>=◌, ◌>>◌, raise, lift, Triple}
use dm_d5102q_rs485_bridge.Exec.Triple.{
  Triple-pure, Triple-raise, Triple-lift, Triple-if, Triple-bind, Triple-rescue,
}
use dm_d5102q_rs485_bridge.Ota.World.{Event, received, wrote, World, write_state, next_fault}
use dm_d5102q_rs485_bridge.Ota.Client.{Client}
use dm_d5102q_rs485_bridge.Ota.Reconcile.{runs_release}
use dm_d5102q_rs485_bridge.Ota.Deploy.{
  Release, Setting, outcome, with_status, deny, one_of, quarantine, resume_prior, transfer, attempt,
  carry_out, start, deploy_fresh, deploy_prior, deploy,
}
use dm_d5102q_rs485_bridge.Ota.Confirmed.{Confirmed, Any, AnyErr, Triple-Any, reconcile-Success}

abbrev pub is_success : Fields → Bool
is_success d = field_eq d (text "status") (str (text "SUCCESS"))

-- The last events are a status by which the device runs the release for a transaction, as valid,
-- and the record of that success.
abbrev pub Settled : Fields → World → Type 0
Settled metadata w =
    (token : Value) × (d : Fields) × (saved : Fields) × (t : List Event) × (w.trace
      ≡ wrote saved ∷ received d ∷ t)
    × (runs_release d metadata token ≡ ok true)
    × (field_eq d (text "otaBootState") (str (text "VALID")) ≡ true)
    × (is_success saved ≡ true)

with_status-is_success : (d : Fields) → is_success (with_status "SUCCESS" d) ≡ true
unfolding with_status text text_eq value_eq
with_status-is_success d = rw field_eq-put

already_current_no_success :
    (metadata r : Fields) → outcome "ALREADY_CURRENT" metadata ≡ ok r → is_success r ≡ false
unfolding outcome field_eq get text text_eq value_eq
already_current_no_success metadata r h = ground arith

module _ (metadata : Fields) where
  -- A result that says `SUCCESS` is settled.
  abbrev Reported : Fields → World → Type 0
  Reported r w = is_success r ≡ true → Settled metadata w

  -- The success is written behind the confirmation.
  write-Settled :
      (token : Value) (d : Fields)
      → Triple
          (Confirmed metadata token)
          (write_state (with_status "SUCCESS" d))
          (λ _. Settled metadata)
          AnyErr
  unfolding write_state
  write-Settled token d = record {
    at = λ w x. elim (Bool-cases (next_fault w.disk_faults)) [
      | inl c ↦ rw c tt
      | inr c ↦ rw c (
        token,
        x.0,
        with_status "SUCCESS" d,
        x.1,
        written w x.2,
        x.3,
        x.4,
        with_status-is_success d,
      )
    ];
  }
    where
      written :
          (w : World) {u : List Event}
          → w.trace ≡ u
          → ◌≡◌ {A = List Event}
              (wrote (with_status "SUCCESS" d) ∷ w.trace)
              (wrote (with_status "SUCCESS" d) ∷ u)
      written w e = rw e

  lift-Reported : (r : Result Fields) → Triple (Settled metadata) (lift r) Reported AnyErr
  lift-Reported r = Triple-lift _ _ _ r (λ a e w x h. x) (λ a e w x. tt)

  keep :
      {A B : Type 0} (P : World → Type 0) (r : Result A) (f : A → Action World B)
      (Q : B → World → Type 0)
      → ((a : A) → r ≡ ok a → Triple P (f a) Q AnyErr)
      → Triple P (lift r >>= f) Q AnyErr
  keep P r f Q h =
      Triple-bind P (λ a w. P w × (r ≡ ok a)) _ _ _ _
        (Triple-lift _ _ _ r (λ a e w x. (x, e)) (λ a e w x. tt))
        (λ a. record { at = λ w x. (h a x.1).at w x.0 })

deny-false : (m : _) (b : Bool) {u : Unit {0}} → deny m b ≡ ok u → b ≡ false
deny-false m true h = cc
deny-false m false h = refl

not-false : (b : Bool) → not b ≡ false → b ≡ true
not-false b h = ground arith

module _ (sha256 : Text → Text) (json_loads : Text → Option Value) where
  -- A quarantine never returns.
  quarantine-never :
      {A : Type 0} (P : World → Type 0) (Q : A → World → Type 0) (d : Fields)
      → Triple P (quarantine {A = A} d) Q AnyErr
  unfolding quarantine
  quarantine-never P Q d =
      Triple-bind P (λ _. Any) _ _ _ _ (Triple-Any _ _) (λ u. Triple-raise _ _ _ _ (λ w x. tt))

  -- After the verdict on an interrupted attempt.
  concluded :
      (release : Release) (prior : Fields) (token : Value) (success : Bool)
      → Triple
          (λ w. success ≡ true → Confirmed release.metadata token w)
          (do
            write_state (with_status (if success then "SUCCESS" else "FAILED") prior)
            lift (deny "Prior deployment was not confirmed; quarantined" (not success))
            lift (outcome "SUCCESS" release.metadata))
          (Reported release.metadata)
          AnyErr
  concluded release prior token true =
      Triple-bind _ (λ _. Settled release.metadata) _ _ _ _
        (record { at = λ w x. (write-Settled release.metadata token prior).at w (x refl) })
        λ u. keep release.metadata _ _ _ _ (λ v e. lift-Reported release.metadata _)
  concluded release prior token false =
      Triple-bind _ (λ _. Any) _ _ _ _ (Triple-Any _ _)
        λ u.
          Triple-bind Any (λ _ _. ⊥) _ _ _ _
            (Triple-lift _ _ _ (deny "Prior deployment was not confirmed; quarantined" true)
              (λ a e w x. cc) (λ a e w x. tt))
            (λ v. record { at = λ w x. absurd x })

  transfer-Confirmed :
      (c : Client) (release : Release) (state : Fields) (token : Text) (d : Fields)
      → Triple Any
          (transfer sha256 json_loads c release state token d)
          (λ _. Confirmed release.metadata (str token))
          AnyErr
  unfolding transfer
  transfer-Confirmed c release state token d =
      Triple-bind Any (λ _. Any) _ _ _ _ (Triple-Any _ _)
        λ u.
          Triple-bind Any (λ _. Any) _ _ _ _ (Triple-Any _ _)
            λ v.
              Triple-bind Any _ _ _ _ _
                (reconcile-Success sha256 json_loads release.metadata (str token) 45 c)
                λ success.
                  Triple-lift _ _ _ (deny "Candidate was not confirmed" (not success))
                    (λ a e w x. x (not-false success (deny-false _ (not success) e)))
                    (λ a e w x. tt)

  attempt-Confirmed :
      (c : Client) (release : Release) (state d : Fields)
      → Triple Any
          (attempt sha256 json_loads c release state d)
          (λ _ w. (token : Value) × Confirmed release.metadata token w)
          AnyErr
  unfolding attempt
  attempt-Confirmed c release state d =
      Triple-bind Any (λ _. Any) _ _ _ _ (Triple-Any _ _)
        λ token.
          Triple-bind Any (λ _. Confirmed release.metadata (str token)) _ _ _ _
            (Triple-rescue Any (λ _. Confirmed release.metadata (str token)) AnyErr AnyErr _ _ _
              (transfer-Confirmed c release state token _) (λ e h. quarantine-never _ _ _)
              (λ e h w x. tt))
            (λ u. Triple-pure _ _ _ _ (λ w x. (str token, x)))

  resume_prior-Reported :
      (c : Client) (release : Release) (prior : Fields)
      → Triple Any
          (resume_prior sha256 json_loads c release prior)
          (Reported release.metadata)
          AnyErr
  unfolding resume_prior
  resume_prior-Reported c release prior =
      Triple-bind Any (λ _. Any) _ _ _ _ (Triple-Any _ _)
        λ same.
          Triple-bind Any (λ _. Any) _ _ _ _ (Triple-Any _ _)
            λ u.
              Triple-bind Any (λ _. Any) _ _ _ _ (Triple-Any _ _)
                λ token.
                  Triple-bind Any _ _ _ _ _
                    (reconcile-Success sha256 json_loads release.metadata token 45 c)
                    (λ success. concluded release prior token success)

  carry_out-Reported :
      (c : Client) (release : Release) (state d : Fields)
      → Triple Any
          (carry_out sha256 json_loads c release state d)
          (Reported release.metadata)
          AnyErr
  unfolding carry_out
  carry_out-Reported c release state d =
      Triple-bind Any (λ _. Any) _ _ _ _ (Triple-Any _ _)
        λ u. Triple-bind Any _ _ _ _ _ (attempt-Confirmed c release state d) λ done.
          Triple-bind _ (λ _. Settled release.metadata) _ _ _ _
            (record { at = λ w x. (write-Settled release.metadata x.0 done).at w x.1 })
            λ v.
              keep release.metadata _ _ _ _ λ result e.
                keep release.metadata _ _ _ _ (λ sha e'. Triple-pure _ _ _ _ (λ w x h. x))

  start-Reported :
      (c : Client) (release : Release) (state : Fields)
      → Triple Any (start sha256 json_loads c release state) (Reported release.metadata) AnyErr
  unfolding start
  start-Reported c release state =
      Triple-bind Any (λ _. Any) _ _ _ _ (Triple-Any _ _)
        λ old.
          Triple-bind Any (λ _. Any) _ _ _ _ (Triple-Any _ _)
            λ u.
              Triple-bind Any (λ _. Any) _ _ _ _ (Triple-Any _ _)
                λ u'.
                  Triple-bind Any (λ _. Any) _ _ _ _ (Triple-Any _ _)
                    (λ d. carry_out-Reported c release state d)

  deploy_fresh-Reported :
      (c : Client) (release : Release)
      → Triple Any (deploy_fresh sha256 json_loads c release) (Reported release.metadata) AnyErr
  unfolding deploy_fresh
  deploy_fresh-Reported c release =
      Triple-bind Any (λ _. Any) _ _ _ _ (Triple-Any _ _)
        λ state.
          Triple-bind Any (λ _. Any) _ _ _ _ (Triple-Any _ _)
            λ wrong.
              Triple-bind Any (λ _. Any) _ _ _ _ (Triple-Any _ _)
                λ u.
                  Triple-bind Any (λ _. Any) _ _ _ _ (Triple-Any _ _)
                    λ current.
                      Triple-if _ _ _ current _ _
                        (λ e.
                          Triple-lift _ _ _ (outcome "ALREADY_CURRENT" release.metadata)
                            (λ r e' w x h. absurd (
                              false≢true
                                (sym (already_current_no_success release.metadata r e') ∙ h)))
                            (λ x e' w y. tt))
                        (λ e. start-Reported c release state)

  deploy_prior-Reported :
      (c : Client) (release : Release) (prior : Fields)
      → Triple Any
          (deploy_prior sha256 json_loads c release prior)
          (Reported release.metadata)
          AnyErr
  unfolding deploy_prior
  deploy_prior-Reported c release prior =
      Triple-if _ _ _ (one_of prior (text "status") (text "FAILED") (text "UNKNOWN")) (raise _) _
        (λ e. Triple-raise _ _ _ _ (λ w f. tt))
        λ e.
          Triple-if _ _ _ (field_eq prior (text "status") (str (text "IN_PROGRESS"))) _ _
            (λ e'. resume_prior-Reported c release prior) (λ e'. deploy_fresh-Reported c release)

  pub deploy-Reported :
      (setting : Setting) (c : Client) (release : Release)
      → Triple Any (deploy sha256 json_loads setting c release) (Reported release.metadata) AnyErr
  unfolding deploy
  deploy-Reported setting c release =
      Triple-bind Any (λ _. Any) _ _ _ _ (Triple-Any _ _)
        λ u.
          Triple-bind Any (λ _. Any) _ _ _ _ (Triple-Any _ _)
            λ u'.
              Triple-bind Any (λ _. Any) _ _ _ _ (Triple-Any _ _)
                λ file.
                  Triple-bind Any (λ _. Any) _ _ _ _ (Triple-Any _ _)
                    (λ prior. deploy_prior-Reported c release prior)
