-- ===== src/Ota/Confirmed.antt =====
-- What stands behind a `SUCCESS`: the device has said, as the last thing, that it runs the release.
use dm_d5102q_rs485_bridge.Prelude.{
  String, ℕ, zero, suc, ◌≡◌, refl, Text, text, Bool, true, false, ◌&&◌, Option, none, some, List,
  ◌∷◌, arith, if◌then◌else◌, ltb,
}
use dm_d5102q_rs485_bridge.Value.{Value, Fields, str, get, field_eq, is_bool}
use dm_d5102q_rs485_bridge.Exec.{Err, Result, ok, err}
use dm_d5102q_rs485_bridge.Exec.Action.{Ends, Action, ◌>>=◌, pure, Triple}
use dm_d5102q_rs485_bridge.Exec.Triple.{
  Triple-pure, Triple-raise, Triple-lift, Triple-if, Triple-bind, Triple-rescue,
}
use dm_d5102q_rs485_bridge.Ota.World.{Event, received, Request, World, note_received}
use dm_d5102q_rs485_bridge.Ota.Client.{Client, raw, signed, status, check_status}
use dm_d5102q_rs485_bridge.Ota.Reconcile.{
  runs_release, confirm, judge_ours, judge_other, judge, poll, watch, reconcile,
}

-- The last event is the answer `d`.
abbrev pub Latest : Fields → World → Type 0
Latest d w = (t : List Event) × (w.trace ≡ received d ∷ t)

-- The last event is a status by which the device runs the release for this transaction, as valid.
abbrev pub Confirmed : Fields → Value → World → Type 0
Confirmed metadata token w =
    (d : Fields) × (t : List Event) × (w.trace ≡ received d ∷ t)
    × (runs_release d metadata token ≡ ok true)
    × (field_eq d (text "otaBootState") (str (text "VALID")) ≡ true)

abbrev pub Any : World → Type 0
Any w = Unit

abbrev pub AnyErr : Err → World → Type 0
AnyErr e w = Unit

-- A call of which nothing is asked.
pub Triple-Any :
    {A : Type 0} (P : World → Type 0) (m : Action World A) → Triple P m (λ _. Any) AnyErr
Triple-Any {A} P m = record { at = λ w u. ends (m w).0 (m w).1 }
  where
    ends : (r : Result A) (w : World) → Ends {A = A} (λ _. Any) AnyErr r w
    ends (ok a) w = tt
    ends (err e) w = tt

module _ (sha256 : Text → Text) (json_loads : Text → Option Value) where
  raw-Latest : (r : Request) → Triple Any (raw sha256 json_loads r) Latest AnyErr
  unfolding raw note_received
  raw-Latest r =
      Triple-bind Any (λ _. Any) _ _ _ _ (Triple-Any _ _)
        λ o.
          Triple-bind Any (λ _. Any) _ _ _ _ (Triple-Any _ _)
            λ d.
              Triple-bind Any (λ _. Latest d) _ _ _ _ (note-Latest d)
                (λ u. Triple-pure _ _ _ d (λ w x. x))
    where
      note-Latest : (d : Fields) → Triple Any (note_received d) (λ _. Latest d) AnyErr
      note-Latest d = record { at = λ w u. (w.trace, refl) }

  signed-Latest :
      (c : Client) (method path : String) (body : Text) (csrf token : Value)
      → Triple Any (signed sha256 json_loads c method path body csrf token) Latest AnyErr
  unfolding signed
  signed-Latest c method path body csrf token =
      Triple-bind Any (λ _. Any) _ _ _ _ (Triple-Any _ _)
        λ ch.
          Triple-bind Any (λ _. Any) _ _ _ _ (Triple-Any _ _)
            λ nonce.
              Triple-bind Any (λ _. Any) _ _ _ _ (Triple-Any _ _)
                λ n.
                  Triple-bind Any (λ _. Any) _ _ _ _ (Triple-Any _ _)
                    λ csrf_token.
                      Triple-bind Any (λ _. Any) _ _ _ _ (Triple-Any _ _)
                        (λ ota_token. raw-Latest _)

  check_status-eq : (c : Client) (d e : Fields) → check_status sha256 json_loads c d ≡ ok e → e ≡ d
  unfolding check_status
  check_status-eq c d e h = ground arith

  pub status-Latest : (c : Client) → Triple Any (status sha256 json_loads c) Latest AnyErr
  unfolding status
  status-Latest c = Triple-bind Any Latest _ _ _ _ (signed-Latest c _ _ _ _ _) λ d.
      Triple-lift (Latest d) Latest AnyErr (check_status sha256 json_loads c d)
        (λ e eq w x. (x.0, rw (check_status-eq c d e eq) x.1)) (λ e eq w x. tt)

  module _ (metadata : Fields) (token : Value) where
    -- A verdict of success is a confirmation.
    abbrev Verdict : Option Bool → World → Type 0
    Verdict v w = v ≡ some true → Confirmed metadata token w

    pass :
        {A : Type 0} (P : World → Type 0) (m : Action World A) (f : A → Action World (Option Bool))
        → ((a : A) → Triple Any (f a) Verdict AnyErr)
        → Triple P (m >>= f) Verdict AnyErr
    pass P m f h = Triple-bind P (λ _. Any) _ _ _ _ (Triple-Any P m) h

    no-Verdict : (P : World → Type 0) → Triple P (pure {A = Option Bool} none) Verdict AnyErr
    no-Verdict P = Triple-pure _ _ _ none (λ w u h. cc)

    confirm-Verdict :
        (P : World → Type 0) (c : Client) (d : Fields)
        → Triple P (confirm sha256 json_loads c token d) Verdict AnyErr
    unfolding confirm
    confirm-Verdict P c d = pass P _ _ (λ csrf. pass Any _ _ (λ e. no-Verdict Any))

    judge_ours-Verdict :
        (c : Client) (d : Fields)
        → runs_release d metadata token ≡ ok true
        → Triple (Latest d) (judge_ours sha256 json_loads c token d) Verdict AnyErr
    unfolding judge_ours
    judge_ours-Verdict c d ours =
        Triple-if _ _ _ (field_eq d (text "otaBootState") (str (text "VALID"))) _ _
          (λ valid. Triple-pure _ _ _ (some true) (λ w x h. (d, x.0, x.1, ours, valid)))
          λ e.
            Triple-if _ _ _
              (field_eq d (text "otaBootState") (str (text "PENDING_VERIFY"))
                && is_bool true (get (text "otaHealthy") d))
              _ _ (λ e'. confirm-Verdict (Latest d) c d) (λ e'. no-Verdict (Latest d))

    judge_other-Verdict :
        (d : Fields) → Triple (Latest d) (judge_other sha256 json_loads token d) Verdict AnyErr
    unfolding judge_other
    judge_other-Verdict d =
        Triple-if _ _ _
          (field_eq d (text "otaBootState") (str (text "ROLLED_BACK_OR_INTERRUPTED"))
            && field_eq d (text "otaTransaction") token)
          _ _ (λ e. Triple-pure _ _ _ (some false) (λ w x h. cc)) (λ e. no-Verdict (Latest d))

    judge-Verdict :
        (c : Client) (d : Fields)
        → Triple (Latest d) (judge sha256 json_loads c metadata token d) Verdict AnyErr
    unfolding judge
    judge-Verdict c d =
        Triple-bind (Latest d) (λ ours w. Latest d w × (runs_release d metadata token ≡ ok ours)) _
          _ _ _
          (Triple-lift _ _ _ (runs_release d metadata token) (λ ours e w x. (x, e)) (λ x e w y. tt))
          (λ ours. judged c d ours)
      where
        judged :
            (c : Client) (d : Fields) (ours : Bool)
            → Triple
                (λ w. Latest d w × (runs_release d metadata token ≡ ok ours))
                (if ours
                  then judge_ours sha256 json_loads c token d
                  else judge_other sha256 json_loads token d)
                Verdict
                AnyErr
        judged c d true = record { at = λ w x. (judge_ours-Verdict c d x.1).at w x.0 }
        judged c d false = record { at = λ w x. (judge_other-Verdict d).at w x.0 }

    poll-Verdict :
        (c : Client) → Triple Any (poll sha256 json_loads c metadata token) Verdict AnyErr
    unfolding poll
    poll-Verdict c = Triple-bind Any Latest _ _ _ _ (status-Latest c) (λ d. judge-Verdict c d)

    -- What `watch` and `reconcile` promise.
    abbrev Success : Bool → World → Type 0
    Success b w = b ≡ true → Confirmed metadata token w

    decided :
        (v : Option Bool) (m : Action World Bool)
        → Triple Any m Success AnyErr
        → Triple
            (Verdict v)
            (elim v as (λ _. Action World Bool) [ some b ↦ pure b | none ↦ m ])
            Success
            AnyErr
    decided (some b) m h = Triple-pure _ _ _ b (λ w x e. x (rw e))
    decided none m h = record { at = λ w x. h.at w tt }

    in_time :
        (b : Bool) (m : Action World Bool)
        → Triple Any m Success AnyErr
        → Triple Any
            (elim b as (λ _. Action World Bool) [ false ↦ pure false | true ↦ m ])
            Success
            AnyErr
    in_time true m h = h
    in_time false m h = Triple-pure _ _ _ false (λ w x e. cc)

    watch-Success :
        (fuel deadline : ℕ) (c : Client)
        → Triple Any (watch sha256 json_loads fuel deadline c metadata token) Success AnyErr
    unfolding watch
    watch-Success zero deadline c = Triple-raise _ _ _ _ (λ w x. tt)
    watch-Success (suc fuel) deadline c =
        Triple-bind Any (λ _. Any) _ _ _ _ (Triple-Any _ _)
          λ now. in_time (ltb now deadline) _ (
            Triple-bind Any Verdict _ _ _ _
              (Triple-rescue Any Verdict AnyErr AnyErr _ _ _ (poll-Verdict c)
                (λ e h. no-Verdict (AnyErr e)) (λ e h w x. tt))
              λ v. decided v _ (
                Triple-bind Any (λ _. Any) _ _ _ _ (Triple-Any _ _)
                  (λ u. watch-Success fuel deadline c)))

    -- `reconcile` answers `True` only if the last thing that the device said is that it runs the
    -- release for this transaction and has committed it.
    pub reconcile-Success :
        (seconds : ℕ) (c : Client)
        → Triple Any (reconcile sha256 json_loads seconds c metadata token) Success AnyErr
    unfolding reconcile
    reconcile-Success seconds c =
        Triple-bind Any (λ _. Any) _ _ _ _ (Triple-Any _ _) (λ started. watch-Success _ _ c)
