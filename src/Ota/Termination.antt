-- ===== src/Ota/Termination.antt =====
-- The watch of `reconcile` ends by its clock, within the rounds that the model gives it.
use dm_d5102q_rs485_bridge.Prelude.{
  ℕ, zero, suc, ◌+◌, ◌*◌, ◌≤◌, ◌<◌, ◌≡◌, refl, Text, text, Bool, true, false, Option, none, some,
  arith, if◌then◌else◌, ltb, String, ◌&&◌,
}
use dm_d5102q_rs485_bridge.Value.{Value, Fields, str, get, field_eq, is_bool}
use dm_d5102q_rs485_bridge.Exec.{Err, Result, ok, err, diverged}
use dm_d5102q_rs485_bridge.Exec.Action.{Action, ◌>>=◌, pure, lift, rescue, Triple, Ends}
use dm_d5102q_rs485_bridge.Exec.Triple.{
  Triple-pure, Triple-lift, Triple-gets, Triple-bind, Triple-rescue,
}
use dm_d5102q_rs485_bridge.Ota.World.{
  World, Request, Outcome, exchange, note_received, decode, sleep,
}
use dm_d5102q_rs485_bridge.Ota.Client.{
  Client, raw, signed, status, check_status, challenge_nonce, count_request, optional_hex32,
  hex32_or_refuse,
}
use dm_d5102q_rs485_bridge.Ota.Reconcile.{
  item, same_item, and_then, runs_release, is_caught, confirm, judge_ours, judge_other, judge, poll,
  watch, reconcile,
}

abbrev pub is_diverged : Err → Bool
is_diverged diverged = true
is_diverged _ = false

-- A result that is no exhausted fuel.
abbrev pub Ended {ℓ} : {A : Type ℓ} → Result A → Type 0
Ended (ok a) = Unit
Ended (err e) = is_diverged e ≡ false

module _ (n : ℕ) where
  abbrev After : World → Type 0
  After w = n ≤ w.now

  abbrev AfterErr : Err → World → Type 0
  AfterErr e w = (is_diverged e ≡ false) × (n ≤ w.now)

  -- The call takes the clock nowhere back, and ends.
  abbrev Live : {A : Type 0} → Action World A → Type 0
  Live m = Triple After m (λ _. After) AfterErr

  Live-pure : {A : Type 0} (a : A) → Live (pure a)
  Live-pure a = Triple-pure _ _ _ a (λ w x. x)

  ended : {A : Type 0} (r : Result A) (e : Err) → Ended r → r ≡ err e → is_diverged e ≡ false
  ended (ok a) e h eq = cc
  ended (err x) e h eq = ground arith

  Live-lift : {A : Type 0} (r : Result A) → Ended r → Live (lift r)
  Live-lift r h = Triple-lift _ _ _ r (λ a e w x. x) (λ e eq w x. (ended r e h eq, x))

  Live-bind :
      {A B : Type 0} (m : Action World A) (f : A → Action World B)
      → Live m
      → ((a : A) → Live (f a))
      → Live (m >>= f)
  Live-bind m f x y = Triple-bind _ _ _ _ m f x y

  Live-if :
      {A : Type 0} (b : Bool) (m k : Action World A) → Live m → Live k → Live (if b then m else k)
  Live-if true m k x y = x
  Live-if false m k x y = y

  Live-exchange : (r : Request) → Live (exchange r)
  unfolding exchange
  Live-exchange r = record { at = λ w h. omega arith }

  Live-note : (d : Fields) → Live (note_received d)
  unfolding note_received
  Live-note d = record { at = λ w h. h }

decode-Ended : (json_loads : Text → Option Value) (o : Outcome) → Ended (decode json_loads o)
unfolding decode
decode-Ended json_loads o = ground arith

hex32-Ended : (m : String) (v : Value) → Ended (hex32_or_refuse m v)
unfolding hex32_or_refuse
hex32-Ended m v = ground arith

item-Ended : (d : Fields) (k : Text) → Ended (item d k)
unfolding item
item-Ended d k = ground arith

same_item-Ended : (d : Fields) (a : Text) (e : Fields) (b : Text) → Ended (same_item d a e b)
unfolding same_item
same_item-Ended d a e b = ground (arith, item-Ended e b)

and_then-Ended : (r s : Result Bool) → Ended r → Ended s → Ended (and_then r s)
unfolding and_then
and_then-Ended (ok true) s x y = y
and_then-Ended (ok false) s x y = tt
and_then-Ended (err e) s x y = x

runs_release-Ended : (d metadata : Fields) (token : Value) → Ended (runs_release d metadata token)
unfolding runs_release
runs_release-Ended d metadata token = and_then-Ended _ _ (same_item-Ended d _ metadata _) (
    and_then-Ended _ _ (same_item-Ended d _ metadata _)
      (and_then-Ended _ _ (same_item-Ended d _ metadata _) tt))

module _ (sha256 : Text → Text) (json_loads : Text → Option Value) (n : ℕ) where
  challenge-Ended : (d : Fields) → Ended (challenge_nonce sha256 json_loads d)
  unfolding challenge_nonce
  challenge-Ended d = grind (arith, hex32-Ended)

  optional-Ended : (m : String) (v : Value) → Ended (optional_hex32 sha256 json_loads m v)
  unfolding optional_hex32
  optional-Ended m v = ground (arith, hex32-Ended m v)

  check-Ended : (c : Client) (d : Fields) → Ended (check_status sha256 json_loads c d)
  unfolding check_status
  check-Ended c d = ground arith

  raw-Live : (r : Request) → Live n (raw sha256 json_loads r)
  unfolding raw
  raw-Live r = Live-bind n _ _ (Live-exchange n r) λ o.
      Live-bind n _ _ (Live-lift n _ (decode-Ended json_loads o))
        λ d. Live-bind n _ _ (Live-note n d) (λ u. Live-pure n d)

  count-Live : (nonce : Text) → Live n (count_request sha256 json_loads nonce)
  unfolding count_request
  count-Live nonce = record { at = λ w h. ground arith }

  signed-Live :
      (c : Client) (method path : String) (body : Text) (csrf token : Value)
      → Live n (signed sha256 json_loads c method path body csrf token)
  unfolding signed
  signed-Live c method path body csrf token = Live-bind n _ _ (raw-Live _) λ ch.
      Live-bind n _ _ (Live-lift n _ (challenge-Ended ch)) λ nonce.
        Live-bind n _ _ (count-Live nonce) λ k.
          Live-bind n _ _ (Live-lift n _ (optional-Ended _ csrf)) λ csrf_token.
            Live-bind n _ _ (Live-lift n _ (optional-Ended _ token)) (λ ota_token. raw-Live _)

  status-Live : (c : Client) → Live n (status sha256 json_loads c)
  unfolding status
  status-Live c = Live-bind n _ _ (signed-Live c _ _ _ _ _) (λ d. Live-lift n _ (check-Ended c d))

  confirm-Live :
      (c : Client) (token : Value) (d : Fields) → Live n (confirm sha256 json_loads c token d)
  unfolding confirm
  confirm-Live c token d =
      Live-bind n _ _ (Live-lift n _ (item-Ended d _))
        λ csrf. Live-bind n _ _ (signed-Live c _ _ _ _ _) (λ e. Live-pure n none)

  judge-Live :
      (c : Client) (metadata : Fields) (token : Value) (d : Fields)
      → Live n (judge sha256 json_loads c metadata token d)
  unfolding judge judge_ours judge_other
  judge-Live c metadata token d =
      Live-bind n _ _ (Live-lift n _ (runs_release-Ended d metadata token)) λ ours.
        Live-if n ours _ _
          (Live-if n (field_eq d (text "otaBootState") (str (text "VALID"))) _ _ (Live-pure n _) (
            Live-if n
              (field_eq d (text "otaBootState") (str (text "PENDING_VERIFY"))
                && is_bool true (get (text "otaHealthy") d))
              _ _ (confirm-Live c token d) (Live-pure n _)))
          (Live-if n
            (field_eq d (text "otaBootState") (str (text "ROLLED_BACK_OR_INTERRUPTED"))
              && field_eq d (text "otaTransaction") token)
            _ _ (Live-pure n _) (Live-pure n _))

  poll-Live :
      (c : Client) (metadata : Fields) (token : Value)
      → Live n (rescue (poll sha256 json_loads c metadata token) is_caught (λ _. pure none))
  unfolding poll
  poll-Live c metadata token =
      Triple-rescue _ _ (AfterErr n) (AfterErr n) _ _ _
        (Live-bind n _ _ (status-Live c) (λ d. judge-Live c metadata token d))
        (λ e h. Triple-pure _ _ _ none (λ w x. x.1)) (λ e h w x. x)

-- A call that ends.
abbrev EndsAtAll : {A : Type 0} → ℕ → Action World A → Type 0
EndsAtAll n m = Triple (After n) m (λ _ _. Unit) (λ e _. is_diverged e ≡ false)

module _ (sha256 : Text → Text) (json_loads : Text → Option Value) (c : Client) (metadata : Fields)
    (token : Value) where
  slept : (n : ℕ) → Triple (After n) sleep (λ _. After (n + 1000)) (λ e _. is_diverged e ≡ false)
  unfolding sleep
  slept n = record { at = λ w h. omega arith }

  decided :
      (n : ℕ) (v : Option Bool) (m : Action World Bool)
      → EndsAtAll n m
      → EndsAtAll n (elim v as (λ _. Action World Bool) [ some b ↦ pure b | none ↦ m ])
  decided n (some b) m h = Triple-pure _ _ _ b (λ w x. tt)
  decided n none m h = h

  in_time :
      (n now deadline : ℕ) (m : Action World Bool)
      → (n < deadline → EndsAtAll n m)
      → Triple
          (λ w. (n ≤ now) × (n ≤ w.now))
          (elim (ltb now deadline) as (λ _. Action World Bool) [ false ↦ pure false | true ↦ m ])
          (λ _ _. Unit)
          (λ e _. is_diverged e ≡ false)
  in_time n now deadline m h = by_test (ltb now deadline) refl
    where
      by_test :
          (b : Bool)
          → ltb now deadline ≡ b
          → Triple
              (λ w. (n ≤ now) × (n ≤ w.now))
              (elim b as (λ _. Action World Bool) [ false ↦ pure false | true ↦ m ])
              (λ _ _. Unit)
              (λ e _. is_diverged e ≡ false)
      by_test true e = record { at = λ w x. (h (ground arith)).at w x.1 }
      by_test false e = Triple-pure _ _ _ false (λ w x. tt)

  watch-Ends :
      (fuel deadline n : ℕ)
      → 0 < fuel
      → deadline + 1000 ≤ n + 1000 * fuel
      → EndsAtAll n (watch sha256 json_loads fuel deadline c metadata token)
  unfolding watch
  watch-Ends zero deadline n p q = elim p [ ]
  watch-Ends (suc fuel) deadline n p q =
      Triple-bind _ (λ now w. (n ≤ now) × (n ≤ w.now)) _ _ _ _ (Triple-gets _ _ _ _ (λ w x. (x, x)))
        λ now. in_time n now deadline _ λ early.
          Triple-bind _ (λ _. After n) _ _ _ _
            (weaker (poll-Live sha256 json_loads n c metadata token))
            λ v. decided n v _ (
              Triple-bind _ (λ _. After (n + 1000)) _ _ _ _ (slept n)
                λ u. watch-Ends fuel deadline (n + 1000) (omega arith) (omega arith))
    where
      weaker :
          {m : Action World (Option Bool)}
          → Live n m
          → Triple (After n) m (λ _. After n) (λ e _. is_diverged e ≡ false)
      weaker {m} h = record { at = λ w x. drop_clock (m w).0 (m w).1 (h.at w x) }
        where
          drop_clock :
              (r : Result (Option Bool)) (w : World)
              → Ends {A = Option Bool} (λ _. After n) (AfterErr n) r w
              → Ends {A = Option Bool} (λ _. After n) (λ e _. is_diverged e ≡ false) r w
          drop_clock (ok a) w x = x
          drop_clock (err e) w x = x.0

  -- `reconcile` ends, whatever the device answers and however long it takes: the rounds that the
  -- model gives the loop are enough.
  pub reconcile_ends :
      (seconds : ℕ) (w : World) → Ended (reconcile sha256 json_loads seconds c metadata token w).0
  unfolding reconcile ◌>>=◌
  reconcile_ends seconds w = result_of _ _ (
      (watch-Ends (seconds + 1) (w.now + 1000 * seconds) w.now (omega arith) (omega arith)).at w
        (omega arith))
    where
      result_of :
          (r : Result Bool) (v : World)
          → Ends {A = Bool} (λ _ _. Unit) (λ e _. is_diverged e ≡ false) r v
          → Ended r
      result_of (ok a) v x = tt
      result_of (err e) v x = x
