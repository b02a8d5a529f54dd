-- ===== src/Exec/Triple.antt =====
-- One rule of triples for each way to build an action.
use dm_d5102q_rs485_bridge.Prelude.{◌≡◌, refl, Bool, true, false, if◌then◌else◌}
use dm_d5102q_rs485_bridge.Exec.{Err, Result, ok, err}
use dm_d5102q_rs485_bridge.Exec.Action.{
  Action, pure, raise, lift, gets, resume, ◌>>=◌, handle, rescue, Ends, Triple,
}

module _ {ℓ} {S A : Type ℓ} (P : S → Type ℓ) (Q : A → S → Type ℓ) (R : Err → S → Type ℓ) where
  pub Triple-pure : (a : A) → ((s : S) → P s → Q a s) → Triple P (pure a) Q R
  unfolding pure
  Triple-pure a h = record { at = h }

  pub Triple-raise : (e : Err) → ((s : S) → P s → R e s) → Triple P (raise e) Q R
  unfolding raise
  Triple-raise e h = record { at = h }

  pub Triple-gets : (f : S → A) → ((s : S) → P s → Q (f s) s) → Triple P (gets f) Q R
  unfolding gets
  Triple-gets f h = record { at = h }

  lift-at :
      (r : Result A) (s : S)
      → ((a : A) → r ≡ ok a → Q a s)
      → ((e : Err) → r ≡ err e → R e s)
      → Ends Q R r s
  lift-at (ok a) s q x = q a refl
  lift-at (err e) s q x = x e refl

  pub Triple-lift :
      (r : Result A)
      → ((a : A) → r ≡ ok a → (s : S) → P s → Q a s)
      → ((e : Err) → r ≡ err e → (s : S) → P s → R e s)
      → Triple P (lift r) Q R
  unfolding lift
  Triple-lift r q x = record { at = λ s h. lift-at r s (λ a p. q a p s h) (λ e p. x e p s h) }

  pub Triple-if :
      (b : Bool) (m k : Action S A)
      → (b ≡ true → Triple P m Q R)
      → (b ≡ false → Triple P k Q R)
      → Triple P (if b then m else k) Q R
  Triple-if true m k p q = p refl
  Triple-if false m k p q = q refl

module _ {ℓ} {S A B : Type ℓ} (P : S → Type ℓ) (Q : A → S → Type ℓ) (Q' : B → S → Type ℓ)
    (R : Err → S → Type ℓ) where
  resume-at :
      (f : A → Action S B) (r : Result A) (s : S)
      → ((a : A) → Triple (Q a) (f a) Q' R)
      → Ends Q R r s
      → Ends Q' R (resume r f s).0 (resume r f s).1
  unfolding resume
  resume-at f (ok a) s h p = (h a).at s p
  resume-at f (err e) s h p = p

  pub Triple-bind :
      (m : Action S A) (f : A → Action S B)
      → Triple P m Q R
      → ((a : A) → Triple (Q a) (f a) Q' R)
      → Triple P (m >>= f) Q' R
  unfolding ◌>>=◌
  Triple-bind m f p q = record { at = λ s h. resume-at f (m s).0 (m s).1 q (p.at s h) }

module _ {ℓ} {S A : Type ℓ} (P : S → Type ℓ) (Q : A → S → Type ℓ) (R R' : Err → S → Type ℓ) where
  handle-at :
      (caught : Err → Bool) (h : Err → Action S A) (r : Result A) (s : S)
      → ((e : Err) → caught e ≡ true → Triple (R e) (h e) Q R')
      → ((e : Err) → caught e ≡ false → (s : S) → R e s → R' e s)
      → Ends Q R r s
      → Ends Q R' (handle caught h r s).0 (handle caught h r s).1
  unfolding handle
  handle-at caught h (ok a) s c n p = p
  handle-at caught h (err e) s c n p = branch (caught e) refl
    where
      branch :
          (b : Bool) → caught e ≡ b → let t = (if b then h e s else (err e, s)) in Ends Q R' t.0 t.1
      branch true eq = (c e eq).at s p
      branch false eq = n e eq s p

  pub Triple-rescue :
      (m : Action S A) (caught : Err → Bool) (h : Err → Action S A)
      → Triple P m Q R
      → ((e : Err) → caught e ≡ true → Triple (R e) (h e) Q R')
      → ((e : Err) → caught e ≡ false → (s : S) → R e s → R' e s)
      → Triple P (rescue m caught h) Q R'
  unfolding rescue
  Triple-rescue m caught h p c n = record {
    at = λ s x. handle-at caught h (m s).0 (m s).1 c n (p.at s x);
  }

-- A stronger condition before, weaker ones after.
pub Triple-weaken {ℓ} :
    {S A : Type ℓ} (P P' : S → Type ℓ) (Q Q' : A → S → Type ℓ) (R R' : Err → S → Type ℓ)
    (m : Action S A)
    → Triple P m Q R
    → ((s : S) → P' s → P s)
    → ((a : A) (s : S) → Q a s → Q' a s)
    → ((e : Err) (s : S) → R e s → R' e s)
    → Triple P' m Q' R'
Triple-weaken P P' Q Q' R R' m h p q r = record {
  at = λ s x. ends (m s).0 (m s).1 (h.at s (p s x));
}
  where
    ends : (t : Result _) (s : _) → Ends Q R t s → Ends Q' R' t s
    ends (ok a) s x = q a s x
    ends (err e) s x = r e s x
