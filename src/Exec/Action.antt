-- ===== src/Exec/Action.antt =====
-- Actions: methods over a state `S` that may raise, and what they keep.
use dm_d5102q_rs485_bridge.Prelude.{Bool, if◌then◌else◌}
use dm_d5102q_rs485_bridge.Exec.{Err, Result, ok, err}

abbrev pub Action {ℓ} : Type ℓ → Type ℓ → Type ℓ
Action S A = S → Result A × S

module _ {ℓ} {S A : Type ℓ} where
  unfoldable pub pure : A → Action S A
  pure a s = (ok a, s)

  unfoldable pub raise : Err → Action S A
  raise e s = (err e, s)

  -- A computation that touches no state.
  unfoldable pub lift : Result A → Action S A
  lift r s = (r, s)

  unfoldable pub gets : (S → A) → Action S A
  gets f s = (ok (f s), s)

module _ {ℓ} {S A B : Type ℓ} where
  unfoldable pub resume : Result A → (A → Action S B) → Action S B
  resume (ok a) f s = f a s
  resume (err e) f s = (err e, s)

  infixl 5 ◌>>=◌ ◌>>◌
  unfoldable pub ◌>>=◌ : Action S A → (A → Action S B) → Action S B
  unfolding pure raise lift gets resume
  ◌>>=◌ m f s = let (r, s') = m s in resume r f s'

  abbrev pub ◌>>◌ : Action S A → Action S B → Action S B
  m >> k = m >>= λ _. k

module _ {ℓ} {S A : Type ℓ} where
  unfoldable pub handle : (Err → Bool) → (Err → Action S A) → Result A → Action S A
  handle caught h (ok a) s = (ok a, s)
  handle caught h (err e) s = if caught e then h e s else (err e, s)

  -- `try: m`, `except caught as e: h(e)`
  unfoldable pub rescue : Action S A → (Err → Bool) → (Err → Action S A) → Action S A
  unfolding handle
  rescue m caught h s = let (r, s') = m s in handle caught h r s'

-- How a call ends: `Q` of its value and the state, or `R` of the exception and the state.
abbrev pub Ends {ℓ} : {S A : Type ℓ} → (A → S → Type ℓ) → (Err → S → Type ℓ) → Result A → S → Type ℓ
Ends Q R (ok a) s = Q a s
Ends Q R (err e) s = R e s

-- A triple: from a state with `P` the action ends by `Q` or by `R`.
pub record Triple {ℓ} {S A : Type ℓ} (P : S → Type ℓ) (m : Action S A) (Q : A → S → Type ℓ)
    (R : Err → S → Type ℓ) : Type ℓ where
  pub at : (s : S) → P s → Ends Q R (m s).0 (m s).1
