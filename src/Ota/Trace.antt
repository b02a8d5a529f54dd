-- ===== src/Ota/Trace.antt =====
-- How often an action sends a request of a kind: one rule for each way to build an action.
use dm_d5102q_rs485_bridge.Prelude.{
  ℕ, suc, ◌+◌, ◌≤◌, ◌≡◌, String, Bool, true, false, List, [], ◌∷◌, arith, if◌then◌else◌, Bool-cases,
  inl, inr,
}
pub use text.Mathlib.Text.{◌==◌ as same_path}
use dm_d5102q_rs485_bridge.Value.{Fields}
use dm_d5102q_rs485_bridge.Exec.{Err, Result, ok, err}
use dm_d5102q_rs485_bridge.Exec.Action.{
  Action, pure, raise, lift, gets, resume, ◌>>=◌, handle, rescue,
}
use dm_d5102q_rs485_bridge.Ota.World.{
  Event, sent, received, wrote, Request, World, exchange, note_received, sleep, write_state,
}

-- How many requests for `path` a trace shows.
unfoldable pub sends : String → List Event → ℕ
sends path [] = 0
sends path (sent r ∷ es) = let n = sends path es in if same_path r.path path then suc n else n
sends path (received d ∷ es) = sends path es
sends path (wrote d ∷ es) = sends path es

module _ (path : String) where
  -- `m` sends at most `n` requests for the path, whether it returns or raises.
  pub record AtMost {A : Type 0} (n : ℕ) (m : Action World A) : Type 0 where
    pub at : (w : World) → sends path (m w).1.trace ≤ sends path w.trace + n

  module _ {A : Type 0} where
    pub AtMost-pure : (a : A) → AtMost 0 (pure a)
    unfolding pure
    AtMost-pure a = record { at = λ w. omega arith }

    pub AtMost-raise : (e : Err) → AtMost 0 (raise {A = A} e)
    unfolding raise
    AtMost-raise e = record { at = λ w. omega arith }

    pub AtMost-lift : (r : Result A) → AtMost 0 (lift r)
    unfolding lift
    AtMost-lift r = record { at = λ w. omega arith }

    pub AtMost-gets : (f : World → A) → AtMost 0 (gets f)
    unfolding gets
    AtMost-gets f = record { at = λ w. omega arith }

    pub AtMost-if :
        (n : ℕ) (b : Bool) (m k : Action World A)
        → AtMost n m
        → AtMost n k
        → AtMost n (if b then m else k)
    AtMost-if n true m k p q = p
    AtMost-if n false m k p q = q

    pub AtMost-weaken : (n k : ℕ) (m : Action World A) → AtMost n m → n ≤ k → AtMost k m
    AtMost-weaken n k m p h = record { at = λ w. omega (arith, p.at w) }

    handle-AtMost :
        (n : ℕ) (caught : Err → Bool) (h : Err → Action World A) (r : Result A) (w : World)
        → ((e : Err) → AtMost n (h e))
        → sends path (handle caught h r w).1.trace ≤ sends path w.trace + n
    unfolding handle
    handle-AtMost n caught h (ok a) w p = omega arith
    handle-AtMost n caught h (err e) w p = elim (Bool-cases (caught e)) [
      | inl c ↦ rw c ((p e).at w)
      | inr c ↦ rw c (omega arith)
    ]

    pub AtMost-rescue :
        (n k : ℕ) (m : Action World A) (caught : Err → Bool) (h : Err → Action World A)
        → AtMost n m
        → ((e : Err) → AtMost k (h e))
        → AtMost (n + k) (rescue m caught h)
    unfolding rescue
    AtMost-rescue n k m caught h p q = record {
      at = λ w. omega (arith, p.at w, handle-AtMost k caught h (m w).0 (m w).1 q);
    }

  module _ {A B : Type 0} where
    resume-AtMost :
        (n : ℕ) (f : A → Action World B) (r : Result A) (w : World)
        → ((a : A) → AtMost n (f a))
        → sends path (resume r f w).1.trace ≤ sends path w.trace + n
    unfolding resume
    resume-AtMost n f (ok a) w p = (p a).at w
    resume-AtMost n f (err e) w p = omega arith

    pub AtMost-bind :
        (n k : ℕ) (m : Action World A) (f : A → Action World B)
        → AtMost n m
        → ((a : A) → AtMost k (f a))
        → AtMost (n + k) (m >>= f)
    unfolding ◌>>=◌
    AtMost-bind n k m f p q = record {
      at = λ w. omega (arith, p.at w, resume-AtMost k f (m w).0 (m w).1 q);
    }

    -- The common case: only the rest sends.
    pub AtMost-bind_quiet :
        (n : ℕ) (m : Action World A) (f : A → Action World B)
        → AtMost 0 m
        → ((a : A) → AtMost n (f a))
        → AtMost n (m >>= f)
    AtMost-bind_quiet n m f p q = record { at = λ w. omega (arith, (AtMost-bind 0 n m f p q).at w) }

  pub AtMost-sleep : AtMost 0 sleep
  unfolding sleep
  AtMost-sleep = record { at = λ w. omega arith }

  pub AtMost-write_state : (d : Fields) → AtMost 0 (write_state d)
  unfolding write_state sends
  AtMost-write_state d = record { at = λ w. ground arith }

  pub AtMost-note_received : (d : Fields) → AtMost 0 (note_received d)
  unfolding note_received sends
  AtMost-note_received d = record { at = λ w. omega arith }

  pub AtMost-exchange : (r : Request) → AtMost 1 (exchange r)
  unfolding exchange sends
  AtMost-exchange r = record { at = λ w. ground arith }

  pub AtMost-exchange_other : (r : Request) → same_path r.path path ≡ false → AtMost 0 (exchange r)
  unfolding exchange sends
  AtMost-exchange_other r h = record { at = λ w. rw h (omega arith) }

pub ruleset at_most_rules = (
  AtMost-pure, AtMost-raise, AtMost-lift, AtMost-gets, AtMost-if, AtMost-bind_quiet, AtMost-sleep,
  AtMost-write_state, AtMost-note_received,
)
