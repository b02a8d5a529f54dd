-- ===== src/Ota/Emits.antt =====
-- What an action adds to the trace, whether it returns or raises.
use dm_d5102q_rs485_bridge.Prelude.{
  ◌≡◌, refl, String, Bool, true, false, List, ◌∷◌, arith, if◌then◌else◌, Bool-cases, inl, inr,
}
use dm_d5102q_rs485_bridge.Value.{Fields}
use dm_d5102q_rs485_bridge.Exec.{Err, Result, ok, err}
use dm_d5102q_rs485_bridge.Exec.Action.{
  Action, pure, raise, lift, gets, resume, ◌>>=◌, handle, rescue,
}
use dm_d5102q_rs485_bridge.Ota.World.{
  Event, sent, received, wrote, Request, World, exchange, note_received, sleep, write_state,
  next_fault,
}
use dm_d5102q_rs485_bridge.Ota.Trace.{same_path, sends, AtMost}

-- A trace that goes on from `old` by events of the kind `p`.
pub data Extends (p : Event → Bool) (old : List Event) : List Event → Type 0 where
  same : Extends p old old
  more : {t : List Event} (e : Event) → p e ≡ true → Extends p old t → Extends p old (e ∷ t)

Extends-trans :
    (p : Event → Bool) (s : List Event) {t u : List Event}
    → Extends p s t
    → Extends p t u
    → Extends p s u
Extends-trans p s x same = x
Extends-trans p s x (more e h y) = more e h (Extends-trans p s x y)

module _ (p : Event → Bool) where
  pub record Emits {A : Type 0} (m : Action World A) : Type 0 where
    pub at : (w : World) → Extends p w.trace (m w).1.trace

  module _ {A : Type 0} where
    pub Emits-pure : (a : A) → Emits (pure a)
    unfolding pure
    Emits-pure a = record { at = λ w. same }

    pub Emits-raise : (e : Err) → Emits (raise {A = A} e)
    unfolding raise
    Emits-raise e = record { at = λ w. same }

    pub Emits-lift : (r : Result A) → Emits (lift r)
    unfolding lift
    Emits-lift r = record { at = λ w. same }

    pub Emits-gets : (f : World → A) → Emits (gets f)
    unfolding gets
    Emits-gets f = record { at = λ w. same }

    pub Emits-if :
        (b : Bool) (m k : Action World A) → Emits m → Emits k → Emits (if b then m else k)
    Emits-if true m k x y = x
    Emits-if false m k x y = y

    handle-Extends :
        (caught : Err → Bool) (h : Err → Action World A) (r : Result A) (w : World)
        → ((e : Err) → Emits (h e))
        → Extends p w.trace (handle caught h r w).1.trace
    unfolding handle
    handle-Extends caught h (ok a) w x = same
    handle-Extends caught h (err e) w x = elim (Bool-cases (caught e)) [
      | inl c ↦ rw c ((x e).at w)
      | inr c ↦ rw c same
    ]

    pub Emits-rescue :
        (m : Action World A) (caught : Err → Bool) (h : Err → Action World A)
        → Emits m
        → ((e : Err) → Emits (h e))
        → Emits (rescue m caught h)
    unfolding rescue
    Emits-rescue m caught h x y = record {
      at = λ w. Extends-trans p _ (x.at w) (handle-Extends caught h (m w).0 (m w).1 y);
    }

  module _ {A B : Type 0} where
    resume-Extends :
        (f : A → Action World B) (r : Result A) (w : World)
        → ((a : A) → Emits (f a))
        → Extends p w.trace (resume r f w).1.trace
    unfolding resume
    resume-Extends f (ok a) w x = (x a).at w
    resume-Extends f (err e) w x = same

    pub Emits-bind :
        (m : Action World A) (f : A → Action World B)
        → Emits m
        → ((a : A) → Emits (f a))
        → Emits (m >>= f)
    unfolding ◌>>=◌
    Emits-bind m f x y = record {
      at = λ w. Extends-trans p _ (x.at w) (resume-Extends f (m w).0 (m w).1 y);
    }

  pub Emits-sleep : Emits sleep
  unfolding sleep
  Emits-sleep = record { at = λ w. same }

  pub Emits-exchange : (r : Request) → p (sent r) ≡ true → Emits (exchange r)
  unfolding exchange
  Emits-exchange r h = record { at = λ w. more (sent r) h same }

  pub Emits-note_received : (d : Fields) → p (received d) ≡ true → Emits (note_received d)
  unfolding note_received
  Emits-note_received d h = record { at = λ w. more (received d) h same }

  pub Emits-write_state : (d : Fields) → p (wrote d) ≡ true → Emits (write_state d)
  unfolding write_state
  Emits-write_state d h = record {
    at = λ w. elim (Bool-cases (next_fault w.disk_faults)) [
      | inl c ↦ rw c same
      | inr c ↦ rw c (more (wrote d) h same)
    ];
  }

  -- Where no event of the kind is a request for a path, none is sent.
  pub sends-Extends :
      (path : String)
      → ((r : Request) → p (sent r) ≡ true → same_path r.path path ≡ false)
      → {s t : List Event} → Extends p s t
      → sends path t ≡ sends path s
  unfolding sends
  sends-Extends path other same = refl
  sends-Extends path other (more (sent r) h x) = rw (other r h) (sends-Extends path other x)
  sends-Extends path other (more (received d) h x) = sends-Extends path other x
  sends-Extends path other (more (wrote d) h x) = sends-Extends path other x

  pub AtMost-of_Emits :
      {A : Type 0} (path : String) (m : Action World A)
      → ((r : Request) → p (sent r) ≡ true → same_path r.path path ≡ false)
      → Emits m
      → AtMost path 0 m
  AtMost-of_Emits path m other x = record {
    at = λ w. omega (arith, sends-Extends path other (x.at w));
  }

pub ruleset emits_rules = (
  Emits-pure, Emits-raise, Emits-lift, Emits-gets, Emits-if, Emits-bind, Emits-rescue, Emits-sleep,
)
