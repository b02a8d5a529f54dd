-- ===== src/Ota/Fence.antt =====
-- The intent of a deployment is on disk before the device is asked to change.
use text.Mathlib.TextEquality.{eq_iff}
use dm_d5102q_rs485_bridge.Prelude.{
  ◌≡◌, refl, ap, String, Text, text_eq, Bool, true, false, not, ◌&&◌, ◌||◌, Option, none, some,
  List, [], ◌∷◌, arith, if◌then◌else◌, Bool-cases, inl, inr,
}
use dm_d5102q_rs485_bridge.Prelude as Base
use dm_d5102q_rs485_bridge.Value.{Value, Fields, str, field_eq}
use dm_d5102q_rs485_bridge.Exec.{Result, ok, err}
use dm_d5102q_rs485_bridge.Exec.Action.{Action, Triple, Ends}
use dm_d5102q_rs485_bridge.Ota.World.{Event, sent, received, wrote, World, write_state, next_fault}
use dm_d5102q_rs485_bridge.Ota.Trace.{same_path}
use dm_d5102q_rs485_bridge.Ota.Emits.{Extends, same, more, Emits}
use dm_d5102q_rs485_bridge.Ota.Watching.{kind, watches}

abbrev pub in_progress : Value
in_progress = str (Base.text "IN_PROGRESS")

-- The requests that begin to change the device.
abbrev pub mutates : String → Bool
mutates path = same_path path "/api/v1/ota/prepare" || same_path path "/api/v1/ota/upload"

-- The last state that was written is an open attempt.
unfoldable pub armed : List Event → Bool
armed [] = false
armed (wrote d ∷ es) = field_eq d (Base.text "status") in_progress
armed (sent r ∷ es) = armed es
armed (received d ∷ es) = armed es

-- At each mutating request an open attempt was the last state written.
unfoldable pub fenced : List Event → Bool
fenced [] = true
fenced (sent r ∷ es) = (not (mutates r.path) || armed es) && fenced es
fenced (received d ∷ es) = fenced es
fenced (wrote d ∷ es) = fenced es

abbrev pub IsFenced : World → Type 0
IsFenced w = fenced w.trace ≡ true

abbrev pub IsArmed : World → Type 0
IsArmed w = (fenced w.trace ≡ true) × (armed w.trace ≡ true)

mutates_at : (q a : String) → mutates a ≡ false → same_path q a ≡ true → mutates q ≡ false
mutates_at q a h e = rw ((eq_iff q a).0 e) h

any_of_three :
    (P : Type 0) (a b c : Bool)
    → (a ≡ true → P)
    → (b ≡ true → P)
    → (c ≡ true → P)
    → (a || b || c) ≡ true
    → P
any_of_three P true b c x y z h = x refl
any_of_three P false true c x y z h = y refl
any_of_three P false false c x y z h = z h

watches-mutates : (q : String) → watches q ≡ true → mutates q ≡ false
watches-mutates q =
    any_of_three _ _ _ _ (mutates_at q "/api/v1/auth" refl) (mutates_at q "/api/v1/ota/status" refl)
      (mutates_at q "/api/v1/ota/confirm" refl)

watching-fenced :
    {s t : List Event} → Extends (kind watches false) s t → fenced s ≡ true → fenced t ≡ true
unfolding fenced
watching-fenced same f = f
watching-fenced (more (sent r) h x) f = rw (watches-mutates r.path h) (watching-fenced x f)
watching-fenced (more (received d) h x) f = watching-fenced x f
watching-fenced (more (wrote d) h x) f = cc

requests-armed :
    {s t : List Event}
    → Extends (kind (λ _. true) false) s t
    → (fenced s ≡ true) × (armed s ≡ true)
    → (fenced t ≡ true) × (armed t ≡ true)
unfolding fenced armed
requests-armed same f = f
requests-armed (more (sent r) h x) f = let ih = requests-armed x f in (ground arith, ih.1)
requests-armed (more (received d) h x) f = requests-armed x f
requests-armed (more (wrote d) h x) f = cc

module _ {A : Type 0} (m : Action World A) where
  -- What only watches keeps the fence.
  pub watching-IsFenced :
      Emits (kind watches false) m → Triple IsFenced m (λ _. IsFenced) (λ _. IsFenced)
  watching-IsFenced x = record { at = λ w f. ends (m w).0 (m w).1 (watching-fenced (x.at w) f) }
    where
      ends :
          (r : Result A) (w : World) → IsFenced w → Ends {A = A} (λ _. IsFenced) (λ _. IsFenced) r w
      ends (ok a) w f = f
      ends (err e) w f = f

  -- With an open attempt on disk any request keeps the fence.
  pub requests-IsArmed :
      Emits (kind (λ _. true) false) m → Triple IsArmed m (λ _. IsArmed) (λ _. IsArmed)
  requests-IsArmed x = record { at = λ w f. ends (m w).0 (m w).1 (requests-armed (x.at w) f) }
    where
      ends : (r : Result A) (w : World) → IsArmed w → Ends {A = A} (λ _. IsArmed) (λ _. IsArmed) r w
      ends (ok a) w f = f
      ends (err e) w f = f

pub write-IsFenced : (d : Fields) → Triple IsFenced (write_state d) (λ _. IsFenced) (λ _. IsFenced)
unfolding write_state fenced
write-IsFenced d = record {
  at = λ w f. elim (Bool-cases (next_fault w.disk_faults)) [ inl c ↦ rw c f | inr c ↦ rw c f ];
}

pub write-IsArmed :
    (d : Fields)
    → field_eq d (Base.text "status") in_progress ≡ true
    → Triple IsFenced (write_state d) (λ _. IsArmed) (λ _. IsFenced)
unfolding write_state fenced armed
write-IsArmed d h = record {
  at = λ w f. elim (Bool-cases (next_fault w.disk_faults)) [ inl c ↦ rw c f | inr c ↦ rw c (f, h) ];
}
