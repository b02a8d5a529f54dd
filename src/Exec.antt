-- ===== src/Exec.antt =====
-- Python exceptions as values, and methods that change an object and may raise. What was done
-- before a raise stays done, so the state comes back beside the exception too.
pub mod Action
pub mod Triple
use dm_d5102q_rs485_bridge.Prelude.{◌≡◌, refl, String, Bool, true, false}

-- The exceptions that the scripts raise or let through: their own, with the message, and those of
-- Python (`OSError`, `HTTPException`, `ValueError`, `KeyError`, `TypeError`,
-- `AttributeError`). `diverged` is no
-- exception: a loop of the model has used up its fuel.
pub data Err : Type 0 where
  refused : String → Err
  os_error http_error value_error key_error type_error attribute_error diverged : Err

-- What a call returns or raises.
pub data Result {ℓ} (Value : Type ℓ) : Type ℓ where
  err : Err → Result Value
  ok : Value → Result Value

-- `if not condition: raise …`
abbrev pub require : (condition : Bool) → (otherwise : Err) → Result (Unit {0})
require false otherwise = err otherwise
require true otherwise = ok tt

pub require-eq-ok :
    (c : Bool) (otherwise : Err) {u : Unit {0}} → require c otherwise ≡ ok u → c ≡ true
require-eq-ok false otherwise h = cc
require-eq-ok true otherwise h = refl

module _ {ℓ κ} {X : Type ℓ} {Y : Type κ} where
  infixl 5 ◌>>=◌
  abbrev pub ◌>>=◌ : Result X → (X → Result Y) → Result Y
  err raised >>= next = err raised
  ok x >>= next = next x

  -- Where a sequence of two calls returns, both do.
  pub >>=-eq-ok :
      (first : Result X) (next : X → Result Y) {y : Y}
      → (first >>= next) ≡ ok y
      → (x : X) × (first ≡ ok x) × (next x ≡ ok y)
  >>=-eq-ok (err raised) next h = cc
  >>=-eq-ok (ok x) next h = (x, refl, h)

infixl 5 ◌>>◌
abbrev pub ◌>>◌ {ℓ} : {Y : Type ℓ} → Result (Unit {0}) → Result Y → Result Y
◌>>◌ checked next = checked >>= λ u. next

-- Where a call returns behind a `require`, the condition held.
pub >>-eq-ok {ℓ} :
    {Y : Type ℓ} (c : Bool) (otherwise : Err) (next : Result Y) {y : Y}
    → (require c otherwise >> next) ≡ ok y
    → (c ≡ true) × (next ≡ ok y)
>>-eq-ok true otherwise next h = (refl, h)
>>-eq-ok false otherwise next h = cc

pub ok-injective {ℓ} : {A : Type ℓ} {a b : A} → ok a ≡ ok b → a ≡ b
ok-injective h = cc
