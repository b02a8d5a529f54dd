-- ===== src/Ota/World.antt =====
-- What the controller acts on: the device behind HTTP, the clock, the private state file and the
-- authentication nonce. `trace` lists what was done, the newest event first.
use dm_d5102q_rs485_bridge.Prelude.{
  ℕ, ◌+◌, String, Text, Bool, true, false, Option, none, some, List, [], ◌∷◌, if◌then◌else◌, length,
  take, ltb, ◌==◌, ◌||◌,
}
use dm_d5102q_rs485_bridge.Value.{Value, Fields, obj}
use dm_d5102q_rs485_bridge.Exec.{Result, ok, err, refused, os_error, http_error, value_error}
use dm_d5102q_rs485_bridge.Exec.Action.{Action}

-- The `Authorization` header's fields that vary.
pub record Authorization : Type 0 where
  pub nonce : Text
  pub response : Text
  pub nc : Text
  pub cnonce : Text

pub record Headers : Type 0 where
  pub authorization : Option Authorization
  pub csrf_token : Option Text
  pub ota_token : Option Text

abbrev pub no_headers : Headers
no_headers = record { authorization = none; csrf_token = none; ota_token = none }

pub record Request : Type 0 where
  pub method : String
  pub path : String
  pub body : Text
  pub headers : Headers

pub data Event : Type 0 where
  sent : Request → Event
  received : Fields → Event
  wrote : Fields → Event

-- How one exchange ends: no answer (`OSError`, `HTTPException`), or a status with a body.
pub data Outcome : Type 0 where
  unreachable broken : Outcome
  answered : ℕ → Text → Outcome

-- One exchange, and the milliseconds that it takes.
pub record Reply : Type 0 where
  pub elapsed : ℕ
  pub outcome : Outcome

-- A file as `private_file` sees it: whether it is a regular owner-only file, and its JSON value,
-- `none` if the text is not JSON.
pub record StateFile : Type 0 where
  pub owner_only : Bool
  pub content : Option Value

pub record World : Type 0 where
  pub nonce : Text
  pub count : ℕ
  pub now : ℕ
  pub replies : List Reply
  pub disk_faults : List Bool
  pub saved : Option StateFile
  pub trace : List Event

unfoldable pub next_reply : List Reply → Reply
next_reply [] = record { elapsed = 0; outcome = unreachable }
next_reply (r ∷ rs) = r

unfoldable pub later_replies : List Reply → List Reply
later_replies [] = []
later_replies (r ∷ rs) = rs

unfoldable pub next_fault : List Bool → Bool
next_fault [] = false
next_fault (b ∷ bs) = b

unfoldable pub later_faults : List Bool → List Bool
later_faults [] = []
later_faults (b ∷ bs) = bs

-- The request is sent, and the environment answers or fails. An exhausted environment is a device
-- that is unreachable.
unfoldable pub exchange : Request → Action World Outcome
unfolding next_reply later_replies
exchange r w = (
  ok (next_reply w.replies).outcome,
  record w {
    now = w.now + (next_reply w.replies).elapsed;
    replies = later_replies w.replies;
    trace = sent r ∷ w.trace;
  },
)

unfoldable pub note_received : Fields → Action World (Unit {0})
note_received d w = (ok tt, record w { trace = received d ∷ w.trace })

-- `connection.getresponse()` and the checks on the response in `Client.raw`.
module _ (json_loads : Text → Option Value) where
  unfoldable pub decode : Outcome → Result Fields
  decode unreachable = err os_error
  decode broken = err http_error
  decode (answered status body) =
      if ltb 16384 (length (take 16385 body))
      then err (refused "Device HTTP status; mutation outcome must be reconciled")
      else if status == 200 || status == 202
      then (elim (json_loads (take 16385 body)) [
        | none ↦ err value_error
        | some (obj d) ↦ ok d
        | some _ ↦ err (refused "Invalid device response")
      ])
      else err (refused "Device HTTP status; mutation outcome must be reconciled")

-- `time.sleep(1)`
unfoldable pub sleep : Action World (Unit {0})
sleep w = (ok tt, record w { now = w.now + 1000 })

-- `write_state`: an atomic replacement, which fails as a whole or not at all.
unfoldable pub write_state : Fields → Action World (Unit {0})
unfolding next_fault later_faults
write_state d w =
    if next_fault w.disk_faults
    then (err os_error, record w { disk_faults = later_faults w.disk_faults })
    else (
      ok tt,
      record w {
        disk_faults = later_faults w.disk_faults;
        saved = some (record { owner_only = true; content = some (obj d) });
        trace = wrote d ∷ w.trace;
      },
    )
