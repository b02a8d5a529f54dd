-- ===== src/Ota/Client.antt =====
-- `class Client`: authenticated requests with HTTP Digest.
use dm_d5102q_rs485_bridge.Prelude.{
  ℕ, ◌+◌, String, Text, text, text_eq, text_mem, Bool, true, not, ◌&&◌, ◌||◌, Option, none, some,
  [], ◌∷◌, ◌++◌, if◌then◌else◌, ltb, ◌==◌,
}
use dm_d5102q_rs485_bridge.Value.{Value, Fields, str, get, get_or, field_eq, is_bool, truthy}
use dm_d5102q_rs485_bridge.Bytes.{hex, hex8}
use dm_d5102q_rs485_bridge.Patterns.{is_hex32, is_host, is_installation_key, is_device_id}
use dm_d5102q_rs485_bridge.Exec.{Result, ok, err, refused, type_error}
use dm_d5102q_rs485_bridge.Exec.Action.{Action, pure, lift, ◌>>=◌, ◌>>◌}
use dm_d5102q_rs485_bridge.Ota.World.{
  Authorization, no_headers, Request, World, exchange, note_received, decode,
}

-- `urlsplit(url)`; `port` raises `ValueError` where it is no port number.
pub record Url : Type 0 where
  pub scheme : Text
  pub hostname : Option Text
  pub has_user : Bool
  pub has_password : Bool
  pub path : Text
  pub query : Text
  pub fragment : Text
  pub port : Result (Option ℕ)

pub record Client : Type 0 where
  pub host : Text
  pub key : Text
  pub device : Text
  pub cnonce : Text

abbrev pub board : Text
board = text "m5stack-atom"

abbrev is_port_80 : Option ℕ → Bool
is_port_80 none = true
is_port_80 (some p) = p == 80

checked_client : Text → Option ℕ → Text → Text → Text → Result Client
checked_client host port key device cnonce =
    if not (is_host host && is_port_80 port)
    then err (refused "B1 requires the exact device IPv4/hostname on port 80")
    else if not (is_installation_key key)
    then err (refused "Invalid device installation-key format")
    else if not (is_device_id device)
    then err (refused "Exact device identity is required")
    else ok (record { host = host; key = key; device = device; cnonce = cnonce })

-- `Client.__init__`, with `secrets.token_hex(16)` as an argument. `parsed.port` is read only where
-- the host name has passed its test.
unfoldable pub new_client : Url → Text → Text → Text → Result Client
unfolding checked_client
new_client url key device cnonce = elim url.hostname [
  | none ↦ err (refused "Use the exact device HTTP LAN/VPN origin without credentials/path")
  | some host ↦
      if not (text_eq url.scheme (text "http"))
        || text_eq host []
        || url.has_user
        || url.has_password
        || not (text_mem url.path ([] ∷ text "/" ∷ []))
        || not (text_eq url.query [])
        || not (text_eq url.fragment [])
      then err (refused "Use the exact device HTTP LAN/VPN origin without credentials/path")
      else if is_host host
      then (elim url.port [ err e ↦ err e | ok port ↦ checked_client host port key device cnonce ])
      else err (refused "B1 requires the exact device IPv4/hostname on port 80")
]

-- A value that must be 32 hexadecimal digits.
unfoldable pub hex32_or_refuse : String → Value → Result Text
hex32_or_refuse message (str t) = if is_hex32 t then ok t else err (refused message)
hex32_or_refuse message _ = err type_error

module _ (sha256 : Text → Text) (json_loads : Text → Option Value) where
  -- The digest that `signed` computes, as hexadecimal text.
  unfoldable pub digest : Text → Text
  digest value = hex (sha256 value)

  -- `f"{a}:{b}"`
  unfoldable pub colon : Text → Text → Text
  colon a b = a ++ (58 ∷ b)

  -- `Client.raw`
  unfoldable pub raw : Request → Action World Fields
  raw request = do
    outcome ← exchange request
    answer ← lift (decode json_loads outcome)
    note_received answer
    pure answer

  -- The nonce of a challenge. The tests are made in turn, so that a nonce which is no string
  -- raises only where the earlier ones have passed.
  unfoldable pub challenge_nonce : Fields → Result Text
  challenge_nonce d =
      if not (field_eq d (text "realm") (str (text "DM-BRIDGE-USB")))
        || not (field_eq d (text "algorithm") (str (text "SHA-256")))
        || not (field_eq d (text "qop") (str (text "auth")))
      then err (refused "Unsupported authentication challenge")
      else hex32_or_refuse "Unsupported authentication challenge" (get_or (text "nonce") (str []) d)

  -- A new nonce starts the count at zero; then the request is counted.
  unfoldable pub count_request : Text → Action World ℕ
  count_request nonce w =
      let n = (if text_eq w.nonce nonce then w.count else 0) + 1 in
      (
        if ltb 0xffffffff n then err (refused "Authentication nonce count exhausted") else ok n,
        record w { nonce = nonce; count = n },
      )

  -- `if csrf: … HEX32.fullmatch(csrf)`, and so for the token.
  unfoldable pub optional_hex32 : String → Value → Result (Option Text)
  optional_hex32 message v =
      if truthy (some v)
      then (elim (hex32_or_refuse message v) [ ok t ↦ ok (some t) | err e ↦ err e ])
      else ok none

  unfoldable pub authorize : Client → String → String → Text → ℕ → Authorization
  authorize c method path nonce n =
      let ha1 = digest (text "installer:DM-BRIDGE-USB:" ++ c.key) in
      let ha2 = digest (colon (text method) (text path)) in
      let nc = hex8 n in
      record {
        nonce = nonce;
        response =
            digest (colon ha1 (colon nonce (colon nc (colon c.cnonce (text "auth:" ++ ha2)))));
        nc = nc;
        cnonce = c.cnonce;
      }

  -- `Client.signed`
  unfoldable pub signed : Client → String → String → Text → Value → Value → Action World Fields
  signed c method path body csrf token = do
    challenge ←
        raw (record { method = "GET"; path = "/api/v1/auth"; body = []; headers = no_headers })
    nonce ← lift (challenge_nonce challenge)
    n ← count_request nonce
    csrf_token ← lift (optional_hex32 "Invalid CSRF token" csrf)
    ota_token ← lift (optional_hex32 "Invalid OTA token" token)
    raw (record {
      method = method;
      path = path;
      body = body;
      headers = record {
        authorization = some (authorize c method path nonce n);
        csrf_token = csrf_token;
        ota_token = ota_token;
      };
    })

  unfoldable pub check_status : Client → Fields → Result Fields
  check_status c d =
      if not (field_eq d (text "deviceId") (str c.device))
        || not (field_eq d (text "boardId") (str board))
        || not (is_bool true (get (text "txBlocked") d))
      then err (refused "Device identity or TX safety state mismatch")
      else ok d

  -- `Client.status`
  unfoldable pub status : Client → Action World Fields
  status c = do
    result ← signed c "GET" "/api/v1/ota/status" [] (str []) (str [])
    lift (check_status c result)
