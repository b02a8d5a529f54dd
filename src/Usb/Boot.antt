-- ===== src/Usb/Boot.antt =====
-- `classify_boot_line` and `capture_boot`: what the device says at its first boot. The reads of the
-- port that bring data within the time are a list; the times in the redacted log, and what is
-- printed, are left out.
pub mod Redacted
pub mod Lines
pub mod Chunks
pub mod Markers
use dm_d5102q_rs485_bridge.Prelude.{
  ℕ, suc, ◌+◌, ◌*◌, Text, text, text_eq, Bool, true, false, not, ◌&&◌, ◌||◌, Option, none, some,
  List, [], ◌∷◌, ◌++◌, if◌then◌else◌, leb, ltb, ◌==◌, length, drop, any,
}
use dm_d5102q_rs485_bridge.Exec.{Result, ok, err, refused, require, ◌>>=◌, ◌>>◌}
use dm_d5102q_rs485_bridge.Patterns.{starts_with, contains, is_installation_key}
use dm_d5102q_rs485_bridge.Strings.{rstrip}

unfoldable pub marker : Text
marker = text "INSTALL_KEY_ONCE"

unfoldable pub key_prefix : Text
key_prefix = text "INSTALL_KEY_ONCE="

unfoldable pub redaction : Text
redaction = text "INSTALL_KEY_ONCE=[REDACTED]"

-- `KEY_RE.fullmatch(text)` and its group
unfoldable pub match_key : Text → Option Text
match_key t =
    let key = drop (length key_prefix) t in
    if starts_with t key_prefix && is_installation_key key then some key else none

-- `text.rstrip("\r\n")`
unfoldable pub strip_line_end : Text → Text
strip_line_end t = rstrip (λ c. c == 13 || c == 10) t

-- `text.split("=", 1)[1]` of a text with the prefix
unfoldable pub after_prefix : Text → Text → Text
after_prefix prefix t = drop (length prefix) t

-- The markers of an error
unfoldable pub error_markers : List Text
error_markers =
    text "Guru Meditation"
    ∷ text "Brownout"
    ∷ text "CORRUPT"
    ∷ text "_FAILED"
    ∷ text "panic"
    ∷ text "assert failed"
    ∷ []

-- What has been read from the lines, and what has been written because of them: the lines of
-- first-boot.redacted.log and the keys written to credentials.txt
pub record Log : Type 0 where
  pub key : Option Text
  pub ap_ssid : Option Text
  pub ap_url : Option Text
  pub errors : ℕ
  pub redacted : List Text
  pub credentials : List Text

unfoldable pub no_log : Log
no_log = record {
  key = none;
  ap_ssid = none;
  ap_url = none;
  errors = 0;
  redacted = [];
  credentials = [];
}

-- What a safe line announces
unfoldable pub announce : Text → Log → Log
announce safe log =
    if starts_with safe (text "AP_SSID=")
    then record {
      key = log.key;
      ap_ssid = some (after_prefix (text "AP_SSID=") safe);
      ap_url = log.ap_url;
      errors = log.errors;
      redacted = log.redacted;
      credentials = log.credentials;
    }
    else if starts_with safe (text "AP_URL=")
    then record {
      key = log.key;
      ap_ssid = log.ap_ssid;
      ap_url = some (after_prefix (text "AP_URL=") safe);
      errors = log.errors;
      redacted = log.redacted;
      credentials = log.credentials;
    }
    else if any (λ m. contains m safe) error_markers
    then record {
      key = log.key;
      ap_ssid = log.ap_ssid;
      ap_url = log.ap_url;
      errors = suc log.errors;
      redacted = log.redacted;
      credentials = log.credentials;
    }
    else log

-- `redacted.write(safe)`
unfoldable pub write_redacted : Text → Log → Log
write_redacted safe log = record {
  key = log.key;
  ap_ssid = log.ap_ssid;
  ap_url = log.ap_url;
  errors = log.errors;
  redacted = log.redacted ++ (safe ∷ []);
  credentials = log.credentials;
}

-- The first key is kept and written; another one must be the same.
unfoldable pub keep_key : Option Text → Log → Result Log
keep_key none log = ok log
keep_key (some candidate) log = elim log.key [
  | some key ↦
      if text_eq candidate key
      then ok log
      else err (refused "Multiple different installation keys in one boot")
  | none ↦ ok (record {
    key = some candidate;
    ap_ssid = log.ap_ssid;
    ap_url = log.ap_url;
    errors = log.errors;
    redacted = log.redacted;
    credentials = log.credentials ++ (candidate ∷ []);
  })
]

-- A character before the first of some lines, if there is one
unfoldable pub extend : ℕ → List Text → List Text
extend c [] = []
extend c (l ∷ ls) = (c ∷ l) ∷ ls

-- The lines that end in a buffer
unfoldable pub complete : Text → List Text
complete [] = []
complete (c ∷ s) = let rest = complete s in if c == 10 then [] ∷ rest else extend c rest

unfoldable pub has_line : Text → Bool
has_line [] = false
has_line (c ∷ s) = c == 10 || has_line s

-- What follows the last of them
unfoldable pub remainder : Text → Text
remainder [] = []
remainder (c ∷ s) = let rest = remainder s in if c == 10 || has_line s then rest else c ∷ s

pub record Capture : Type 0 where
  pub count : ℕ
  pub raw : Text
  pub buffered : Text
  pub log : Log

unfoldable pub no_capture : Capture
no_capture = record { count = 0; raw = []; buffered = []; log = no_log }

-- What stands in the report
pub record Report : Type 0 where
  pub bytes : ℕ
  pub installation_key_captured : Bool
  pub ap_ssid : Option Text
  pub ap_url : Option Text
  pub error_markers : ℕ

unfoldable pub is_some_text : Option Text → Bool
is_some_text (some (c ∷ s)) = true
is_some_text _ = false

-- The report, which is only returned where the boot is accepted
unfoldable pub accept_boot : Capture → Result Report
accept_boot c = do
  require
      (is_some_text c.log.key
        && is_some_text c.log.ap_ssid
        && is_some_text c.log.ap_url
        && c.log.errors == 0)
      (refused "First-boot acceptance incomplete; preserve state, inspect private capture")
  ok (record {
    bytes = c.count;
    installation_key_captured = true;
    ap_ssid = c.log.ap_ssid;
    ap_url = c.log.ap_url;
    error_markers = c.log.errors;
  })

-- `raw.decode("utf-8", errors="replace")`
module _ (decode : Text → Text) where
  -- `classify_boot_line`
  unfoldable pub classify_boot_line : Text → Text × Option Text
  classify_boot_line raw =
      let line = strip_line_end (decode raw) in
      if contains marker line then (redaction, match_key line) else (line, none)

  -- What is done with one line
  unfoldable pub handle_line : Log → Text → Result Log
  handle_line log line = do
    let safe_and_key = classify_boot_line line
    kept ← keep_key safe_and_key.1 log
    ok (announce safe_and_key.0 (write_redacted safe_and_key.0 kept))

  -- `while b"\n" in buffered`
  unfoldable pub handle_lines : Log → List Text → Result Log
  handle_lines log [] = ok log
  handle_lines log (line ∷ lines) = do log ← handle_line log line; handle_lines log lines

  -- What is done with the data of one read
  unfoldable pub feed : Capture → Text → Result Capture
  feed c chunk = do
    require (leb (c.count + length chunk) (1024 * 1024))
        (refused "First-boot capture exceeded its fixed byte limit")
    require (leb (length (c.buffered ++ chunk)) 8192)
        (refused "First-boot line exceeds maximum length; raw remains private")
    log ← handle_lines c.log (complete (c.buffered ++ chunk))
    ok (record {
      count = c.count + length chunk;
      raw = c.raw ++ chunk;
      buffered = remainder (c.buffered ++ chunk);
      log = log;
    })

  unfoldable pub feed_all : Capture → List Text → Result Capture
  feed_all c [] = ok c
  feed_all c (chunk ∷ chunks) = do c ← feed c chunk; feed_all c chunks

  -- `capture_boot`
  unfoldable pub capture_boot : List Text → Result (Capture × Report)
  capture_boot chunks = do c ← feed_all no_capture chunks; report ← accept_boot c; ok (c, report)
