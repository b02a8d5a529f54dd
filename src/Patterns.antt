-- ===== src/Patterns.antt =====
-- The regular expressions of the scripts that are one character class, repeated.
use dm_d5102q_rs485_bridge.Prelude.{
  ℕ, Text, text, Bool, true, false, ◌&&◌, ◌||◌, [], ◌∷◌, ltb, leb, ◌==◌, length, all,
}

-- `[lo-hi]`
abbrev pub within : ℕ → ℕ → ℕ → Bool
within lo hi c = leb lo c && leb c hi

unfoldable pub is_digit : ℕ → Bool
is_digit c = within b'0' b'9' c

unfoldable pub is_alnum : ℕ → Bool
unfolding is_digit
is_alnum c = within b'A' b'Z' c || within b'a' b'z' c || is_digit c

-- `TEXT = [A-Za-z0-9_.-]+\Z` under `fullmatch`
unfoldable pub is_text_char : ℕ → Bool
unfolding is_alnum
is_text_char c = is_alnum c || c == b'_' || c == b'.' || c == b'-'

unfoldable pub is_text : Text → Bool
unfolding is_text_char
is_text t = ltb 0 (length t) && all is_text_char t

unfoldable pub is_hex_char : ℕ → Bool
unfolding is_digit
is_hex_char c = is_digit c || within b'a' b'f' c

-- `HEX32 = [0-9a-f]{32}\Z`
unfoldable pub is_hex32 : Text → Bool
unfolding is_hex_char
is_hex32 t = length t == 32 && all is_hex_char t

-- `[A-HJ-NP-Z2-9]{20}`, the installation key
unfoldable pub is_key_char : ℕ → Bool
is_key_char c = within b'A' b'H' c || within b'J' b'N' c || within b'P' b'Z' c || within b'2' b'9' c

unfoldable pub is_installation_key : Text → Bool
unfolding is_key_char
is_installation_key t = length t == 20 && all is_key_char t

-- `s.startswith(prefix)` with what follows the prefix
unfoldable pub starts_with : Text → Text → Bool
starts_with s [] = true
starts_with [] (p ∷ ps) = false
starts_with (c ∷ s) (p ∷ ps) = c == p && starts_with s ps

-- `part in whole`
unfoldable pub contains : Text → Text → Bool
unfolding starts_with
contains part [] = starts_with [] part
contains part (c ∷ s) = starts_with (c ∷ s) part || contains part s

abbrev strip_prefix : Text → Text → Text
strip_prefix [] s = s
strip_prefix (p ∷ ps) [] = []
strip_prefix (p ∷ ps) (c ∷ s) = strip_prefix ps s

-- `dm-bridge-[a-f0-9]{6}`
unfoldable pub is_device_id : Text → Bool
unfolding is_hex_char starts_with text
is_device_id t =
    starts_with t (text "dm-bridge-")
    && length t == 16
    && all is_hex_char (strip_prefix (text "dm-bridge-") t)

-- `[A-Za-z0-9.-]+`
unfoldable pub is_host_char : ℕ → Bool
unfolding is_alnum
is_host_char c = is_alnum c || c == b'.' || c == b'-'

unfoldable pub is_host : Text → Bool
unfolding is_host_char
is_host t = ltb 0 (length t) && all is_host_char t
