-- ===== src/Strings.antt =====
-- Python's `str.strip` and `int(s, 0)`, as the scripts use them on fields of text.
pub mod Infix
use dm_d5102q_rs485_bridge.Prelude.{
  List, zero, suc, ℕ, ◌+◌, ◌-◌, ◌*◌, Text, text_eq, Bool, false, not, ◌&&◌, ◌||◌, Option, none,
  some, [], ◌∷◌, if◌then◌else◌, leb, ltb, ◌==◌,
}
use dm_d5102q_rs485_bridge.Prelude.Int.{ℤ, pos, negsuc}
use dm_d5102q_rs485_bridge.Documents.{push}
use dm_d5102q_rs485_bridge.Patterns.{within, is_digit}

-- The characters that `str.strip` takes away
unfoldable pub is_space : ℕ → Bool
is_space c =
    within 9 13 c
    || within 28 32 c
    || c == 133
    || c == 160
    || c == 5760
    || within 8192 8202 c
    || c == 8232
    || c == 8233
    || c == 8239
    || c == 8287
    || c == 12288

unfoldable pub lstrip : Text → Text
lstrip [] = []
lstrip (c ∷ s) = let rest = lstrip s in if is_space c then rest else c ∷ s

-- `value.rstrip(…)` of the characters that `p` holds of
unfoldable pub rstrip : (ℕ → Bool) → Text → Text
rstrip p [] = []
rstrip p (c ∷ s) = let rest = rstrip p s in if p c && text_eq rest [] then [] else c ∷ rest

-- `value.strip()`
unfoldable pub strip : Text → Text
strip t = rstrip is_space (lstrip t)

-- `value.split(sep)`
unfoldable pub split_on : ℕ → Text → List Text
split_on sep [] = [] ∷ []
split_on sep (c ∷ s) = let rest = split_on sep s in if c == sep then [] ∷ rest else push c rest

-- The characters that `int` takes away at both ends
unfoldable pub is_int_space : ℕ → Bool
is_int_space c = within 9 13 c || c == 32 || (leb 127 c && is_space c)

unfoldable pub int_lstrip : Text → Text
int_lstrip [] = []
int_lstrip (c ∷ s) = let rest = int_lstrip s in if is_int_space c then rest else c ∷ s

-- The value of a digit, 36 for any other character
unfoldable pub digit_value : ℕ → ℕ
digit_value c =
    if is_digit c
    then c - b'0'
    else if within b'a' b'z' c
    then c - b'a' + 10
    else if within b'A' b'Z' c
    then c - b'A' + 10
    else 36

-- Digits, with an underscore between some of them. `after` says that a digit comes before.
unfoldable pub read_digits : ℕ → ℕ → Bool → Text → Option ℕ
read_digits base n after [] = if after then some n else none
read_digits base n after (c ∷ s) =
    let rest =
      read_digits base (if c == b'_' then n else base * n + digit_value c) (not (c == b'_')) s in
    if (if c == b'_' then after else ltb (digit_value c) base) then rest else none

-- The digits behind `0x`, `0o` or `0b`, with an underscore before them or none
unfoldable pub read_prefixed : ℕ → Text → Option ℕ
read_prefixed base [] = none
read_prefixed base (c ∷ s) =
    if c == b'_' then read_digits base 0 false s else read_digits base 0 false (c ∷ s)

-- A decimal numeral that starts with 0 can only be zero.
unfoldable pub read_zero : Text → Option ℕ
read_zero s = elim (read_digits 10 0 false s) [
  | none ↦ none
  | some n ↦ if n == 0 then some n else none
]

-- A numeral that has no sign
unfoldable pub read_unsigned : Text → Option ℕ
read_unsigned [] = none
read_unsigned (c ∷ []) = read_digits 10 0 false (c ∷ [])
read_unsigned (c ∷ x ∷ s) =
    if c == b'0'
    then (if x == b'x' || x == b'X'
        then read_prefixed 16 s
        else if x == b'o' || x == b'O'
        then read_prefixed 8 s
        else if x == b'b' || x == b'B'
        then read_prefixed 2 s
        else read_zero (c ∷ x ∷ s))
    else read_digits 10 0 false (c ∷ x ∷ s)

abbrev minus : ℕ → ℤ
minus zero = pos 0
minus (suc n) = negsuc n

unfoldable pub read_signed : Text → Option ℤ
read_signed [] = none
read_signed (c ∷ s) =
    if c == b'-'
    then elim (read_unsigned s) [ none ↦ none | some n ↦ some (minus n) ]
    else elim (read_unsigned (if c == b'+' then s else c ∷ s)) [
      | none ↦ none
      | some n ↦ some (pos n)
    ]

-- `int(s, 0)` of a text with ASCII digits
unfoldable pub read_int : Text → Option ℤ
read_int s = read_signed (rstrip is_int_space (int_lstrip s))
