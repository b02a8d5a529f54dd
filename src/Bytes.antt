-- ===== src/Bytes.antt =====
-- Byte strings: the fields that `struct` packs, hexadecimal and decimal text.
pub mod Laws
use dm_d5102q_rs485_bridge.Prelude.{
  ℕ, zero, suc, ◌+◌, ◌-◌, ◌*◌, ◌/◌, ◌%◌, Text, Bool, List, [], ◌∷◌, ◌++◌, if◌then◌else◌, length,
  take, replicate, ltb, ◌==◌,
}

-- `struct.pack("<I", n)` of a number below 2 ^ 32.
unfoldable pub pack_u32 : ℕ → Text
pack_u32 n = n % 256 ∷ n / 256 % 256 ∷ n / 65536 % 256 ∷ n / 16777216 % 256 ∷ []

-- `struct.unpack("<I", b)` of four bytes.
unfoldable pub unpack_u32 : Text → ℕ
unpack_u32 (a ∷ b ∷ c ∷ d ∷ []) = a + 256 * b + 65536 * c + 16777216 * d
unpack_u32 _ = 0

-- `struct.pack("<ns", t)`: cut or filled with zero bytes.
unfoldable pub pad : ℕ → Text → Text
pad zero t = []
pad (suc n) [] = 0 ∷ pad n []
pad (suc n) (c ∷ t) = c ∷ pad n t

hex_digit : ℕ → ℕ
hex_digit n = if ltb n 10 then b'0' + n else b'a' + (n - 10)

-- `b.hex()`
unfoldable pub hex : Text → Text
unfolding hex_digit
hex [] = []
hex (b ∷ bs) = hex_digit (b / 16 % 16) ∷ hex_digit (b % 16) ∷ hex bs

-- `f"{n:08x}"` of a number below 2 ^ 32.
unfoldable pub hex8 : ℕ → Text
unfolding hex
hex8 n = hex (n / 16777216 % 256 ∷ n / 65536 % 256 ∷ n / 256 % 256 ∷ n % 256 ∷ [])

digits : ℕ → ℕ → Text → Text
digits zero n acc = acc
digits (suc fuel) n acc =
    let rest = digits fuel (n / 10) ((b'0' + n % 10) ∷ acc) in
    if ltb n 10 then (b'0' + n) ∷ acc else rest

-- `str(n)`; a number has no more digits than its value, plus one.
unfoldable pub decimal : ℕ → Text
unfolding digits
decimal n = digits (suc n) n []
