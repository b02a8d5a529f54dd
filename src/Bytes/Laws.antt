-- ===== src/Bytes/Laws.antt =====
-- Packing and unpacking are inverse.
use dm_d5102q_rs485_bridge.Prelude.{ℕ, zero, suc, ◌<◌, ◌≡◌, refl, ap, Text, [], ◌∷◌, arith, length}
use dm_d5102q_rs485_bridge.Bytes.{pack_u32, unpack_u32, pad}

pub unpack_u32-pack_u32 : (n : ℕ) → n < 4294967296 → unpack_u32 (pack_u32 n) ≡ n
unfolding unpack_u32 pack_u32
unpack_u32-pack_u32 n h = omega arith

pub length-pack_u32 : (n : ℕ) → length (pack_u32 n) ≡ 4
unfolding pack_u32
length-pack_u32 n = refl

pub length-pad : (n : ℕ) (t : Text) → length (pad n t) ≡ n
unfolding pad
length-pad zero t = refl
length-pad (suc n) [] = ap suc (length-pad n [])
length-pad (suc n) (c ∷ t) = ap suc (length-pad n t)
