-- ===== src/Value/Laws.antt =====
-- Laws of the dict operations.
use dm_d5102q_rs485_bridge.Prelude.{
  true, ap, text_eq_sound, Option, none, ℕ, Text, text_eq, text_eq_refl, text_eq_iff, ◌≡◌, refl,
  some, arith, if◌then◌else◌, Bool-cases, inl, inr,
}
use dm_d5102q_rs485_bridge.Prelude.Int.{pos}
use dm_d5102q_rs485_bridge.Value.{
  null, bool, int, str, list, obj, Value, Fields, end, field, get, put, field_eq, value_eq,
}

-- Writing a key changes what is read under that key and under no other.
pub get-put :
    (j k : Text) (v : Value) (fs : Fields)
    → get j (put k v fs) ≡ (if text_eq k j then some v else get j fs)
unfolding get put
get-put j k v end = refl
get-put j k v (field i w fs) =
    ground (arith, text_eq_iff i k, text_eq_iff i j, text_eq_iff k j, get-put j k v fs)

pub get-put_self : (k : Text) (v : Value) (fs : Fields) → get k (put k v fs) ≡ some v
get-put_self k v fs = simp (get-put, text_eq_refl)

-- The same for a comparison with the value under a key.
pub field_eq-put :
    (j k : Text) (v u : Value) (fs : Fields)
    → field_eq (put k v fs) j u ≡ (if text_eq k j then value_eq v u else field_eq fs j u)
unfolding field_eq
field_eq-put j k v u fs =
    rw (get-put j k v fs, field_eq)
      (elim (Bool-cases (text_eq k j)) [ inl e ↦ rw e | inr e ↦ rw e ])

-- What is equal to a string is that string.
pub value_eq-str : (v : Value) (t : Text) → value_eq v (str t) ≡ true → v ≡ str t
unfolding value_eq
value_eq-str (str s) t h = ap str (text_eq_sound s t h)
value_eq-str null t h = cc
value_eq-str (bool b) t h = cc
value_eq-str (int n) t h = cc
value_eq-str (list vs) t h = cc
value_eq-str (obj d) t h = cc

pub value_eq_texts : (s t : Text) → value_eq (str s) (str t) ≡ true → s ≡ t
unfolding value_eq
value_eq_texts s t h = text_eq_sound s t h

pub value_eq_naturals : (m n : ℕ) → value_eq (int (pos m)) (int (pos n)) ≡ true → m ≡ n
unfolding value_eq
value_eq_naturals m n h = ground arith

-- A key that is compared with a string holds it.
pub field_eq-str : (d : Fields) (k t : Text) → field_eq d k (str t) ≡ true → get k d ≡ some (str t)
unfolding field_eq value_eq
field_eq-str d k t h = go (get k d) refl
  where
    go : (o : Option Value) → get k d ≡ o → o ≡ some (str t)
    go none e = let x = rw (field_eq, e) at h in cc
    go (some v) e = ap some (value_eq-str v t (rw (field_eq, e) at h))
