-- ===== src/Value.antt =====
-- JSON values as `json.loads` returns them. Numbers are integers: see the header of Lib.
pub mod Laws
use dm_d5102q_rs485_bridge.Prelude.{
  ℕ, suc, Text, text_eq, Bool, true, false, not, ◌&&◌, Option, none, some, List, [], ◌∷◌, ◌==◌,
  if◌then◌else◌,
}
use dm_d5102q_rs485_bridge.Prelude.Int.{ℤ, pos, eqb_ℤ}

mutual
  pub data Value : Type 0 where
    null : Value
    bool : Bool → Value
    int : ℤ → Value
    str : Text → Value
    list : Items → Value
    obj : Fields → Value

  pub data Items : Type 0 where
    nil : Items
    cons : Value → Items → Items

  pub data Fields : Type 0 where
    end : Fields
    field : Text → Value → Fields → Fields

-- `d.get(key)` of a dict, `none` for a missing key.
unfoldable pub get : Text → Fields → Option Value
get k end = none
get k (field j v fs) = if text_eq j k then some v else get k fs

-- `d[key] = v`: an old key keeps its place, a new one goes to the end.
unfoldable pub put : Text → Value → Fields → Fields
put k v end = field k v end
put k v (field j w fs) = if text_eq j k then field j v fs else field j w (put k v fs)

-- `{**d, **e}`, and `d.update(e)`.
unfoldable pub merge : Fields → Fields → Fields
merge d end = d
merge d (field k v e) = merge (put k v d) e

-- `d.get(key, default)`
unfoldable pub get_or : Text → Value → Fields → Value
unfolding get
get_or k d fs = elim (get k fs) [ none ↦ d | some v ↦ v ]

unfoldable pub keys : Fields → List Text
keys end = []
keys (field k v fs) = k ∷ keys fs

unfoldable pub size : Fields → ℕ
size end = 0
size (field k v fs) = suc (size fs)

-- `True` and `False` are the integers 1 and 0 where Python compares with `==`.
unfoldable pub bool_int : Bool → ℤ
bool_int true = pos 1
bool_int false = pos 0

-- Python's `==`. Two dicts are equal if they have as many keys and each value of one is equal to
-- the other's under its key.
unfoldable mutual
  pub value_eq : Value → Value → Bool
  value_eq null w = elim w [ null ↦ true | _ ↦ false ]
  value_eq (bool a) w = elim w [
    | bool b ↦ eqb_ℤ (bool_int a) (bool_int b)
    | int n ↦ eqb_ℤ (bool_int a) n
    | _ ↦ false
  ]
  value_eq (int m) w = elim w [ bool b ↦ eqb_ℤ m (bool_int b) | int n ↦ eqb_ℤ m n | _ ↦ false ]
  value_eq (str s) w = elim w [ str t ↦ text_eq s t | _ ↦ false ]
  value_eq (list xs) w = elim w [ list ys ↦ items_eq xs ys | _ ↦ false ]
  value_eq (obj d) w = elim w [ obj e ↦ size d == size e && fields_eq d e | _ ↦ false ]

  items_eq : Items → Items → Bool
  items_eq nil ys = elim ys [ nil ↦ true | _ ↦ false ]
  items_eq (cons x xs) ys = elim ys [ nil ↦ false | cons y zs ↦ value_eq x y && items_eq xs zs ]

  fields_eq : Fields → Fields → Bool
  fields_eq end e = true
  fields_eq (field k v fs) e =
      elim (get k e) [ none ↦ false | some w ↦ value_eq v w ] && fields_eq fs e

-- `d.get(key) == v`
unfoldable pub field_eq : Fields → Text → Value → Bool
unfolding get value_eq
field_eq d k v = elim (get k d) [ none ↦ value_eq null v | some w ↦ value_eq w v ]

-- `v is True`, `v is False`
unfoldable pub is_bool : Bool → Option Value → Bool
is_bool b (some (bool true)) = b
is_bool b (some (bool false)) = not b
is_bool b _ = false

-- `if v:` on the result of `d.get(key)`
unfoldable pub truthy : Option Value → Bool
truthy none = false
truthy (some null) = false
truthy (some (bool b)) = b
truthy (some (int n)) = not (eqb_ℤ n (pos 0))
truthy (some (str [])) = false
truthy (some (str (c ∷ s))) = true
truthy (some (list nil)) = false
truthy (some (list (cons x xs))) = true
truthy (some (obj end)) = false
truthy (some (obj (field k v fs))) = true
