-- ===== src/Documents.antt =====
-- What the checks of the repository's documents share: reading JSON objects, sets of strings, paths
-- and loops that may fail.
pub mod Laws
use dm_d5102q_rs485_bridge.Prelude.{
  ℕ, Text, text, text_eq, text_mem, Bool, true, false, not, ◌&&◌, ◌||◌, Option, none, some, List,
  [], ◌∷◌, if◌then◌else◌, ◌==◌, all,
}
use dm_d5102q_rs485_bridge.Value.{
  value_eq, Value, null, str, list, obj, Items, nil, cons, Fields, get, get_or, keys,
}
use dm_d5102q_rs485_bridge.Exec.{Result, ok, err, refused, type_error, attribute_error, ◌>>=◌, ◌>>◌}

abbrev pub push : ℕ → List Text → List Text
push c [] = (c ∷ []) ∷ []
push c (l ∷ ls) = (c ∷ l) ∷ ls

-- `isinstance(value, str) and value`
unfoldable pub is_filled : Option Value → Bool
is_filled (some (str (c ∷ s))) = true
is_filled _ = false

unfoldable pub is_object : Option Value → Bool
is_object (some (obj d)) = true
is_object _ = false

-- The strings of a list of strings
unfoldable pub strings : Items → Option (List Text)
strings nil = some []
strings (cons v vs) =
    let rest = strings vs in
    elim v [ str t ↦ elim rest [ none ↦ none | some ts ↦ some (t ∷ ts) ] | _ ↦ none ]

unfoldable pub string_list : Option Value → Option (List Text)
string_list (some (list vs)) = strings vs
string_list _ = none

unfoldable pub repeats : List Text → Bool
repeats [] = false
repeats (t ∷ ts) = text_mem t ts || repeats ts

-- The parts of a path between its slashes
unfoldable pub parts : Text → List Text
parts [] = [] ∷ []
parts (c ∷ s) = let rest = parts s in if c == b'/' then [] ∷ rest else push c rest

abbrev is_absolute : Text → Bool
is_absolute [] = false
is_absolute (c ∷ s) = c == b'/'

-- `validate_relative_path` of a string
unfoldable pub is_relative_path : Text → Bool
is_relative_path path =
    not (text_eq path []) && not (is_absolute path) && not (text_mem (text "..") (parts path))

-- `d.get(key)`
unfoldable pub got : Text → Fields → Value
got k d = get_or k null d

-- `v in {…}` for a set of strings; a list or a dict cannot be hashed.
unfoldable pub in_set : Value → List Text → Result Bool
in_set (str t) names = ok (text_mem t names)
in_set (list vs) names = err type_error
in_set (obj d) names = err type_error
in_set _ names = ok false

-- `set(xs) <= set(ys)`
unfoldable pub subset : List Text → List Text → Bool
subset xs ys = all (λ x. text_mem x ys) xs

-- `set(xs) == set(ys)`
unfoldable pub same_set : List Text → List Text → Bool
same_set xs ys = subset xs ys && subset ys xs

-- A value that must be a dict
unfoldable pub object_or : (otherwise : Result Fields) → Value → Result Fields
object_or otherwise (obj d) = ok d
object_or otherwise _ = otherwise

-- The items of a JSON array
unfoldable pub items_of : Items → List Value
items_of nil = []
items_of (cons v vs) = v ∷ items_of vs

unfoldable pub array : Value → Option (List Value)
array (list vs) = some (items_of vs)
array _ = none

-- `for x in xs: …` of checks
unfoldable pub for_each : {A : Type 0} → (A → Result (Unit {0})) → List A → Result (Unit {0})
for_each check [] = ok tt
for_each check (x ∷ xs) = check x >> for_each check xs

-- A loop that collects one result for each item
unfoldable pub collect : {A B : Type 0} → (A → Result B) → List A → Result (List B)
collect f [] = ok []
collect f (x ∷ xs) = do y ← f x; ys ← collect f xs; ok (y ∷ ys)

-- `any(…)` where a test may raise: it stops at the first that holds.
unfoldable pub any_of : {A : Type 0} → (A → Result Bool) → List A → Result Bool
any_of test [] = ok false
any_of test (x ∷ xs) = do found ← test x; elim found [ true ↦ ok true | false ↦ any_of test xs ]

-- Whether an item of an array cannot be hashed
unfoldable pub has_container : Items → Bool
has_container nil = false
has_container (cons v vs) =
    let rest = has_container vs in elim v [ list ws ↦ true | obj d ↦ true | _ ↦ rest ]

-- `not xs` of a list
unfoldable pub is_empty : {A : Type 0} → List A → Bool
is_empty [] = true
is_empty (x ∷ xs) = false

-- A dict with the value that it is filed under. What is looked up is a string.
pub record Entry : Type 0 where
  pub id : Value
  pub entry : Fields

unfoldable pub find_entry : Text → List Entry → Option Fields
find_entry id [] = none
find_entry id (e ∷ es) = if value_eq e.id (str id) then some e.entry else find_entry id es

unfoldable pub is_known : List Entry → Text → Bool
is_known es id = elim (find_entry id es) [ none ↦ false | some d ↦ true ]

-- An id that can be a key
unfoldable pub is_hashable : Value → Bool
is_hashable (list vs) = false
is_hashable (obj d) = false
is_hashable v = true

unfoldable pub value_mem : Value → List Value → Bool
value_mem v [] = false
value_mem v (w ∷ ws) = if value_eq v w then true else value_mem v ws

-- The distinct values among some, as the keys of a dict
unfoldable pub distinct : List Value → List Value
distinct [] = []
distinct (v ∷ vs) = let rest = distinct vs in if value_mem v rest then rest else v ∷ rest

-- `index[entry.id] = entry`: an old key keeps its place.
unfoldable pub file_entry : Entry → List Entry → List Entry
file_entry e [] = e ∷ []
file_entry e (x ∷ xs) =
    let rest = file_entry e xs in
    if value_eq x.id e.id then record { id = x.id; entry = e.entry } ∷ xs else x ∷ rest

-- `{entry.id: entry for entry in entries}`, onto what is filed already
unfoldable pub file_entries : List Entry → List Entry → List Entry
file_entries filed [] = filed
file_entries filed (e ∷ es) = file_entries (file_entry e filed) es
