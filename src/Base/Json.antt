-- ===== src/Base/Json.antt =====
-- `serde_json::Value` as the source uses it. `Map` is a `BTreeMap`: entries are kept sorted by key,
-- since `preserve_order` is off. A number is an integer, or a float by its printed form.
pub mod Equality
pub mod Lookup
use pbs.Base.{Bool, true, false, ◌&&◌, ◌||◌, Option, none, some, List, [], ◌∷◌}
use pbs.Base.Tests.{ltb, nat_eq, if◌then◌else◌}
use pbs.Base.Int.{ℤ, pos, negsuc}
use pbs.Base.Text.{Text, ◌==◌}

mutual
  pub data Value : Type 0 where
    null : Value
    bool : Bool → Value
    int : ℤ → Value
    float : Text → Value
    string : Text → Value
    array : Values → Value
    object : Map → Value

  pub data Values : Type 0 where
    nil : Values
    cons : Value → Values → Values

  pub data Map : Type 0 where
    end : Map
    entry : Text → Value → Map → Map

-- Keys compare as byte strings, which for UTF-8 is the order of the code points.
unfoldable pub text_lt : Text → Text → Bool
text_lt [] [] = false
text_lt [] (y ∷ b) = true
text_lt (x ∷ a) [] = false
text_lt (x ∷ a) (y ∷ b) = ltb x y || (nat_eq x y && text_lt a b)

-- `Map::get`, `contains_key`, `insert` and `remove`
unfoldable pub get : Text → Map → Option Value
get k end = none
get k (entry j v m) = if j == k then some v else get k m

unfoldable pub contains_key : Text → Map → Bool
contains_key k end = false
contains_key k (entry j v m) = j == k || contains_key k m

unfoldable pub insert : Text → Value → Map → Map
unfolding text_lt
insert k v end = entry k v end
insert k v (entry j w m) =
    if j == k
    then entry k v m
    else if text_lt k j
    then entry k v (entry j w m)
    else entry j w (insert k v m)

unfoldable pub remove : Text → Map → Map
remove k end = end
remove k (entry j v m) = if j == k then m else entry j v (remove k m)

unfoldable pub map_is_empty : Map → Bool
map_is_empty end = true
map_is_empty (entry k v m) = false

-- `iter()`, in the order of the keys
unfoldable pub entries : Map → List (Text × Value)
entries end = []
entries (entry k v m) = (k, v) ∷ entries m

unfoldable pub insert_all : Map → List (Text × Value) → Map
unfolding insert
insert_all m [] = m
insert_all m ((k, v) ∷ kvs) = insert_all (insert k v m) kvs

-- `json!({ "k": v, … })`
unfoldable pub json_object : List (Text × Value) → Value
unfolding insert_all
json_object kvs = object (insert_all end kvs)

unfoldable pub array_of : List Text → Values
array_of [] = nil
array_of (t ∷ ts) = cons (string t) (array_of ts)

-- `body[k] = v` at an object; the source indexes nothing else.
unfoldable pub set_key : Text → Value → Value → Value
unfolding insert
set_key k v (object m) = object (insert k v m)
set_key k v other = other

-- `v.get(k)`, `as_str`, `as_object`, `as_bool` and `as_i64`
unfoldable pub field : Text → Value → Option Value
unfolding get
field k (object m) = get k m
field k other = none

unfoldable pub as_str : Value → Option Text
as_str (string s) = some s
as_str other = none

unfoldable pub as_object : Value → Option Map
as_object (object m) = some m
as_object other = none

unfoldable pub as_bool : Value → Option Bool
as_bool (bool b) = some b
as_bool other = none

-- An integer above `i64::MAX` is kept as a `u64`, which `as_i64` refuses.
unfoldable pub as_i64 : Value → Option ℤ
as_i64 (int (pos n)) = if ltb n 0x8000000000000000 then some (pos n) else none
as_i64 (int (negsuc n)) = some (negsuc n)
as_i64 other = none

abbrev pub and_then : {A B : Type 0} → Option A → (A → Option B) → Option B
and_then none f = none
and_then (some a) f = f a

unfoldable pub str_field : Text → Value → Option Text
unfolding field as_str
str_field k v = and_then (field k v) as_str

unfoldable pub i64_field : Text → Value → Option ℤ
unfolding field as_i64
i64_field k v = and_then (field k v) as_i64
