-- ===== src/Base/Json/Lookup.antt =====
-- Lookup in a map after an insertion.
use pbs.Base.{Bool, true, false, Option, none, some, ◌≡◌, ◌≢◌, inl, inr, subst, refl, arith}
use pbs.Base.Tests.{Bool-cases}
use pbs.Base.Text.{Text, ◌==◌}
use pbs.Base.Text.Equality.{text_eq_iff, text_eq_refl}
use pbs.Base.Json.{Value, Map, end, entry, get, insert, map_is_empty}

pub get-insert_other : (k j : Text) (v : Value) (m : Map) → j ≢ k → get k (insert j v m) ≡ get k m
unfolding get insert
get-insert_other k j v end ne = ground (arith, text_eq_iff j k)
get-insert_other k j v (entry i w m) ne =
    ground (arith, text_eq_iff j k, text_eq_iff i j, text_eq_iff i k, get-insert_other k j v m ne)

pub get-insert_same : (j : Text) (v : Value) (m : Map) → get j (insert j v m) ≡ some v
unfolding get insert
get-insert_same j v end = ground (arith, text_eq_refl j)
get-insert_same j v (entry i w m) =
    ground (arith, text_eq_refl j, text_eq_iff i j, get-insert_same j v m)

-- What a lookup finds: the value that was inserted, if there was one and the key is its own.
abbrev pub hit : Bool → Option Value → Option Value → Option Value
hit true (some v) rest = some v
hit true none rest = rest
hit false v rest = rest

pub get-insert :
    (k j : Text) (v : Value) (m : Map) → get k (insert j v m) ≡ hit (j == k) (some v) (get k m)
get-insert k j v m = elim (Bool-cases (j == k)) [
  | inl same ↦ rw same (
      subst (λ x. get x (insert j v m) ≡ some v) ((text_eq_iff j k).0 same) (get-insert_same j v m))
  | inr differs ↦ rw differs (get-insert_other k j v m (λ e. cc ((text_eq_iff j k).1 e, differs)))
]

pub get-map_is_empty : (k : Text) (m : Map) → map_is_empty m ≡ true → get k m ≡ none
unfolding get map_is_empty
get-map_is_empty k end h = refl
get-map_is_empty k (entry j w m) h = cc
