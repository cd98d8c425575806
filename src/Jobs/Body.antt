-- ===== src/Jobs/Body.antt =====
-- What the body of an update holds.
use pbs.Base.{
  Bool, true, Option, none, some, List, [], ◌∷◌, map, ◌≡◌, ◌≢◌, ◌⊎◌, inl, inr, refl, sym, ap, subst,
  ◌∙◌,
}
use pbs.Base.Tests.{if◌then◌else◌, Bool-cases}
use pbs.Base.Lists.{Any, filter}
use pbs.Base.Text.{Text, str, ◌==◌}
use pbs.Base.Text.Equality.{text_eq_iff}
use pbs.Base.Json.{Value, Map, end, get, insert, insert_all, entries}
use pbs.Base.Json.Lookup.{get-insert_same, get-insert_other}
use pbs.Jobs.{differs, diff_fields, change_pair, insert_clear, insert_digest, update_body}
use pbs.Jobs.Sync.{differs_iff}

-- The pair of this key and this value.
abbrev IsPair : Text → Value → Text × Value → Type 0
IsPair k v kv = (kv.0 ≡ k) × (kv.1 ≡ v)

get-insert_cases :
    (k j : Text) (v w : Value) (m : Map)
    → get k (insert j w m) ≡ some v
    → IsPair k v (j, w) ⊎ (get k m ≡ some v)
get-insert_cases k j v w m h = elim (Bool-cases (j == k)) [
  | inl same ↦
      let e = (text_eq_iff j k).0 same in
      let found =
        sym (get-insert_same j w m) ∙ subst (λ x. get x (insert j w m) ≡ some v) (sym e) h in
      inl (e, cc)
  | inr differs ↦
      inr (sym (get-insert_other k j w m (λ e. cc ((text_eq_iff j k).1 e, differs))) ∙ h)
]

get-insert_all :
    (k : Text) (v : Value) (m : Map) (kvs : List (Text × Value))
    → get k (insert_all m kvs) ≡ some v
    → Any (IsPair k v) kvs ⊎ (get k m ≡ some v)
unfolding insert_all
get-insert_all k v m [] h = inr h
get-insert_all k v m ((j, w) ∷ kvs) h = elim (get-insert_all k v (insert j w m) kvs h) [
  | inl later ↦ inl (inr later)
  | inr now ↦ elim (get-insert_cases k j v w m now) [
    | inl here ↦ inl (inl here)
    | inr before ↦ inr before
  ]
]

-- A field of the desired ones that the job does not have.
abbrev pub IsChanged : Map → Text → Value → Text × Value → Type 0
IsChanged current k v kv = (kv.0 ≡ k) × (kv.1 ≡ v) × (get k current ≢ some v)

changed_pair :
    (current : Map) (k : Text) (v : Value) (kv : Text × Value)
    → IsPair k v kv
    → differs current kv ≡ true
    → get k current ≢ some v
changed_pair current k v kv (key, value) differing e =
    let same : get kv.0 current ≡ some kv.1 =
      subst (λ x. get x current ≡ some kv.1) (sym key) (e ∙ ap some (sym value)) in
    cc ((differs_iff current kv).1 same, differing)

abbrev sent : Map → List (Text × Value) → List (Text × Value)
sent current kvs = map change_pair (map (λ kv. (kv.0, (get kv.0 current, kv.1))) kvs)

IsChanged-of_diff :
    (current : Map) (k : Text) (v : Value) (kvs : List (Text × Value))
    → Any (IsPair k v) (sent current (filter (differs current) kvs))
    → Any (IsChanged current k v) kvs
unfolding filter
IsChanged-of_diff current k v [] h = absurd h
IsChanged-of_diff current k v (kv ∷ kvs) h =
    let rest = filter (differs current) kvs in
    let split : Bool → Type 0 =
      λ b. Any (IsPair k v) (sent current (if b then kv ∷ rest else rest)) in
    elim (Bool-cases (differs current kv)) [
      | inl differing ↦ elim (subst split differing h) [
        | inl here ↦ inl (here.0, here.1, changed_pair current k v kv here differing)
        | inr later ↦ inr (IsChanged-of_diff current k v kvs later)
      ]
      | inr same ↦ inr (IsChanged-of_diff current k v kvs (subst split same h))
    ]

without_guards :
    (k : Text) (clear : List Text) (digest : Option Text) (m : Map)
    → k ≢ str "delete"
    → k ≢ str "digest"
    → get k (insert_digest digest (insert_clear clear m)) ≡ get k m
without_guards k [] none m nd ng = refl
without_guards k [] (some d) m nd ng = get-insert_other k (str "digest") _ m (λ e. ng (sym e))
without_guards k (c ∷ clear) none m nd ng = get-insert_other k (str "delete") _ m (λ e. nd (sym e))
without_guards k (c ∷ clear) (some d) m nd ng =
    get-insert_other k (str "digest") _ (insert_clear (c ∷ clear) m) (λ e. ng (sym e))
    ∙ get-insert_other k (str "delete") _ m (λ e. nd (sym e))

get_end : (k : Text) (v : Value) → ¬ (get k end ≡ some v)
unfolding get
get_end k v h = cc

-- Apart from the keys `delete` and `digest`, an update sends only desired fields that the job does not
-- have, with their desired values.
pub update_body-IsChanged :
    (current fields : Map) (clear : List Text) (digest : Option Text) (k : Text) (v : Value)
    → k ≢ str "delete"
    → k ≢ str "digest"
    → get k (update_body (diff_fields current fields) clear digest) ≡ some v
    → Any (IsChanged current k v) (entries fields)
unfolding update_body diff_fields
update_body-IsChanged current fields clear digest k v nd ng h =
    let changes =
      map change_pair (
        map (λ kv. (kv.0, (get kv.0 current, kv.1))) (filter (differs current) (entries fields))) in
    let found = sym (without_guards k clear digest (insert_all end changes) nd ng) ∙ h in
    elim (get-insert_all k v end changes found) [
      | inl sent ↦ IsChanged-of_diff current k v (entries fields) sent
      | inr absent ↦ absurd (get_end k v absent)
    ]
