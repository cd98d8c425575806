-- ===== src/Jobs/Sync.antt =====
-- When a job is in sync with the desired fields, and what an update sends.
use pbs.Base.{true, false, Option, none, some, List, [], ◌∷◌, map, ◌≡◌, ◌↔◌, refl, ap, arith}
use pbs.Base.Lists.{All, All_mono, filter, filter-eq-nil, filter_none}
use pbs.Base.Text.{Text}
use pbs.Base.Json.{Value, object, Map, get, contains_key, entries, as_object}
use pbs.Base.Json.Equality.{value_eq_iff}
use pbs.Base.Result.{ok}
use pbs.Jobs.{Kind, is_held, differs, diff_fields, update_step, update_current, update_steps}

-- The job has the desired value of every field, and none of the keys that are to be unset.
pub record IsInSync (current fields : Map) (clear : List Text) : Type 0 where
  pub held : All (λ kv. get kv.0 current ≡ some kv.1) (entries fields)
  pub unset : All (λ k. contains_key k current ≡ false) clear

is_held_iff : (v : Value) (o : Option Value) → (is_held v o ≡ true) ↔ (o ≡ some v)
is_held_iff v none = (λ h. cc, λ h. cc)
is_held_iff v (some w) = (λ h. ap some ((value_eq_iff w v).0 h), λ h. (value_eq_iff w v).1 cc)

pub differs_iff :
    (current : Map) (kv : Text × Value)
    → (differs current kv ≡ false) ↔ (get kv.0 current ≡ some kv.1)
differs_iff current (k, v) = (
  λ h. (is_held_iff v (get k current)).0 (ground (arith, h)),
  λ h. ground (arith, (is_held_iff v (get k current)).1 h),
)

map-nil {ℓ κ} : {A : Type ℓ} {B : Type κ} (f : A → B) (xs : List A) → map f xs ≡ [] → xs ≡ []
map-nil f [] h = refl
map-nil f (x ∷ xs) h = cc

diff_fields-nil :
    (current fields : Map)
    → (diff_fields current fields ≡ []) ↔ All (λ kv. get kv.0 current ≡ some kv.1) (entries fields)
unfolding diff_fields
diff_fields-nil current fields = (
  λ h.
      All_mono (λ kv. differs current kv ≡ false) (λ kv. get kv.0 current ≡ some kv.1)
        (entries fields) (λ kv. (differs_iff current kv).0)
        (filter-eq-nil (differs current) (entries fields) (map-nil _ _ h)),
  λ h. ap (map (λ kv. (kv.0, (get kv.0 current, kv.1)))) (
      filter_none (differs current) (entries fields) (
        All_mono (λ kv. get kv.0 current ≡ some kv.1) (λ kv. differs current kv ≡ false)
          (entries fields) (λ kv. (differs_iff current kv).1) h)),
)

module _ (render : Value → Text) where
  update_step-nil :
      (kind : Kind) (id : Text) (changes : List (Text × (Option Value × Value))) (clear : List Text)
      (digest : Option Text)
      → (update_step render kind id changes clear digest ≡ []) ↔ ((changes ≡ []) × (clear ≡ []))
  update_step-nil kind id [] [] digest = (λ h. (refl, refl), λ h. refl)
  update_step-nil kind id [] (k ∷ clear) digest = (λ h. cc, λ h. cc (h.1))
  update_step-nil kind id (x ∷ changes) clear digest = (λ h. cc, λ h. cc (h.0))

  -- An update plans nothing exactly when the job has the desired value of every field and none of
  -- the keys that are to be unset.
  pub update_steps-IsInSync :
      (kind : Kind) (current : Map) (id : Text) (fields : Map) (clear : List Text)
      (digest : Option Text)
      → (update_steps render kind (some (object current)) id fields clear digest ≡ ok [])
        ↔ IsInSync current fields clear
  unfolding update_steps as_object
  update_steps-IsInSync kind current id fields clear digest =
      let unset = filter (λ k. contains_key k current) clear in
      let step = update_step-nil kind id (diff_fields current fields) unset digest in
      (
        λ h.
            let empty : update_current render kind current id fields clear digest ≡ [] = cc in
            let (same, gone) = step.0 empty in
            record {
              held = (diff_fields-nil current fields).0 same;
              unset = filter-eq-nil (λ k. contains_key k current) clear gone;
            },
        λ h. ap ok (
            step.1 (
              (diff_fields-nil current fields).1 h.held,
              filter_none (λ k. contains_key k current) clear h.unset,
            )),
      )
