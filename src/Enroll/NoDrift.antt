-- ===== src/Enroll/NoDrift.antt =====
-- When each part of the difference between the server and an enrolment is empty.
use pbs.Base.{
  true, false, not, ◌&&◌, Option, none, some, List, [], ◌∷◌, ◌++◌, map, ◌≡◌, ◌⊎◌, inl, inr, ◌↔◌,
  refl, ap, arith,
}
use pbs.Base.Tests.{Option-cases}
use pbs.Base.Lists.{All, All_mono, find?, filter-eq-nil, filter_none}
use pbs.Base.Int.{ℤ}
use pbs.Base.Text.{Text}
use pbs.Base.Result.{Result, ok, err, panic, ◌>>◌}
use pbs.Plan.{Step}
use pbs.Api.{User, UserToken, AclEntry, is_active}
use pbs.Api.Namespaces.{has_namespace, missing_namespace_chain, chain_from}
use pbs.Api.Chain.{levels, parts_of, chain_from-nil}
use pbs.Tools.NamespaceSteps.{namespace_create_steps, create_step}
use pbs.Enroll.Identity.{Identity, owns, in_scope, is_marked}
use pbs.Enroll.Diff.{
  grants, ns_found, ns_drift, user_drift, token_drift, grant_drift, stray_drift, strays,
}
use pbs.Enroll.State.{SecretState, valid, inactive, State, Drift, ◌⊕◌}

-- The first entry that grants `role` on the host's path to `auth` is inherited below.
abbrev pub IsGranted : Identity → List AclEntry → Text → Text → Type 0
IsGranted id acls auth role =
    (e : AclEntry) × (find? (grants id auth role) acls ≡ some e) × (e.propagate ≡ true)

abbrev pub nothing : Drift
nothing = ([], [])

pub append-nil_inv {ℓ} : {A : Type ℓ} (xs ys : List A) → xs ++ ys ≡ [] → (xs ≡ []) × (ys ≡ [])
append-nil_inv [] ys h = (refl, h)
append-nil_inv (x ∷ xs) ys h = cc

pub nothing_of_parts : (a : Drift) → a.0 ≡ [] → a.1 ≡ [] → a ≡ nothing
nothing_of_parts a p q = λ i. (p i, q i)

pub ⊕-nothing : (a b : Drift) → (a ⊕ b ≡ nothing) ↔ ((a ≡ nothing) × (b ≡ nothing))
⊕-nothing a b = (
  λ h.
      let found = append-nil_inv a.0 b.0 (ap (λ p. p.0) h) in
      let steps = append-nil_inv a.1 b.1 (ap (λ p. p.1) h) in
      (nothing_of_parts a found.0 steps.0, nothing_of_parts b found.1 steps.1),
  λ k. nothing_of_parts (a ⊕ b) (cc (k.0, k.1)) (cc (k.0, k.1)),
)

pub ns_found-nothing :
    (id : Identity) (f : Text × Text → Step) (chain : List (Text × Text))
    → (ns_found id (map f chain) ≡ nothing) ↔ (chain ≡ [])
ns_found-nothing id f [] = (λ h. refl, λ h. refl)
ns_found-nothing id f (x ∷ chain) = (λ h. cc, λ h. cc)

pub ns_drift-nothing :
    (id : Identity) (st : State)
    → (ns_drift id st ≡ nothing)
      ↔ All (λ t. has_namespace st.namespaces t ≡ true) (levels [] (parts_of id.ns))
unfolding ns_drift namespace_create_steps missing_namespace_chain
ns_drift-nothing id st =
    let chain = chain_from st.namespaces [] (parts_of id.ns) in
    let none_to_make = ns_found-nothing id (create_step id.datastore) chain in
    let all_there = chain_from-nil st.namespaces [] (parts_of id.ns) in
    (λ h. all_there.0 (none_to_make.0 h), λ k. none_to_make.1 (all_there.1 k))

pub grant_drift-nothing :
    (id : Identity) (acls : List AclEntry) (auth role : Text)
    → (grant_drift id acls auth role ≡ nothing) ↔ IsGranted id acls auth role
unfolding grant_drift
grant_drift-nothing id acls auth role = elim (Option-cases (find? (grants id auth role) acls)) [
  | inl absent ↦ rw absent (ground arith)
  | inr (e, found) ↦ rw found (λ h. (e, refl, ground arith), λ k. ground arith)
]

pub user_drift-nothing :
    (id : Identity) (user : Option User) (now : ℤ)
    → (user_drift id user now ≡ nothing) ↔ (
        (u : User) × (user ≡ some u)
        × (is_marked u ≡ true)
        × (is_active u.enable u.expire now ≡ true))
unfolding user_drift
user_drift-nothing id none now = (λ h. cc, λ k. cc (k.1))
user_drift-nothing id (some u) now = (λ h. (u, refl, ground arith, ground arith), λ k. ground arith)

pub token_drift-nothing :
    (id : Identity) (u : User) (token : Option UserToken) (secret : SecretState) (now : ℤ)
    → is_active u.enable u.expire now ≡ true
    → (token_drift id (some u) token secret now ≡ nothing) ↔ (
        (t : UserToken) × (token ≡ some t)
        × (is_active t.enable t.expire now ≡ true)
        × ((secret ≡ valid) ⊎ (secret ≡ inactive)))
unfolding token_drift
token_drift-nothing id u none secret now awake = (λ h. cc, λ k. cc (k.1))
token_drift-nothing id u (some t) secret now awake =
    (λ h. (t, refl, ground arith, ground arith), λ k. ground arith)

pub map-nil : {A B : Type 0} (f : A → B) (xs : List A) → map f xs ≡ [] → xs ≡ []
map-nil f [] h = refl
map-nil f (x ∷ xs) h = cc

pub stray_drift-nothing :
    (id : Identity) (acls : List AclEntry)
    → (stray_drift id acls ≡ nothing) ↔ All (λ e. owns id e ≡ true → in_scope id e ≡ true) acls
unfolding stray_drift
stray_drift-nothing id acls = (
  λ h.
      All_mono (λ e. (owns id e && not (in_scope id e)) ≡ false)
        (λ e. owns id e ≡ true → in_scope id e ≡ true) acls (λ e k own. ground arith)
        (filter-eq-nil _ acls (map-nil _ (strays id acls) (ap (λ p. p.1) h))),
  λ k.
      let empty : strays id acls ≡ [] = filter_none _ acls (
        All_mono (λ e. owns id e ≡ true → in_scope id e ≡ true)
          (λ e. (owns id e && not (in_scope id e)) ≡ false) acls (λ e m. ground arith) k) in
      rw empty,
)

pub guarded-nothing : (m : Result (Unit {0})) (d : Drift) → (m >> ok d) ≡ ok nothing → d ≡ nothing
guarded-nothing (ok _) d h = cc
guarded-nothing (err e) d h = cc
guarded-nothing panic d h = cc
