-- ===== src/Api/Chain.antt =====
-- The chain of missing namespaces: it is created parent first, after it every level exists, and it
-- is empty exactly when nothing is missing.
use pbs.Base.{
  true, false, not, List, [], ◌∷◌, ◌≡◌, ◌⊎◌, inl, inr, ◌↔◌, ◌∙◌, refl, sym, subst, arith,
}
use pbs.Base.Tests.{Bool-cases}
use pbs.Base.Lists.{All, any, filter}
use pbs.Base.Text.{Text, is_empty, one_of, split}
use pbs.Base.Text.Equality.{text_eq_refl}
use pbs.Api.{Namespace}
use pbs.Api.Namespaces.{has_namespace, full_name, chain_from, missing_namespace_chain}

-- The names of all levels below `parent`, from the top.
abbrev pub levels : Text → List Text → List Text
levels parent [] = []
levels parent (p ∷ ps) = full_name parent p ∷ levels (full_name parent p) ps

abbrev pub name_list : List Namespace → List Text
name_list [] = []
name_list (n ∷ ns) = n.ns ∷ name_list ns

-- The names there are when the pairs (parent, name) have been created.
abbrev pub create_all : List Text → List (Text × Text) → List Text
create_all known [] = known
create_all known ((parent, name) ∷ rest) = create_all (full_name parent name ∷ known) rest

-- Each pair can be created when its turn comes: its parent is the root or is known by then.
abbrev pub ParentFirst : List Text → List (Text × Text) → Type 0
ParentFirst known [] = Unit
ParentFirst known ((parent, name) ∷ rest) =
    ((parent ≡ []) ⊎ (one_of parent known ≡ true))
    × ParentFirst (full_name parent name ∷ known) rest

one_of-name_list : (t : Text) (ns : List Namespace) → one_of t (name_list ns) ≡ has_namespace ns t
unfolding one_of any
one_of-name_list t [] = refl
one_of-name_list t (n ∷ ns) = ground (arith, one_of-name_list t ns)

one_of_self : (t : Text) (known : List Text) → one_of t (t ∷ known) ≡ true
unfolding one_of
one_of_self t known = ground (arith, text_eq_refl t)

one_of-cons : (t x : Text) (known : List Text) → one_of t known ≡ true → one_of t (x ∷ known) ≡ true
unfolding one_of
one_of-cons t x known h = ground arith

one_of-create_all :
    (t : Text) (known : List Text) (chain : List (Text × Text))
    → one_of t known ≡ true
    → one_of t (create_all known chain) ≡ true
one_of-create_all t known [] h = h
one_of-create_all t known ((parent, name) ∷ rest) h =
    one_of-create_all t (full_name parent name ∷ known) rest (one_of-cons t _ known h)

-- `known` holds at least the namespaces that the server listed.
abbrev Extends : List Text → List Namespace → Type 0
Extends known existing = (t : Text) → has_namespace existing t ≡ true → one_of t known ≡ true

chain_from-ParentFirst :
    (existing : List Namespace) (known : List Text) (parent : Text) (parts : List Text)
    → Extends known existing
    → (parent ≡ []) ⊎ (one_of parent known ≡ true)
    → ParentFirst known (chain_from existing parent parts)
unfolding chain_from
chain_from-ParentFirst existing known parent [] ext ready = tt
chain_from-ParentFirst existing known parent (p ∷ ps) ext ready =
    elim (Bool-cases (has_namespace existing (full_name parent p))) [
      | inl there ↦
          rw there
            (chain_from-ParentFirst existing known (full_name parent p) ps ext (inr (ext _ there)))
      | inr absent ↦ rw absent (
        ready,
        chain_from-ParentFirst existing (full_name parent p ∷ known) (full_name parent p) ps
            (λ t h. one_of-cons t _ known (ext t h)) (inr (one_of_self (full_name parent p) known)),
      )
    ]

chain_from_there :
    (existing : List Namespace) (parent p : Text) (ps : List Text)
    → has_namespace existing (full_name parent p) ≡ true
    → chain_from existing parent (p ∷ ps) ≡ chain_from existing (full_name parent p) ps
unfolding chain_from
chain_from_there existing parent p ps h = rw h

chain_from_absent :
    (existing : List Namespace) (parent p : Text) (ps : List Text)
    → has_namespace existing (full_name parent p) ≡ false
    → chain_from existing parent (p ∷ ps)
      ≡ (parent, p) ∷ chain_from existing (full_name parent p) ps
unfolding chain_from
chain_from_absent existing parent p ps h = rw h

-- Every level is known when the pairs of `chain` have been created.
abbrev Completes : List Text → Text → List Text → List (Text × Text) → Type 0
Completes known parent parts chain =
    All (λ t. one_of t (create_all known chain) ≡ true) (levels parent parts)

chain_from_complete :
    (existing : List Namespace) (known : List Text) (parent : Text) (parts : List Text)
    → Extends known existing
    → Completes known parent parts (chain_from existing parent parts)
chain_from_complete existing known parent [] ext = tt
chain_from_complete existing known parent (p ∷ ps) ext =
    elim (Bool-cases (has_namespace existing (full_name parent p))) [
      | inl there ↦
          subst (Completes known parent (p ∷ ps))
            (sym (chain_from_there existing parent p ps there))
            (
              one_of-create_all (full_name parent p) known
                  (chain_from existing (full_name parent p) ps) (ext _ there),
              chain_from_complete existing known (full_name parent p) ps ext,
            )
      | inr absent ↦
          subst (Completes known parent (p ∷ ps))
            (sym (chain_from_absent existing parent p ps absent))
            (
              one_of-create_all (full_name parent p) (full_name parent p ∷ known)
                  (chain_from existing (full_name parent p) ps)
                  (one_of_self (full_name parent p) known),
              chain_from_complete existing (full_name parent p ∷ known) (full_name parent p) ps
                  (λ t h. one_of-cons t _ known (ext t h)),
            )
    ]

abbrev pub parts_of : Text → List Text
parts_of ns = filter (λ p. not (is_empty p)) (split b'/' ns)

-- Creating the missing namespaces in the order of the chain, each has its parent when it is
-- created, and at the end every level of `ns` exists.
pub missing_namespace_chain-creates :
    (existing : List Namespace) (ns : Text)
    → ParentFirst (name_list existing) (missing_namespace_chain existing ns)
      × All
          (λ t.
            one_of t (create_all (name_list existing) (missing_namespace_chain existing ns)) ≡ true)
          (levels [] (parts_of ns))
unfolding missing_namespace_chain
missing_namespace_chain-creates existing ns =
    let ext : Extends (name_list existing) existing = λ t h. one_of-name_list t existing ∙ h in
    (
      chain_from-ParentFirst existing (name_list existing) [] (parts_of ns) ext (inl refl),
      chain_from_complete existing (name_list existing) [] (parts_of ns) ext,
    )

pub chain_from-nil :
    (existing : List Namespace) (parent : Text) (parts : List Text)
    → (chain_from existing parent parts ≡ [])
      ↔ All (λ t. has_namespace existing t ≡ true) (levels parent parts)
unfolding chain_from
chain_from-nil existing parent [] = (λ _. tt, λ _. refl)
chain_from-nil existing parent (p ∷ ps) =
    let later = chain_from-nil existing (full_name parent p) ps in
    elim (Bool-cases (has_namespace existing (full_name parent p))) [
      | inl there ↦ rw there (λ h. (refl, later.0 h), λ h. later.1 h.1)
      | inr absent ↦ rw absent (λ h. cc, λ h. cc (h.0))
    ]
