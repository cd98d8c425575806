-- ===== src/ConfigBackup/Recovery/Plan/OnlyLeftovers.antt =====
-- The steps of a recovery that act on leftovers alone.
use pbs.Base.{
  Bool, true, false, not, Option, none, some, List, [], ◌∷◌, ◌≡◌, inl, inr, refl, subst, arith,
}
use pbs.Base.Tests.{Bool-cases, if◌then◌else◌}
use pbs.Base.Lists.{All, filter, find?, find?-holds}
use pbs.Base.Text.{Text, ◌==◌}
use pbs.Base.Text.Equality.{text_eq_iff}
use pbs.ConfigBackup.Files.{Kind}
use pbs.ConfigBackup.Restore.{MarkedFile, prev_name}
use pbs.ConfigBackup.Leftovers.{Left, is_leftover}
use pbs.ConfigBackup.Leftovers.Walk.{IsKnown}
use pbs.ConfigBackup.Recovery.{Op, rename, install, chmod, unlink, rmdir, keep}
use pbs.ConfigBackup.Recovery.Plan.{
  is_at, kind_of, unlink_if, remove_each, strays, unowned, is_stray, is_owned,
}

-- A step that removes, or moves away, nothing but a file named as a restore names its leftovers; an
-- original goes back to the name that it was linked from. A directory is removed only if it is empty.
abbrev pub OnlyLeftovers : Op → Type 0
OnlyLeftovers (rename at from to) =
    (is_leftover from ≡ true) × ((tag : Text) × (from ≡ prev_name to tag))
OnlyLeftovers (install at from staging to entry owners) = ⊥
OnlyLeftovers (chmod at name mode) = ⊥
OnlyLeftovers (unlink at name) = is_leftover name ≡ true
OnlyLeftovers (rmdir at name) = Unit
OnlyLeftovers (keep at name why) = Unit

pub find?-All :
    {A : Type 0} (P : A → Type 0) (p : A → Bool) (xs : List A) (a : A)
    → All P xs
    → find? p xs ≡ some a
    → P a
unfolding find?
find?-All P p [] a h e = cc
find?-All P p (x ∷ xs) a h e = elim (Bool-cases (p x)) [
  | inl here ↦ let e' : x ≡ a = ground (arith, e, here) in subst P e' h.0
  | inr later ↦ find?-All P p xs a h.1 (ground (arith, e, later))
]

-- What is found among the leftovers is one.
pub found_name :
    (left : List Left) (at name : Text) (o : Option Left) (k : Kind)
    → ((l : Left) → o ≡ some l → (is_at at name l ≡ true) × IsKnown l)
    → (elim o [ none ↦ none | some l ↦ some l.kind ]) ≡ some k
    → is_leftover name ≡ true
found_name left at name none k h e = cc
found_name left at name (some l) k h e =
    let (here, known) = h l refl in
    let same : (l.name == name) ≡ true = ground (arith, here) in
    subst (λ n. is_leftover n ≡ true) ((text_eq_iff l.name name).0 same) known

pub kind_of-IsKnown :
    (left : List Left) (at name : Text) (k : Kind)
    → All IsKnown left
    → kind_of left at name ≡ some k
    → is_leftover name ≡ true
unfolding kind_of
kind_of-IsKnown left at name k h e =
    found_name left at name (find? (is_at at name) left) k
      (λ l f. (find?-holds (is_at at name) left l f, find?-All IsKnown (is_at at name) left l h f))
      e

pub remove_each-Only : (ls : List Left) → All IsKnown ls → All OnlyLeftovers (remove_each ls)
unfolding remove_each
remove_each-Only [] h = tt
remove_each-Only (l ∷ ls) h = (h.0, remove_each-Only ls h.1)

pub filter-All :
    {A : Type 0} (P : A → Type 0) (p : A → Bool) (xs : List A) → All P xs → All P (filter p xs)
unfolding filter
filter-All P p [] h = tt
filter-All P p (x ∷ xs) h = elim (Bool-cases (p x)) [
  | inl kept ↦ rw kept (h.0, filter-All P p xs h.1)
  | inr dropped ↦ rw dropped (filter-All P p xs h.1)
]

abbrev pub AllOnly : List Op → Type 0
AllOnly = All OnlyLeftovers

pub strays-Only :
    (tag : Text) (files : List MarkedFile) (left : List Left)
    → All IsKnown left
    → AllOnly (strays tag files left)
unfolding strays
strays-Only tag files left h =
    remove_each-Only (filter (is_stray tag files) left)
      (filter-All IsKnown (is_stray tag files) left h)

pub unowned-Only :
    (tags : List Text) (left : List Left) → All IsKnown left → AllOnly (unowned tags left)
unfolding unowned
unowned-Only tags left h =
    remove_each-Only (filter (λ l. not (is_owned tags l)) left)
      (filter-All IsKnown (λ l. not (is_owned tags l)) left h)

pub either-Only :
    (b : Bool) (at name tag : Text)
    → is_leftover (prev_name name tag) ≡ true
    → OnlyLeftovers
        (if b then unlink at (prev_name name tag) else rename at (prev_name name tag) name)
either-Only true at name tag h = h
either-Only false at name tag h = (h, (tag, refl))

pub keep-Only : (b : Bool) (at name why : Text) → AllOnly (if b then keep at name why ∷ [] else [])
keep-Only true at name why = (tt, tt)
keep-Only false at name why = tt

pub unlink_if-Only :
    (at name : Text) (o : Option Kind)
    → ((k : Kind) → o ≡ some k → is_leftover name ≡ true)
    → AllOnly (unlink_if at name o)
unlink_if-Only at name none h = tt
unlink_if-Only at name (some k) h = (h k refl, tt)
