-- ===== src/ConfigBackup/Leftovers/Walk.antt =====
-- The walk for leftovers: what it finds, and that its depth is bounded.
use pbs.Base.{
  ℕ, zero, suc, ◌+◌, ◌≤◌, true, Option, none, some, List, [], ◌∷◌, ◌++◌, ◌≡◌, refl, ap, fun_ext,
  arith,
}
use pbs.Base.Tests.{if◌then◌else◌}
use pbs.Base.Lists.{All, All-append}
use pbs.Base.Text.{Text, str}
use pbs.Base.Result.{Result, ok, err, panic, Io, bind, lift, pure}
use pbs.Base.Gives.{Gives, pure-Gives, fail-Gives, bind-Gives, then-Gives, if-Gives}
use pbs.ConfigBackup.{max_depth, join_rel, descend}
use pbs.ConfigBackup.Files.{Kind, symlink, dir, file, other, Fs}
use pbs.ConfigBackup.Leftovers.{
  Left, is_leftover, look_inside, look, look_each, leftovers_at, leftovers,
}

abbrev pub IsKnown : Left → Type 0
IsKnown l = is_leftover l.name ≡ true

module _ {W D F : Type 0} (fs : Fs W D F) where
  abbrev Visit : Type 0
  Visit = D → Text → ℕ → Io W (List Left)

  module _ (visit : Visit)
      (known : (d : D) (at : Text) (n : ℕ) → Gives (All IsKnown) (visit d at n)) where
    inside-IsKnown :
        (d : D) (at : Text) (depth : ℕ) (name : Text) (kind : Kind)
        → Gives (All IsKnown) (look_inside fs visit d at depth name kind)
    inside-IsKnown d at depth name dir w a w' e =
        then-Gives (All IsKnown) (fs.sub d name) _
          (λ sub.
            then-Gives (All IsKnown) (lift (descend depth (join_rel at name))) _
              (λ deeper. known sub (join_rel at name) deeper))
          w a w' e
    inside-IsKnown d at depth name symlink w a w' e = pure-Gives (All IsKnown) [] tt w a w' e
    inside-IsKnown d at depth name file w a w' e = pure-Gives (All IsKnown) [] tt w a w' e
    inside-IsKnown d at depth name other w a w' e = pure-Gives (All IsKnown) [] tt w a w' e

    look-IsKnown :
        (d : D) (at : Text) (depth : ℕ) (name : Text) (found : Option (Kind × ℕ))
        → Gives (All IsKnown) (look fs visit d at depth name found)
    look-IsKnown d at depth name none = pure-Gives (All IsKnown) [] tt
    look-IsKnown d at depth name (some (kind, ino)) =
        if-Gives (All IsKnown) (is_leftover name) (pure _)
          (look_inside fs visit d at depth name kind)
          (λ marked. pure-Gives (All IsKnown) _ (marked, tt))
          (λ plain. inside-IsKnown d at depth name kind)

    look_each-IsKnown :
        (d : D) (at : Text) (depth : ℕ) (names : List Text)
        → Gives (All IsKnown) (look_each fs visit d at depth names)
    look_each-IsKnown d at depth [] = pure-Gives (All IsKnown) [] tt
    look_each-IsKnown d at depth (name ∷ names) =
        then-Gives (All IsKnown) (fs.stat d name) _ λ found.
          bind-Gives (All IsKnown) (All IsKnown) (look fs visit d at depth name found) _
            (look-IsKnown d at depth name found)
            λ here hk.
              bind-Gives (All IsKnown) (All IsKnown) (look_each fs visit d at depth names) _
                (look_each-IsKnown d at depth names)
                λ rest rk.
                  pure-Gives (All IsKnown) (here ++ rest) (All-append IsKnown here rest hk rk)

  leftovers_at-IsKnown :
      (fuel : ℕ) (d : D) (at : Text) (depth : ℕ)
      → Gives (All IsKnown) (leftovers_at fs fuel d at depth)
  unfolding leftovers_at
  leftovers_at-IsKnown zero d at depth = fail-Gives (All IsKnown) (str "no fuel")
  leftovers_at-IsKnown (suc fuel) d at depth =
      then-Gives (All IsKnown) (fs.names d) _
        (look_each-IsKnown (leftovers_at fs fuel) (leftovers_at-IsKnown fuel) d at depth)

  pub leftovers-IsKnown : (root : D) → Gives (All IsKnown) (leftovers fs root)
  unfolding leftovers
  leftovers-IsKnown root = leftovers_at-IsKnown (suc max_depth) root [] 0

  -- Two ways to walk a directory that agree wherever `descend` lets a walk at `depth` go.
  abbrev Agree : Visit → Visit → ℕ → Type 0
  Agree v u depth =
      (d : D) (at : Text) (deeper : ℕ)
      → descend depth at ≡ ok deeper
      → v d at deeper ≡ u d at deeper

  deeper-eq :
      (v u : ℕ → Io W (List Left)) (r : Result ℕ)
      → ((n : ℕ) → r ≡ ok n → v n ≡ u n)
      → bind (lift r) v ≡ bind (lift r) u
  deeper-eq v u (ok n) h = h n refl
  deeper-eq v u (err e) h = refl
  deeper-eq v u panic h = refl

  module _ (v u : Visit) (depth : ℕ) (agree : Agree v u depth) where
    look_inside-eq :
        (d : D) (at name : Text) (kind : Kind)
        → look_inside fs v d at depth name kind ≡ look_inside fs u d at depth name kind
    look_inside-eq d at name dir = ap (bind (fs.sub d name)) (
        fun_ext (λ sub.
          deeper-eq (v sub (join_rel at name)) (u sub (join_rel at name))
            (descend depth (join_rel at name)) (agree sub (join_rel at name))))
    look_inside-eq d at name symlink = refl
    look_inside-eq d at name file = refl
    look_inside-eq d at name other = refl

    look-eq :
        (d : D) (at name : Text) (found : Option (Kind × ℕ))
        → look fs v d at depth name found ≡ look fs u d at depth name found
    look-eq d at name none = refl
    look-eq d at name (some (kind, ino)) =
        ap
          (λ m.
            if is_leftover name
            then pure (record { at = at; name = name; kind = kind } ∷ [])
            else m)
          (look_inside-eq d at name kind)

    look_each-eq :
        (d : D) (at : Text) (names : List Text)
        → look_each fs v d at depth names ≡ look_each fs u d at depth names
    look_each-eq d at [] = refl
    look_each-eq d at (name ∷ names) = λ i. bind (fs.stat d name) λ found.
        bind (look-eq d at name found i)
          λ here. bind (look_each-eq d at names i) λ rest. pure (here ++ rest)

  descend-eq-ok :
      (depth n : ℕ) (at : Text) → descend depth at ≡ ok n → (n ≡ depth + 1) × (n ≤ max_depth)
  unfolding descend
  descend-eq-ok depth n at h = ground arith

  walk-eq :
      (f g : ℕ) (depth : ℕ) (d : D) (at : Text)
      → Agree (leftovers_at fs f) (leftovers_at fs g) depth
      → leftovers_at fs (suc f) d at depth ≡ leftovers_at fs (suc g) d at depth
  unfolding leftovers_at
  walk-eq f g depth d at agree =
      ap (bind (fs.names d))
        (fun_ext (look_each-eq (leftovers_at fs f) (leftovers_at fs g) depth agree d at))

  leftovers_at-more :
      (extra fuel : ℕ) (d : D) (at : Text) (depth : ℕ)
      → fuel + depth ≡ max_depth
      → leftovers_at fs (suc (extra + fuel)) d at depth ≡ leftovers_at fs (suc fuel) d at depth
  leftovers_at-more extra zero d at depth h =
      walk-eq (extra + 0) zero depth d at
        (λ sub rel n e. absurd (omega (arith, descend-eq-ok depth n rel e, h)))
  leftovers_at-more extra (suc fuel) d at depth h =
      let same : extra + suc fuel ≡ suc (extra + fuel) = omega arith in
      rw same (
        walk-eq (suc (extra + fuel)) (suc fuel) depth d at (λ sub rel n e.
          leftovers_at-more extra fuel sub rel n (omega (arith, descend-eq-ok depth n rel e, h))))

  -- The walk for leftovers ends: with more fuel than it is given it does and finds the same, since no
  -- directory is entered below the depth that is allowed.
  pub leftovers-more :
      (extra : ℕ) (root : D)
      → leftovers_at fs (suc (extra + max_depth)) root [] 0 ≡ leftovers fs root
  unfolding leftovers
  leftovers-more extra root = leftovers_at-more extra max_depth root [] 0 refl
