-- ===== src/ConfigBackup/Leftovers/Quiet.antt =====
-- The walk for leftovers changes nothing.
use pbs.Base.{ℕ, zero, suc, Option, none, some, List, [], ◌∷◌, refl}
use pbs.Base.Text.{Text}
use pbs.Base.Result.{Io, lift, pure}
use pbs.Base.Quiet.{IsQuiet, bind-IsQuiet, choice-IsQuiet}
use pbs.ConfigBackup.{max_depth, join_rel, descend}
use pbs.ConfigBackup.Files.{Kind, symlink, dir, file, other, Fs}
use pbs.ConfigBackup.Files.Quiet.{ReadsQuietly}
use pbs.ConfigBackup.Leftovers.{
  Left, is_leftover, look_inside, look, look_each, leftovers_at, leftovers,
}

module _ {W D F : Type 0} (fs : Fs W D F) (quiet : ReadsQuietly fs) where
  module _ (visit : D → Text → ℕ → Io W (List Left))
      (silent : (d : D) (at : Text) (depth : ℕ) → IsQuiet (visit d at depth)) where
    inside-IsQuiet :
        (d : D) (at : Text) (depth : ℕ) (name : Text) (kind : Kind)
        → IsQuiet (look_inside fs visit d at depth name kind)
    inside-IsQuiet d at depth name dir w =
        bind-IsQuiet (fs.sub d name) _ (quiet.subs d name)
          (λ sub.
            bind-IsQuiet (lift (descend depth (join_rel at name))) _ (λ w. refl)
              λ deeper. silent sub (join_rel at name) deeper)
          w
    inside-IsQuiet d at depth name symlink w = refl
    inside-IsQuiet d at depth name file w = refl
    inside-IsQuiet d at depth name other w = refl

    look-IsQuiet :
        (d : D) (at : Text) (depth : ℕ) (name : Text) (found : Option (Kind × ℕ))
        → IsQuiet (look fs visit d at depth name found)
    look-IsQuiet d at depth name none w = refl
    look-IsQuiet d at depth name (some (kind, ino)) w =
        choice-IsQuiet (is_leftover name) (pure _) (look_inside fs visit d at depth name kind)
          (λ w. refl) (inside-IsQuiet d at depth name kind) w

    look_each-IsQuiet :
        (d : D) (at : Text) (depth : ℕ) (names : List Text)
        → IsQuiet (look_each fs visit d at depth names)
    look_each-IsQuiet d at depth [] w = refl
    look_each-IsQuiet d at depth (name ∷ names) w =
        bind-IsQuiet (fs.stat d name) _ (quiet.stats d name)
          (λ found.
            bind-IsQuiet (look fs visit d at depth name found) _
              (look-IsQuiet d at depth name found)
              λ here.
                bind-IsQuiet (look_each fs visit d at depth names) _
                  (look_each-IsQuiet d at depth names) λ rest w. refl)
          w

  leftovers_at-IsQuiet :
      (fuel : ℕ) (d : D) (at : Text) (depth : ℕ) → IsQuiet (leftovers_at fs fuel d at depth)
  unfolding leftovers_at
  leftovers_at-IsQuiet zero d at depth w = refl
  leftovers_at-IsQuiet (suc fuel) d at depth w =
      bind-IsQuiet (fs.names d) _ (quiet.lists d)
        (look_each-IsQuiet (leftovers_at fs fuel) (leftovers_at-IsQuiet fuel) d at depth) w

  pub leftovers-IsQuiet : (root : D) → IsQuiet (leftovers fs root)
  unfolding leftovers
  leftovers-IsQuiet root = leftovers_at-IsQuiet (suc max_depth) root [] 0
