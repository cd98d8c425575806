-- ===== src/ConfigBackup/Leftovers.antt =====
-- src/config_backup.rs: what an interrupted restore leaves behind, found by its name.
pub mod Walk
pub mod Quiet
use pbs.Base.{ℕ, zero, suc, Bool, true, false, ◌||◌, Option, none, some, List, [], ◌∷◌, ◌++◌}
use pbs.Base.Tests.{if◌then◌else◌}
use pbs.Base.Text.{Text, str, ◌==◌, is_empty, starts_with, strip_prefix}
use pbs.Base.Text.Search.{contains, ends_with, split_once_at}
use pbs.Base.Result.{Io, lift, pure, fail}
use pbs.Base.Action.{◌>>=◌, ◌>>◌}
use pbs.ConfigBackup.{max_depth, join_rel, descend}
use pbs.ConfigBackup.Files.{Kind, dir, Fs}
use pbs.ConfigBackup.Restore.{temp_mark, prev_mark, swap_mark, next_suffix}

pub record Left : Type 0 where
  pub at : Text
  pub name : Text
  pub kind : Kind

abbrev pub rel : Left → Text
rel l = join_rel l.at l.name

abbrev without_dot : Text → Text
without_dot base = elim (strip_prefix (str ".") base) [ some b ↦ b | none ↦ base ]

abbrev shadow_of : Option (Text × Text) → Option (Text × Text)
shadow_of none = none
shadow_of (some (base, tag)) = some (without_dot base, tag)

-- The file that a temporary file or an original set aside shadows, and its tag
unfoldable pub shadowing : Left → Option (Text × Text)
unfolding split_once_at strip_prefix
shadowing l = elim (split_once_at temp_mark l.name) [
  | some p ↦ shadow_of (some p)
  | none ↦ shadow_of (split_once_at prev_mark l.name)
]

-- The tag of a swap marker, which counts only at the root.
unfoldable pub marker_tag : Left → Option Text
unfolding is_empty ends_with strip_prefix
marker_tag l =
    if is_empty l.at
    then (if ends_with next_suffix l.name then none else strip_prefix swap_mark l.name)
    else none

unfoldable pub is_leftover : Text → Bool
unfolding contains starts_with
is_leftover name =
    contains temp_mark name || (contains prev_mark name || starts_with swap_mark name)

module _ {W D F : Type 0} (fs : Fs W D F) where
  -- One name. `visit` walks a directory: it is given the path and the depth.
  abbrev look_inside :
      (D → Text → ℕ → Io W (List Left)) → D → Text → ℕ → Text → Kind → Io W (List Left)
  look_inside visit d at depth name dir = do
    sub ← fs.sub d name
    deeper ← lift (descend depth (join_rel at name))
    visit sub (join_rel at name) deeper
  look_inside visit d at depth name kind = pure []

  abbrev look :
      (D → Text → ℕ → Io W (List Left)) → D → Text → ℕ → Text → Option (Kind × ℕ) → Io W (List Left)
  look visit d at depth name none = pure []
  look visit d at depth name (some (kind, ino)) =
      if is_leftover name
      then pure (record { at = at; name = name; kind = kind } ∷ [])
      else look_inside visit d at depth name kind

  abbrev look_each : (D → Text → ℕ → Io W (List Left)) → D → Text → ℕ → List Text → Io W (List Left)
  look_each visit d at depth [] = pure []
  look_each visit d at depth (name ∷ names) = do
    found ← fs.stat d name
    here ← look visit d at depth name found
    rest ← look_each visit d at depth names
    pure (here ++ rest)

  -- The fuel is one more than the directories that `descend` still allows.
  unfoldable pub leftovers_at : ℕ → D → Text → ℕ → Io W (List Left)
  unfolding is_leftover join_rel descend
  leftovers_at zero d at depth = fail (str "no fuel")
  leftovers_at (suc fuel) d at depth = do
    names ← fs.names d
    look_each (leftovers_at fuel) d at depth names

  unfoldable pub leftovers : D → Io W (List Left)
  unfolding leftovers_at
  leftovers root = leftovers_at (suc max_depth) root [] 0
