-- ===== src/ConfigBackup/LockDown.antt =====
-- src/config_backup.rs: `lock_down`, which makes a payload readable by root alone.
use pbs.Base.{ℕ, zero, suc, ◌%◌, List, [], ◌∷◌, ◌++◌, Option, none, some}
use pbs.Base.Tests.{nat_eq, if◌then◌else◌}
use pbs.Base.Lists.{length}
use pbs.Base.Text.{Text, str, show_nat}
use pbs.Base.Result.{Io, lift, pure, fail}
use pbs.Base.Action.{◌>>=◌, ◌>>◌}
use pbs.ConfigBackup.{max_depth, descend}
use pbs.ConfigBackup.Files.{
  Fs, Entry, missing, symlink_entry, dir_entry, file_entry, other_entry, entry, open_root,
}

abbrev loose_warning : List Text → Option Text
loose_warning [] = none
loose_warning (rel ∷ loose) = some (
    str "target ignored chmod on "
    ++ (show_nat (length (rel ∷ loose))
        ++ (str " path(s) (e.g. " ++ (rel ++ str "); the backup may be readable beyond root"))))

module _ {W D F : Type 0} (fs : Fs W D F) where
  -- The path, where the mode is not the one that was set
  unfoldable pub chmod_checked : F → ℕ → Text → Io W (List Text)
  chmod_checked f mode rel = do
    fs.set_permissions f mode
    meta ← fs.metadata f
    pure (if nat_eq (meta.mode % 0x200) mode then [] else rel ∷ [])

  -- `visit` locks a directory down: it is given its path and the depth.
  abbrev lock_entry : (D → Text → ℕ → Io W (List Text)) → ℕ → Text → Entry D F → Io W (List Text)
  lock_entry visit depth rel (dir_entry sub) = do
    here ← chmod_checked (fs.handle sub) 0x1c0 rel
    deeper ← lift (descend depth rel)
    below ← visit sub rel deeper
    pure (here ++ below)
  lock_entry visit depth rel (file_entry f) = chmod_checked f 0x180 rel
  lock_entry visit depth rel missing = pure []
  lock_entry visit depth rel symlink_entry =
      fail (rel ++ str " in the payload is not a regular file or directory")
  lock_entry visit depth rel other_entry =
      fail (rel ++ str " in the payload is not a regular file or directory")

  abbrev lock_each : (D → Text → ℕ → Io W (List Text)) → D → Text → ℕ → List Text → Io W (List Text)
  lock_each visit d prefix depth [] = pure []
  lock_each visit d prefix depth (name ∷ names) = do
    e ← entry fs d name
    here ← lock_entry visit depth (prefix ++ (b'/' ∷ name)) e
    rest ← lock_each visit d prefix depth names
    pure (here ++ rest)

  -- The fuel is one more than the directories that `descend` still allows.
  unfoldable pub lock_down_at : ℕ → D → Text → ℕ → Io W (List Text)
  unfolding entry chmod_checked descend
  lock_down_at zero d prefix depth = fail (str "no fuel")
  lock_down_at (suc fuel) d prefix depth = do
    names ← fs.names d
    lock_each (lock_down_at fuel) d prefix depth names

  unfoldable pub lock_down : Text → Io W (Option Text)
  unfolding lock_down_at chmod_checked
  lock_down payload = do
    root ← open_root fs payload
    here ← chmod_checked (fs.handle root) 0x1c0 (str "/")
    below ← lock_down_at (suc max_depth) root [] 0
    pure (loose_warning (here ++ below))
