-- ===== src/ConfigBackup/Scan.antt =====
-- src/config_backup.rs: the files that a capture holds, and the stamps that tell whether one changed.
use pbs.Base.{ℕ, zero, suc, Bool, true, false, ◌&&◌, List, [], ◌∷◌, ◌++◌}
use pbs.Base.Tests.{nat_eq, if◌then◌else◌}
use pbs.Base.Int.{ℤ, pos_part, neg_part}
use pbs.Base.Json.{text_lt}
use pbs.Base.Text.{Text, str, ◌==◌}
use pbs.Base.Result.{Io, lift, pure, fail}
use pbs.Base.Action.{◌>>=◌, sort_by}
use pbs.ConfigBackup.{max_depth, transient, descend}
use pbs.ConfigBackup.Files.{
  Meta, Fs, Entry, missing, symlink_entry, dir_entry, file_entry, other_entry, entry, open_root,
  open_rel,
}

-- Length, `mtime` and `ctime` with their nanoseconds, and inode
abbrev pub Stamp : Type 0
Stamp = ℕ × ℤ × ℤ × ℤ × ℤ × ℕ

abbrev pub stamp : Meta → Stamp
stamp m = (m.len, m.mtime, m.mtime_nsec, m.ctime, m.ctime_nsec, m.ino)

abbrev int_eq : ℤ → ℤ → Bool
int_eq a b = nat_eq (pos_part a) (pos_part b) && nat_eq (neg_part a) (neg_part b)

abbrev stamp_eq : Stamp → Stamp → Bool
stamp_eq (l, ms, mn, cs, cn, i) (l', ms', mn', cs', cn', i') =
    nat_eq l l'
    && (int_eq ms ms' && (int_eq mn mn' && (int_eq cs cs' && (int_eq cn cn' && nat_eq i i'))))

-- `BTreeMap<String, Stamp>`: the pairs in the order of their keys, which are distinct.
abbrev pub Stamps : Type 0
Stamps = List (Text × Stamp)

unfoldable pub insert : Text → Stamp → Stamps → Stamps
unfolding text_lt ◌==◌
insert path s [] = (path, s) ∷ []
insert path s ((key, t) ∷ rest) =
    let later = insert path s rest in
    if path == key
    then (path, s) ∷ rest
    else if text_lt path key
    then (path, s) ∷ (key, t) ∷ rest
    else (key, t) ∷ later

unfoldable pub stamps_eq : Stamps → Stamps → Bool
unfolding ◌==◌
stamps_eq [] [] = true
stamps_eq [] (t ∷ ts) = false
stamps_eq (s ∷ ss) [] = false
stamps_eq (s ∷ ss) (t ∷ ts) = s.0 == t.0 && (stamp_eq s.1 t.1 && stamps_eq ss ts)

abbrev Found : Type 0
Found = List Text × List Text

abbrev both : Found → Found → Found
both a b = (a.0 ++ b.0, a.1 ++ b.1)

module _ {W D F : Type 0} (fs : Fs W D F) where
  -- One entry. `visit` walks a directory: it is given the prefix of its paths and the depth.
  abbrev scan_entry : (D → Text → ℕ → Io W Found) → ℕ → Text → Entry D F → Io W Found
  scan_entry visit depth rel (dir_entry sub) = do
    deeper ← lift (descend depth rel)
    below ← visit sub (rel ++ str "/") deeper
    pure (rel ∷ below.0, below.1)
  scan_entry visit depth rel (file_entry f) = pure ([], rel ∷ [])
  scan_entry visit depth rel missing = pure ([], [])
  scan_entry visit depth rel symlink_entry = pure ([], [])
  scan_entry visit depth rel other_entry = pure ([], [])

  abbrev scan_name : (D → Text → ℕ → Io W Found) → D → Text → ℕ → Text → Io W Found
  scan_name visit d prefix depth name =
      if transient name
      then pure ([], [])
      else (entry fs d name >>= scan_entry visit depth (prefix ++ name))

  abbrev scan_each : (D → Text → ℕ → Io W Found) → D → Text → ℕ → List Text → Io W Found
  scan_each visit d prefix depth [] = pure ([], [])
  scan_each visit d prefix depth (name ∷ names) = do
    here ← scan_name visit d prefix depth name
    rest ← scan_each visit d prefix depth names
    pure (both here rest)

  -- The fuel is one more than the directories that `descend` still allows.
  unfoldable pub scan_at : ℕ → D → Text → ℕ → Io W Found
  unfolding transient entry descend
  scan_at zero d prefix depth = fail (str "no fuel")
  scan_at (suc fuel) d prefix depth = do
    names ← fs.names d
    scan_each (scan_at fuel) d prefix depth names

  -- The directories and the files, each in order
  unfoldable pub scan : D → Io W Found
  unfolding scan_at sort_by text_lt
  scan root = do
    found ← scan_at (suc max_depth) root [] 0
    pure (sort_by text_lt found.0, sort_by text_lt found.1)

  unfoldable pub collect : Text → Io W (List Text)
  unfolding scan
  collect dir = do root ← open_root fs dir; found ← scan root; pure found.1

  unfoldable pub stamps_each : D → Stamps → List Text → Io W Stamps
  unfolding open_rel insert
  stamps_each src out [] = pure out
  stamps_each src out (rel ∷ rels) = do
    f ← open_rel fs src rel
    meta ← fs.metadata f
    stamps_each src (insert rel (stamp meta) out) rels

  unfoldable pub stamps : D → Io W Stamps
  unfolding scan stamps_each
  stamps src = do found ← scan src; stamps_each src [] found.1
