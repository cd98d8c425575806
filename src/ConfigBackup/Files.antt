-- ===== src/ConfigBackup/Files.antt =====
-- src/config_backup.rs: files below a directory, reached one component at a time. The record `Fs` is
-- the operating system as the methods of `Dir` and `File` call it.
pub mod Quiet
use pbs.Base.{ℕ, ◌+◌, Bool, true, false, ◌||◌, Option, none, some, List, [], ◌∷◌, ◌++◌}
use pbs.Base.Tests.{ltb, if◌then◌else◌}
use pbs.Base.Int.{ℤ}
use pbs.Base.Lists.{length}
use pbs.Base.Text.{Text, str, is_empty, starts_with, split, show_nat}
use pbs.Base.Text.Search.{ends_with}
use pbs.Base.Result.{Result, ok, err, panic, Io, lift, pure, fail}
use pbs.Base.Action.{◌>>=◌, ◌>>◌, in_context}
use pbs.ConfigBackup.{file_cap, check_rel, split_rel}

pub data Kind : Type 0 where
  symlink dir file other : Kind

-- How `unlink` and `rmdir` end when they do not fail otherwise: `NotFound` is told apart, with its
-- text.
pub data Removal : Type 0 where
  removed : Removal
  not_found : Text → Removal

pub data Lock : Type 0 where
  held would_block : Lock

pub record Meta : Type 0 where
  pub len : ℕ
  pub mode : ℕ
  pub uid : ℕ
  pub gid : ℕ
  pub mtime : ℤ
  pub mtime_nsec : ℤ
  pub ctime : ℤ
  pub ctime_nsec : ℤ
  pub ino : ℕ

-- An open directory is a `D` and an open file an `F`. `read_to f n` reads `n` bytes at most.
pub record Fs (W D F : Type 0) : Type 0 where
  pub open_path : Text → Io W D
  pub handle : D → F
  pub try_clone : D → Io W D
  pub stat : D → Text → Io W (Option (Kind × ℕ))
  pub sub : D → Text → Io W D
  pub file : D → Text → Io W F
  pub create : D → Text → Io W F
  pub mkdir : D → Text → Io W (Unit {0})
  pub rename : D → Text → Text → Io W (Unit {0})
  pub link : D → Text → Text → Io W (Unit {0})
  pub unlink : D → Text → Io W Removal
  pub rmdir : D → Text → Io W Removal
  pub names : D → Io W (List Text)
  pub metadata : F → Io W Meta
  pub read_to : F → ℕ → Io W (List ℕ)
  pub write_all : F → List ℕ → Io W (Unit {0})
  pub sync_all : F → Io W (Unit {0})
  pub set_permissions : F → ℕ → Io W (Unit {0})
  pub fchown : F → ℕ → ℕ → Io W (Unit {0})
  pub try_lock_shared : F → Io W Lock
  pub open_regular : Text → Io W F
  pub canonicalize : Text → Io W Text
  -- `Path::parent`, `ends_with` and `starts_with`, and the first component below an ancestor
  pub parent : Text → Option Text
  pub path_ends_with : Text → Text → Bool
  pub path_starts_with : Text → Text → Bool
  pub first_below : Text → Text → Option Text
  -- A text as `{:?}` prints it
  pub debug : Text → Text

pub data Entry (D F : Type 0) : Type 0 where
  missing : Entry D F
  symlink_entry : Entry D F
  dir_entry : D → Entry D F
  file_entry : F → Entry D F
  other_entry : Entry D F

-- `r?` where an absent file is an error like the others, and where it is none.
abbrev pub must : Removal → Result (Unit {0})
must removed = ok tt
must (not_found e) = err e

abbrev pub tolerate : Removal → Result (Unit {0})
tolerate removed = ok tt
tolerate (not_found e) = ok tt

-- `path.join(name)`
abbrev pub path_join : Text → Text → Text
path_join path name =
    if starts_with (str "/") name
    then name
    else if is_empty path || ends_with (str "/") path
    then path ++ name
    else path ++ (b'/' ∷ name)

abbrev cap_text : Text
cap_text = str "16777216-byte limit"

module _ {W D F : Type 0} (fs : Fs W D F) where
  abbrev opened : D → Text → Option (Kind × ℕ) → Io W (Entry D F)
  opened d name none = pure missing
  opened d name (some (symlink, ino)) = pure symlink_entry
  opened d name (some (dir, ino)) = do sub ← fs.sub d name; pure (dir_entry sub)
  opened d name (some (file, ino)) = do f ← fs.file d name; pure (file_entry f)
  opened d name (some (other, ino)) = pure other_entry

  -- `Dir::open`
  abbrev pub open_root : Text → Io W D
  open_root path = in_context (str "open directory " ++ path) (fs.open_path path)

  unfoldable pub entry : D → Text → Io W (Entry D F)
  entry d name = do found ← fs.stat d name; opened d name found

  unfoldable pub walk : Text → D → List Text → Io W D
  walk rel d [] = pure d
  walk rel d (seg ∷ segs) = do
    next ← in_context (str "open " ++ (rel ++ (str " at " ++ seg))) (fs.sub d seg)
    walk rel next segs

  unfoldable pub open_dir : D → Text → Io W D
  unfolding walk check_rel is_empty split
  open_dir root rel = do
    d ← fs.try_clone root
    if is_empty rel then pure d else lift (check_rel fs.debug rel) >> walk rel d (split b'/' rel)

  unfoldable pub parent_of : D → Text → Io W (D × Text)
  unfolding open_dir check_rel split_rel
  parent_of root rel = do
    lift (check_rel fs.debug rel)
    d ← open_dir root (split_rel rel).0
    pure (d, (split_rel rel).1)

  unfoldable pub open_rel : D → Text → Io W F
  unfolding parent_of
  open_rel root rel = do
    at ← parent_of root rel
    in_context (str "open " ++ rel) (fs.file at.0 at.1)

  unfoldable pub read_capped : F → Text → Io W (List ℕ)
  read_capped f what = do
    meta ← fs.metadata f
    if ltb file_cap meta.len
        then fail
            (what ++ (str " is " ++ (show_nat meta.len ++ (str " bytes, over the " ++ cap_text))))
        else do
          buf ← fs.read_to f (file_cap + 1)
          if ltb file_cap (length buf)
              then fail (what ++ (str " grew past the " ++ (cap_text ++ str " while it was read")))
              else pure buf

  unfoldable pub read_rel : D → Text → Io W (List ℕ)
  unfolding open_rel read_capped
  read_rel root rel = do f ← open_rel root rel; read_capped f rel

  -- Of a file outside the trees that a container can write.
  unfoldable pub read_path : Text → Io W (List ℕ)
  unfolding read_capped
  read_path path = do
    f ← in_context (str "open " ++ path) (fs.open_regular path)
    read_capped f path

  abbrev chown_to : F → Option (ℕ × ℕ) → Io W (Unit {0})
  chown_to f none = pure tt
  chown_to f (some (uid, gid)) =
      in_context (str "chown to " ++ (show_nat uid ++ (b':' ∷ show_nat gid))) (fs.fchown f uid gid)

  unfoldable pub apply_meta : F → ℕ → Option (ℕ × ℕ) → Io W (Unit {0})
  apply_meta f mode owner = do fs.set_permissions f mode; chown_to f owner

  -- Removal that tolerates absence, and removal that does not.
  unfoldable pub discard : D → Text → Io W (Unit {0})
  discard d name = do r ← fs.unlink d name; lift (tolerate r)

  unfoldable pub unlink : D → Text → Io W (Unit {0})
  unlink d name = do r ← fs.unlink d name; lift (must r)
