-- ===== src/ConfigBackup/Capture.antt =====
-- src/config_backup.rs: `capture`, which reads the whole configuration under the locks of the server
-- and writes it down after they are released.
pub mod Fits
use pbs.Base.{
  ℕ, zero, suc, ◌+◌, ◌%◌, Bool, true, false, Option, none, some, List, [], ◌∷◌, ◌++◌, map, ◌||◌,
}
use pbs.Base.Tests.{ltb, if◌then◌else◌}
use pbs.Base.Lists.{length, filter}
use pbs.Base.Text.{Text, str, join}
use pbs.Base.Text.Search.{ends_with}
use pbs.Base.Result.{Result, ok, err, panic, Io, lift, pure, fail, with_context}
use pbs.Base.Action.{◌>>=◌, ◌>>◌, in_context, attempt}
use pbs.Api.Namespaces.{add_u64}
use pbs.ConfigBackup.{manifest_version, total_cap, missing_required}
use pbs.ConfigBackup.Files.{
  Lock, held, would_block, Meta, Fs, Entry, missing, symlink_entry, dir_entry, file_entry,
  other_entry, entry, open_root, open_dir, parent_of, open_rel, read_capped,
}
use pbs.ConfigBackup.Manifest.{FileEntry, DirEntry, Manifest}
use pbs.ConfigBackup.Verify.{Codec, manifest_name, files_dir}
use pbs.ConfigBackup.Scan.{Stamps, stamp, insert, stamps_eq, scan, stamps}

-- What a capture uses besides: closing a file, which releases its lock, waiting for a number of
-- milliseconds, and `to_vec_pretty`.
pub record Host (W F : Type 0) : Type 0 where
  pub close : F → Io W (Unit {0})
  pub sleep : ℕ → Io W (Unit {0})
  pub to_vec_pretty : Manifest → Result (List ℕ)

pub record Snapshot : Type 0 where
  pub dirs : List DirEntry
  pub files : List (FileEntry × List ℕ)

abbrev lock_attempts : ℕ
lock_attempts = 100

abbrev lock_retry : ℕ
lock_retry = 100

abbrev is_lock_name : Text → Bool
is_lock_name n = ends_with (str ".lck") n || ends_with (str ".lock") n

abbrev entry_of : Text → Meta → Text → List ℕ → FileEntry
entry_of rel meta sha256 buf = record {
  path = rel;
  size = length buf;
  sha256 = sha256;
  mode = meta.mode % 0x200;
  uid = meta.uid;
  gid = meta.gid;
}

module _ {W D F : Type 0} (fs : Fs W D F) (codec : Codec) (host : Host W F) where
  unfoldable pub release : List F → Io W (Unit {0})
  release [] = pure tt
  release (f ∷ locked) = host.close f >> release locked

  abbrev release_and_fail : {A : Type 0} → List F → Text → Io W A
  release_and_fail locked e = release locked >> fail e

  -- The locks: all of them or none, which is no result.
  abbrev lock_ended :
      (List F → Io W (Option (List F))) → List F → Text → F → Result Lock → Io W (Option (List F))
  lock_ended go locked n f (ok held) = go (locked ++ f ∷ [])
  lock_ended go locked n f (ok would_block) = release locked >> pure none
  lock_ended go locked n f (err e) = release_and_fail locked (with_context (str "lock " ++ n) e)
  lock_ended go locked n f panic = lift panic

  abbrev lock_entry :
      (List F → Io W (Option (List F)))
      → List F
      → Text
      → Result (Entry D F)
      → Io W (Option (List F))
  lock_entry go locked n (ok (file_entry f)) = do
    r ← attempt (fs.try_lock_shared f)
    lock_ended go locked n f r
  lock_entry go locked n (ok (dir_entry d)) = go locked
  lock_entry go locked n (ok missing) = go locked
  lock_entry go locked n (ok symlink_entry) = go locked
  lock_entry go locked n (ok other_entry) = go locked
  lock_entry go locked n (err e) = release_and_fail locked e
  lock_entry go locked n panic = lift panic

  unfoldable pub take_locks : D → List Text → List F → Io W (Option (List F))
  unfolding entry release
  take_locks src [] locked = pure (some locked)
  take_locks src (n ∷ ns) locked = do
    e ← attempt (entry fs src n)
    lock_entry (take_locks src ns) locked n e

  abbrev or_retry : Io W (List F) → Option (List F) → Io W (List F)
  or_retry again none = host.sleep lock_retry >> again
  or_retry again (some locked) = pure locked

  unfoldable pub attempt_locks : ℕ → D → List Text → Io W (List F)
  unfolding take_locks
  attempt_locks zero src names = fail (str "PBS kept its config locked; try again")
  attempt_locks (suc n) src names = do
    taken ← take_locks src names []
    or_retry (attempt_locks n src names) taken

  unfoldable pub hold_locks : D → Io W (List F)
  unfolding attempt_locks filter ends_with
  hold_locks src = do
    names ← fs.names src
    attempt_locks lock_attempts src (filter is_lock_name names)

  -- Reading
  unfoldable pub read_dirs : D → List Text → Io W (List DirEntry)
  unfolding open_dir
  read_dirs src [] = pure []
  read_dirs src (rel ∷ rels) = do
    d ← open_dir fs src rel
    meta ← fs.metadata (fs.handle d)
    rest ← read_dirs src rels
    pure (record { path = rel; mode = meta.mode % 0x200; uid = meta.uid; gid = meta.gid } ∷ rest)

  -- `total` is the sum, a `u64`, of what was read before.
  unfoldable pub read_files : D → ℕ → Stamps → List Text → Io W (List (FileEntry × List ℕ) × Stamps)
  unfolding open_rel read_capped insert
  read_files src total before [] = pure ([], before)
  read_files src total before (rel ∷ rels) = do
    from ← open_rel fs src rel
    meta ← fs.metadata from
    buf ← read_capped fs from rel
    if ltb total_cap (add_u64 total (length buf))
        then fail (str "the config is over the 268435456-byte limit")
        else do
          rest ← read_files src (add_u64 total (length buf)) (insert rel (stamp meta) before) rels
          pure ((entry_of rel meta (codec.sha256_hex buf) buf, buf) ∷ rest.0, rest.1)

  abbrev read_complete : D → List Text × List Text → List Text → Io W (Snapshot × Stamps)
  read_complete src names (m ∷ ms) =
      fail (str "not a complete PBS config directory; missing " ++ join (str ", ") (m ∷ ms))
  read_complete src names [] = do
    dirs ← read_dirs src names.0
    files ← read_files src 0 [] names.1
    pure (record { dirs = dirs; files = files.0 }, files.1)

  unfoldable pub read_once : D → Io W (Snapshot × Stamps)
  unfolding scan missing_required read_dirs read_files join
  read_once src = do names ← scan fs src; read_complete src names (missing_required names.1)

  -- `after_read` runs between the reads and their check.
  unfoldable pub read_tries : ℕ → D → Io W (Unit {0}) → Io W Snapshot
  unfolding read_once stamps stamps_eq
  read_tries zero src after_read = fail (str "it kept changing while it was read; try again")
  read_tries (suc n) src after_read = do
    got ← read_once src
    after_read
    now ← stamps fs src
    let again : Io W Snapshot = read_tries n src after_read
    if stamps_eq now got.1 then pure got.0 else again

  unfoldable pub read_snapshot : D → Io W (Unit {0}) → Io W Snapshot
  unfolding read_tries
  read_snapshot src after_read = read_tries 2 src after_read

  -- Writing
  unfoldable pub write_dirs : D → List DirEntry → Io W (Unit {0})
  unfolding parent_of
  write_dirs root [] = pure tt
  write_dirs root (d ∷ ds) = do
    at ← parent_of fs root d.path
    fs.mkdir at.0 at.1
    write_dirs root ds

  unfoldable pub write_files : D → List (FileEntry × List ℕ) → Io W (Unit {0})
  unfolding parent_of
  write_files root [] = pure tt
  write_files root (f ∷ rest) = do
    at ← parent_of fs root f.0.path
    to ← fs.create at.0 at.1
    in_context (str "write " ++ f.0.path) (fs.write_all to f.1 >> fs.sync_all to)
    write_files root rest

  abbrev manifest_of : Text → Text → Snapshot → Manifest
  manifest_of source instance_name s = record {
    version = manifest_version;
    instance_name = instance_name;
    source = source;
    dirs = s.dirs;
    files = map (λ (f : FileEntry × List ℕ). f.0) s.files;
  }

  unfoldable pub write_capture : Text → Snapshot → Manifest → Io W (Manifest × List ℕ)
  unfolding write_dirs write_files
  write_capture payload s m = do
    out ← open_root fs payload
    fs.mkdir out files_dir
    root ← fs.sub out files_dir
    write_dirs root m.dirs
    write_files root s.files
    raw ← lift (host.to_vec_pretty m)
    f ← fs.create out manifest_name
    fs.write_all f raw
    fs.sync_all f
    fs.sync_all (fs.handle out)
    pure (m, raw)

  -- The locks are released once everything is read, and when a read failed.
  abbrev under_locks : {A : Type 0} → D → Io W A → Io W A
  under_locks src m = do locked ← hold_locks src; r ← attempt m; release locked; lift r

  unfoldable pub capture_with : Text → Text → Text → Io W (Unit {0}) → Io W (Manifest × List ℕ)
  unfolding hold_locks release read_snapshot write_capture
  capture_with source payload instance_name after_read = do
    src ← open_root fs source
    s ← under_locks src (in_context (str "read " ++ source) (read_snapshot src after_read))
    write_capture payload s (manifest_of source instance_name s)

  unfoldable pub capture : Text → Text → Text → Io W (Manifest × List ℕ)
  unfolding capture_with
  capture source payload instance_name = capture_with source payload instance_name (pure tt)
