-- ===== src/ConfigBackup/Restore/Settle.antt =====
-- src/config_backup.rs: what follows the swap of `materialize`, `finish` or `undo`.
use pbs.Base.{Bool, Option, none, some, List, [], ◌∷◌, ◌++◌, ◌&&◌}
use pbs.Base.Tests.{if◌then◌else◌}
use pbs.Base.Text.{Text, str, one_of}
use pbs.Base.Result.{Result, err, Io, lift, pure}
use pbs.Base.Action.{◌>>=◌, ◌>>◌, in_context, attempt}
use pbs.ConfigBackup.Files.{Fs, tolerate, open_dir, parent_of, apply_meta, discard, unlink}
use pbs.ConfigBackup.Manifest.{DirEntry}
use pbs.ConfigBackup.Restore.{Staged, Work, Job, on_disk, get_work, update, owner, sync_dirs}

module _ {W D F : Type 0} (fs : Fs W D F) where
  unfoldable pub apply_dir_meta : D → List DirEntry → List Text → Bool → Io W (Unit {0})
  unfolding open_dir apply_meta one_of
  apply_dir_meta root [] created owners = pure tt
  apply_dir_meta root (d ∷ ds) created owners = do
    at ← open_dir fs root d.path
    in_context (str "files restored, but setting " ++ (d.path ++ str " failed"))
        (apply_meta fs (fs.handle at) d.mode (owner (owners && one_of d.path created) d.uid d.gid))
    apply_dir_meta root ds created owners

  -- `marker.take()`
  abbrev take_marker : Job W D (Option Text)
  take_marker = do k ← get_work; update (λ k. record k { marker = none }); pure k.marker

  abbrev drop_marker : D → Option Text → Io W (Unit {0})
  drop_marker root none = pure tt
  drop_marker root (some m) = unlink fs root m >> fs.sync_all (fs.handle root)

  -- Removal of a file whose failure is only logged.
  abbrev drop_prev : Staged D → Option Text → Io W (Unit {0})
  drop_prev s none = pure tt
  drop_prev s (some prev) = do r ← attempt (discard fs s.dir prev); pure tt

  unfoldable pub drop_prevs : List (Staged D) → Io W (Unit {0})
  unfolding discard
  drop_prevs [] = pure tt
  drop_prevs (s ∷ ss) = drop_prev s s.prev >> drop_prevs ss

  unfoldable pub finish : Job W D (Unit {0})
  unfolding sync_dirs unlink drop_prevs apply_dir_meta
  finish = do
    sync_dirs fs
    m ← take_marker
    k ← get_work
    on_disk (drop_marker k.root m)
    on_disk (drop_prevs k.staged)
    on_disk (apply_dir_meta k.root k.manifest.dirs k.created k.owners)
    sync_dirs fs

  -- What could not be undone: the text of a failed attempt.
  abbrev blame : Text → Result (Unit {0}) → List Text
  blame what (err e) = (what ++ (str ": " ++ e)) ∷ []
  blame what other = []

  abbrev undo_prev : Staged D → Option Text → Io W (List Text)
  undo_prev s none = pure []
  undo_prev s (some prev) =
      if s.displaced
      then pure ((str "original of " ++ (s.rel ++ (str " kept as " ++ prev))) ∷ [])
      else (attempt (discard fs s.dir prev) >>= λ r.
          pure (blame (str "could not remove " ++ prev) r))

  unfoldable pub undo_staged : List (Staged D) → Io W (List Text)
  unfolding discard
  undo_staged [] = pure []
  undo_staged (s ∷ ss) = do
    r ← attempt (discard fs s.dir s.tmp)
    kept ← undo_prev s s.prev
    rest ← undo_staged ss
    pure (blame (str "could not remove " ++ s.tmp) r ++ (kept ++ rest))

  abbrev remove_dir : D → Text → Io W (Unit {0})
  remove_dir root d = do
    at ← parent_of fs root d
    r ← fs.rmdir at.0 at.1
    lift (tolerate r)
    fs.sync_all (fs.handle at.0)

  -- The created directories, the last one first.
  unfoldable pub undo_dirs : D → List Text → Io W (List Text)
  unfolding parent_of
  undo_dirs root [] = pure []
  undo_dirs root (d ∷ ds) = do
    later ← undo_dirs root ds
    r ← attempt (remove_dir root d)
    pure (later ++ blame (str "could not remove created directory " ++ d) r)

  abbrev undo_marker : D → Option Text → Io W (List Text)
  undo_marker root none = pure []
  undo_marker root (some m) = do
    r ← attempt (discard fs root m >> fs.sync_all (fs.handle root))
    pure (blame (str "could not remove " ++ m) r)

  abbrev last_marker : List Text → Job W D (List Text)
  last_marker [] = do m ← take_marker; k ← get_work; on_disk (undo_marker k.root m)
  last_marker (p ∷ ps) = pure (p ∷ ps)

  abbrev undo_all : Work D → Job W D (List Text)
  undo_all k = do
    update (λ k. record k { failures = [] })
    files ← on_disk (undo_staged k.staged)
    dirs ← on_disk (undo_dirs k.root k.created)
    synced ← attempt (sync_dirs fs)
    last_marker (k.failures ++ (files ++ (dirs ++ blame (str "fsync after rollback") synced)))

  unfoldable pub undo : Job W D (List Text)
  unfolding undo_staged undo_dirs sync_dirs discard
  undo = do k ← get_work; if k.stranded then pure [] else undo_all k
