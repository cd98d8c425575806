-- ===== src/ConfigBackup/Restore.antt =====
-- src/config_backup.rs: `materialize`, from its marker to the swap, as actions on the disk and on the
-- value of `Work` that the methods change.
pub mod Swap
pub mod Settle
pub mod Materialize
pub mod Disk
use pbs.Base.{
  ℕ, ◌+◌, Bool, true, false, not, ◌&&◌, ◌||◌, Option, none, some, List, [], ◌∷◌, ◌++◌, map,
}
use pbs.Base.Tests.{ltb, nat_eq, if◌then◌else◌}
use pbs.Base.Lists.{length}
use pbs.Base.Text.{Text, str, ◌==◌}
use pbs.Base.Result.{Result, ok, err, panic, Io, lift, pure, fail}
use pbs.Base.Action.{◌>>=◌, ◌>>◌, in_context, attempt, sort_by}
use pbs.ConfigBackup.Files.{
  Kind, symlink, dir, file, other, Fs, parent_of, read_rel, apply_meta, discard, unlink,
}
use pbs.ConfigBackup.Manifest.{FileEntry, DirEntry, Manifest}
use pbs.ConfigBackup.Verify.{Codec}

pub data Phase : Type 0 where
  staging swapping rolling_back : Phase

pub record MarkedFile : Type 0 where
  pub path : Text
  pub had_prev : Bool

pub record SwapMarker : Type 0 where
  pub phase : Phase
  pub files : List MarkedFile
  pub created_dirs : List Text
  pub owners : Bool
  pub manifest : Option Manifest
  pub slot_payload : Option Text
  pub slot_checksum : Option Text

pub record Staged (D : Type 0) : Type 0 where
  pub dir : D
  pub rel : Text
  pub name : Text
  pub tmp : Text
  pub prev : Option Text
  pub displaced : Bool

pub record Work (D : Type 0) : Type 0 where
  pub root : D
  pub tag : Text
  pub manifest : Manifest
  pub slot_payload : Text
  pub slot_checksum : Text
  pub owners : Bool
  pub phase : Phase
  -- The phase that the marker on the disk holds.
  pub recorded : Phase
  pub created : List Text
  pub staged : List (Staged D)
  pub marker : Option Text
  pub failures : List Text
  -- The rollback could not be recorded.
  pub stranded : Bool

abbrev pub temp_mark : Text
temp_mark = str ".orca-restore-"

abbrev pub prev_mark : Text
prev_mark = str ".orca-prev-"

abbrev pub swap_mark : Text
swap_mark = str ".orca-swap-"

abbrev pub next_suffix : Text
next_suffix = str ".next"

abbrev pub temp_name : Text → Text → Text
temp_name name tag = b'.' ∷ (name ++ (temp_mark ++ tag))

abbrev pub prev_name : Text → Text → Text
prev_name name tag = b'.' ∷ (name ++ (prev_mark ++ tag))

-- A method of `Work` acts on the disk and on the work.
abbrev pub Job : Type 0 → Type 0 → Type 0 → Type 0
Job W D A = Io (Work D × W) A

module _ {W D : Type 0} where
  abbrev pub on_disk : {A : Type 0} → Io W A → Job W D A
  on_disk m (k, w) = let (r, w') = m w in (r, (k, w'))

  abbrev pub get_work : Job W D (Work D)
  get_work (k, w) = (ok k, (k, w))

  abbrev pub update : (Work D → Work D) → Job W D (Unit {0})
  update f (k, w) = (ok tt, (f k, w))

abbrev has_prev : Option Text → Bool
has_prev none = false
has_prev (some p) = true

abbrev pub marker_of : {D : Type 0} → Work D → SwapMarker
marker_of {D} k = record {
  phase = k.phase;
  files = map (λ (s : Staged D). record { path = s.rel; had_prev = has_prev s.prev }) k.staged;
  created_dirs = k.created;
  owners = k.owners;
  manifest = some k.manifest;
  slot_payload = some k.slot_payload;
  slot_checksum = some k.slot_checksum;
}

abbrev pub owner : Bool → ℕ → ℕ → Option (ℕ × ℕ)
owner owners uid gid = if owners then some (uid, gid) else none

abbrev separators : Text → ℕ
separators [] = 0
separators (c ∷ s) = if nat_eq c b'/' then separators s + 1 else separators s

module _ {W D F : Type 0} (fs : Fs W D F) where
  unfoldable pub sync_staged : List (Staged D) → Io W (Unit {0})
  sync_staged [] = pure tt
  sync_staged (s ∷ ss) = fs.sync_all (fs.handle s.dir) >> sync_staged ss

  unfoldable pub sync_dirs : Job W D (Unit {0})
  unfolding sync_staged
  sync_dirs = do k ← get_work; on_disk (sync_staged k.staged >> fs.sync_all (fs.handle k.root))

module _ {W D F : Type 0} (fs : Fs W D F) (codec : Codec)
    (marker_bytes : SwapMarker → Result (List ℕ)) where
  -- What follows the attempt to write the next marker and rename it over the old one.
  abbrev marker_written : Text → Text → Result (Unit {0}) → Job W D (Unit {0})
  marker_written name next (ok u) = do
    update (λ k. record k { recorded = k.phase; marker = some name })
    k ← get_work
    on_disk (fs.sync_all (fs.handle k.root))
  marker_written name next (err e) = do
    k ← get_work
    r ← attempt (on_disk (discard fs k.root next))
    fail e
  marker_written name next panic = lift panic

  unfoldable pub write_marker : Job W D (Unit {0})
  unfolding discard
  write_marker = do
    k ← get_work
    raw ← lift (marker_bytes (marker_of k))
    let name : Text = swap_mark ++ k.tag
    let next : Text = name ++ next_suffix
    f ← on_disk (fs.create k.root next)
    r ← attempt (on_disk (fs.write_all f raw >> fs.sync_all f >> fs.rename k.root next name))
    marker_written name next r

  -- One directory, by what stands at its place.
  abbrev make_dir : DirEntry → D × Text → Option (Kind × ℕ) → Job W D (Unit {0})
  make_dir d at (some (dir, ino)) = pure tt
  make_dir d at none = do
    update (λ k. record k { created = k.created ++ d.path ∷ [] })
    write_marker
    on_disk (fs.mkdir at.0 at.1)
    sub ← on_disk (fs.sub at.0 at.1)
    k ← get_work
    on_disk (apply_meta fs (fs.handle sub) d.mode (owner k.owners d.uid d.gid))
  make_dir d at (some (kind, ino)) = fail (d.path ++ str " is a symlink or not a directory")

  unfoldable pub make_each : List DirEntry → Job W D (Unit {0})
  unfolding parent_of write_marker apply_meta
  make_each [] = pure tt
  make_each (d ∷ ds) = do
    k ← get_work
    at ← on_disk (parent_of fs k.root d.path)
    found ← on_disk (fs.stat at.0 at.1)
    make_dir d at found
    make_each ds

  unfoldable pub make_dirs : Job W D (Unit {0})
  unfolding make_each sort_by
  make_dirs = do
    k ← get_work
    make_each
        (sort_by (λ (a b : DirEntry). ltb (separators a.path) (separators b.path)) k.manifest.dirs)

  abbrev matches : FileEntry → List ℕ → Bool
  matches f bytes = nat_eq (length bytes) f.size && codec.sha256_hex bytes == f.sha256

  -- One file: its bytes are checked, and its temporary file is on record before it is filled.
  unfoldable pub stage_file : D → FileEntry → Job W D (Unit {0})
  unfolding read_rel parent_of apply_meta ◌==◌
  stage_file src f = do
    bytes ← on_disk (read_rel fs src f.path)
    if not (matches f bytes)
        then fail (f.path ++ str " in the backup no longer matches its manifest; nothing replaced")
        else do
          k ← get_work
          at ← on_disk (parent_of fs k.root f.path)
          let tmp : Text = temp_name at.1 k.tag
          out ← on_disk (in_context (str "stage " ++ f.path) (fs.create at.0 tmp))
          update (λ k. record k {
            staged =
                k.staged
                ++ record {
                  dir = at.0;
                  rel = f.path;
                  name = at.1;
                  tmp = tmp;
                  prev = none;
                  displaced = false;
                }
                  ∷ [];
          })
          on_disk (in_context (str "stage " ++ f.path) (fs.write_all out bytes))
          on_disk (
              in_context (str "stage " ++ f.path)
                (apply_meta fs out f.mode (owner k.owners f.uid f.gid)))
          on_disk (fs.sync_all out)

  unfoldable pub stage_each : D → List FileEntry → Job W D (Unit {0})
  unfolding stage_file
  stage_each src [] = pure tt
  stage_each src (f ∷ fs') = stage_file src f >> stage_each src fs'

  unfoldable pub stage : D → Job W D (Unit {0})
  unfolding stage_each sync_dirs
  stage src = do k ← get_work; stage_each src k.manifest.files; sync_dirs fs

  -- One original is linked aside. `before` and `after` are the other staged files.
  abbrev link_aside :
      List (Staged D) → Staged D → List (Staged D) → Option (Kind × ℕ) → Job W D (Staged D)
  link_aside before s after (some (file, ino)) = do
    k ← get_work
    let prev : Text = prev_name s.name k.tag
    on_disk (in_context (str "set aside " ++ s.rel) (fs.link s.dir s.name prev))
    update (λ k. record k { staged = before ++ record s { prev = some prev } ∷ after })
    pure (record s { prev = some prev })
  link_aside before s after none = pure s
  link_aside before s after (some (kind, ino)) =
      fail (s.rel ++ str " is a symlink or not a regular file")

  unfoldable pub set_aside_each : List (Staged D) → List (Staged D) → Job W D (Unit {0})
  set_aside_each before [] = pure tt
  set_aside_each before (s ∷ after) = do
    found ← on_disk (fs.stat s.dir s.name)
    s' ← link_aside before s after found
    set_aside_each (before ++ s' ∷ []) after

  unfoldable pub set_aside : Job W D (Unit {0})
  unfolding set_aside_each sync_dirs
  set_aside = do k ← get_work; set_aside_each [] k.staged; sync_dirs fs
