-- ===== src/ConfigBackup/Restore/Materialize.antt =====
-- src/config_backup.rs: `materialize`, the whole restore of a capture into a directory.
use pbs.Base.{ℕ, Bool, true, false, not, ◌&&◌, none, List, [], ◌∷◌, ◌++◌, map}
use pbs.Base.Tests.{nat_eq, if◌then◌else◌}
use pbs.Base.Text.{Text, str, ◌==◌, join}
use pbs.Base.Result.{Result, ok, err, panic, Io, lift, pure, fail, with_context}
use pbs.Base.Action.{◌>>=◌, ◌>>◌, attempt}
use pbs.ConfigBackup.Files.{Fs, open_root}
use pbs.ConfigBackup.Manifest.{FileEntry, DirEntry, Manifest}
use pbs.ConfigBackup.Verify.{Codec, files_dir, verified_slot}
use pbs.ConfigBackup.Restore.{
  staging, swapping, SwapMarker, Work, Job, get_work, update, write_marker, make_dirs, stage,
  set_aside,
}
use pbs.ConfigBackup.Restore.Swap.{swap}
use pbs.ConfigBackup.Restore.Settle.{finish, undo}
use pbs.ConfigBackup.Leftovers.{Left, rel, leftovers}

-- `PartialEq` of manifests
abbrev file_eq : FileEntry → FileEntry → Bool
file_eq a b =
    a.path == b.path
    && (nat_eq a.size b.size
        && (a.sha256 == b.sha256
            && (nat_eq a.mode b.mode && (nat_eq a.uid b.uid && nat_eq a.gid b.gid))))

abbrev dir_eq : DirEntry → DirEntry → Bool
dir_eq a b =
    a.path == b.path && (nat_eq a.mode b.mode && (nat_eq a.uid b.uid && nat_eq a.gid b.gid))

abbrev files_eq : List FileEntry → List FileEntry → Bool
files_eq [] [] = true
files_eq [] (b ∷ bs) = false
files_eq (a ∷ rest) [] = false
files_eq (a ∷ rest) (b ∷ bs) = file_eq a b && files_eq rest bs

abbrev dirs_eq : List DirEntry → List DirEntry → Bool
dirs_eq [] [] = true
dirs_eq [] (b ∷ bs) = false
dirs_eq (a ∷ rest) [] = false
dirs_eq (a ∷ rest) (b ∷ bs) = dir_eq a b && dirs_eq rest bs

unfoldable pub manifest_eq : Manifest → Manifest → Bool
unfolding ◌==◌
manifest_eq a b =
    nat_eq a.version b.version
    && (a.instance_name == b.instance_name
        && (a.source == b.source && (dirs_eq a.dirs b.dirs && files_eq a.files b.files)))

abbrev started : {D : Type 0} → D → Text → Manifest → Text → Text → Bool → Work D
started root tag manifest payload checksum owners = record {
  root = root;
  tag = tag;
  manifest = manifest;
  slot_payload = payload;
  slot_checksum = checksum;
  owners = owners;
  phase = staging;
  recorded = staging;
  created = [];
  staged = [];
  marker = none;
  failures = [];
  stranded = false;
}

-- A job from the work that it starts with; the work is dropped when it ends.
abbrev run_job : {W D A : Type 0} → Job W D A → Work D → Io W A
run_job m k w = let (r, (k', w')) = m (k, w) in (r, w')

abbrev interrupted : Text → List Left → Text
interrupted dest left =
    str "an interrupted restore left "
    ++ (join (str ", ") (map rel left)
        ++ (str " in "
            ++ (dest
                ++ str "; settle it with pbs.config_recover (action rollback or finish) first")))

module _ {W D F : Type 0} (fs : Fs W D F) (codec : Codec)
    (marker_bytes : SwapMarker → Result (List ℕ)) where
  module _ (rename : D → Text → Text → Io W (Unit {0})) where
    -- Up to the last file that is replaced
    unfoldable pub replace : D → Job W D (Unit {0})
    unfolding write_marker make_dirs stage set_aside swap
    replace src = do
      write_marker fs codec marker_bytes
      make_dirs fs codec marker_bytes
      stage fs codec marker_bytes src
      set_aside fs codec marker_bytes
      update (λ k. record k { phase = swapping })
      write_marker fs codec marker_bytes
      swap fs codec marker_bytes rename

    abbrev undone : Text → List Text → Job W D (List Text)
    undone e [] = fail e
    undone e (p ∷ ps) =
        fail (with_context (str "rollback incomplete: " ++ join (str "; ") (p ∷ ps)) e)

    abbrev ended : Result (Unit {0}) → Job W D (List Text)
    ended (ok u) = do finish fs; k ← get_work; pure k.created
    ended (err e) = undo fs >>= undone e
    ended panic = lift panic

    unfoldable pub restore_job : D → Job W D (List Text)
    unfolding replace finish undo join
    restore_job src = do r ← attempt (replace src); ended r

    abbrev from_slot : Text → D → Manifest → Bool → Text → Manifest × Text → Io W (List Text)
    from_slot payload root manifest owners tag (slotted, checksum) =
        if not (manifest_eq slotted manifest)
        then fail (str "the manifest to restore is not the one in " ++ payload)
        else do
          slot ← fs.canonicalize payload
          at ← open_root fs payload
          src ← fs.sub at files_dir
          run_job (restore_job src) (started root tag manifest slot checksum owners)

    abbrev unless_interrupted :
        Text → Text → D → Manifest → Bool → Text → List Left → Io W (List Text)
    unless_interrupted payload dest root manifest owners tag (l ∷ ls) =
        fail (interrupted dest (l ∷ ls))
    unless_interrupted payload dest root manifest owners tag [] =
        verified_slot fs codec payload >>= from_slot payload root manifest owners tag

    unfoldable pub materialize_with : Text → Text → Manifest → Bool → Text → Io W (List Text)
    unfolding leftovers verified_slot manifest_eq restore_job join
    materialize_with payload dest manifest owners tag = do
      root ← open_root fs dest
      left ← leftovers fs root
      unless_interrupted payload dest root manifest owners tag left

  -- `tag` is a new identifier.
  unfoldable pub materialize : Io W Text → Text → Text → Manifest → Bool → Io W (List Text)
  unfolding materialize_with
  materialize new_id payload dest manifest owners = do
    tag ← new_id
    materialize_with fs.rename payload dest manifest owners tag
