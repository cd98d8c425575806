-- ===== src/ConfigBackup/Recovery/Plan.antt =====
-- src/config_backup.rs: `recovery`, the steps that settle the interrupted restores of an instance.
pub mod OnlyLeftovers
pub mod Tagged
pub mod Quiet
use pbs.Base.{
  ℕ, ◌%◌, Bool, true, false, not, ◌&&◌, ◌||◌, Option, none, some, List, [], ◌∷◌, ◌++◌, map,
}
use pbs.Base.Tests.{nat_eq, if◌then◌else◌}
use pbs.Base.Lists.{any, filter, find?}
use pbs.Base.Text.{Text, str, ◌==◌, one_of, join}
use pbs.Base.Result.{Result, ok, err, Io, lift, pure, fail}
use pbs.Base.Action.{◌>>=◌, ◌>>◌, in_context, attempt}
use pbs.ConfigBackup.{check_rel, split_rel, join_rel}
use pbs.ConfigBackup.Files.{Kind, symlink, file, Fs, Meta, open_root, open_dir, read_rel}
use pbs.ConfigBackup.Manifest.{FileEntry, DirEntry, Manifest}
use pbs.ConfigBackup.Verify.{Codec}
use pbs.ConfigBackup.Restore.{
  Phase, staging, swapping, rolling_back, MarkedFile, SwapMarker, temp_name, prev_name,
}
use pbs.ConfigBackup.Leftovers.{Left, rel, shadowing, marker_tag, leftovers}
use pbs.ConfigBackup.Recovery.{Op, rename, install, chmod, unlink, rmdir, keep}
use pbs.ConfigBackup.Recovery.Slot.{finishing_manifest}

pub record Finishing : Type 0 where
  pub manifest : Manifest
  pub slot : Text
  pub created : List Text
  pub owners : Bool

abbrev is_stuck : Left → Bool
is_stuck l = elim l.kind [ file ↦ false | symlink ↦ false | _ ↦ true ]

abbrev is_at : Text → Text → Left → Bool
is_at at name l = l.at == at && l.name == name

unfoldable pub kind_of : List Left → Text → Text → Option Kind
unfolding find? ◌==◌
kind_of left at name = elim (find? (is_at at name) left) [ none ↦ none | some l ↦ some l.kind ]

abbrev is_there : {A : Type 0} → Option A → Bool
is_there none = false
is_there (some a) = true

abbrev kept_why : Text
kept_why =
    str
      "the restore may have added it, but only the marker says so; remove it by hand if it should not be there"

-- The leftovers of a tag that the marker does not list
abbrev has_tag : Text → Option (Text × Text) → Bool
has_tag tag none = false
has_tag tag (some (base, t)) = t == tag

abbrev is_listed : List MarkedFile → Left → Option (Text × Text) → Bool
is_listed files l none = false
is_listed files l (some (base, t)) = any (λ (f : MarkedFile). f.path == join_rel l.at base) files

abbrev is_stray : Text → List MarkedFile → Left → Bool
is_stray tag files l =
    has_tag tag (shadowing l) && not (has_tag tag (shadowing l) && is_listed files l (shadowing l))

unfoldable pub remove_each : List Left → List Op
remove_each [] = []
remove_each (l ∷ ls) = unlink l.at l.name ∷ remove_each ls

unfoldable pub strays : Text → List MarkedFile → List Left → List Op
unfolding remove_each filter shadowing any join_rel ◌==◌
strays tag files left = remove_each (filter (is_stray tag files) left)

abbrev unlink_if : Text → Text → Option Kind → List Op
unlink_if at name none = []
unlink_if at name (some kind) = unlink at name ∷ []

abbrev tags_of : List Left → List Text
tags_of [] = []
tags_of (l ∷ ls) = elim (marker_tag l) [ none ↦ tags_of ls | some tag ↦ tag ∷ tags_of ls ]

-- The leftovers that belong to no marker
abbrev is_owned : List Text → Left → Bool
is_owned tags l = is_there (marker_tag l) || tag_in (shadowing l)
  where
    tag_in : Option (Text × Text) → Bool
    tag_in none = false
    tag_in (some (base, t)) = one_of t tags

unfoldable pub unowned : List Text → List Left → List Op
unfolding remove_each filter shadowing marker_tag one_of
unowned tags left = remove_each (filter (λ l. not (is_owned tags l)) left)

module _ {W D F : Type 0} (fs : Fs W D F) (codec : Codec)
    (marker_from : List ℕ → Result SwapMarker) where
  -- The original of a file that was swapped: a link to it beside it is renamed over it, unless both
  -- are one already.
  abbrev same_inode : Option (Kind × ℕ) → Option (Kind × ℕ) → Bool
  same_inode (some (k, a)) (some (j, b)) = nat_eq a b
  same_inode a b = false

  abbrev put_original : D → Text → Text → Text → Kind → Io W (List Op)
  put_original root at name prev file = do
    d ← open_dir fs root at
    a ← fs.stat d prev
    b ← fs.stat d name
    pure ((if same_inode a b then unlink at prev else rename at prev name) ∷ [])
  put_original root at name prev kind = fail (
      join_rel at prev
      ++ str
          " is a symlink; a restore only sets aside regular files, so inspect and remove it by hand")

  abbrev found_there : Result (Option (Kind × ℕ)) → Bool
  found_there (ok (some s)) = true
  found_there failed = false

  -- A file that the restore may have added
  abbrev maybe_keep : D → Text → Text → Bool → Io W (List Op)
  maybe_keep root at name true = pure []
  maybe_keep root at name false = do
    r ← attempt (open_dir fs root at >>= λ d. fs.stat d name)
    pure (if found_there r then keep at name kept_why ∷ [] else [])

  -- One listed file on a rollback, by the leftovers there are of it.
  abbrev roll_back_file :
      D → Text → Text → Text → Text → Bool → Option Kind → Option Kind → Io W (List Op)
  roll_back_file root at name tmp prev had_prev (some t) p =
      pure (unlink at tmp ∷ unlink_if at prev p)
  roll_back_file root at name tmp prev had_prev none (some p) = put_original root at name prev p
  roll_back_file root at name tmp prev had_prev none none = maybe_keep root at name had_prev

  abbrev listed_entry : Text → Text → Finishing → Io W FileEntry
  listed_entry marker path fin =
      elim (find? (λ (e : FileEntry). e.path == path) fin.manifest.files) [
        | none ↦ fail (marker ++ (str " lists " ++ (path ++ str " but the backup does not")))
        | some e ↦ pure e
      ]

  abbrev finish_file :
      Text
      → Text
      → Text
      → Text
      → Text
      → Text
      → Finishing
      → Option Kind
      → Option Kind
      → Io W (List Op)
  finish_file marker path at name tmp prev fin none p = pure (unlink_if at prev p)
  finish_file marker path at name tmp prev fin (some t) p = do
    e ← listed_entry marker path fin
    pure (install at tmp (tmp ++ str ".install") name e fin.owners ∷ unlink_if at prev p)

  abbrev file_steps :
      D
      → Text
      → Text
      → MarkedFile
      → Text
      → Text
      → Option Finishing
      → Option Kind
      → Option Kind
      → Io W (List Op)
  file_steps root tag marker f at name none t p =
      roll_back_file root at name (temp_name name tag) (prev_name name tag) f.had_prev t p
  file_steps root tag marker f at name (some fin) t p =
      finish_file marker f.path at name (temp_name name tag) (prev_name name tag) fin t p

  unfoldable pub plan_file :
      D → List Left → Text → Text → Option Finishing → MarkedFile → Io W (List Op)
  unfolding check_rel split_rel kind_of open_dir find? ◌==◌ join_rel
  plan_file root left tag marker fin f = do
    lift (check_rel fs.debug f.path)
    let at : Text = (split_rel f.path).0
    let name : Text = (split_rel f.path).1
    file_steps root tag marker f at name fin (kind_of left at (temp_name name tag))
        (kind_of left at (prev_name name tag))

  unfoldable pub plan_files :
      D → List Left → Text → Text → Option Finishing → List MarkedFile → Io W (List Op)
  unfolding plan_file
  plan_files root left tag marker fin [] = pure []
  plan_files root left tag marker fin (f ∷ fs') = do
    here ← plan_file root left tag marker fin f
    rest ← plan_files root left tag marker fin fs'
    pure (here ++ rest)

  -- The directories: their modes on a finish, their removal on a rollback.
  abbrev has_mode : ℕ → Result Meta → Bool
  has_mode mode (ok m) = nat_eq (m.mode % 0x200) mode
  has_mode mode failed = false

  unfoldable pub chmods : D → List DirEntry → Io W (List Op)
  unfolding split_rel open_dir
  chmods root [] = pure []
  chmods root (d ∷ ds) = do
    r ← attempt (open_dir fs root d.path >>= λ x. fs.metadata (fs.handle x))
    rest ← chmods root ds
    let (at, name) = split_rel d.path
    pure (if has_mode d.mode r then rest else chmod at name d.mode ∷ rest)

  unfoldable pub rmdirs : List Text → Io W (List Op)
  unfolding check_rel split_rel
  rmdirs [] = pure []
  rmdirs (d ∷ ds) = do
    later ← rmdirs ds
    lift (check_rel fs.debug d)
    pure (later ++ rmdir (split_rel d).0 (split_rel d).1 ∷ [])

  abbrev dir_steps : D → Option Finishing → List Text → Io W (List Op)
  dir_steps root none created = rmdirs created
  dir_steps root (some fin) created = chmods root fin.manifest.dirs

  abbrev phase_text : Phase → Text
  phase_text staging = str "still staging"
  phase_text later = str "already rolling back"

  abbrev is_swapping : Phase → Bool
  is_swapping swapping = true
  is_swapping later = false

  -- What a finish completes; a rollback completes nothing.
  abbrev finishing_of :
      Text → Text → Text → Bool → Option Finishing → Left → SwapMarker → Io W (Option Finishing)
  finishing_of dest instance_name untrusted false before l m = pure before
  finishing_of dest instance_name untrusted true before l m =
      if not (is_swapping m.phase)
      then fail (
          l.name
          ++ (str " records a restore that was "
              ++ (phase_text m.phase ++ str "; only rollback applies")))
      else if is_there before
      then fail (dest ++ str " holds more than one interrupted restore; only rollback applies")
      else (finishing_manifest fs codec m l.name instance_name untrusted >>= λ found. pure (
          some (record {
            manifest = found.0;
            slot = found.1;
            created = filter (λ d. any (λ (e : DirEntry). e.path == d) found.0.dirs) m.created_dirs;
            owners = m.owners;
          })))

  -- The steps of one marker.
  unfoldable pub plan_marker :
      Text
      → Text
      → Text
      → Bool
      → D
      → List Left
      → Option Finishing
      → Left
      → Text
      → Io W (List Op × Option Finishing)
  unfolding read_rel finishing_manifest filter any ◌==◌ plan_files strays chmods rmdirs
  plan_marker dest instance_name untrusted finish root left before l tag = do
    raw ← read_rel fs root l.name
    m ← in_context (str "parse " ++ l.name) (lift (marker_from raw))
    fin ← finishing_of dest instance_name untrusted finish before l m
    files ← plan_files root left tag l.name fin m.files
    dirs ← dir_steps root fin m.created_dirs
    pure (files ++ (strays tag m.files left ++ (dirs ++ unlink [] l.name ∷ [])), fin)

  abbrev plan_left :
      Text
      → Text
      → Text
      → Bool
      → D
      → List Left
      → Option Finishing
      → Left
      → Option Text
      → Io W (List Op × Option Finishing)
  plan_left dest instance_name untrusted finish root left before l none = pure ([], before)
  plan_left dest instance_name untrusted finish root left before l (some tag) =
      plan_marker dest instance_name untrusted finish root left before l tag

  unfoldable pub plan_markers :
      Text
      → Text
      → Text
      → Bool
      → D
      → List Left
      → Option Finishing
      → List Left
      → Io W (List Op × Option Finishing)
  unfolding plan_marker marker_tag
  plan_markers dest instance_name untrusted finish root left before [] = pure ([], before)
  plan_markers dest instance_name untrusted finish root left before (l ∷ ls) = do
    here ← plan_left dest instance_name untrusted finish root left before l (marker_tag l)
    rest ← plan_markers dest instance_name untrusted finish root left here.1 ls
    pure (here.0 ++ rest.0, rest.1)

  abbrev stuck_message : Text → List Left → Text
  stuck_message dest stuck =
      join (str ", ") (map rel stuck)
      ++ (str " in "
          ++ (dest
              ++ str
                  " named like restore leftovers but not files; a restore never creates these, so inspect and remove them by hand, then run recovery again"))

  abbrev plan_settled :
      Text → Text → Text → Bool → D → List Left → List Left → Io W (D × List Op × Option Finishing)
  plan_settled dest instance_name untrusted finish root left (l ∷ ls) =
      fail (stuck_message dest (l ∷ ls))
  plan_settled dest instance_name untrusted finish root left [] = do
    found ← plan_markers dest instance_name untrusted finish root left none left
    pure (root, found.0 ++ unowned (tags_of left) left, found.1)

  -- `untrusted` is docker's data root.
  unfoldable pub recovery : Text → Text → Text → Bool → Io W (D × List Op × Option Finishing)
  unfolding leftovers filter plan_markers unowned marker_tag join
  recovery dest instance_name untrusted finish = do
    root ← open_root fs dest
    left ← leftovers fs root
    plan_settled dest instance_name untrusted finish root left (filter is_stuck left)
