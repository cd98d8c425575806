-- ===== src/ConfigBackup/Recovery/Plan/Quiet.antt =====
-- Planning a recovery changes nothing.
use pbs.Base.{ℕ, Bool, true, false, not, Option, none, some, List, [], ◌∷◌, ◌++◌, refl}
use pbs.Base.Text.{Text, str, ◌==◌}
use pbs.Base.Result.{Result, lift, pure, fail}
use pbs.Base.Action.{◌>>=◌, in_context, attempt}
use pbs.Base.Lists.{filter, find?}
use pbs.Base.Quiet.{IsQuiet, bind-IsQuiet, choice-IsQuiet, attempt-IsQuiet}
use pbs.ConfigBackup.{check_rel, split_rel}
use pbs.ConfigBackup.Files.{Kind, symlink, dir, file, other, Fs, open_root, open_dir, read_rel}
use pbs.ConfigBackup.Files.Quiet.{
  ReadsQuietly, open_root-IsQuiet, open_dir-IsQuiet, read_rel-IsQuiet,
}
use pbs.ConfigBackup.Manifest.{FileEntry, DirEntry}
use pbs.ConfigBackup.Verify.{Codec}
use pbs.ConfigBackup.Restore.{SwapMarker, MarkedFile}
use pbs.ConfigBackup.Leftovers.{Left, marker_tag, leftovers}
use pbs.ConfigBackup.Leftovers.Quiet.{leftovers-IsQuiet}
use pbs.ConfigBackup.Recovery.Slot.{finishing_manifest}
use pbs.ConfigBackup.Recovery.Slot.Quiet.{finishing_manifest-IsQuiet}
use pbs.ConfigBackup.Recovery.Plan.{
  Finishing, is_stuck, is_there, is_swapping, put_original, maybe_keep, roll_back_file,
  listed_entry, finish_file, file_steps, plan_file, plan_files, chmods, rmdirs, dir_steps,
  finishing_of, plan_marker, plan_left, plan_markers, plan_settled, recovery,
}

module _ {W D F : Type 0} (fs : Fs W D F) (quiet : ReadsQuietly fs) (codec : Codec)
    (marker_from : List ℕ → Result SwapMarker) where
  original-IsQuiet :
      (root : D) (at name prev : Text) (kind : Kind)
      → IsQuiet (put_original fs codec marker_from root at name prev kind)
  original-IsQuiet root at name prev file w =
      bind-IsQuiet (open_dir fs root at) _ (open_dir-IsQuiet fs quiet root at)
        (λ d.
          bind-IsQuiet (fs.stat d prev) _ (quiet.stats d prev)
            λ a. bind-IsQuiet (fs.stat d name) _ (quiet.stats d name) λ b w. refl)
        w
  original-IsQuiet root at name prev symlink w = refl
  original-IsQuiet root at name prev dir w = refl
  original-IsQuiet root at name prev other w = refl

  keep-IsQuiet :
      (root : D) (at name : Text) (had : Bool)
      → IsQuiet (maybe_keep fs codec marker_from root at name had)
  keep-IsQuiet root at name true w = refl
  keep-IsQuiet root at name false w =
      bind-IsQuiet (attempt (open_dir fs root at >>= λ d. fs.stat d name)) _
        (attempt-IsQuiet (open_dir fs root at >>= λ d. fs.stat d name) (
          bind-IsQuiet (open_dir fs root at) _ (open_dir-IsQuiet fs quiet root at)
            λ d. quiet.stats d name))
        (λ r w. refl) w

  back-IsQuiet :
      (root : D) (at name tmp prev : Text) (had : Bool) (t p : Option Kind)
      → IsQuiet (roll_back_file fs codec marker_from root at name tmp prev had t p)
  back-IsQuiet root at name tmp prev had (some t) p w = refl
  back-IsQuiet root at name tmp prev had none (some p) w = original-IsQuiet root at name prev p w
  back-IsQuiet root at name tmp prev had none none w = keep-IsQuiet root at name had w

  listed-IsQuiet :
      (o : Option FileEntry) (e : Text)
      → IsQuiet {W = W} {A = FileEntry} (elim o [ none ↦ fail e | some f ↦ pure f ])
  listed-IsQuiet none e w = refl
  listed-IsQuiet (some f) e w = refl

  finish_file-IsQuiet :
      (marker path at name tmp prev : Text) (fin : Finishing) (t p : Option Kind)
      → IsQuiet (finish_file fs codec marker_from marker path at name tmp prev fin t p)
  finish_file-IsQuiet marker path at name tmp prev fin none p w = refl
  finish_file-IsQuiet marker path at name tmp prev fin (some t) p w =
      bind-IsQuiet (listed_entry fs codec marker_from marker path fin) _
        (listed-IsQuiet (find? (λ (e : FileEntry). e.path == path) fin.manifest.files)
          (marker ++ (str " lists " ++ (path ++ str " but the backup does not"))))
        (λ e w. refl) w

  steps-IsQuiet :
      (root : D) (tag marker : Text) (f : MarkedFile) (at name : Text) (fin : Option Finishing)
      (t p : Option Kind)
      → IsQuiet (file_steps fs codec marker_from root tag marker f at name fin t p)
  steps-IsQuiet root tag marker f at name none t p w =
      back-IsQuiet root at name _ _ f.had_prev t p w
  steps-IsQuiet root tag marker f at name (some fin) t p w =
      finish_file-IsQuiet marker f.path at name _ _ fin t p w

  plan_file-IsQuiet :
      (root : D) (left : List Left) (tag marker : Text) (fin : Option Finishing) (f : MarkedFile)
      → IsQuiet (plan_file fs codec marker_from root left tag marker fin f)
  unfolding plan_file
  plan_file-IsQuiet root left tag marker fin f =
      bind-IsQuiet (lift (check_rel fs.debug f.path)) _ (λ w. refl)
        λ _. steps-IsQuiet root tag marker f (split_rel f.path).0 (split_rel f.path).1 fin _ _

  plan_files-IsQuiet :
      (root : D) (left : List Left) (tag marker : Text) (fin : Option Finishing)
      (files : List MarkedFile)
      → IsQuiet (plan_files fs codec marker_from root left tag marker fin files)
  unfolding plan_files
  plan_files-IsQuiet root left tag marker fin [] w = refl
  plan_files-IsQuiet root left tag marker fin (f ∷ files) w =
      bind-IsQuiet (plan_file fs codec marker_from root left tag marker fin f) _
        (plan_file-IsQuiet root left tag marker fin f)
        (λ here.
          bind-IsQuiet (plan_files fs codec marker_from root left tag marker fin files) _
            (plan_files-IsQuiet root left tag marker fin files) λ rest w. refl)
        w

  chmods-IsQuiet :
      (root : D) (dirs : List DirEntry) → IsQuiet (chmods fs codec marker_from root dirs)
  unfolding chmods
  chmods-IsQuiet root [] w = refl
  chmods-IsQuiet root (d ∷ ds) w =
      bind-IsQuiet (attempt (open_dir fs root d.path >>= λ x. fs.metadata (fs.handle x))) _
        (attempt-IsQuiet (open_dir fs root d.path >>= λ x. fs.metadata (fs.handle x)) (
          bind-IsQuiet (open_dir fs root d.path) _ (open_dir-IsQuiet fs quiet root d.path)
            λ x. quiet.metas (fs.handle x)))
        (λ r.
          bind-IsQuiet (chmods fs codec marker_from root ds) _ (chmods-IsQuiet root ds)
            λ rest w. refl)
        w

  rmdirs-IsQuiet : (created : List Text) → IsQuiet (rmdirs fs codec marker_from created)
  unfolding rmdirs
  rmdirs-IsQuiet [] w = refl
  rmdirs-IsQuiet (d ∷ ds) w =
      bind-IsQuiet (rmdirs fs codec marker_from ds) _ (rmdirs-IsQuiet ds)
        (λ later. bind-IsQuiet (lift (check_rel fs.debug d)) _ (λ w. refl) λ _ w. refl) w

  dir_steps-IsQuiet :
      (root : D) (fin : Option Finishing) (created : List Text)
      → IsQuiet (dir_steps fs codec marker_from root fin created)
  dir_steps-IsQuiet root none created w = rmdirs-IsQuiet created w
  dir_steps-IsQuiet root (some fin) created w = chmods-IsQuiet root fin.manifest.dirs w

  finishing-IsQuiet :
      (dest instance_name untrusted : Text) (finish : Bool) (before : Option Finishing) (l : Left)
      (m : SwapMarker)
      → IsQuiet (finishing_of fs codec marker_from dest instance_name untrusted finish before l m)
  finishing-IsQuiet dest instance_name untrusted false before l m w = refl
  finishing-IsQuiet dest instance_name untrusted true before l m w =
      choice-IsQuiet (not (is_swapping fs codec marker_from m.phase)) (fail _) _ (λ w. refl)
        (choice-IsQuiet (is_there before) (fail _) _ (λ w. refl)
          (bind-IsQuiet (finishing_manifest fs codec m l.name instance_name untrusted) _
            (finishing_manifest-IsQuiet fs quiet codec m l.name instance_name untrusted)
            λ found w. refl))
        w

  marker-IsQuiet :
      (dest instance_name untrusted : Text) (finish : Bool) (root : D) (left : List Left)
      (before : Option Finishing) (l : Left) (tag : Option Text)
      → IsQuiet (
          plan_left fs codec marker_from dest instance_name untrusted finish root left before l tag)
  unfolding plan_marker
  marker-IsQuiet dest instance_name untrusted finish root left before l none w = refl
  marker-IsQuiet dest instance_name untrusted finish root left before l (some tag) w =
      bind-IsQuiet (read_rel fs root l.name) _ (read_rel-IsQuiet fs quiet root l.name)
        (λ raw.
          bind-IsQuiet (in_context (str "parse " ++ l.name) (lift (marker_from raw))) _ (λ w. refl)
            λ m.
              bind-IsQuiet
                (finishing_of fs codec marker_from dest instance_name untrusted finish before l m) _
                (finishing-IsQuiet dest instance_name untrusted finish before l m)
                λ fin.
                  bind-IsQuiet (plan_files fs codec marker_from root left tag l.name fin m.files) _
                    (plan_files-IsQuiet root left tag l.name fin m.files)
                    λ files.
                      bind-IsQuiet (dir_steps fs codec marker_from root fin m.created_dirs) _
                        (dir_steps-IsQuiet root fin m.created_dirs) λ dirs w. refl)
        w

  markers-IsQuiet :
      (dest instance_name untrusted : Text) (finish : Bool) (root : D) (left : List Left)
      (before : Option Finishing) (ls : List Left)
      → IsQuiet (
          plan_markers fs codec marker_from dest instance_name untrusted finish root left before ls)
  unfolding plan_markers
  markers-IsQuiet dest instance_name untrusted finish root left before [] w = refl
  markers-IsQuiet dest instance_name untrusted finish root left before (l ∷ ls) w =
      bind-IsQuiet
        (plan_left fs codec marker_from dest instance_name untrusted finish root left before l
          (marker_tag l))
        _ (marker-IsQuiet dest instance_name untrusted finish root left before l (marker_tag l))
        (λ here.
          bind-IsQuiet
            (plan_markers fs codec marker_from dest instance_name untrusted finish root left here.1
              ls)
            _ (markers-IsQuiet dest instance_name untrusted finish root left here.1 ls)
            λ rest w. refl)
        w

  settled-IsQuiet :
      (dest instance_name untrusted : Text) (finish : Bool) (root : D) (left stuck : List Left)
      → IsQuiet
          (plan_settled fs codec marker_from dest instance_name untrusted finish root left stuck)
  settled-IsQuiet dest instance_name untrusted finish root left (s ∷ stuck) w = refl
  settled-IsQuiet dest instance_name untrusted finish root left [] w =
      bind-IsQuiet
        (plan_markers fs codec marker_from dest instance_name untrusted finish root left none left)
        _ (markers-IsQuiet dest instance_name untrusted finish root left none left)
        (λ found w. refl) w

  pub recovery-IsQuiet :
      (dest instance_name untrusted : Text) (finish : Bool)
      → IsQuiet (recovery fs codec marker_from dest instance_name untrusted finish)
  unfolding recovery
  recovery-IsQuiet dest instance_name untrusted finish =
      bind-IsQuiet (open_root fs dest) _ (open_root-IsQuiet fs quiet dest) λ root.
        bind-IsQuiet (leftovers fs root) _ (leftovers-IsQuiet fs quiet root) λ left.
          settled-IsQuiet dest instance_name untrusted finish root left (filter is_stuck left)
