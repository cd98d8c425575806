-- ===== src/ConfigBackup/Recovery/Plan/Tagged.antt =====
-- A rollback acts on leftovers alone.
use pbs.Base.{ℕ, Bool, true, false, Option, none, some, List, [], ◌∷◌, ◌≡◌, refl}
use pbs.Base.Lists.{All, All-append, filter}
use pbs.Base.Text.{Text}
use pbs.Base.Result.{Result, ok, lift}
use pbs.Base.Action.{◌>>=◌, attempt, in_context}
use pbs.Base.Gives.{Gives, pure-Gives, fail-Gives, bind-Gives, then-Gives}
use pbs.ConfigBackup.{check_rel, split_rel}
use pbs.ConfigBackup.Files.{Kind, symlink, dir, file, other, Fs, open_root, open_dir, read_rel}
use pbs.ConfigBackup.Verify.{Codec}
use pbs.ConfigBackup.Restore.{MarkedFile, SwapMarker, temp_name, prev_name}
use pbs.ConfigBackup.Leftovers.{Left, is_leftover, marker_tag, leftovers}
use pbs.ConfigBackup.Leftovers.Walk.{IsKnown, leftovers-IsKnown}
use pbs.ConfigBackup.Recovery.{Op}
use pbs.ConfigBackup.Recovery.Plan.{
  Finishing, kind_of, put_original, maybe_keep, roll_back_file, plan_file, plan_files, strays,
  rmdirs, plan_marker, plan_markers, plan_left, plan_settled, recovery, is_stuck, tags_of,
}
use pbs.ConfigBackup.Recovery.Plan.OnlyLeftovers.{
  OnlyLeftovers, kind_of-IsKnown, AllOnly, strays-Only, unowned-Only, either-Only, keep-Only,
  unlink_if-Only,
}

module _ {W D F : Type 0} (fs : Fs W D F) (codec : Codec)
    (marker_from : List ℕ → Result SwapMarker) where
  put_original-Only :
      (root : D) (at name tag : Text) (k : Kind)
      → is_leftover (prev_name name tag) ≡ true
      → Gives AllOnly (put_original fs codec marker_from root at name (prev_name name tag) k)
  put_original-Only root at name tag file h w ops w' e =
      then-Gives AllOnly (open_dir fs root at) _
        (λ d. then-Gives AllOnly (fs.stat d (prev_name name tag)) _ (λ a.
          then-Gives AllOnly (fs.stat d name) _
            (λ b. pure-Gives AllOnly _ (either-Only _ at name tag h, tt))))
        w ops w' e
  put_original-Only root at name tag symlink h w a w' e = cc
  put_original-Only root at name tag dir h w a w' e = cc
  put_original-Only root at name tag other h w a w' e = cc

  maybe_keep-Only :
      (root : D) (at name : Text) (had : Bool)
      → Gives AllOnly (maybe_keep fs codec marker_from root at name had)
  maybe_keep-Only root at name true = pure-Gives AllOnly [] tt
  maybe_keep-Only root at name false =
      then-Gives AllOnly (attempt (open_dir fs root at >>= λ d. fs.stat d name)) _
        (λ r. pure-Gives AllOnly _ (keep-Only _ at name _))

  -- The leftovers of a listed file, by its temporary name and that of its original.
  roll_back_file-Only :
      (root : D) (at name tag : Text) (had : Bool) (t p : Option Kind)
      → ((k : Kind) → t ≡ some k → is_leftover (temp_name name tag) ≡ true)
      → ((k : Kind) → p ≡ some k → is_leftover (prev_name name tag) ≡ true)
      → Gives AllOnly (
          roll_back_file fs codec marker_from root at name
            (temp_name name tag)
            (prev_name name tag)
            had
            t
            p)
  roll_back_file-Only root at name tag had (some t) p ht hp =
      pure-Gives AllOnly _ (ht t refl, unlink_if-Only at (prev_name name tag) p hp)
  roll_back_file-Only root at name tag had none (some p) ht hp =
      put_original-Only root at name tag p (hp p refl)
  roll_back_file-Only root at name tag had none none ht hp = maybe_keep-Only root at name had

  module _ (left : List Left) (known : All IsKnown left) where
    plan_file-Only :
        (root : D) (tag marker : Text) (f : MarkedFile)
        → Gives AllOnly (plan_file fs codec marker_from root left tag marker none f)
    unfolding plan_file
    plan_file-Only root tag marker f =
        let at : Text = (split_rel f.path).0 in
        let name : Text = (split_rel f.path).1 in
        then-Gives AllOnly (lift (check_rel fs.debug f.path)) _ (λ _.
          roll_back_file-Only root at name tag f.had_prev (kind_of left at (temp_name name tag))
            (kind_of left at (prev_name name tag))
            (λ k. kind_of-IsKnown left at (temp_name name tag) k known)
            (λ k. kind_of-IsKnown left at (prev_name name tag) k known))

    plan_files-Only :
        (root : D) (tag marker : Text) (files : List MarkedFile)
        → Gives AllOnly (plan_files fs codec marker_from root left tag marker none files)
    unfolding plan_files
    plan_files-Only root tag marker [] = pure-Gives AllOnly [] tt
    plan_files-Only root tag marker (f ∷ files) =
        bind-Gives AllOnly AllOnly (plan_file fs codec marker_from root left tag marker none f) _
          (plan_file-Only root tag marker f)
          (λ here hk.
            bind-Gives AllOnly AllOnly
              (plan_files fs codec marker_from root left tag marker none files) _
              (plan_files-Only root tag marker files)
              (λ rest rk. pure-Gives AllOnly _ (All-append OnlyLeftovers here rest hk rk)))

  rmdirs-Only : (ds : List Text) → Gives AllOnly (rmdirs fs codec marker_from ds)
  unfolding rmdirs
  rmdirs-Only [] = pure-Gives AllOnly [] tt
  rmdirs-Only (d ∷ ds) =
      bind-Gives AllOnly AllOnly (rmdirs fs codec marker_from ds) _ (rmdirs-Only ds) (λ later lk.
        then-Gives AllOnly (lift (check_rel fs.debug d)) _
          (λ _. pure-Gives AllOnly _ (All-append OnlyLeftovers later _ lk (tt, tt))))

  -- What a rollback plans for the markers; it finishes nothing.
  abbrev PlansOnly : List Op × Option Finishing → Type 0
  PlansOnly p = AllOnly p.0 × (p.1 ≡ none)

  module _ (dest instance_name untrusted : Text) (root : D) (left : List Left)
      (known : All IsKnown left) where
    marker-Only :
        (l : Left) (tag : Text)
        → IsKnown l
        → Gives PlansOnly (
            plan_marker fs codec marker_from dest instance_name untrusted false root left none l
              tag)
    unfolding plan_marker
    marker-Only l tag h = then-Gives PlansOnly (read_rel fs root l.name) _ (λ raw.
        then-Gives PlansOnly (in_context _ (lift (marker_from raw))) _ (λ m.
          bind-Gives AllOnly PlansOnly
            (plan_files fs codec marker_from root left tag l.name none m.files) _
            (plan_files-Only left known root tag l.name m.files)
            (λ files fk.
              bind-Gives AllOnly PlansOnly (rmdirs fs codec marker_from m.created_dirs) _
                (rmdirs-Only m.created_dirs)
                (λ dirs dk. pure-Gives PlansOnly _ (
                  All-append OnlyLeftovers files _ fk (
                      All-append OnlyLeftovers (strays tag m.files left) _
                        (strays-Only tag m.files left known)
                        (All-append OnlyLeftovers dirs _ dk (h, tt))),
                  refl,
                )))))

    left-Only :
        (l : Left) (o : Option Text)
        → IsKnown l
        → Gives PlansOnly
            (plan_left fs codec marker_from dest instance_name untrusted false root left none l o)
    left-Only l none h = pure-Gives PlansOnly _ (tt, refl)
    left-Only l (some tag) h = marker-Only l tag h

    markers-Only :
        (ls : List Left) (before : Option Finishing)
        → All IsKnown ls
        → before ≡ none
        → Gives PlansOnly (
            plan_markers fs codec marker_from dest instance_name untrusted false root left before
              ls)
    unfolding plan_markers
    markers-Only [] before h e = pure-Gives PlansOnly _ (tt, e)
    markers-Only (l ∷ ls) before h e = rw e (
        bind-Gives PlansOnly PlansOnly
          (plan_left fs codec marker_from dest instance_name untrusted false root left none l
            (marker_tag l))
          _ (left-Only l (marker_tag l) h.0)
          (λ here hk.
            bind-Gives PlansOnly PlansOnly
              (plan_markers fs codec marker_from dest instance_name untrusted false root left here.1
                ls)
              _ (markers-Only ls here.1 h.1 hk.1)
              (λ rest rk.
                pure-Gives PlansOnly _ (All-append OnlyLeftovers here.0 rest.0 hk.0 rk.0, rk.1))))

  -- Every step of a planned rollback removes, or moves back to the name it was linked from, nothing but
  -- a file that is named as a restore names what it leaves; it installs nothing and changes no mode,
  -- and it finishes no restore.
  abbrev pub RollsBack : D × List Op × Option Finishing → Type 0
  RollsBack p = All OnlyLeftovers p.1 × (p.2 ≡ none)

  settled-RollsBack :
      (dest instance_name untrusted : Text) (root : D) (left stuck : List Left)
      → All IsKnown left
      → Gives RollsBack
          (plan_settled fs codec marker_from dest instance_name untrusted false root left stuck)
  settled-RollsBack dest instance_name untrusted root left (l ∷ ls) h = fail-Gives RollsBack _
  settled-RollsBack dest instance_name untrusted root left [] h =
      bind-Gives PlansOnly RollsBack
        (plan_markers fs codec marker_from dest instance_name untrusted false root left none left) _
        (markers-Only dest instance_name untrusted root left h left none h refl)
        (λ found fk.
          pure-Gives RollsBack _
            (All-append OnlyLeftovers found.0 _ fk.0 (unowned-Only (tags_of left) left h), fk.1))

  -- If a rollback is planned, then each of its steps removes, or moves back to the name that it was
  -- linked from, nothing but a file that is named as a restore names what it leaves behind, or removes
  -- an empty directory, or is a note; none installs a file or changes a mode.
  pub recovery-RollsBack :
      (dest instance_name untrusted : Text) (w : W) (p : D × List Op × Option Finishing) (w' : W)
      → recovery fs codec marker_from dest instance_name untrusted false w ≡ (ok p, w')
      → RollsBack p
  unfolding recovery
  recovery-RollsBack dest instance_name untrusted =
      then-Gives RollsBack (open_root fs dest) _ (λ root.
        bind-Gives (All IsKnown) RollsBack (leftovers fs root) _ (leftovers-IsKnown fs root)
          (λ left h.
            settled-RollsBack dest instance_name untrusted root left (filter is_stuck left) h))
