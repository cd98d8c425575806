-- ===== src/ConfigBackup/Restore/Swap.antt =====
-- src/config_backup.rs: the swap of `materialize`, and what follows its success or failure.
pub mod Apart
pub mod Rollback
pub mod Undone
use pbs.Base.{ℕ, Bool, true, false, not, ◌&&◌, Option, none, some, List, [], ◌∷◌, ◌++◌}
use pbs.Base.Tests.{if◌then◌else◌}
use pbs.Base.Text.{Text, str, ◌==◌, one_of, join}
use pbs.Base.Result.{Result, ok, err, panic, Io, lift, pure, fail, with_context}
use pbs.Base.Action.{◌>>=◌, ◌>>◌, in_context, attempt}
use pbs.ConfigBackup.Files.{
  Fs, Removal, removed, not_found, tolerate, open_dir, parent_of, apply_meta, discard, unlink,
}
use pbs.ConfigBackup.Manifest.{DirEntry, Manifest}
use pbs.ConfigBackup.Verify.{Codec}
use pbs.ConfigBackup.Restore.{
  Phase, staging, swapping, rolling_back, SwapMarker, Staged, Work, Job, on_disk, get_work, update,
  owner, write_marker, make_dirs, stage, set_aside, sync_dirs,
}

abbrev is_rolling_back : Phase → Bool
is_rolling_back rolling_back = true
is_rolling_back other = false

abbrev record_actions : Phase → Text
record_actions p =
    if is_rolling_back p
    then str "action rollback; the marker already records the rollback"
    else str "action finish or rollback"

module _ {W D F : Type 0} (fs : Fs W D F) (codec : Codec)
    (marker_bytes : SwapMarker → Result (List ℕ)) where
  -- `rename` is how the swap renames: `Dir::rename`.
  module _ (rename : D → Text → Text → Io W (Unit {0})) where
    abbrev back_message : Staged D → Text → Text
    back_message s e = elim s.prev [
      | some prev ↦ str "could not put back " ++ (s.rel ++ (str ": " ++ e))
      | none ↦ str "could not remove new file " ++ (s.rel ++ (str ": " ++ e))
    ]

    abbrev put_back_by : Staged D → Option Text → Io W (Unit {0})
    put_back_by s (some prev) = rename s.dir prev s.name
    put_back_by s none = unlink fs s.dir s.name

    abbrev put_back_ended : Staged D → Result (Unit {0}) → Job W D (Staged D)
    put_back_ended s (ok u) = pure (record s { displaced = false })
    put_back_ended s (err e) = do
      update (λ k. record k { failures = k.failures ++ back_message s e ∷ [] })
      pure s
    put_back_ended s panic = lift panic

    abbrev put_back_one : Staged D → Job W D (Staged D)
    put_back_one s = do r ← attempt (on_disk (put_back_by s s.prev)); put_back_ended s r

    -- The replaced files are put back, the last one first.
    unfoldable pub put_back : List (Staged D) → Job W D (List (Staged D))
    unfolding unlink
    put_back [] = pure []
    put_back (s ∷ before) = do rest ← put_back before; s' ← put_back_one s; pure (s' ∷ rest)

    -- A rename failed: the rollback is put on record, and only then carried out.
    abbrev recorded_rollback :
        List (Staged D) → Staged D → List (Staged D) → Text → Result (Unit {0}) → Job W D (Unit {0})
    recorded_rollback before s after e (ok u) = do
      before' ← put_back before
      update (λ k. record k { staged = before' ++ (s ∷ after) })
      fail (with_context (str "replace " ++ (s.rel ++ str "; rolled back")) e)
    recorded_rollback before s after e (err m) = do
      update (λ k. record k { phase = k.recorded; stranded = true })
      k ← get_work
      fail (
          with_context
            (str "replace "
              ++ (s.rel
                  ++ (str "; could not record the rollback ("
                      ++ (m
                          ++ (str "), so nothing was put back; settle it with pbs.config_recover ("
                              ++ (record_actions k.recorded ++ str ")"))))))
            e)
    recorded_rollback before s after e panic = lift panic

    abbrev replace_failed : List (Staged D) → Staged D → List (Staged D) → Text → Job W D (Unit {0})
    replace_failed before s after e = do
      update (λ k. record k { phase = rolling_back })
      r ← attempt (write_marker fs codec marker_bytes)
      recorded_rollback before s after e r

    abbrev renamed_or :
        List (Staged D)
        → Staged D
        → List (Staged D)
        → Job W D (Unit {0})
        → Result (Unit {0})
        → Job W D (Unit {0})
    renamed_or before s after go (ok u) = go
    renamed_or before s after go (err e) = replace_failed before s after e
    renamed_or before s after go panic = lift panic

    -- The files before `s` are replaced.
    unfoldable pub swap_each : List (Staged D) → List (Staged D) → Job W D (Unit {0})
    unfolding put_back write_marker
    swap_each before [] = pure tt
    swap_each before (s ∷ after) = do
      r ← attempt (on_disk (rename s.dir s.tmp s.name))
      let s' : Staged D = record s { displaced = true }
      let go : Job W D (Unit {0}) =
          update (λ k. record k { staged = before ++ s' ∷ after })
          >> swap_each (before ++ s' ∷ []) after
      renamed_or before s after go r

    unfoldable pub swap : Job W D (Unit {0})
    unfolding swap_each
    swap = do k ← get_work; swap_each [] k.staged
