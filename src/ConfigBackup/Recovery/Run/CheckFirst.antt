-- ===== src/ConfigBackup/Recovery/Run/CheckFirst.antt =====
-- Every staged file is checked before anything changes.
use pbs.Base.{ℕ, false, not, Option, none, some, List, [], ◌∷◌, ◌≡◌, ◌≢◌, ◌⊎◌, inl, inr, refl}
use pbs.Base.Lists.{Any}
use pbs.Base.Text.{Text, ◌==◌}
use pbs.Base.Result.{Result, ok, err, panic, Io, continue}
use pbs.Base.Quiet.{IsQuiet, bind-IsQuiet, choice-IsQuiet}
use pbs.ConfigBackup.Files.{Fs, open_dir, read_capped}
use pbs.ConfigBackup.Files.Quiet.{ReadsQuietly, open_dir-IsQuiet, read_capped-IsQuiet}
use pbs.ConfigBackup.Verify.{Codec}
use pbs.ConfigBackup.Restore.{SwapMarker}
use pbs.ConfigBackup.Recovery.{Op, rename, install, chmod, unlink, rmdir, keep, verified_bytes}
use pbs.ConfigBackup.Recovery.Slot.Quiet.{match_payload-IsQuiet}
use pbs.ConfigBackup.Recovery.Plan.{Finishing}
use pbs.ConfigBackup.Recovery.Run.{match_finish, check_all, carry_out}

module _ {W D F : Type 0} (fs : Fs W D F) (codec : Codec)
    (marker_from : List ℕ → Result SwapMarker) where
  -- The bytes of an install, as they are read, do not hash to the backup.
  abbrev pub Mismatched : D → W → Op → Type 0
  Mismatched root w (install at from staging to file owners) =
      (d : D) × (f : F) × (bytes : List ℕ) × (open_dir fs root at w ≡ (ok d, w))
      × (fs.file d from w ≡ (ok f, w))
      × (read_capped fs f from w ≡ (ok bytes, w))
      × ((codec.sha256_hex bytes == file.sha256) ≡ false)
  Mismatched root w op = ⊥

  -- The action fails and leaves the world as it is.
  abbrev pub Refuses : {A : Type 0} → Result A × W → W → Type 0
  Refuses {A} p w = (p.1 ≡ w) × ((a : A) → p.0 ≢ ok a)

  verified_bytes-Refuses :
      (root : D) (w : W) (op : Op)
      → Mismatched root w op
      → Refuses (verified_bytes fs codec root op w) w
  unfolding verified_bytes
  verified_bytes-Refuses root w (install at from staging to file owners)
        (d, f, bytes, dh, fh, bh, differs) =
      rw (dh, fh, bh, differs) (refl, λ a h. cc)
  verified_bytes-Refuses root w (rename at from to) h = absurd h
  verified_bytes-Refuses root w (chmod at name mode) h = absurd h
  verified_bytes-Refuses root w (unlink at name) h = absurd h
  verified_bytes-Refuses root w (rmdir at name) h = absurd h
  verified_bytes-Refuses root w (keep at name why) h = absurd h

  continue-Refuses :
      {A B : Type 0} (p : Result A × W) (f : A → Io W B) (w : W)
      → p.1 ≡ w
      → Refuses p w ⊎ ((a : A) → Refuses (f a w) w)
      → Refuses (continue p f) w
  continue-Refuses (ok a, v) f w e (inl h) = absurd (h.1 a refl)
  continue-Refuses (ok a, v) f w e (inr h) = rw e (h a)
  continue-Refuses (err m, v) f w e h = (e, λ b h. cc)
  continue-Refuses (panic, v) f w e h = (e, λ b h. cc)

  module _ (quiet : ReadsQuietly fs) where
    verified_bytes-IsQuiet : (root : D) (op : Op) → IsQuiet (verified_bytes fs codec root op)
    unfolding verified_bytes
    verified_bytes-IsQuiet root (install at from staging to file owners) w =
        bind-IsQuiet (open_dir fs root at) _ (open_dir-IsQuiet fs quiet root at)
          (λ d. bind-IsQuiet (fs.file d from) _ (quiet.files d from) λ f.
            bind-IsQuiet (read_capped fs f from) _ (read_capped-IsQuiet fs quiet f from) λ bytes.
              choice-IsQuiet (not (codec.sha256_hex bytes == file.sha256)) _ _ (λ w. refl)
                (λ w. refl))
          w
    verified_bytes-IsQuiet root (rename at from to) w = refl
    verified_bytes-IsQuiet root (chmod at name mode) w = refl
    verified_bytes-IsQuiet root (unlink at name) w = refl
    verified_bytes-IsQuiet root (rmdir at name) w = refl
    verified_bytes-IsQuiet root (keep at name why) w = refl

    check_all-Refuses :
        (root : D) (w : W) (ops : List Op)
        → Any (Mismatched root w) ops
        → Refuses (check_all fs codec marker_from root ops w) w
    unfolding check_all
    check_all-Refuses root w [] h = absurd h
    check_all-Refuses root w (op ∷ ops) (inl h) =
        continue-Refuses (verified_bytes fs codec root op w) _ w (verified_bytes-IsQuiet root op w)
          (inl (verified_bytes-Refuses root w op h))
    check_all-Refuses root w (op ∷ ops) (inr h) =
        continue-Refuses (verified_bytes fs codec root op w) _ w (verified_bytes-IsQuiet root op w)
          (inr (λ bytes. check_all-Refuses root w ops h))

    match_finish-IsQuiet :
        (fin : Option Finishing) (payload : Option Text)
        → IsQuiet (match_finish fs codec marker_from fin payload)
    match_finish-IsQuiet none payload w = refl
    match_finish-IsQuiet (some f) payload w = match_payload-IsQuiet fs quiet codec f.slot payload w

    -- If a file that a step would install does not hash to the backup, then carrying the steps out
    -- fails and changes nothing, whatever stands before that step, where reading files, looking names
    -- up and resolving paths change nothing.
    pub carry_out-Refuses :
        (dest : Text) (payload : Option Text) (root : D) (ops : List Op) (fin : Option Finishing)
        (w : W)
        → Any (Mismatched root w) ops
        → Refuses (carry_out fs codec marker_from dest payload (root, ops, fin) w) w
    unfolding carry_out
    carry_out-Refuses dest payload root ops fin w h =
        continue-Refuses (match_finish fs codec marker_from fin payload w) _ w
          (match_finish-IsQuiet fin payload w)
          (inr (λ _.
            let (same, fails) = check_all-Refuses root w ops h in
            continue-Refuses (check_all fs codec marker_from root ops w) _ w same
              (inl (same, fails))))
