-- ===== src/ConfigBackup/Recovery/Run.antt =====
-- src/config_backup.rs: `recover`, which applies the steps of `recovery`.
pub mod CheckFirst
use pbs.Base.{ℕ, Bool, true, false, not, Option, none, some, List, [], ◌∷◌, ◌++◌, map}
use pbs.Base.Tests.{if◌then◌else◌}
use pbs.Base.Json.{text_lt}
use pbs.Base.Text.{Text, str, ◌==◌, join}
use pbs.Base.Result.{Result, ok, err, panic, Io, lift, pure, fail}
use pbs.Base.Action.{◌>>=◌, ◌>>◌, in_context, attempt, sort_by}
use pbs.ConfigBackup.Files.{Fs, open_dir}
use pbs.ConfigBackup.Verify.{Codec, Verification, is_ok, verify, verify_meta}
use pbs.ConfigBackup.Restore.{SwapMarker}
use pbs.ConfigBackup.Recovery.{Op, describe, op_dir, verified_bytes, apply}
use pbs.ConfigBackup.Recovery.Slot.{match_payload}
use pbs.ConfigBackup.Recovery.Plan.{Finishing, recovery}

pub record Recovered : Type 0 where
  pub steps : List Text
  pub slot : Option Text
  pub verification : Option Verification

-- `dirs.sort(); dirs.dedup()`
unfoldable pub dedup : List Text → List Text
unfolding ◌==◌
dedup [] = []
dedup (a ∷ []) = a ∷ []
dedup (a ∷ b ∷ ds) = let rest = dedup (b ∷ ds) in if a == b then rest else a ∷ rest

abbrev slot_of : Option Finishing → Option Text
slot_of none = none
slot_of (some f) = some f.slot

module _ {W D F : Type 0} (fs : Fs W D F) (codec : Codec)
    (marker_from : List ℕ → Result SwapMarker) where
  unfoldable pub check_all : D → List Op → Io W (Unit {0})
  unfolding verified_bytes
  check_all root [] = pure tt
  check_all root (op ∷ ops) = do bytes ← verified_bytes fs codec root op; check_all root ops

  unfoldable pub apply_all : D → List Text → List Op → Io W (List Text)
  unfolding apply describe join
  apply_all root done [] = pure done
  apply_all root done (op ∷ ops) = do
    in_context (describe op ++ (str "; already done: [" ++ (join (str ", ") done ++ str "]")))
        (apply fs codec root op)
    apply_all root (done ++ describe op ∷ []) ops

  abbrev sync_opened : Result D → Io W (Unit {0})
  sync_opened (ok d) = fs.sync_all (fs.handle d)
  sync_opened failed = pure tt

  unfoldable pub sync_touched : D → List Text → Io W (Unit {0})
  unfolding open_dir
  sync_touched root [] = pure tt
  sync_touched root (d ∷ ds) = do
    r ← attempt (open_dir fs root d)
    sync_opened r
    sync_touched root ds

  abbrev match_finish : Option Finishing → Option Text → Io W (Unit {0})
  match_finish none payload = pure tt
  match_finish (some f) payload = match_payload fs codec f.slot payload

  abbrev owners_checked : Text → Finishing → Io W (List Text)
  owners_checked dest f =
      if f.owners then verify_meta fs codec dest f.manifest f.created else pure []

  abbrev verified_finish : Text → List Text → Option Finishing → Io W (Option Verification)
  verified_finish dest done none = pure none
  verified_finish dest done (some f) = do
    v ← verify fs codec dest f.manifest
    more ← owners_checked dest f
    let all : Verification = record v { problems = v.problems ++ more }
    if not (is_ok all)
        then fail (
            str "finished (["
            ++ (join (str ", ") done
                ++ (str "]), but the restored config failed verification: "
                    ++ join (str "; ") all.problems)))
        else pure (some all)

  -- The steps, once they are known.
  unfoldable pub carry_out : Text → Option Text → D × List Op × Option Finishing → Io W Recovered
  unfolding match_payload check_all apply_all sync_touched sort_by dedup text_lt verify verify_meta
      join
  carry_out dest payload (root, ops, fin) = do
    match_finish fin payload
    check_all root ops
    done ← apply_all root [] ops
    sync_touched root (dedup (sort_by text_lt (map op_dir ops)))
    v ← verified_finish dest done fin
    pure (record { steps = done; slot = slot_of fin; verification = v })

  unfoldable pub recover : Text → Text → Text → Bool → Option Text → Io W Recovered
  unfolding recovery carry_out
  recover dest instance_name untrusted finish payload = do
    planned ← recovery fs codec marker_from dest instance_name untrusted finish
    carry_out dest payload planned
