-- ===== src/ConfigBackup/Verbs.antt =====
-- src/config_backup.rs: the verb `config_backup.detail` and the schedule that runs the backup.
pub mod Restore
pub mod Recover
use pbs.Base.{ℕ, Bool, true, false, not, Option, none, some, List, [], ◌∷◌, ◌++◌, map}
use pbs.Base.Tests.{if◌then◌else◌}
use pbs.Base.Lists.{length}
use pbs.Base.Text.{Text, str, ◌==◌, show_nat, join}
use pbs.Base.Text.Search.{show_octal}
use pbs.Base.Json.{Value, bool, string, json_object}
use pbs.Base.Result.{Result, ok, err, Io, lift, pure, fail}
use pbs.Base.Action.{◌>>=◌, ◌>>◌, in_context}
use pbs.Plan.{PlannedChange, ExecutionPlan, CallerIdentity, require_admin}
use pbs.ConfigBackup.{missing_required}
use pbs.ConfigBackup.Files.{Fs, path_join}
use pbs.ConfigBackup.Manifest.{FileEntry, Manifest}
use pbs.ConfigBackup.Verify.{Codec, Verification, is_ok, files_dir, verified_manifest, verify}
use pbs.ConfigBackup.Restore.{SwapMarker}
use pbs.ConfigBackup.Restore.Materialize.{materialize}
use pbs.ConfigBackup.Scan.{collect}
use pbs.ConfigBackup.Capture.{Host}
use pbs.ConfigBackup.Container.{System, config_dir, data_root, ensure_stopped}
use pbs.ConfigBackup.Kind.{find}
use pbs.ConfigBackup.Recovery.{Op, describe}
use pbs.ConfigBackup.Recovery.Slot.{kind_name, store_payload, match_payload}
use pbs.ConfigBackup.Recovery.Plan.{Finishing, recovery}
use pbs.ConfigBackup.Recovery.Run.{Recovered, recover}

unfoldable pub schedule_name : Text → Text
unfolding str
schedule_name instance_name = str "pbs-config-backup-" ++ instance_name

unfoldable pub schedule_row : Text → Value
unfolding json_object
schedule_row instance_name = json_object (
    (str "job", string (str "backup.run"))
    ∷ (str "cron", string (str "10 3 * * *"))
    ∷ (
      str "args",
      json_object (
          (str "kind", string kind_name)
          ∷ (str "instance", string instance_name)
          ∷ (str "execute", bool true)
          ∷ []),
    )
    ∷ [])

-- `print` prints a JSON value.
unfoldable pub apply_schedule : (Value → Text) → Text → Text
unfolding schedule_name schedule_row
apply_schedule print instance_name =
    str "orca config upsert schedule "
    ++ (schedule_name instance_name
        ++ (str " '" ++ (print (schedule_row instance_name) ++ str "' --execute")))

pub record InstanceFiles : Type 0 where
  pub instance_name : Text
  pub source : Text
  pub files : List Text
  pub missing : List Text
  pub schedule_name : Text
  pub schedule : Value
  pub apply_schedule : Text

-- `keep_last` is what the retention is made of.
pub record ConfigBackupDetailOutput : Type 0 where
  pub kind : Text
  pub instances : List InstanceFiles
  pub keep_last : ℕ

module _ {W D F : Type 0} (fs : Fs W D F) (codec : Codec) (system : System W) (host : Host W F)
    (marker_bytes : SwapMarker → Result (List ℕ)) (marker_from : List ℕ → Result SwapMarker) where
  abbrev instance_files : (Value → Text) → Text → Text → Io W InstanceFiles
  instance_files print root i = do
    source ← config_dir fs codec system root i
    files ← collect fs source
    pure (record {
      instance_name = i;
      source = source;
      files = files;
      missing = missing_required files;
      schedule_name = schedule_name i;
      schedule = schedule_row i;
      apply_schedule = apply_schedule print i;
    })

  unfoldable pub detail_each : (Value → Text) → Text → List Text → Io W (List InstanceFiles)
  unfolding config_dir collect missing_required schedule_name schedule_row apply_schedule
  detail_each print root [] = pure []
  detail_each print root (i ∷ is) = do
    here ← instance_files print root i
    rest ← detail_each print root is
    pure (here ∷ rest)

  abbrev chosen : Text → Option Text → Io W (List Text)
  chosen root (some i) = pure (i ∷ [])
  chosen root none = find fs codec system host marker_bytes root

  unfoldable pub config_backup_detail :
      (Value → Text) → Text → Option Text → Io W ConfigBackupDetailOutput
  unfolding find detail_each
  config_backup_detail print root instance_name = do
    instances ← chosen root instance_name
    out ← detail_each print root instances
    pure (record { kind = kind_name; instances = out; keep_last = 10 })
