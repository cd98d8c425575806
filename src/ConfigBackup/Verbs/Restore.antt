-- ===== src/ConfigBackup/Verbs/Restore.antt =====
-- src/config_backup.rs: the verb `config_restore`.
use pbs.Base.{ℕ, Bool, true, false, not, Option, none, some, List, [], ◌∷◌, ◌++◌, map}
use pbs.Base.Tests.{if◌then◌else◌}
use pbs.Base.Lists.{length}
use pbs.Base.Text.{Text, str, show_nat, join}
use pbs.Base.Text.Search.{show_octal}
use pbs.Base.Json.{Value}
use pbs.Base.Result.{Result, Io, lift, pure, fail}
use pbs.Base.Action.{◌>>=◌, ◌>>◌, in_context}
use pbs.Plan.{PlannedChange, ExecutionPlan, CallerIdentity, require_admin}
use pbs.ConfigBackup.Files.{Fs, path_join}
use pbs.ConfigBackup.Manifest.{FileEntry, Manifest}
use pbs.ConfigBackup.Verify.{Codec, Verification, is_ok, files_dir, verified_manifest, verify}
use pbs.ConfigBackup.Restore.{SwapMarker}
use pbs.ConfigBackup.Restore.Materialize.{materialize}
use pbs.ConfigBackup.Container.{System}
use pbs.ConfigBackup.Recovery.Slot.{store_payload}

pub record ConfigRestoreArgs : Type 0 where
  pub payload : Text
  pub dest : Text
  pub execute : Bool

pub record ConfigRestoreOutput : Type 0 where
  pub dry_run : Bool
  pub dest : Text
  pub verification : Verification
  pub blockers : List Text
  pub integrity : Text
  pub plan : Option ExecutionPlan

abbrev restore_tool : Text
restore_tool = str "pbs.config_restore"

abbrev pub checksum_scope : Text
checksum_scope =
    str
      "the backup checksum is stored in the backup store beside the backup, so it detects corruption but not tampering by anyone who can write to the store; orca#478 will hold it in orca's database or key it"

abbrev blockers_of : Text → Bool → Verification → List Text
blockers_of dest there captured =
    (if there then (dest ++ str " already exists") ∷ [] else [])
    ++ (if is_ok captured then [] else str "the backup failed verification" ∷ [])

abbrev write_change : FileEntry → PlannedChange
write_change f = record {
  target = f.path;
  action = str "write";
  detail = show_nat f.size ++ (str " bytes, mode " ++ show_octal f.mode);
}

module _ {W D F : Type 0} (fs : Fs W D F) (codec : Codec) (system : System W)
    (marker_bytes : SwapMarker → Result (List ℕ)) where
  -- `to_value` encodes the arguments of the call.
  abbrev restore_planned :
      (ConfigRestoreArgs → Result Value)
      → ConfigRestoreArgs
      → Manifest
      → Verification
      → List Text
      → Io W ConfigRestoreOutput
  restore_planned to_value args m captured blockers = do
    inputs ← lift (to_value args)
    pure (record {
      dry_run = true;
      dest = args.dest;
      verification = captured;
      blockers = blockers;
      integrity = checksum_scope;
      plan = some (record {
        tool = restore_tool;
        inputs = inputs;
        summary =
            str "restore "
            ++ (show_nat (length m.files)
                ++ (str " files of " ++ (m.instance_name ++ (str " into " ++ args.dest))));
        changes = map write_change m.files;
      });
    })

  abbrev restored_copy : ConfigRestoreArgs → Verification → Io W ConfigRestoreOutput
  restored_copy args v =
      if not (is_ok v)
      then fail (
          restore_tool
          ++ (str ": restored copy in "
              ++ (args.dest ++ (str " failed verification: " ++ join (str "; ") v.problems))))
      else pure (record {
        dry_run = false;
        dest = args.dest;
        verification = v;
        blockers = [];
        integrity = checksum_scope;
        plan = none;
      })

  abbrev restore_unless : ConfigRestoreArgs → Text → Manifest → List Text → Io W ConfigRestoreOutput
  restore_unless args payload m (b ∷ bs) =
      fail (restore_tool ++ (str ": refusing: " ++ join (str "; ") (b ∷ bs)))
  restore_unless args payload m [] = do
    in_context (str "create " ++ args.dest) (system.create_dir args.dest 0x1c0)
    created ← materialize fs codec marker_bytes system.new_id payload args.dest m false
    v ← verify fs codec args.dest m
    restored_copy args v

  unfoldable pub config_restore :
      (ConfigRestoreArgs → Result Value)
      → ConfigRestoreArgs
      → Option CallerIdentity
      → Io W ConfigRestoreOutput
  unfolding store_payload verified_manifest verify materialize require_admin show_nat show_octal
      join
  config_restore to_value args caller = do
    payload ← store_payload fs codec args.payload
    m ← verified_manifest fs codec payload
    captured ← verify fs codec (path_join payload files_dir) m
    there ← system.path_exists args.dest
    let blockers : List Text = blockers_of args.dest there captured
    if not args.execute
        then restore_planned to_value args m captured blockers
        else do lift (require_admin restore_tool caller); restore_unless args payload m blockers

  unfoldable pub pbs_config_restore :
      (ConfigRestoreArgs → Result Value)
      → ConfigRestoreArgs
      → Option CallerIdentity
      → Io W ConfigRestoreOutput
  unfolding require_admin config_restore
  pbs_config_restore to_value args caller = do
    lift (require_admin restore_tool caller)
    config_restore to_value args caller
