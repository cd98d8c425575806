-- ===== src/ConfigBackup/Verbs/Recover.antt =====
-- src/config_backup.rs: the verb `config_recover`.
pub mod Consent
use pbs.Base.{ℕ, Bool, true, false, not, Option, none, some, List, [], ◌∷◌, ◌++◌, map}
use pbs.Base.Tests.{if◌then◌else◌}
use pbs.Base.Text.{Text, str, ◌==◌}
use pbs.Base.Json.{Value}
use pbs.Base.Result.{Result, ok, err, Io, lift, pure}
use pbs.Base.Action.{◌>>=◌, ◌>>◌}
use pbs.Plan.{PlannedChange, ExecutionPlan, CallerIdentity, require_admin}
use pbs.ConfigBackup.Files.{Fs}
use pbs.ConfigBackup.Verify.{Codec, Verification}
use pbs.ConfigBackup.Restore.{SwapMarker}
use pbs.ConfigBackup.Container.{System, config_dir, data_root, ensure_stopped}
use pbs.ConfigBackup.Recovery.{Op, describe}
use pbs.ConfigBackup.Recovery.Slot.{match_payload}
use pbs.ConfigBackup.Recovery.Plan.{Finishing, recovery}
use pbs.ConfigBackup.Recovery.Run.{recover}

pub record ConfigRecoverArgs : Type 0 where
  pub instance_name : Text
  pub action : Text
  pub payload : Option Text
  pub execute : Bool

pub record ConfigRecoverOutput : Type 0 where
  pub dry_run : Bool
  pub steps : List Text
  pub slot : Option Text
  pub verification : Option Verification
  pub plan : Option ExecutionPlan

abbrev recover_tool : Text
recover_tool = str "pbs.config_recover"

-- A change without a detail has none.
abbrev settle_change : Text → Text → PlannedChange
settle_change action step = record { target = step; action = action; detail = [] }

abbrev finish_of : (Text → Text) → Text → Result Bool
finish_of debug action =
    if action == str "rollback"
    then ok false
    else if action == str "finish"
    then ok true
    else err (recover_tool ++ (str ": action must be rollback or finish, not " ++ debug action))

abbrev from_backup : Option Text → Text
from_backup none = []
from_backup (some slot) = str " from the backup at " ++ slot

module _ {W D F : Type 0} (fs : Fs W D F) (codec : Codec) (system : System W)
    (marker_from : List ℕ → Result SwapMarker) where
  abbrev slot_named : Option Finishing → Option Text
  slot_named none = none
  slot_named (some f) = some f.slot

  abbrev match_given : Option Text → Option Text → Io W (Unit {0})
  match_given (some slot) (some payload) = match_payload fs codec slot (some payload)
  match_given slot payload = pure tt

  abbrev recover_planned :
      (ConfigRecoverArgs → Result Value)
      → ConfigRecoverArgs
      → Text
      → List Op
      → Option Text
      → Io W ConfigRecoverOutput
  recover_planned to_value args live ops slot = do
    match_given slot args.payload
    inputs ← lift (to_value args)
    pure (record {
      dry_run = true;
      steps = map describe ops;
      slot = slot;
      verification = none;
      plan = some (record {
        tool = recover_tool;
        inputs = inputs;
        summary = args.action ++ (b' ' ∷ (live ++ from_backup slot));
        changes = map (λ op. settle_change args.action (describe op)) ops;
      });
    })

  -- `root` is the root of the volumes.
  unfoldable pub config_recover :
      (ConfigRecoverArgs → Result Value)
      → Text
      → ConfigRecoverArgs
      → Option CallerIdentity
      → Io W ConfigRecoverOutput
  unfolding config_dir data_root ensure_stopped recovery recover match_payload describe
      require_admin ◌==◌
  config_recover to_value root args caller = do
    finish ← lift (finish_of fs.debug args.action)
    live ← config_dir fs codec system root args.instance_name
    let untrusted : Text = data_root fs codec system root
    if not args.execute
        then (recovery fs codec marker_from live args.instance_name untrusted finish >>= λ planned.
            recover_planned to_value args live planned.1 (slot_named planned.2))
        else do
          lift (require_admin recover_tool caller)
          ensure_stopped fs codec system root args.instance_name
          done ← recover fs codec marker_from live args.instance_name untrusted finish args.payload
          pure (record {
            dry_run = false;
            steps = done.steps;
            slot = done.slot;
            verification = done.verification;
            plan = none;
          })

  unfoldable pub pbs_config_recover :
      (ConfigRecoverArgs → Result Value)
      → Text
      → ConfigRecoverArgs
      → Option CallerIdentity
      → Io W ConfigRecoverOutput
  unfolding require_admin config_recover
  pbs_config_recover to_value root args caller = do
    lift (require_admin recover_tool caller)
    config_recover to_value root args caller
