-- ===== src/ConfigBackup/Verbs/Recover/Consent.antt =====
-- Settling an interrupted restore changes nothing unless it is to be executed by an administrator.
use pbs.Base.{ℕ, true, false, not, Option, none, some, List, ◌≡◌, ◌≢◌, inl, inr, refl, ap}
use pbs.Base.Tests.{Bool-cases}
use pbs.Base.Text.{Text}
use pbs.Base.Json.{Value}
use pbs.Base.Result.{Result, lift}
use pbs.Base.Quiet.{IsQuiet, bind-IsQuiet, then-IsQuiet}
use pbs.Plan.{CallerIdentity, require_admin}
use pbs.Plan.Apply.DryRun.{IsAdmin, not_admin, IsAdmin-or_not}
use pbs.ConfigBackup.Files.{Fs}
use pbs.ConfigBackup.Files.Quiet.{ReadsQuietly}
use pbs.ConfigBackup.Verify.{Codec}
use pbs.ConfigBackup.Restore.{SwapMarker}
use pbs.ConfigBackup.Container.{System, config_dir, data_root}
use pbs.ConfigBackup.Recovery.{Op}
use pbs.ConfigBackup.Recovery.Slot.Quiet.{match_payload-IsQuiet}
use pbs.ConfigBackup.Recovery.Plan.{recovery}
use pbs.ConfigBackup.Recovery.Plan.Quiet.{recovery-IsQuiet}
use pbs.ConfigBackup.Verbs.Recover.{
  ConfigRecoverArgs, recover_tool, finish_of, match_given, recover_planned, slot_named,
  config_recover, pbs_config_recover,
}

module _ {W D F : Type 0} (fs : Fs W D F) (quiet : ReadsQuietly fs) (codec : Codec)
    (system : System W) (marker_from : List ℕ → Result SwapMarker)
    (to_value : ConfigRecoverArgs → Result Value) where
  match_given-IsQuiet :
      (slot payload : Option Text) → IsQuiet (match_given fs codec system marker_from slot payload)
  match_given-IsQuiet none none w = refl
  match_given-IsQuiet none (some p) w = refl
  match_given-IsQuiet (some s) none w = refl
  match_given-IsQuiet (some s) (some p) w = match_payload-IsQuiet fs quiet codec s (some p) w

  planned-IsQuiet :
      (args : ConfigRecoverArgs) (live : Text) (ops : List Op) (slot : Option Text)
      → IsQuiet (recover_planned fs codec system marker_from to_value args live ops slot)
  planned-IsQuiet args live ops slot =
      bind-IsQuiet (match_given fs codec system marker_from slot args.payload) _
        (match_given-IsQuiet slot args.payload)
        λ _. bind-IsQuiet (lift (to_value args)) _ (λ w. refl) λ inputs w. refl

  config_dir-IsQuiet :
      (root instance_name : Text) → IsQuiet (config_dir fs codec system root instance_name)
  unfolding config_dir
  config_dir-IsQuiet root instance_name = bind-IsQuiet (lift _) _ (λ w. refl) λ _ w. refl

  dry_run-IsQuiet :
      (root : Text) (args : ConfigRecoverArgs) (caller : Option CallerIdentity)
      → args.execute ≡ false
      → IsQuiet (config_recover fs codec system marker_from to_value root args caller)
  unfolding config_recover
  dry_run-IsQuiet root args caller dry =
      bind-IsQuiet (lift (finish_of fs.debug args.action)) _ (λ w. refl)
        λ finish.
          bind-IsQuiet (config_dir fs codec system root args.instance_name) _
            (config_dir-IsQuiet root args.instance_name)
            λ live. then-IsQuiet (not args.execute) _ _ (ap not dry) (
              bind-IsQuiet
                (recovery fs codec marker_from live args.instance_name
                  (data_root fs codec system root) finish)
                _
                (recovery-IsQuiet fs quiet codec marker_from live args.instance_name
                  (data_root fs codec system root) finish)
                (λ planned.
                  planned-IsQuiet args live planned.1
                    (slot_named fs codec system marker_from planned.2)))

  -- Settling an interrupted restore changes the disk only if the caller is an administrator and asked
  -- to execute, where reading files, looking names up and resolving paths change nothing.
  pub recover_needs_consent :
      (root : Text) (args : ConfigRecoverArgs) (caller : Option CallerIdentity) (w : W)
      → (pbs_config_recover fs codec system marker_from to_value root args caller w).1 ≢ w
      → (args.execute ≡ true) × IsAdmin caller
  unfolding pbs_config_recover
  recover_needs_consent root args caller w h = elim (IsAdmin-or_not caller) [
    | inl admin ↦ elim (Bool-cases args.execute) [
      | inl executed ↦ (executed, admin)
      | inr dry ↦ absurd (
          h (
            bind-IsQuiet (lift (require_admin recover_tool caller)) _ (λ w. refl)
              (λ _. dry_run-IsQuiet root args caller dry) w))
    ]
    | inr other ↦
        let (e, refused) = not_admin recover_tool caller other in absurd (h (rw refused refl))
  ]
