-- ===== src/Tests/ConfigBackup/Recover.antt =====
-- An administrator rolls an interrupted restore back, of a stopped server.
use pbs.Base.{ℕ, true, false, Option, none, some, [], ◌≡◌, ◌≢◌, refl, sym, ap, ◌∙◌, arith}
use pbs.Base.Text.{str, ◌==◌}
use pbs.Base.Json.{null}
use pbs.Base.Result.{Result, ok}
use pbs.Plan.Apply.DryRun.{IsAdmin}
use pbs.ConfigBackup.Container.{listing, System}
use pbs.ConfigBackup.Verbs.Recover.{ConfigRecoverArgs, ConfigRecoverOutput, pbs_config_recover}
use pbs.ConfigBackup.Verbs.Recover.Consent.{recover_needs_consent}
use pbs.Tests.World.{admin}
use pbs.Tests.ConfigBackup.{fs, codec, Names, marker_from, interrupted, reads}

-- No container has a state.
abbrev system : System Names
system = record {
  read_dir = λ path w. (ok (listing []), w);
  path_is_dir = λ path w. (ok true, w);
  path_is_file = λ path w. (ok true, w);
  path_exists = λ path w. (ok true, w);
  create_dir = λ path mode w. (ok tt, w);
  new_id = λ w. (ok (str "t"), w);
  path_eq = λ a b. false;
}

abbrev args : ConfigRecoverArgs
args = record { instance_name = str "pbs"; action = str "rollback"; payload = none; execute = true }

abbrev rolled_back : Result ConfigRecoverOutput × Names
rolled_back =
    pbs_config_recover fs codec system marker_from (λ a. ok null) (str "/volumes") args (some admin)
      interrupted

-- The original stands again where the new file stood.
original_back : rolled_back.1 (str "a") ≡ some 1
unfolding pbs_config_recover str
original_back = refl

new_before : interrupted (str "a") ≡ some 2
unfolding ◌==◌ str
new_before = refl

back_changes : rolled_back.1 ≢ interrupted
back_changes e = one_two (sym original_back ∙ ap (λ (w : Names). w (str "a")) e ∙ new_before)
  where
    one_two : ◌≡◌ {A = Option ℕ} (some 1) (some 2) → ⊥
    one_two h = let same : ◌≡◌ {A = ℕ} 1 2 = cc in omega (arith, same)

recover_needs_consent_example : (true ≡ true) × IsAdmin (some admin)
recover_needs_consent_example =
    recover_needs_consent fs reads codec system marker_from (λ a. ok null) (str "/volumes") args
      (some admin) interrupted back_changes
