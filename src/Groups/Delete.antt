-- ===== src/Groups/Delete.antt =====
-- src/groups.rs: `group_delete_steps` and `group_delete`.
pub mod Drift
use pbs.Base.{ℕ, Bool, true, false, ◌&&◌, Option, none, some, List, [], ◌∷◌, ◌++◌}
use pbs.Base.Tests.{if◌then◌else◌}
use pbs.Base.Lists.{find?}
use pbs.Base.Text.{Text, str, ◌==◌, show_nat, show_int}
use pbs.Base.Json.{Value}
use pbs.Base.Result.{Result, ok, ◌>>◌, Io, bind, lift, pure}
use pbs.Client.Request.{Net, PbsClient}
use pbs.Plan.{
  Step, new_step, with_detail, delete_call, CallerIdentity, Change, require_admin, refuse_drifted,
}
use pbs.Plan.Apply.{plan_or_apply}
use pbs.Api.{store_path}
use pbs.Times.{utc}
use pbs.Groups.{Group, GroupCodec, ns_query, group_target, groups, datastores}

pub record GroupDeleteArgs : Type 0 where
  pub endpoint : Option Text
  pub datastores : List Text
  pub all_datastores : Bool
  pub ns : Option Text
  pub backup_type : Text
  pub backup_id : Text
  pub items : List Text
  pub execute : Bool

abbrev is_group : Text → Text → Group → Bool
is_group backup_type backup_id g = g.backup_type == backup_type && g.backup_id == backup_id

unfoldable pub delete_detail : Group → Bool → Text
unfolding show_nat utc str
delete_detail g all_datastores =
    show_nat g.backup_count
    ++ (str " snapshots, last "
        ++ (utc g.last_backup
            ++ (str "; protected snapshots make PBS refuse"
                ++ (if all_datastores
                    then str "; all_datastores also deletes the replica on sync targets"
                    else []))))

-- The target ends in the number of snapshots and the time of the last one.
unfoldable pub delete_target : Text → Option Text → Group → Text → Text → Text
unfolding group_target show_nat show_int
delete_target store ns g backup_type backup_id =
    group_target store ns backup_type backup_id
    ++ (b'#' ∷ (show_nat g.backup_count ++ (b'@' ∷ show_int g.last_backup)))

abbrev delete_query : Option Text → Text → Text → List (Text × Text)
delete_query ns backup_type backup_id =
    (str "backup-type", backup_type) ∷ (str "backup-id", backup_id) ∷ ns_query ns

abbrev add_step : Step → List Step × List Text → List Step × List Text
add_step s (steps, notes) = (s ∷ steps, notes)

abbrev add_note : Text → List Step × List Text → List Step × List Text
add_note n (steps, notes) = (steps, n ∷ notes)

unfoldable pub group_delete_steps :
    List (Text × List Group) → Option Text → Text → Text → Bool → List Step × List Text
unfolding find? ◌==◌ delete_detail delete_target ns_query store_path str
group_delete_steps [] ns backup_type backup_id all_datastores = ([], [])
group_delete_steps ((store, gs) ∷ found) ns backup_type backup_id all_datastores =
    let rest = group_delete_steps found ns backup_type backup_id all_datastores in
    elim (find? (is_group backup_type backup_id) gs) [
      | none ↦ add_note (store ++ (str ": no group " ++ (backup_type ++ (b'/' ∷ backup_id)))) rest
      | some g ↦
          add_step
            (with_detail (delete_detail g all_datastores) (
              new_step (delete_target store ns g backup_type backup_id) (str "delete-group") (
                delete_call (store_path store (str "/groups"))
                  (delete_query ns backup_type backup_id))))
            rest
    ]

abbrev pub tool : Text
tool = str "pbs.group.delete"

abbrev pub steps_found : GroupDeleteArgs → List (Text × List Group) → List Step × List Text
steps_found args found =
    group_delete_steps found args.ns args.backup_type args.backup_id args.all_datastores

abbrev pub execute_guard : Bool → Option CallerIdentity → List Step → List Text → Result (Unit {0})
execute_guard execute caller steps items =
    if execute then require_admin tool caller >> refuse_drifted tool steps items else ok tt

module _ {W : Type 0} (net : Net W) (codec : GroupCodec) (c : PbsClient) where
  -- The groups of every datastore, in turn.
  unfoldable pub read_found : List Text → Option Text → Io W (List (Text × List Group))
  unfolding groups
  read_found [] ns = pure []
  read_found (s ∷ stores) ns =
      bind (groups net codec c s ns) λ gs. bind (read_found stores ns) λ rest. pure ((s, gs) ∷ rest)

  unfoldable pub group_delete : GroupDeleteArgs → Result Value → Option CallerIdentity → Io W Change
  unfolding datastores read_found group_delete_steps require_admin refuse_drifted plan_or_apply str
  group_delete args inputs caller =
      bind (datastores net codec c args.datastores args.all_datastores) λ stores.
        bind (read_found stores args.ns) λ found.
          let (steps, notes) = steps_found args found in
          bind (lift (execute_guard args.execute caller steps args.items)) λ _.
            plan_or_apply net c tool inputs args.execute caller
              (str "delete group " ++ (args.backup_type ++ (b'/' ∷ args.backup_id))) steps notes
              (some args.items)
