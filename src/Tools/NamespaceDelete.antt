-- ===== src/Tools/NamespaceDelete.antt =====
-- src/tools.rs: `namespace_delete`.
use pbs.Base.{Bool, Option, none, some, List, ◌++◌}
use pbs.Base.Tests.{if◌then◌else◌}
use pbs.Base.Text.{Text, str}
use pbs.Base.Json.{Value}
use pbs.Base.Result.{Result, ok, ◌>>◌, Io, bind, lift, pure}
use pbs.Client.Request.{Net, PbsClient}
use pbs.Plan.{Step, CallerIdentity, Change, require_admin, refuse_drifted}
use pbs.Plan.Apply.{plan_or_apply}
use pbs.Api.{Codec, Namespace, namespaces}
use pbs.Api.Namespaces.{NsContents, ns_contents}
use pbs.Tools.NamespaceSteps.{namespace_delete_steps}

pub record NamespaceDeleteArgs : Type 0 where
  pub endpoint : Option Text
  pub datastore : Text
  pub ns : Text
  pub delete_groups : Bool
  pub items : List Text
  pub execute : Bool

abbrev delete_tool : Text
delete_tool = str "pbs.namespace.delete"

abbrev delete_guard : Bool → Option CallerIdentity → List Step → List Text → Result (Unit {0})
delete_guard execute caller steps items =
    if execute
    then require_admin delete_tool caller >> refuse_drifted delete_tool steps items
    else ok tt

module _ {W : Type 0} (net : Net W) (codec : Codec) (c : PbsClient) where
  abbrev contents_of : NamespaceDeleteArgs → List Namespace → Io W (Option NsContents)
  contents_of args existing =
      if args.delete_groups
      then bind (ns_contents net codec c args.datastore existing args.ns)
          (λ found. pure (some found))
      else pure none

  unfoldable pub namespace_delete :
      NamespaceDeleteArgs → Result Value → Option CallerIdentity → Io W Change
  unfolding namespaces ns_contents namespace_delete_steps require_admin refuse_drifted plan_or_apply
      str
  namespace_delete args inputs caller = bind (namespaces net codec c args.datastore) λ existing.
      bind (contents_of args existing) λ contents.
        let (steps, notes) = namespace_delete_steps args.datastore existing args.ns contents in
        bind (lift (delete_guard args.execute caller steps args.items)) λ _.
          plan_or_apply net c delete_tool inputs args.execute caller
            (str "delete namespace " ++ (args.ns ++ (str " on datastore " ++ args.datastore))) steps
            notes (some args.items)
