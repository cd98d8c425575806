-- ===== src/Enroll/Run/RevokeHost/DryRun.antt =====
-- src/enroll.rs: the reads of `revoke`, up to its plan; src/api.rs: those of `ns_contents`.
use pbs.Base.{false, ◌&&◌, Option, none, some, List, [], ◌∷◌, ◌++◌, ◌≡◌, refl}
use pbs.Base.Text.{Text, str}
use pbs.Base.Json.{Value}
use pbs.Base.Result.{Result, Io, bind, lift, pure}
use pbs.Client.Request.{Net, PbsClient, get_as}
use pbs.Plan.{CallerIdentity, Step, plan}
use pbs.Api.{Codec, Namespace, AclEntry, acls_with_digest, users, namespaces, store_path}
use pbs.Api.Namespaces.{NsContents, read_groups, add_groups, ns_contents, has_namespace}
use pbs.Orca.{Orca}
use pbs.Enroll.Identity.{Identity, check_not_self}
use pbs.Enroll.State.{State, unknown}
use pbs.Enroll.Revoke.{diff_revoke}
use pbs.Enroll.Run.{secret_name}
use pbs.Base.Int.{pos}
use pbs.Enroll.Run.RevokeHost.{
  HostRevokeArgs, HostRevokeOutput, removal_note, summary_of, tool, read_contents, read_revoke,
  plan_revoke, revoke,
}
use pbs.Base.Quiet.{IsQuiet, bind-IsQuiet, choice-IsQuiet}
use pbs.Enroll.Run.DryRun.{
  ReadsQuietly, get_as-IsQuiet, acls_with_digest-IsQuiet, users-IsQuiet, namespaces-IsQuiet,
}

module _ {W : Type 0} (net : Net W) (codec : Codec) (orca : Orca W)
    (quiet : ReadsQuietly net orca) where
  read_groups-IsQuiet :
      (c : PbsClient) (store : Text) (out : NsContents) (ns : List Namespace)
      → IsQuiet (read_groups net codec c store out ns)
  unfolding read_groups
  read_groups-IsQuiet c store out [] w = refl
  read_groups-IsQuiet c store out (n ∷ rest) w =
      bind-IsQuiet
        (get_as net codec.counts_of c (store_path store (str "/groups")) ((str "ns", n.ns) ∷ [])) _
        (get_as-IsQuiet net codec orca quiet codec.counts_of c (store_path store (str "/groups"))
          ((str "ns", n.ns) ∷ []))
        (λ gs. read_groups-IsQuiet c store (add_groups out gs) rest) w

  ns_contents-IsQuiet :
      (c : PbsClient) (store : Text) (existing : List Namespace) (ns : Text)
      → IsQuiet (ns_contents net codec c store existing ns)
  unfolding ns_contents
  ns_contents-IsQuiet c store existing ns = read_groups-IsQuiet c store _ _

  read_contents-IsQuiet :
      (c : PbsClient) (id : Identity) (args : HostRevokeArgs) (ns : List Namespace)
      → IsQuiet (read_contents net codec orca c id args ns)
  read_contents-IsQuiet c id args ns =
      choice-IsQuiet (args.delete_data && has_namespace ns id.ns)
        (bind (ns_contents net codec c id.datastore ns id.ns) (λ found. pure (some found)))
        (pure none)
        (bind-IsQuiet (ns_contents net codec c id.datastore ns id.ns) _
          (ns_contents-IsQuiet c id.datastore ns id.ns) (λ found w. refl))
        (λ w. refl)

  -- The reads of `read_revoke` from each point on.
  abbrev from_users :
      PbsClient → List AclEntry × Option Text → List Namespace → Option NsContents → Io W State
  from_users c acls ns contents = bind (users net codec c) λ us. pure (record {
    namespaces = ns;
    users = us;
    acls = acls.0;
    acl_digest = acls.1;
    secret = unknown;
    now = pos 0;
    ns_contents = contents;
  })

  abbrev from_contents :
      PbsClient
      → Identity
      → HostRevokeArgs
      → List AclEntry × Option Text
      → List Namespace
      → Io W State
  from_contents c id args acls ns =
      bind (read_contents net codec orca c id args ns) (from_users c acls ns)

  abbrev from_namespaces :
      PbsClient → Identity → HostRevokeArgs → List AclEntry × Option Text → Io W State
  from_namespaces c id args acls =
      bind (namespaces net codec c id.datastore) (from_contents c id args acls)

  from_users-IsQuiet :
      (c : PbsClient) (acls : List AclEntry × Option Text) (ns : List Namespace)
      (contents : Option NsContents)
      → IsQuiet (from_users c acls ns contents)
  from_users-IsQuiet c acls ns contents =
      bind-IsQuiet (users net codec c) _ (users-IsQuiet net codec orca quiet c) (λ us w. refl)

  from_contents-IsQuiet :
      (c : PbsClient) (id : Identity) (args : HostRevokeArgs) (acls : List AclEntry × Option Text)
      (ns : List Namespace)
      → IsQuiet (from_contents c id args acls ns)
  from_contents-IsQuiet c id args acls ns =
      bind-IsQuiet (read_contents net codec orca c id args ns) (from_users c acls ns)
        (read_contents-IsQuiet c id args ns) (from_users-IsQuiet c acls ns)

  from_namespaces-IsQuiet :
      (c : PbsClient) (id : Identity) (args : HostRevokeArgs) (acls : List AclEntry × Option Text)
      → IsQuiet (from_namespaces c id args acls)
  from_namespaces-IsQuiet c id args acls =
      bind-IsQuiet (namespaces net codec c id.datastore) (from_contents c id args acls)
        (namespaces-IsQuiet net codec orca quiet c id.datastore)
        (from_contents-IsQuiet c id args acls)

  read_revoke-IsQuiet :
      (c : PbsClient) (id : Identity) (args : HostRevokeArgs)
      → IsQuiet (read_revoke net codec orca c id args)
  unfolding read_revoke
  read_revoke-IsQuiet c id args =
      bind-IsQuiet (acls_with_digest net codec c) (from_namespaces c id args)
        (acls_with_digest-IsQuiet net codec orca quiet c) (from_namespaces-IsQuiet c id args)

  plan_revoke-IsQuiet :
      (id : Identity) (inputs : Result Value) (sname : Text) (steps : List Step) (notes : List Text)
      → IsQuiet (plan_revoke net codec orca id inputs sname steps notes)
  unfolding plan_revoke
  plan_revoke-IsQuiet id inputs sname steps notes =
      bind-IsQuiet {B = HostRevokeOutput} (orca.secret_exists sname) _ (quiet.presence sname)
        λ there.
          bind-IsQuiet {B = HostRevokeOutput}
            (lift (plan tool inputs (summary_of id) steps (notes ++ removal_note sname there))) _
            (λ w. refl) (λ p w. refl)

  -- A revocation that is not to execute leaves the server and the secrets as they are, if GET
  -- requests and looking a secret up change nothing.
  pub revoke-IsQuiet :
      (ep : Text) (c : PbsClient) (id : Identity) (args : HostRevokeArgs) (inputs : Result Value)
      (caller : Option CallerIdentity)
      → args.execute ≡ false
      → IsQuiet (revoke net codec orca ep c id args inputs caller)
  unfolding revoke
  revoke-IsQuiet ep c id args inputs caller dry =
      bind-IsQuiet {B = HostRevokeOutput} (lift (check_not_self id c)) _ (λ w. refl)
        λ _.
          bind-IsQuiet {B = HostRevokeOutput} (read_revoke net codec orca c id args) _
            (read_revoke-IsQuiet c id args)
            λ st.
              bind-IsQuiet {B = HostRevokeOutput}
                (lift (diff_revoke id st args.delete_data args.adopt)) _ (λ w. refl)
                λ diff.
                  bind-IsQuiet {B = HostRevokeOutput} (lift (secret_name orca ep id.host)) _
                    (λ w. refl) λ sname. rw dry (plan_revoke-IsQuiet id inputs sname diff.0 diff.1)
