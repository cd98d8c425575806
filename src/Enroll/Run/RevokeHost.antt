-- ===== src/Enroll/Run/RevokeHost.antt =====
-- src/enroll.rs: `revoke`.
pub mod DryRun
use pbs.Base.{Bool, true, false, not, ◌&&◌, ◌||◌, Option, none, some, List, [], ◌∷◌, ◌++◌}
use pbs.Base.Tests.{if◌then◌else◌}
use pbs.Base.Lists.{any}
use pbs.Base.Int.{pos}
use pbs.Base.Text.{Text, str, ◌==◌}
use pbs.Base.Json.{Value}
use pbs.Base.Result.{Result, Io, bind, lift, pure}
use pbs.Client.Request.{Net, PbsClient}
use pbs.Plan.{
  Step, Change, planned, applied_change, CallerIdentity, require_admin, plan, confirm,
  refuse_drifted, applied,
}
use pbs.Plan.Apply.{run}
use pbs.Api.{Namespace, Codec, users, acls_with_digest, namespaces}
use pbs.Api.Namespaces.{has_namespace, NsContents, ns_contents}
use pbs.Orca.{Orca}
use pbs.Enroll.Identity.{Identity, check_not_self}
use pbs.Enroll.State.{unknown, State}
use pbs.Enroll.Revoke.{diff_revoke}
use pbs.Enroll.Run.{secret_name}
use pbs.Enroll.Stamp.{stamp_acl_digest}

pub record HostRevokeArgs : Type 0 where
  pub endpoint : Option Text
  pub host : Text
  pub datastore : Text
  pub delete_data : Bool
  pub adopt : Bool
  pub items : List Text
  pub execute : Bool

pub record HostRevokeOutput : Type 0 where
  pub host : Text
  pub change : Change
  pub secret_removed : Bool

abbrev pub tool : Text
tool = str "pbs.host.revoke"

abbrev token_exists : Identity → State → Bool
token_exists id st = any (λ u. any (λ t. t.tokenid == id.tokenid) u.tokens) st.users

abbrev token_gone : Identity → State → List Step → Bool
token_gone id st steps = not (token_exists id st) || any (λ s. s.action == str "delete-token") steps

abbrev summary_of : Identity → Text
summary_of id = str "revoke " ++ (id.host ++ (str " on " ++ id.datastore))

abbrev removal_note : Text → Bool → List Text
removal_note sname true =
    (str "orca secret " ++ (sname ++ str " is removed once the token is gone")) ∷ []
removal_note sname false = []

abbrev output : Identity → Change → Bool → HostRevokeOutput
output id change secret_removed = record {
  host = id.host;
  change = change;
  secret_removed = secret_removed;
}

module _ {W : Type 0} (net : Net W) (codec : Codec) (orca : Orca W) where
  abbrev read_contents :
      PbsClient → Identity → HostRevokeArgs → List Namespace → Io W (Option NsContents)
  read_contents c id args ns =
      if args.delete_data && has_namespace ns id.ns
      then bind (ns_contents net codec c id.datastore ns id.ns) (λ found. pure (some found))
      else pure none

  unfoldable pub read_revoke : PbsClient → Identity → HostRevokeArgs → Io W State
  unfolding acls_with_digest namespaces ns_contents users any ◌==◌
  read_revoke c id args = bind (acls_with_digest net codec c) λ acls.
      bind (namespaces net codec c id.datastore) λ ns. bind (read_contents c id args ns) λ contents.
        bind (users net codec c) λ us. pure (record {
          namespaces = ns;
          users = us;
          acls = acls.0;
          acl_digest = acls.1;
          secret = unknown;
          now = pos 0;
          ns_contents = contents;
        })

  unfoldable pub plan_revoke :
      Identity → Result Value → Text → List Step → List Text → Io W HostRevokeOutput
  unfolding plan str
  plan_revoke id inputs sname steps notes = bind (orca.secret_exists sname) λ there.
      bind (lift (plan tool inputs (summary_of id) steps (notes ++ removal_note sname there)))
        λ p. pure (output id (planned p) false)

  unfoldable pub apply_revoke :
      PbsClient
      → Identity
      → List Text
      → Option CallerIdentity
      → Text
      → State
      → List Step
      → List Text
      → Io W HostRevokeOutput
  unfolding require_admin refuse_drifted confirm stamp_acl_digest run applied any ◌==◌ str
  apply_revoke c id items caller sname st steps notes = bind (lift (require_admin tool caller)) λ _.
      bind (lift (refuse_drifted tool steps items)) λ _.
        bind (lift (confirm tool steps items)) λ kept.
          let stamped = stamp_acl_digest kept.0 st.acl_digest in
          bind (run net c tool stamped) λ results.
            bind (if token_gone id st stamped then orca.delete_secret sname else pure false)
              λ removed. pure (
                output id
                  (applied_change (applied tool (summary_of id) stamped results (notes ++ kept.1)))
                  removed)

  unfoldable pub revoke :
      Text
      → PbsClient
      → Identity
      → HostRevokeArgs
      → Result Value
      → Option CallerIdentity
      → Io W HostRevokeOutput
  unfolding check_not_self read_revoke diff_revoke plan_revoke apply_revoke str
  revoke ep c id args inputs caller = bind (lift (check_not_self id c)) λ _.
      bind (read_revoke c id args) λ st.
        bind (lift (diff_revoke id st args.delete_data args.adopt)) λ diff.
          bind (lift (secret_name orca ep id.host)) λ sname.
            if not args.execute
            then plan_revoke id inputs sname diff.0 diff.1
            else apply_revoke c id args.items caller sname st diff.0 diff.1
