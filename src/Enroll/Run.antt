-- ===== src/Enroll/Run.antt =====
-- src/enroll.rs: `check_secret`, `read_state` and `enroll`.
pub mod DryRun
pub mod Minted
pub mod MintedRun
pub mod RevokeHost
use pbs.Base.{ℕ, Bool, true, false, not, ◌&&◌, ◌||◌, Option, none, some, List, [], ◌∷◌, ◌++◌}
use pbs.Base.Tests.{ltb, leb, nat_eq, if◌then◌else◌}
use pbs.Base.Lists.{any, find?}
use pbs.Base.Int.{ℤ, pos}
use pbs.Base.Text.{Text, str, ◌==◌, is_empty}
use pbs.Base.Json.{Value, field, as_str, and_then}
use pbs.Base.Result.{
  Result, ok, err, panic, ◌>>=◌, ok_or, map_err, Io, continue, bind, lift, pure, fail,
}
use pbs.Client.Token.{ApiToken, new_token}
use pbs.Client.Request.{Net, PbsClient, with_token, status_of}
use pbs.Plan.{
  Step, Change, planned, applied_change, CallerIdentity, require_admin, plan, confirm,
  refuse_drifted, applied,
}
use pbs.Plan.Apply.{run, run_with}
use pbs.Api.{User, UserToken, Codec, is_active, users, acls_with_digest, namespaces}
use pbs.Api.Namespaces.{has_namespace, NsContents, ns_contents}
use pbs.Orca.{Orca}
use pbs.Enroll.Identity.{Identity, check_not_self}
use pbs.Enroll.Diff.{diff_enroll}
use pbs.Enroll.State.{
  SecretState, missing, valid, rejected, unknown, inactive, State, Finding, find_user, token_in,
}
use pbs.Enroll.Revoke.{diff_revoke}
use pbs.Enroll.Stamp.{stamp_acl_digest}

pub record HostEnrollArgs : Type 0 where
  pub endpoint : Option Text
  pub host : Text
  pub datastore : Text
  pub adopt : Bool
  pub items : List Text
  pub execute : Bool

pub record HostEnrollOutput : Type 0 where
  pub host : Text
  pub datastore : Text
  pub namespace : Text
  pub user_id : Text
  pub token_id : Text
  pub acl_path : Text
  pub findings : List Finding
  pub change : Change
  pub secret_ref : Option Text

-- `value` from a create, `secret` from a regenerate
unfoldable pub minted_secret : Value → Option Text
unfolding field as_str str
minted_secret reply =
    let found : Option Value = elim (field (str "value") reply) [
      | none ↦ field (str "secret") reply
      | some v ↦ some v
    ] in
    and_then found as_str

abbrev pub keep_nonempty : Option Text → Option Text
keep_nonempty none = none
keep_nonempty (some s) = if is_empty s then none else some s

abbrev is_held : Option Text → Bool
is_held none = false
is_held (some s) = true

-- What the status of the probe says.
abbrev judge_status : ℕ → SecretState
judge_status s =
    if nat_eq s 401
    then rejected
    else if (leb 200 s && ltb s 300) || nat_eq s 403
    then valid
    else unknown

unfoldable pub minted_message : Identity → Text → Text
unfolding str
minted_message id e =
    str "token secret for "
    ++ (id.tokenid
        ++ (str " was minted but not stored ("
            ++ (e ++ str "); fix the secret backend and re-run, which regenerates it")))

abbrev any_inactive : Identity → Option User → ℤ → Bool
any_inactive id none now = false
any_inactive id (some u) now =
    not (is_active u.enable u.expire now) || (elim (token_in id (some u)) [
      | none ↦ false
      | some t ↦ not (is_active t.enable t.expire now)
    ])

abbrev pub secret_name : {W : Type 0} → Orca W → Text → Text → Result Text
secret_name orca endpoint host =
    orca.scoped_name (str "pbs") endpoint (str "host_" ++ (host ++ str "_token"))

abbrev pub enroll_tool : Text
enroll_tool = str "pbs.host.enroll"

abbrev summary_of : Identity → Text
summary_of id = str "enrol " ++ (id.host ++ (str " on " ++ (id.datastore ++ (b':' ∷ id.ns))))

abbrev enroll_output : Identity → List Finding → Change → Option Text → HostEnrollOutput
enroll_output id findings change secret_ref = record {
  host = id.host;
  datastore = id.datastore;
  namespace = id.ns;
  user_id = id.userid;
  token_id = id.tokenid;
  acl_path = id.acl_path;
  findings = findings;
  change = change;
  secret_ref = secret_ref;
}

module _ {W : Type 0} (net : Net W) (codec : Codec) (orca : Orca W) where
  abbrev judge : Result ℕ × W → Result SecretState × W
  judge (ok s, w) = (ok (judge_status s), w)
  judge (err e, w) = (ok unknown, w)
  judge (panic, w) = (panic, w)

  abbrev probe : PbsClient → Result ApiToken → Io W SecretState
  probe c (ok token) w = judge (status_of net (with_token c token) (str "/version") w)
  probe c (err e) w = (ok rejected, w)
  probe c panic w = (panic, w)

  unfoldable pub check_secret : PbsClient → Text → Option Text → Io W SecretState
  unfolding status_of new_token str
  check_secret c tokenid none = pure missing
  check_secret c tokenid (some secret) = probe c (new_token tokenid secret)

  abbrev secret_state : PbsClient → Identity → Option User → ℤ → Option Text → Io W SecretState
  secret_state c id user now stored =
      if any_inactive id user now && is_held stored
      then pure inactive
      else check_secret c id.tokenid stored

  unfoldable pub read_state : PbsClient → Identity → Option Text → Io W State
  unfolding acls_with_digest users check_secret namespaces find? ◌==◌
  read_state c id stored = bind (acls_with_digest net codec c) λ acls.
      bind (users net codec c) λ us.
        bind (λ w. (ok (orca.now w), w))
          λ now.
            bind (secret_state c id (find? (λ u. u.userid == id.userid) us) now stored) λ secret.
              bind (namespaces net codec c id.datastore) λ ns. pure (record {
                namespaces = ns;
                users = us;
                acls = acls.0;
                acl_digest = acls.1;
                secret = secret;
                now = now;
                ns_contents = none;
              })

  -- The callback of the run: the secret of a sensitive response is stored before the next call.
  abbrev pub stored_or : Identity → Result (Unit {0}) × W → Result (Unit {0}) × W
  stored_or id (r, w) = (map_err (minted_message id) r, w)

  unfoldable pub store_minted : Text → Identity → Text → Step → Value → Io W (Unit {0})
  unfolding minted_secret minted_message str
  store_minted ep id sname step reply =
      if not step.sensitive_result
      then pure tt
      else bind
          (lift (ok_or (minted_secret reply) (str "PBS returned no secret for " ++ id.tokenid)))
          (λ secret w. stored_or id (
            orca.set_secret sname secret
              (str "PBS token " ++ (id.tokenid ++ (str " (pbs endpoint '" ++ (ep ++ str "')")))) w))

  -- The second half of `enroll`. A sensitive step that ran has stored its secret.
  unfoldable pub apply_enroll :
      Text
      → PbsClient
      → Identity
      → List Text
      → Option CallerIdentity
      → Text
      → Bool
      → State
      → List Finding
      → List Step
      → Io W HostEnrollOutput
  unfolding require_admin confirm stamp_acl_digest run_with store_minted applied any str
  apply_enroll ep c id items caller sname held st findings steps =
      bind (lift (require_admin enroll_tool caller)) λ _.
        bind (lift (confirm enroll_tool steps items)) λ kept.
          let stamped = stamp_acl_digest kept.0 st.acl_digest in
          bind (run_with net c enroll_tool stamped (store_minted ep id sname)) λ results. pure (
            enroll_output id findings
              (applied_change (applied enroll_tool (summary_of id) stamped results kept.1))
              (if held || any (λ s. s.sensitive_result) stamped then some sname else none))

  unfoldable pub enroll :
      Text
      → PbsClient
      → Identity
      → HostEnrollArgs
      → Result Value
      → Option CallerIdentity
      → Io W HostEnrollOutput
  unfolding check_not_self read_state diff_enroll plan apply_enroll is_empty str
  enroll ep c id args inputs caller = bind (lift (check_not_self id c)) λ _.
      bind (lift (secret_name orca ep id.host)) λ sname. bind (orca.get_secret sname) λ found.
        let stored = keep_nonempty found in
        bind (read_state c id stored) λ st. bind (lift (diff_enroll id st args.adopt)) λ drift.
          bind (lift (plan enroll_tool inputs (summary_of id) drift.1 [])) λ p.
            if not args.execute
            then pure
                (enroll_output id drift.0 (planned p) (if is_held stored then some sname else none))
            else apply_enroll ep c id args.items caller sname (is_held stored) st drift.0 drift.1
