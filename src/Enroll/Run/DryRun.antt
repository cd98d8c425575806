-- ===== src/Enroll/Run/DryRun.antt =====
-- src/enroll.rs: the reads of `enroll`, up to its plan.
use pbs.Base.{ℕ, false, Option, none, some, List, [], ◌∷◌, ◌≡◌, refl}
use pbs.Base.Int.{ℤ}
use pbs.Base.Lists.{find?}
use pbs.Base.Text.{Text, str, ◌==◌}
use pbs.Base.Json.{Value}
use pbs.Base.Result.{Result, ok, err, panic, Io, bind, lift, pure, map_err, with_context}
use pbs.Base.Quiet.{IsQuiet, bind-IsQuiet, choice-IsQuiet}
use pbs.Client.Token.{ApiToken, new_token}
use pbs.Client.Request.{
  HttpCall, Net, PbsClient, with_token, get_method, build, call, get_as, status_of,
}
use pbs.Plan.{CallerIdentity, plan}
use pbs.Api.{Codec, acls_with_digest, users, namespaces, User, store_path, AclEntry}
use pbs.Orca.{Orca}
use pbs.Enroll.Identity.{Identity, check_not_self}
use pbs.Enroll.Diff.{diff_enroll}
use pbs.Enroll.State.{State, SecretState, inactive}
use pbs.Enroll.Run.{
  HostEnrollArgs, HostEnrollOutput, secret_name, keep_nonempty, enroll_tool, summary_of, judge,
  probe, check_secret, secret_state, read_state, enroll,
}

-- GET requests, and looking a secret up, change nothing.
pub record ReadsQuietly {W : Type 0} (net : Net W) (orca : Orca W) : Type 0 where
  pub gets : (req : HttpCall) → req.method ≡ get_method → IsQuiet (net.send req)
  pub secrets : (name : Text) → IsQuiet (orca.get_secret name)
  pub presence : (name : Text) → IsQuiet (orca.secret_exists name)

module _ {W : Type 0} (net : Net W) (codec : Codec) (orca : Orca W)
    (quiet : ReadsQuietly net orca) where
  call-IsQuiet :
      (c : PbsClient) (path : Text) (query : List (Text × Text))
      → IsQuiet (call net c get_method path query none)
  unfolding call build
  call-IsQuiet c path query w = quiet.gets (build net c get_method path query none) refl w

  pub get_as-IsQuiet :
      {A : Type 0} (from_value : Value → Result A) (c : PbsClient) (path : Text)
      (query : List (Text × Text))
      → IsQuiet (get_as net from_value c path query)
  unfolding get_as
  get_as-IsQuiet from_value c path query =
      bind-IsQuiet (call net c get_method path query none) _ (call-IsQuiet c path query)
        (λ a w. refl)

  status_of-IsQuiet : (c : PbsClient) (path : Text) → IsQuiet (status_of net c path)
  unfolding status_of build
  status_of-IsQuiet c path w = quiet.gets (build net c get_method path [] none) refl w

  pub acls_with_digest-IsQuiet : (c : PbsClient) → IsQuiet (acls_with_digest net codec c)
  unfolding acls_with_digest
  acls_with_digest-IsQuiet c =
      bind-IsQuiet (call net c get_method (str "/access/acl") [] none) _
        (call-IsQuiet c (str "/access/acl") [])
        (λ env.
          bind-IsQuiet
            (lift
              (map_err (with_context (str "decode PBS ACL list")) (codec.acls_of env.data_value)))
            _ (λ w. refl) (λ entries w. refl))

  pub users-IsQuiet : (c : PbsClient) → IsQuiet (users net codec c)
  unfolding users
  users-IsQuiet c =
      get_as-IsQuiet codec.users_of c (str "/access/users")
        ((str "include_tokens", str "true") ∷ [])

  pub namespaces-IsQuiet : (c : PbsClient) (store : Text) → IsQuiet (namespaces net codec c store)
  unfolding namespaces
  namespaces-IsQuiet c store =
      get_as-IsQuiet codec.namespaces_of c (store_path store (str "/namespace")) []

  judge_quiet : (p : Result ℕ × W) (w : W) → p.1 ≡ w → (judge net codec orca p).1 ≡ w
  judge_quiet (ok s, v) w h = h
  judge_quiet (err e, v) w h = h
  judge_quiet (panic, v) w h = h

  probe-IsQuiet : (c : PbsClient) (t : Result ApiToken) → IsQuiet (probe net codec orca c t)
  probe-IsQuiet c (ok t) w =
      judge_quiet (status_of net (with_token c t) (str "/version") w) w
        (status_of-IsQuiet (with_token c t) (str "/version") w)
  probe-IsQuiet c (err e) w = refl
  probe-IsQuiet c panic w = refl

  check_secret-IsQuiet :
      (c : PbsClient) (tokenid : Text) (stored : Option Text)
      → IsQuiet (check_secret net codec orca c tokenid stored)
  unfolding check_secret
  check_secret-IsQuiet c tokenid none w = refl
  check_secret-IsQuiet c tokenid (some secret) w = probe-IsQuiet c (new_token tokenid secret) w

  secret_state-IsQuiet :
      (c : PbsClient) (id : Identity) (user : Option User) (now : ℤ) (stored : Option Text)
      → IsQuiet (secret_state net codec orca c id user now stored)
  secret_state-IsQuiet c id user now stored =
      choice-IsQuiet _ (pure inactive) (check_secret net codec orca c id.tokenid stored) (λ w. refl)
        (check_secret-IsQuiet c id.tokenid stored)

  -- The reads of `read_state` from each point on.
  abbrev from_namespaces :
      PbsClient → Identity → List AclEntry × Option Text → List User → ℤ → SecretState → Io W State
  from_namespaces c id acls us now secret = bind (namespaces net codec c id.datastore) λ ns.
      pure (record {
        namespaces = ns;
        users = us;
        acls = acls.0;
        acl_digest = acls.1;
        secret = secret;
        now = now;
        ns_contents = none;
      })

  abbrev from_secret :
      PbsClient → Identity → Option Text → List AclEntry × Option Text → List User → ℤ → Io W State
  from_secret c id stored acls us now =
      bind (secret_state net codec orca c id (find? (λ u. u.userid == id.userid) us) now stored)
        (from_namespaces c id acls us now)

  abbrev from_now :
      PbsClient → Identity → Option Text → List AclEntry × Option Text → List User → Io W State
  from_now c id stored acls us = bind (λ w. (ok (orca.now w), w)) (from_secret c id stored acls us)

  abbrev from_users : PbsClient → Identity → Option Text → List AclEntry × Option Text → Io W State
  from_users c id stored acls = bind (users net codec c) (from_now c id stored acls)

  from_namespaces-IsQuiet :
      (c : PbsClient) (id : Identity) (acls : List AclEntry × Option Text) (us : List User)
      (now : ℤ) (secret : SecretState)
      → IsQuiet (from_namespaces c id acls us now secret)
  from_namespaces-IsQuiet c id acls us now secret =
      bind-IsQuiet (namespaces net codec c id.datastore) _ (namespaces-IsQuiet c id.datastore)
        (λ ns w. refl)

  from_secret-IsQuiet :
      (c : PbsClient) (id : Identity) (stored : Option Text) (acls : List AclEntry × Option Text)
      (us : List User) (now : ℤ)
      → IsQuiet (from_secret c id stored acls us now)
  from_secret-IsQuiet c id stored acls us now =
      let user : Option User = find? (λ u. u.userid == id.userid) us in
      bind-IsQuiet (secret_state net codec orca c id user now stored)
        (from_namespaces c id acls us now) (secret_state-IsQuiet c id user now stored)
        (from_namespaces-IsQuiet c id acls us now)

  from_users-IsQuiet :
      (c : PbsClient) (id : Identity) (stored : Option Text) (acls : List AclEntry × Option Text)
      → IsQuiet (from_users c id stored acls)
  from_users-IsQuiet c id stored acls =
      bind-IsQuiet (users net codec c) (from_now c id stored acls) (users-IsQuiet c)
        (λ us w. from_secret-IsQuiet c id stored acls us (orca.now w) w)

  read_state-IsQuiet :
      (c : PbsClient) (id : Identity) (stored : Option Text)
      → IsQuiet (read_state net codec orca c id stored)
  unfolding read_state
  read_state-IsQuiet c id stored =
      bind-IsQuiet (acls_with_digest net codec c) (from_users c id stored)
        (acls_with_digest-IsQuiet c) (from_users-IsQuiet c id stored)

  -- An enrolment that is not to execute leaves the server and the secrets as they are, if GET
  -- requests and looking a secret up change nothing.
  pub enroll-IsQuiet :
      (ep : Text) (c : PbsClient) (id : Identity) (args : HostEnrollArgs) (inputs : Result Value)
      (caller : Option CallerIdentity)
      → args.execute ≡ false
      → IsQuiet (enroll net codec orca ep c id args inputs caller)
  unfolding enroll
  enroll-IsQuiet ep c id args inputs caller dry =
      bind-IsQuiet {B = HostEnrollOutput} (lift (check_not_self id c)) _ (λ w. refl)
        λ _.
          bind-IsQuiet {B = HostEnrollOutput} (lift (secret_name orca ep id.host)) _ (λ w. refl)
            λ sname.
              bind-IsQuiet {B = HostEnrollOutput} (orca.get_secret sname) _ (quiet.secrets sname)
                λ found.
                  bind-IsQuiet {B = HostEnrollOutput}
                    (read_state net codec orca c id (keep_nonempty found)) _
                    (read_state-IsQuiet c id (keep_nonempty found))
                    λ st.
                      bind-IsQuiet {B = HostEnrollOutput} (lift (diff_enroll id st args.adopt)) _
                        (λ w. refl)
                        λ drift.
                          bind-IsQuiet {B = HostEnrollOutput}
                            (lift (plan enroll_tool inputs (summary_of id) drift.1 [])) _
                            (λ w. refl) λ p w. rw dry refl
