-- ===== src/Enroll/Diff.antt =====
-- src/enroll.rs: `diff_enroll`, part by part. Each part gives its findings and its steps, and the
-- parts follow one another as the code pushes them.
use pbs.Base.{Bool, true, false, not, ◌&&◌, ◌||◌, Option, none, some, List, [], ◌∷◌, ◌++◌, map}
use pbs.Base.Tests.{if◌then◌else◌}
use pbs.Base.Lists.{filter, find?}
use pbs.Base.Int.{ℤ, pos}
use pbs.Base.Text.{Text, str, ◌==◌}
use pbs.Base.Json.{Value, bool, int, string, object, Map, end, insert, map_is_empty, json_object}
use pbs.Base.Result.{Result, ok, ◌>>◌}
use pbs.Plan.{Step, new_step, with_detail, sensitive, post_call, put_call}
use pbs.Api.{User, UserToken, AclEntry, is_active}
use pbs.Tools.NamespaceSteps.{namespace_create_steps}
use pbs.Enroll.Identity.{
  Identity, backup_role, power_role, marker, owns, in_scope, user_path, token_path, is_marked,
  require_managed,
}
use pbs.Enroll.State.{
  Finding, finding, SecretState, missing, valid, rejected, unknown, inactive, State, Drift, ◌⊕◌,
  no_drift, user_target, token_target, acl_target, acl_put, find_user, token_in,
}

abbrev pub ns_found : Identity → List Step → Drift
ns_found id [] = no_drift
ns_found id (s ∷ steps) =
    (finding (str "namespace-missing") (id.datastore ++ (b':' ∷ id.ns)) ∷ [], s ∷ steps)

unfoldable pub ns_drift : Identity → State → Drift
unfolding namespace_create_steps str
ns_drift id st = ns_found id (namespace_create_steps id.datastore st.namespaces id.ns)

abbrev pub comment_for : Identity → Text
comment_for id = marker ++ (b' ' ∷ id.host)

abbrev pub user_active : User → ℤ → Bool
user_active u now = is_active u.enable u.expire now

-- The body that takes over and enables a user, and its findings.
abbrev adopt_findings : Identity → User → List Finding
adopt_findings id u =
    if is_marked u
    then []
    else finding (str "user-unmanaged") (id.userid ++ str " was created by hand; adopting it") ∷ []

abbrev enable_findings : Identity → User → ℤ → List Finding
enable_findings id u now =
    if user_active u now
    then []
    else finding (str "user-inactive") (id.userid ++ str " is disabled or expired") ∷ []

abbrev pub enabled_in : Map → Map
enabled_in body = insert (str "expire") (int (pos 0)) (insert (str "enable") (bool true) body)

abbrev pub user_body : Identity → User → ℤ → Map
user_body id u now =
    let marked =
      if is_marked u then end else insert (str "comment") (string (comment_for id)) end in
    if user_active u now then marked else enabled_in marked

abbrev pub user_step : Identity → Map → List Step
user_step id body =
    if map_is_empty body
    then []
    else new_step (user_target id) (str "update-user") (put_call (user_path id) (object body)) ∷ []

unfoldable pub user_drift : Identity → Option User → ℤ → Drift
unfolding user_target user_path is_marked is_active insert map_is_empty json_object str
user_drift id none now = (
  finding (str "user-missing") id.userid ∷ [],
  new_step (user_target id) (str "create-user") (
        post_call (str "/access/users") (
          json_object
            ((str "userid", string id.userid) ∷ (str "comment", string (comment_for id)) ∷ [])))
      ∷ [],
)
user_drift id (some u) now =
    (adopt_findings id u ++ enable_findings id u now, user_step id (user_body id u now))

-- Whether the token is regenerated, and the finding about its secret.
unfoldable pub rotation : Identity → Bool → SecretState → Bool × List Finding
unfolding str
rotation id asleep missing =
    (true, finding (str "secret-missing") (str "orca holds no secret for " ++ id.tokenid) ∷ [])
rotation id true secret = (
  false,
  finding (str "secret-unverified") (
        id.tokenid
        ++ str
            " or its user is inactive; its secret is neither checked nor regenerated until it is enabled, so re-run enroll afterwards")
      ∷ [],
)
rotation id false inactive = (false, [])
rotation id false rejected = (
  true,
  finding (str "token-rotated") (str "PBS rejects the secret orca holds for " ++ id.tokenid) ∷ [],
)
rotation id false unknown = (
  false,
  finding (str "secret-unverified") (str "could not check the stored secret for " ++ id.tokenid)
      ∷ [],
)
rotation id false valid = (false, [])

abbrev pub token_body : Bool → Bool → Value
token_body rotate asleep =
    let started = if rotate then insert (str "regenerate") (bool true) end else end in
    object (if asleep then enabled_in started else started)

abbrev pub token_steps : Identity → Bool → Bool → List Step
token_steps id rotate asleep =
    let call = put_call (token_path id) (token_body rotate asleep) in
    if rotate
    then sensitive (
        with_detail (str "keeps its ACLs; the new secret is stored in orca, never printed")
          (new_step (token_target id) (str "regenerate-token") call))
      ∷ []
    else if asleep
    then new_step (token_target id) (str "enable-token") call ∷ []
    else []

abbrev pub user_inactive : Option User → ℤ → Bool
user_inactive none now = false
user_inactive (some u) now = not (user_active u now)

unfoldable pub token_drift : Identity → Option User → Option UserToken → SecretState → ℤ → Drift
unfolding token_target token_path rotation is_active insert json_object str
token_drift id user none secret now = (
  finding (str "token-missing") id.tokenid ∷ [],
  sensitive (
        with_detail (str "secret is stored in orca as soon as PBS returns it, never printed") (
          new_step (token_target id) (str "create-token") (
            post_call (token_path id) (
              json_object
                ((str "comment", string (str "orca: " ++ (id.host ++ str " backups"))) ∷ [])))))
      ∷ [],
)
token_drift id user (some t) secret now =
    let asleep = not (is_active t.enable t.expire now) in
    let (rotate, found) = rotation id (asleep || user_inactive user now) secret in
    (
      (if asleep
            then finding (str "token-inactive") (id.tokenid ++ str " is disabled or expired") ∷ []
            else [])
          ++ found,
      token_steps id rotate asleep,
    )

abbrev pub grants : Identity → Text → Text → AclEntry → Bool
grants id auth role e =
    e.path == id.acl_path && (e.ugid == auth && (e.roleid == role && e.ugid_type == str "user"))

abbrev pub grant_step : Identity → Text → Text → Step
grant_step id auth role =
    new_step (acl_target auth id.acl_path role) (str "grant-" ++ role)
      (put_call (str "/access/acl") (acl_put id.acl_path role auth false))

abbrev pub grant_finding : Identity → Text → Text → Text → Finding
grant_finding id auth role kind =
    finding kind (role ++ (str " for " ++ (auth ++ (str " on " ++ id.acl_path))))

abbrev pub grant_of : Identity → Text → Text → Option AclEntry → Drift
grant_of id auth role none =
    (grant_finding id auth role (str "acl-missing") ∷ [], grant_step id auth role ∷ [])
grant_of id auth role (some e) =
    if e.propagate
    then no_drift
    else (grant_finding id auth role (str "acl-not-propagated") ∷ [], grant_step id auth role ∷ [])

unfoldable pub grant_drift : Identity → List AclEntry → Text → Text → Drift
unfolding acl_target acl_put find? ◌==◌ str
grant_drift id acls auth role = grant_of id auth role (find? (grants id auth role) acls)

-- The two nested loops, over the auth ids and the roles.
unfoldable pub acl_drift : Identity → List AclEntry → Drift
unfolding grant_drift
acl_drift id acls =
    grant_drift id acls id.userid backup_role
    ⊕ grant_drift id acls id.userid power_role
    ⊕ grant_drift id acls id.tokenid backup_role
    ⊕ grant_drift id acls id.tokenid power_role

unfoldable pub revoke_acl : AclEntry → Step
unfolding acl_target acl_put str
revoke_acl e =
    new_step (acl_target e.ugid e.path e.roleid) (str "revoke-" ++ e.roleid)
      (put_call (str "/access/acl") (acl_put e.path e.roleid e.ugid true))

abbrev stray_finding : AclEntry → Finding
stray_finding e =
    finding (str "acl-out-of-scope")
      (e.roleid ++ (str " for " ++ (e.ugid ++ (str " on " ++ e.path))))

abbrev pub strays : Identity → List AclEntry → List AclEntry
strays id acls = filter (λ e. owns id e && not (in_scope id e)) acls

unfoldable pub stray_drift : Identity → List AclEntry → Drift
unfolding revoke_acl filter owns in_scope str
stray_drift id acls = (map stray_finding (strays id acls), map revoke_acl (strays id acls))

unfoldable pub diff_enroll : Identity → State → Bool → Result Drift
unfolding require_managed ns_drift user_drift token_drift acl_drift stray_drift find? ◌==◌
diff_enroll id st adopt =
    let user = find_user id st in
    require_managed id user adopt
    >> ok (
        ns_drift id st
        ⊕ user_drift id user st.now
        ⊕ token_drift id user (token_in id user) st.secret st.now
        ⊕ acl_drift id st.acls
        ⊕ stray_drift id st.acls)
