-- ===== src/Enroll/Desired.antt =====
-- The state that enrolment aims at, described on its own: `diff_enroll` finds nothing to report and
-- nothing to do exactly there.
use pbs.Base.{Bool, true, some, List, [], ◌≡◌, ◌⊎◌, ◌↔◌, ap}
use pbs.Base.Lists.{All}
use pbs.Base.Result.{ok}
use pbs.Api.{User, UserToken, AclEntry, is_active}
use pbs.Api.Namespaces.{has_namespace}
use pbs.Api.Chain.{levels, parts_of}
use pbs.Enroll.Identity.{
  Identity, backup_role, power_role, owns, in_scope, is_marked, require_managed,
}
use pbs.Enroll.Diff.{ns_drift, user_drift, token_drift, acl_drift, stray_drift, diff_enroll}
use pbs.Enroll.State.{valid, inactive, State, Drift, ◌⊕◌, find_user, token_in}
use pbs.Enroll.NoDrift.{
  IsGranted, nothing, ⊕-nothing, ns_drift-nothing, grant_drift-nothing, user_drift-nothing,
  token_drift-nothing, stray_drift-nothing, guarded-nothing,
}

pub record IsEnrolled (id : Identity) (st : State) : Type 0 where
  pub user : User
  pub token : UserToken
  pub namespaces : All (λ t. has_namespace st.namespaces t ≡ true) (levels [] (parts_of id.ns))
  pub has_user : find_user id st ≡ some user
  pub marked : is_marked user ≡ true
  pub user_active : is_active user.enable user.expire st.now ≡ true
  pub has_token : token_in id (some user) ≡ some token
  pub token_active : is_active token.enable token.expire st.now ≡ true
  pub secret_held : (st.secret ≡ valid) ⊎ (st.secret ≡ inactive)
  pub user_backup : IsGranted id st.acls id.userid backup_role
  pub user_power : IsGranted id st.acls id.userid power_role
  pub token_backup : IsGranted id st.acls id.tokenid backup_role
  pub token_power : IsGranted id st.acls id.tokenid power_role
  pub no_strays : All (λ e. owns id e ≡ true → in_scope id e ≡ true) st.acls

abbrev drift_of : Identity → State → Drift
drift_of id st =
    let user = find_user id st in
    ns_drift id st
    ⊕ user_drift id user st.now
    ⊕ token_drift id user (token_in id user) st.secret st.now
    ⊕ acl_drift id st.acls
    ⊕ stray_drift id st.acls

-- What each part of the drift says, put together.
record Parts (id : Identity) (st : State) : Type 0 where
  ns_none : ns_drift id st ≡ nothing
  user_none : user_drift id (find_user id st) st.now ≡ nothing
  token_none :
      token_drift id (find_user id st) (token_in id (find_user id st)) st.secret st.now ≡ nothing
  acl_none : acl_drift id st.acls ≡ nothing
  stray_none : stray_drift id st.acls ≡ nothing

drift_of-Parts : (id : Identity) (st : State) → drift_of id st ≡ nothing → Parts id st
drift_of-Parts id st h =
    let (ns, h1) = (⊕-nothing _ _).0 h in
    let (user, h2) = (⊕-nothing _ _).0 h1 in
    let (token, h3) = (⊕-nothing _ _).0 h2 in
    let (acl, stray) = (⊕-nothing _ _).0 h3 in
    record {
      ns_none = ns;
      user_none = user;
      token_none = token;
      acl_none = acl;
      stray_none = stray;
    }

Parts-drift_of : (id : Identity) (st : State) → Parts id st → drift_of id st ≡ nothing
Parts-drift_of id st p = cc (p.ns_none, p.user_none, p.token_none, p.acl_none, p.stray_none)

abbrev AllGranted : Identity → List AclEntry → Type 0
AllGranted id acls =
    IsGranted id acls id.userid backup_role
    × IsGranted id acls id.userid power_role
    × IsGranted id acls id.tokenid backup_role
    × IsGranted id acls id.tokenid power_role

acl_drift-nothing :
    (id : Identity) (acls : List AclEntry) → (acl_drift id acls ≡ nothing) ↔ AllGranted id acls
unfolding acl_drift
acl_drift-nothing id acls = (
  λ h.
      let (a, h1) = (⊕-nothing _ _).0 h in
      let (b, h2) = (⊕-nothing _ _).0 h1 in
      let (c, d) = (⊕-nothing _ _).0 h2 in
      (
        (grant_drift-nothing id acls id.userid backup_role).0 a,
        (grant_drift-nothing id acls id.userid power_role).0 b,
        (grant_drift-nothing id acls id.tokenid backup_role).0 c,
        (grant_drift-nothing id acls id.tokenid power_role).0 d,
      ),
  λ k. cc (
    (grant_drift-nothing id acls id.userid backup_role).1 k.0,
    (grant_drift-nothing id acls id.userid power_role).1 k.1,
    (grant_drift-nothing id acls id.tokenid backup_role).1 k.2,
    (grant_drift-nothing id acls id.tokenid power_role).1 k.3,
  ),
)

Parts-IsEnrolled : (id : Identity) (st : State) → Parts id st → IsEnrolled id st
Parts-IsEnrolled id st p =
    let (u, has_user, marked, awake) =
      (user_drift-nothing id (find_user id st) st.now).0 p.user_none in
    let (t, has_token, active, held) =
      (token_drift-nothing id u (token_in id (some u)) st.secret st.now awake).0
        (rw has_user at p.token_none) in
    let granted = (acl_drift-nothing id st.acls).0 p.acl_none in
    record {
      user = u;
      token = t;
      namespaces = (ns_drift-nothing id st).0 p.ns_none;
      has_user = has_user;
      marked = marked;
      user_active = awake;
      has_token = has_token;
      token_active = active;
      secret_held = held;
      user_backup = granted.0;
      user_power = granted.1;
      token_backup = granted.2;
      token_power = granted.3;
      no_strays = (stray_drift-nothing id st.acls).0 p.stray_none;
    }

IsEnrolled-Parts : (id : Identity) (st : State) → IsEnrolled id st → Parts id st
IsEnrolled-Parts id st v = record {
  ns_none = (ns_drift-nothing id st).1 v.namespaces;
  user_none =
      (user_drift-nothing id (find_user id st) st.now).1
        (v.user, v.has_user, v.marked, v.user_active);
  token_none = rw v.has_user (
      (token_drift-nothing id v.user (token_in id (some v.user)) st.secret st.now v.user_active).1
        (v.token, v.has_token, v.token_active, v.secret_held));
  acl_none =
      (acl_drift-nothing id st.acls).1 (v.user_backup, v.user_power, v.token_backup, v.token_power);
  stray_none = (stray_drift-nothing id st.acls).1 v.no_strays;
}

managed-IsEnrolled :
    (id : Identity) (st : State) (adopt : Bool)
    → IsEnrolled id st
    → require_managed id (find_user id st) adopt ≡ ok tt
unfolding require_managed
managed-IsEnrolled id st adopt v = rw (v.has_user, v.marked)

-- Enrolment reports nothing and plans nothing exactly when the server is in the desired state.
pub diff_enroll-IsEnrolled :
    (id : Identity) (st : State) (adopt : Bool)
    → (diff_enroll id st adopt ≡ ok nothing) ↔ IsEnrolled id st
unfolding diff_enroll
diff_enroll-IsEnrolled id st adopt = (
  λ h. Parts-IsEnrolled id st (drift_of-Parts id st (guarded-nothing _ (drift_of id st) h)),
  λ v.
      rw (managed-IsEnrolled id st adopt v)
        (ap ok (Parts-drift_of id st (IsEnrolled-Parts id st v))),
)
