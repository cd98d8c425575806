-- ===== src/Enroll/State.antt =====
-- src/enroll.rs: findings, what was read from the server, and the targets and bodies of the steps.
use pbs.Base.{Bool, true, Option, none, some, List, [], ◌∷◌, ◌++◌}
use pbs.Base.Tests.{if◌then◌else◌}
use pbs.Base.Lists.{find?}
use pbs.Base.Int.{ℤ}
use pbs.Base.Text.{Text, str, ◌==◌}
use pbs.Base.Json.{Value, bool, string, json_object}
use pbs.Plan.{Step}
use pbs.Api.{Namespace, User, UserToken, AclEntry}
use pbs.Api.Namespaces.{NsContents}
use pbs.Enroll.Identity.{Identity}

pub record Finding : Type 0 where
  pub kind : Text
  pub detail : Text

abbrev pub finding : Text → Text → Finding
finding kind detail = record { kind = kind; detail = detail }

pub data SecretState : Type 0 where
  missing valid rejected unknown inactive : SecretState

pub record State : Type 0 where
  pub namespaces : List Namespace
  pub users : List User
  pub acls : List AclEntry
  pub acl_digest : Option Text
  pub secret : SecretState
  pub now : ℤ
  pub ns_contents : Option NsContents

abbrev pub Drift : Type 0
Drift = List Finding × List Step

infixr 60 ◌⊕◌
abbrev pub ◌⊕◌ : Drift → Drift → Drift
a ⊕ b = (a.0 ++ b.0, a.1 ++ b.1)

abbrev pub no_drift : Drift
no_drift = ([], [])

unfoldable pub user_target : Identity → Text
unfolding str
user_target id = str "user:" ++ id.userid

unfoldable pub token_target : Identity → Text
unfolding str
token_target id = str "token:" ++ id.tokenid

unfoldable pub acl_target : Text → Text → Text → Text
unfolding str
acl_target auth path role = str "acl:" ++ (auth ++ (b':' ∷ (path ++ (b':' ∷ role))))

unfoldable pub acl_put : Text → Text → Text → Bool → Value
unfolding json_object str
acl_put path role auth delete =
    let last = if delete then (str "delete", bool true) else (str "propagate", bool true) in
    json_object (
      (str "path", string path)
      ∷ (str "role", string role)
      ∷ (str "auth-id", string auth)
      ∷ last
      ∷ [])

abbrev pub find_user : Identity → State → Option User
find_user id st = find? (λ u. u.userid == id.userid) st.users

abbrev pub token_in : Identity → Option User → Option UserToken
token_in id none = none
token_in id (some u) = find? (λ t. t.tokenid == id.tokenid) u.tokens
