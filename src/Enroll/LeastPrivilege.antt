-- ===== src/Enroll/LeastPrivilege.antt =====
-- What a plan of `diff_enroll` can touch: the host's own account, token, namespace and ACL entries.
use pbs.Base.{true, false, List, [], ◌∷◌, ◌++◌, ◌≡◌, ◌⊎◌}
use pbs.Base.Lists.{All, Any}
use pbs.Base.Int.{pos}
use pbs.Base.Text.{Text, str}
use pbs.Base.Json.{Value, bool, int, string, json_object}
use pbs.Base.Result.{Result}
use pbs.Plan.{Step, ApiCall, post_call, put_call}
use pbs.Api.{AclEntry}
use pbs.Api.Namespaces.{full_name}
use pbs.Api.Chain.{levels, parts_of}
use pbs.Tools.NamespaceSteps.{namespace_path}
use pbs.Enroll.Identity.{Identity, backup_role, power_role, owns, in_scope, user_path, token_path}
use pbs.Enroll.State.{State, acl_put}

-- A level of the host's own namespace, and the body that creates it: its name, and its parent unless
-- that is the root.
abbrev IsOwnLevel : Identity → Text → Text → Type 0
IsOwnLevel id parent name = Any (λ l. l ≡ full_name parent name) (levels [] (parts_of id.ns))

abbrev level_body : Text → Text → Value
level_body [] name = json_object ((str "name", string name) ∷ [])
level_body (c ∷ parent) name =
    json_object ((str "name", string name) ∷ (str "parent", string (c ∷ parent)) ∷ [])

abbrev own_comment : Identity → Text × Value
own_comment id = (str "comment", string (str "orca: backup client for " ++ id.host))

abbrev awake : List (Text × Value)
awake = (str "enable", bool true) ∷ (str "expire", int (pos 0)) ∷ []

-- The calls that enrolment of the host may make, with their bodies.
pub data MayCall (id : Identity) : ApiCall → Type 0 where
  make_namespace :
      (parent name : Text)
      → IsOwnLevel id parent name
      → MayCall id (post_call (namespace_path id.datastore) (level_body parent name))
  make_user : MayCall id (
      post_call
        (str "/access/users")
        (json_object ((str "userid", string id.userid) ∷ own_comment id ∷ [])))
  mark_user : MayCall id (put_call (user_path id) (json_object (own_comment id ∷ [])))
  enable_user : MayCall id (put_call (user_path id) (json_object awake))
  mark_and_enable_user : MayCall id (put_call (user_path id) (json_object (own_comment id ∷ awake)))
  make_token : MayCall id (
      post_call
        (token_path id)
        (json_object ((str "comment", string (str "orca: " ++ (id.host ++ str " backups"))) ∷ [])))
  regenerate_token :
      MayCall id (put_call (token_path id) (json_object ((str "regenerate", bool true) ∷ [])))
  enable_token : MayCall id (put_call (token_path id) (json_object awake))
  regenerate_and_enable_token :
      MayCall id (put_call (token_path id) (json_object ((str "regenerate", bool true) ∷ awake)))
  grant_own :
      {auth role : Text}
      → (auth ≡ id.userid) ⊎ (auth ≡ id.tokenid)
      → (role ≡ backup_role) ⊎ (role ≡ power_role)
      → MayCall id (put_call (str "/access/acl") (acl_put id.acl_path role auth false))
  revoke_stray :
      (e : AclEntry)
      → owns id e ≡ true
      → in_scope id e ≡ false
      → MayCall id (put_call (str "/access/acl") (acl_put e.path e.roleid e.ugid true))

abbrev Within : Identity → List Step → Type 0
Within id = All (λ s. MayCall id s.call)
