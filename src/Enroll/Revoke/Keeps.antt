-- ===== src/Enroll/Revoke/Keeps.antt =====
-- A revocation takes away every ACL entry of the host, and keeps its backups unless they are asked
-- for.
use pbs.Base.{true, List, [], map, ◌≡◌}
use pbs.Base.Lists.{Any, filter}
use pbs.Base.Text.{Text, str}
use pbs.Base.Result.{Result}
use pbs.Plan.{Step, ApiCall, put_call, delete_call}
use pbs.Api.{AclEntry}
use pbs.Enroll.Identity.{Identity, owns, user_path, token_path}
use pbs.Enroll.Diff.{revoke_acl}
use pbs.Enroll.State.{State, acl_put}

-- The calls that take access away and touch no data.
pub data AccessCall (id : Identity) : ApiCall → Type 0 where
  revoke_entry :
      (e : AclEntry)
      → owns id e ≡ true
      → AccessCall id (put_call (str "/access/acl") (acl_put e.path e.roleid e.ugid true))
  delete_token : AccessCall id (delete_call (token_path id) [])
  delete_user : AccessCall id (delete_call (user_path id) [])

-- Some step of the plan removes this entry.
abbrev pub IsRevoked : List Step → AclEntry → Type 0
IsRevoked steps e =
    Any (λ s. s.call ≡ put_call (str "/access/acl") (acl_put e.path e.roleid e.ugid true)) steps

abbrev revokes : Identity → List AclEntry → List Step
revokes id acls = map revoke_acl (filter (owns id) acls)
