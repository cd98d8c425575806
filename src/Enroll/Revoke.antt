-- ===== src/Enroll/Revoke.antt =====
-- src/enroll.rs: `diff_revoke`, the steps that take a host's access away.
pub mod Keeps
use pbs.Base.{Bool, true, false, Option, none, some, List, [], ◌∷◌, ◌++◌, map}
use pbs.Base.Tests.{if◌then◌else◌}
use pbs.Base.Lists.{any, filter, find?}
use pbs.Base.Text.{Text, str, ◌==◌}
use pbs.Base.Result.{Result, ok, err, ◌>>=◌, ◌>>◌}
use pbs.Plan.{Step, new_step, delete_call}
use pbs.Api.{User, UserToken}
use pbs.Api.Namespaces.{has_namespace, NsContents}
use pbs.Tools.NamespaceSteps.{namespace_delete_steps}
use pbs.Enroll.Identity.{Identity, owns, user_path, token_path, require_managed}
use pbs.Enroll.Diff.{revoke_acl}
use pbs.Enroll.State.{State, find_user, token_target, user_target}

abbrev holds_token : Identity → Option User → Bool
holds_token id none = false
holds_token id (some u) = any (λ t. t.tokenid == id.tokenid) u.tokens

abbrev pub token_delete : Identity → Option User → List Step
token_delete id user =
    if holds_token id user
    then new_step (token_target id) (str "delete-token") (delete_call (token_path id) []) ∷ []
    else []

abbrev pub user_delete : Identity → Option User → List Step
user_delete id none = []
user_delete id (some u) =
    new_step (user_target id) (str "delete-user") (delete_call (user_path id) []) ∷ []

abbrev pub access_steps : Identity → State → Option User → List Step
access_steps id st user =
    map revoke_acl (filter (owns id) st.acls) ++ (token_delete id user ++ user_delete id user)

abbrev pub kept_note : Identity → Text
kept_note id =
    str "namespace "
    ++ (id.datastore
        ++ (b':' ∷ (id.ns ++ str " and its backups are kept; pass delete_data to remove them")))

abbrev pub unread_message : Identity → Text
unread_message id = str "namespace " ++ (id.ns ++ str " contents were not read")

abbrev data_steps_of : Identity → State → Option NsContents → Result (List Step)
data_steps_of id st none = err (unread_message id)
data_steps_of id st (some contents) =
    ok (namespace_delete_steps id.datastore st.namespaces id.ns (some contents)).0

-- The match on whether the namespace exists and whether its data goes too.
abbrev pub data_part : Identity → State → Bool → Bool → Result (List Step × List Text)
data_part id st true true = data_steps_of id st st.ns_contents >>= λ steps. ok (steps, [])
data_part id st true false = ok ([], kept_note id ∷ [])
data_part id st false delete_data = ok ([], [])

-- The steps against the access, then those against the data.
abbrev pub joined : List Step → Result (List Step × List Text) → Result (List Step × List Text)
joined access data_steps = data_steps >>= λ part. ok (access ++ part.0, part.1)

unfoldable pub diff_revoke : Identity → State → Bool → Bool → Result (List Step × List Text)
unfolding require_managed namespace_delete_steps revoke_acl token_target user_target token_path
    user_path owns find? filter any ◌==◌ str
diff_revoke id st delete_data adopt =
    require_managed id (find_user id st) adopt
    >> joined (access_steps id st (find_user id st))
        (data_part id st (has_namespace st.namespaces id.ns) delete_data)
