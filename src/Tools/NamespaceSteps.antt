-- ===== src/Tools/NamespaceSteps.antt =====
-- src/tools.rs: the steps that create and delete a namespace.
use pbs.Base.{Bool, true, false, not, Option, none, some, List, [], ◌∷◌, ◌++◌, map}
use pbs.Base.Tests.{if◌then◌else◌}
use pbs.Base.Lists.{any}
use pbs.Base.Text.{Text, str, ◌==◌, is_empty, show_nat, show_bool}
use pbs.Base.Json.{Value, string, json_object, set_key}
use pbs.Client.Encode.{encode}
use pbs.Plan.{Step, new_step, with_detail, post_call, delete_call}
use pbs.Api.{Namespace}
use pbs.Api.Namespaces.{has_namespace, full_name, missing_namespace_chain, NsContents, fingerprint}

unfoldable pub namespace_path : Text → Text
unfolding encode str
namespace_path store = str "/admin/datastore/" ++ (encode store ++ str "/namespace")

abbrev create_body : Text → Text → Value
create_body parent name =
    let body = json_object ((str "name", string name) ∷ []) in
    if is_empty parent then body else set_key (str "parent") (string parent) body

unfoldable pub create_step : Text → Text × Text → Step
unfolding namespace_path full_name json_object set_key is_empty str
create_step store (parent, name) =
    new_step (store ++ (b':' ∷ full_name parent name)) (str "create-namespace")
      (post_call (namespace_path store) (create_body parent name))

unfoldable pub namespace_create_steps : Text → List Namespace → Text → List Step
unfolding create_step missing_namespace_chain
namespace_create_steps store existing ns =
    map (create_step store) (missing_namespace_chain existing ns)

abbrev delete_target : Text → Text → Option NsContents → Text
delete_target store ns none = store ++ (b':' ∷ ns)
delete_target store ns (some c) = store ++ (b':' ∷ (ns ++ (b'#' ∷ fingerprint c)))

abbrev delete_detail : Option NsContents → Text
delete_detail none = str "fails if any backup group remains"
delete_detail (some c) =
    str "removes "
    ++ (show_nat c.groups
        ++ (str " groups (" ++ (show_nat c.snapshots ++ str " snapshots) in and below it")))

abbrev has_contents : Option NsContents → Bool
has_contents none = false
has_contents (some c) = true

unfoldable pub namespace_delete_steps :
    Text → List Namespace → Text → Option NsContents → List Step × List Text
unfolding namespace_path fingerprint show_nat show_bool str any ◌==◌
namespace_delete_steps store existing ns contents =
    if not (has_namespace existing ns)
    then ([], (str "namespace " ++ (ns ++ str " does not exist")) ∷ [])
    else (
      with_detail (delete_detail contents) (
            new_step (delete_target store ns contents) (str "delete-namespace") (
              delete_call (namespace_path store)
                ((str "ns", ns) ∷ (str "delete-groups", show_bool (has_contents contents)) ∷ [])))
          ∷ [],
      [],
    )
