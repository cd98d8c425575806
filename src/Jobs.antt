-- ===== src/Jobs.antt =====
-- src/jobs.rs: sync and verify jobs; the steps that create, update and run them.
pub mod Fields
pub mod Tool
pub mod Sync
pub mod Body
use pbs.Base.{ℕ, Bool, true, false, not, ◌&&◌, Option, none, some, List, [], ◌∷◌, ◌++◌, map}
use pbs.Base.Tests.{if◌then◌else◌}
use pbs.Base.Lists.{filter}
use pbs.Base.Text.{Text, str, join}
use pbs.Base.Json.{
  Value, null, string, array, object, Map, end, get, contains_key, insert, insert_all, entries,
  array_of, as_object, and_then, json_object,
}
use pbs.Base.Json.Equality.{value_eq}
use pbs.Base.Result.{Result, ok, err, ◌>>=◌, ok_or}
use pbs.Client.Encode.{encode}
use pbs.Plan.{Step, new_step, with_detail, post_call, put_call}

pub data Kind : Type 0 where
  sync verify : Kind

unfoldable pub kind_name : Kind → Text
unfolding str
kind_name sync = str "sync"
kind_name verify = str "verify"

unfoldable pub config_path : Kind → Text
unfolding kind_name str
config_path kind = str "/config/" ++ kind_name kind

unfoldable pub admin_path : Kind → Text
unfolding kind_name str
admin_path kind = str "/admin/" ++ kind_name kind

abbrev store_query : Option Text → List (Text × Text)
store_query none = []
store_query (some s) = (str "store", s) ∷ []

unfoldable pub list_query : Kind → Option Text → List (Text × Text)
unfolding str
list_query sync store = (str "sync-direction", str "all") ∷ store_query store
list_query verify store = store_query store

-- `current.get(k) != Some(v)`
abbrev pub is_held : Value → Option Value → Bool
is_held v none = false
is_held v (some w) = value_eq w v

abbrev pub differs : Map → Text × Value → Bool
differs current (k, v) = not (is_held v (get k current))

unfoldable pub diff_fields : Map → Map → List (Text × (Option Value × Value))
unfolding entries filter get value_eq
diff_fields current desired =
    map (λ kv. (kv.0, (get kv.0 current, kv.1))) (filter (differs current) (entries desired))

abbrev pub job_target : Kind → Text → Text
job_target kind id = kind_name kind ++ (str " job " ++ id)

abbrev no_job : Kind → Text → Text
no_job kind id = str "no " ++ (kind_name kind ++ (str " job '" ++ (id ++ str "'")))

unfoldable pub run_steps : Kind → Option Value → Text → Result (List Step)
unfolding kind_name admin_path encode str
run_steps kind none id = err (no_job kind id)
run_steps kind (some job) id = ok (
    with_detail (str "starts a task; follow it with pbs.task.detail") (
      new_step (job_target kind id) (str "run-job")
        (post_call (admin_path kind ++ (b'/' ∷ (encode id ++ str "/run"))) (object end)))
    ∷ [])

abbrev pub change_pair : Text × (Option Value × Value) → Text × Value
change_pair (k, (old, new)) = (k, new)

abbrev pub keys_of : List (Text × Value) → List Text
keys_of kvs = map (λ kv. kv.0) kvs

abbrev pub insert_clear : List Text → Map → Map
insert_clear [] m = m
insert_clear (k ∷ ks) m = insert (str "delete") (array (array_of (k ∷ ks))) m

abbrev pub insert_digest : Option Text → Map → Map
insert_digest none m = m
insert_digest (some d) m = insert (str "digest") (string d) m

-- The body of an update: the fields that change, the keys to unset, and the digest.
unfoldable pub update_body : List (Text × (Option Value × Value)) → List Text → Option Text → Map
unfolding insert_all insert array_of str
update_body changes clear digest =
    insert_digest digest (insert_clear clear (insert_all end (map change_pair changes)))

abbrev clear_text : List Text → List Text
clear_text [] = []
clear_text (k ∷ ks) = (str "clear " ++ join (str ", ") (k ∷ ks)) ∷ []

-- `render` prints a JSON value.
module _ (render : Value → Text) where
  unfoldable pub create_steps : Kind → Option Value → Text → Map → Result (List Step)
  unfolding kind_name config_path insert join entries str
  create_steps kind (some job) id fields = err (
      kind_name kind
      ++ (str " job '"
          ++ (id ++ (str "' already exists; use pbs." ++ (kind_name kind ++ str "_job.update")))))
  create_steps kind none id fields =
      let body = insert (str "id") (string id) fields in
      ok (
        with_detail (join (str ", ") (map (λ kv. kv.0 ++ (b'=' ∷ render kv.1)) (entries body))) (
          new_step (job_target kind id) (str "create-job")
            (post_call (config_path kind) (object body)))
        ∷ [])

  abbrev old_text : Option Value → Text
  old_text none = str "unset"
  old_text (some v) = render v

  abbrev change_text : Text × (Option Value × Value) → Text
  change_text (k, (old, new)) = k ++ (str ": " ++ (old_text old ++ (str " -> " ++ render new)))

  abbrev pub update_step :
      Kind → Text → List (Text × (Option Value × Value)) → List Text → Option Text → List Step
  update_step kind id [] [] digest = []
  update_step kind id changes clear digest =
      with_detail (join (str "; ") (map change_text changes ++ clear_text clear)) (
        new_step (job_target kind id) (str "update-job") (
          put_call (config_path kind ++ (b'/' ∷ encode id))
            (object (update_body changes clear digest))))
      ∷ []

  abbrev pub update_current : Kind → Map → Text → Map → List Text → Option Text → List Step
  update_current kind current id fields clear digest =
      update_step kind id (diff_fields current fields) (filter (λ k. contains_key k current) clear)
        digest

  unfoldable pub update_steps :
      Kind → Option Value → Text → Map → List Text → Option Text → Result (List Step)
  unfolding as_object kind_name config_path encode diff_fields filter contains_key update_body join
      str
  update_steps kind existing id fields clear digest = do
    current ←
        ok_or (and_then existing as_object)
          (str "no " ++ (kind_name kind ++ (str " job '" ++ (id ++ str "'"))))
    ok (update_current kind current id fields clear digest)

  unfoldable pub ensure_steps : Kind → Option Value → Text → Map → Option Text → Result (List Step)
  unfolding create_steps update_steps
  ensure_steps kind none id fields digest = create_steps kind none id fields
  ensure_steps kind (some job) id fields digest = update_steps kind (some job) id fields [] digest
