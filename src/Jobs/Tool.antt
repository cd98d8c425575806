-- ===== src/Jobs/Tool.antt =====
-- src/jobs.rs: the reads of a job, `view`, `list_with` and `mutate_with`.
use pbs.Base.{Bool, false, Option, none, some, List, [], ◌∷◌, ◌++◌}
use pbs.Base.Tests.{if◌then◌else◌}
use pbs.Base.Lists.{find?}
use pbs.Base.Int.{ℤ}
use pbs.Base.Text.{Text, str, ◌==◌, one_of}
use pbs.Base.Json.{Value, Map, end, entry, get, as_str, as_i64, as_object, and_then, str_field}
use pbs.Base.Result.{Result, Io, bind, lift, pure}
use pbs.Client.Encode.{encode}
use pbs.Client.Request.{Net, PbsClient, call, get_method, get_as}
use pbs.Plan.{Step, CallerIdentity, Change}
use pbs.Plan.Apply.{plan_or_apply}
use pbs.Times.{Zones, When, new_when, server_clock}
use pbs.Jobs.{Kind, kind_name, config_path, admin_path, list_query, job_target}

abbrev pub status_keys : List Text
status_keys =
    str "next-run" ∷ str "last-run-endtime" ∷ str "last-run-state" ∷ str "last-run-upid" ∷ []

pub record JobView : Type 0 where
  pub id : Text
  pub store : Option Text
  pub schedule : Option Text
  pub schedule_zone : Text
  pub next_run : Option When
  pub last_run : Option When
  pub last_run_state : Option Text
  pub last_run_upid : Option Text
  pub config : Map

unfoldable pub without_status : Map → Map
unfolding one_of str
without_status end = end
without_status (entry k v m) =
    let rest = without_status m in if one_of k status_keys then rest else entry k v rest

abbrev when_field : Text → Map → Zones → Option When
when_field k obj zones = and_then (and_then (get k obj) as_i64) (λ e. some (new_when e zones))

abbrev text_field : Text → Map → Option Text
text_field k obj = and_then (get k obj) as_str

unfoldable pub view : Text → Zones → Value → Option JobView
unfolding get as_str as_i64 as_object new_when without_status str
view zone zones raw = and_then (as_object raw) λ obj. and_then (text_field (str "id") obj) λ id.
    some (record {
      id = id;
      store = text_field (str "store") obj;
      schedule = text_field (str "schedule") obj;
      schedule_zone = zone;
      next_run = when_field (str "next-run") obj zones;
      last_run = when_field (str "last-run-endtime") obj zones;
      last_run_state = text_field (str "last-run-state") obj;
      last_run_upid = text_field (str "last-run-upid") obj;
      config = without_status obj;
    })

pub record JobListOutput : Type 0 where
  pub server_timezone : Text
  pub jobs : List JobView

abbrev cons_view : Option JobView → List JobView → List JobView
cons_view none views = views
cons_view (some v) views = v ∷ views

unfoldable pub views : Text → Zones → List Value → List JobView
unfolding view
views zone zones [] = []
views zone zones (raw ∷ raws) = cons_view (view zone zones raw) (views zone zones raws)

abbrev has_id : Text → Value → Bool
has_id id job = elim (str_field (str "id") job) [ none ↦ false | some found ↦ found == id ]

-- `list_of` decodes an array of values.
module _ {W : Type 0} (net : Net W) (list_of : Value → Result (List Value)) (c : PbsClient) where
  unfoldable pub raw_jobs : Kind → Option Text → Io W (List Value)
  unfolding get_as admin_path list_query
  raw_jobs kind store = get_as net list_of c (admin_path kind) (list_query kind store)

  unfoldable pub find_job : Kind → Text → Io W (Option Value)
  unfolding raw_jobs find? str_field ◌==◌ str
  find_job kind id = bind (raw_jobs kind none) (λ jobs. pure (find? (has_id id) jobs))

  abbrev section_of : Kind → Text → Option Value → Io W (Option (Value × Option Text))
  section_of kind id none = pure none
  section_of kind id (some job) =
      bind (call net c get_method (config_path kind ++ (b'/' ∷ encode id)) [] none)
        λ env. pure (some (env.data_value, and_then (get (str "digest") env.extra) as_str))

  unfoldable pub job_config : Kind → Text → Io W (Option (Value × Option Text))
  unfolding find_job call config_path encode get as_str str
  job_config kind id = bind (find_job kind id) (section_of kind id)

  unfoldable pub list_with : Kind → Option Text → Option ℤ → Io W JobListOutput
  unfolding server_clock raw_jobs views
  list_with kind store off = bind (server_clock net c) λ clock. bind (raw_jobs kind store) λ jobs.
      pure (record {
        server_timezone = clock.0;
        jobs = views clock.0 (record { server = clock.1; local = off }) jobs;
      })

  abbrev split_config : Option (Value × Option Text) → Option Value × Option Text
  split_config none = (none, none)
  split_config (some (data_value, digest)) = (some data_value, digest)

  -- The job as it is, and the digest that guards an update.
  unfoldable pub read_job : Bool → Kind → Text → Io W (Option Value × Option Text)
  unfolding job_config find_job
  read_job with_digest kind id =
      if with_digest
      then bind (job_config kind id) (λ found. pure (split_config found))
      else bind (find_job kind id) (λ found. pure (found, none))

  unfoldable pub mutate_with :
      Text
      → Kind
      → Result Value
      → Text
      → Bool
      → Option CallerIdentity
      → Bool
      → (Option Value → Option Text → Result (List Step))
      → Io W Change
  unfolding read_job plan_or_apply kind_name str
  mutate_with tool kind inputs id execute caller with_digest build =
      bind (read_job with_digest kind id) λ found.
        bind (lift (build found.0 found.1))
          λ steps. plan_or_apply net c tool inputs execute caller (job_target kind id) steps [] none
