-- ===== src/ConfigBackup/Container.antt =====
-- src/config_backup.rs: the volume of an instance, and whether a container may be using it.
use pbs.Base.{ℕ, Bool, true, false, ◌&&◌, ◌||◌, Option, none, some, List, [], ◌∷◌, ◌++◌}
use pbs.Base.Tests.{nat_eq, if◌then◌else◌}
use pbs.Base.Lists.{any}
use pbs.Base.Text.{Text, str, ◌==◌, is_empty, trim, join}
use pbs.Base.Json.{Value, null, Map, entries, field, as_str, as_object, as_bool, str_field}
use pbs.Base.Result.{Result, ok, err, panic, ensure, Io, lift, pure, fail, with_context}
use pbs.Base.Action.{◌>>=◌, ◌>>◌, attempt}
use pbs.Enroll.Identity.{plain_name}
use pbs.ConfigBackup.Files.{Fs, path_join, read_path}
use pbs.ConfigBackup.Verify.{Codec}

-- One entry of `fs::read_dir`
pub record DirItem (W : Type 0) : Type 0 where
  pub file_name : Text
  pub path : Text
  pub is_dir : Io W Bool

-- `NotFound` is told apart, with its text.
pub data ReadDir (W : Type 0) : Type 0 where
  listing : List (Result (DirItem W)) → ReadDir W
  no_dir : Text → ReadDir W

-- The standard library's calls on whole paths, `new_id` of orca's toolkit, and the equality of paths
pub record System (W : Type 0) : Type 0 where
  pub read_dir : Text → Io W (ReadDir W)
  pub path_is_dir : Text → Io W Bool
  pub path_is_file : Text → Io W Bool
  pub path_exists : Text → Io W Bool
  pub create_dir : Text → ℕ → Io W (Unit {0})
  pub new_id : Io W Text
  pub path_eq : Text → Text → Bool

-- `v[key]`
unfoldable pub at : Text → Value → Value
unfolding field
at key v = elim (field key v) [ none ↦ null | some x ↦ x ]

abbrev is_value : Option Text → Text → Bool
is_value none t = false
is_value (some s) t = s == t

unfoldable pub trim_slashes : Text → Text
trim_slashes [] = []
trim_slashes (c ∷ s) = let rest = trim_slashes s in if nat_eq c b'/' then rest else c ∷ s

abbrev or_else : Option Text → Text → Text
or_else none d = d
or_else (some t) d = t

unfoldable pub validate_instance : (Text → Text) → Text → Result (Unit {0})
unfolding plain_name
validate_instance debug instance_name = ensure (plain_name instance_name 64) (
    str "invalid instance "
    ++ (debug instance_name ++ str ": must match ^[A-Za-z0-9][A-Za-z0-9_-]{0,63}$"))

abbrev pub config_volume : Text → Text
config_volume instance_name = instance_name ++ str "-config"

-- `volume_root`, of the value of `ORCA_PBS_VOLUME_ROOT`
unfoldable pub volume_root : Option Text → Text
unfolding trim is_empty
volume_root none = str "/var/lib/docker/volumes"
volume_root (some v) = if is_empty (trim v) then str "/var/lib/docker/volumes" else v

module _ {W D F : Type 0} (fs : Fs W D F) (codec : Codec) (system : System W) where
  abbrev mounts : Text → Text → Text × Value → Bool
  mounts volume data_dir (key, m) =
      is_value (str_field (str "Name") m) volume || source_is (str_field (str "Source") m)
    where
      source_is : Option Text → Bool
      source_is none = false
      source_is (some s) = system.path_eq s data_dir

  abbrev mount_points : Option Map → List (Text × Value)
  mount_points none = []
  mount_points (some m) = entries m

  abbrev running_name : Text → Value → Text
  running_name id c = trim_slashes (or_else (as_str (at (str "Name") c)) id)

  -- A container whose state was read
  abbrev user_of : Text → Text → Text → Value → Option Bool → List Text
  user_of volume data_dir id c none =
      (str "container " ++ (id ++ str ": state has no State.Running")) ∷ []
  user_of volume data_dir id c (some running) =
      if running
        && any (mounts volume data_dir) (mount_points (as_object (at (str "MountPoints") c)))
      then (running_name id c
          ++ str
              " is running (per docker's state file; if docker is down or the state is stale, start and stop the container so docker rewrites it)")
        ∷ []
      else []

  abbrev user_read : Text → Text → Text → Result Value → Io W (List Text)
  user_read volume data_dir id (ok c) =
      pure (user_of volume data_dir id c (as_bool (at (str "Running") (at (str "State") c))))
  user_read volume data_dir id (err e) =
      pure ((str "container " ++ (id ++ (str ": state unreadable (" ++ (e ++ str ")")))) ∷ [])
  user_read volume data_dir id panic = lift panic

  abbrev read_state : Text → Io W Value
  read_state path = do
    raw ← read_path fs (path_join path (str "config.v2.json"))
    lift (codec.value_of raw)

  abbrev user_at : Text → Text → DirItem W → Bool → Io W (List Text)
  user_at volume data_dir item false = pure []
  user_at volume data_dir item true = do
    state ← attempt (read_state item.path)
    user_read volume data_dir item.file_name state

  unfoldable pub users_in : Text → Text → List (Result (DirItem W)) → Io W (List Text)
  unfolding read_path at as_str as_object as_bool str_field any entries trim_slashes ◌==◌
  users_in volume data_dir [] = pure []
  users_in volume data_dir (r ∷ rs) = do
    item ← lift r
    dir ← item.is_dir
    here ← user_at volume data_dir item dir
    rest ← users_in volume data_dir rs
    pure (here ++ rest)

  abbrev users_listed : Text → Text → Text → Result (ReadDir W) → Io W (List Text)
  users_listed volume data_dir why (ok (listing items)) = users_in volume data_dir items
  users_listed volume data_dir why (ok (no_dir e)) = fail (with_context why e)
  users_listed volume data_dir why (err e) = fail (with_context why e)
  users_listed volume data_dir why panic = lift panic

  -- Why `volume`, whose data lies at `data_dir`, may be in use
  unfoldable pub volume_users : Text → Text → Text → Io W (List Text)
  unfolding users_in
  volume_users containers_dir volume data_dir = do
    r ← attempt (system.read_dir containers_dir)
    users_listed volume data_dir
        (str "cannot confirm no container uses " ++ (volume ++ (str ": read " ++ containers_dir))) r

  -- The methods of `PbsConfigKind`, of its volume root
  unfoldable pub config_dir : Text → Text → Io W Text
  unfolding validate_instance
  config_dir root instance_name = do
    lift (validate_instance fs.debug instance_name)
    pure (path_join (path_join root (config_volume instance_name)) (str "_data"))

  unfoldable pub data_root : Text → Text
  data_root root = or_else (fs.parent root) root

  unfoldable pub containers_dir : Text → Text
  unfolding data_root
  containers_dir root = path_join (data_root root) (str "containers")

  abbrev unless_used : List Text → Io W (Unit {0})
  unless_used [] = pure tt
  unless_used (u ∷ us) = fail (str "stop the container first: " ++ join (str "; ") (u ∷ us))

  unfoldable pub ensure_stopped : Text → Text → Io W (Unit {0})
  unfolding config_dir volume_users containers_dir join
  ensure_stopped root instance_name = do
    data_dir ← config_dir root instance_name
    users ← volume_users (containers_dir root) (config_volume instance_name) data_dir
    unless_used users
