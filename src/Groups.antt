-- ===== src/Groups.antt =====
-- src/groups.rs: backup groups and snapshots, and what the verbs on them share.
pub mod Delete
pub mod Prune
pub mod Snapshots
use pbs.Base.{ℕ, Bool, true, false, not, ◌&&◌, Option, none, some, List, [], ◌∷◌, ◌++◌}
use pbs.Base.Tests.{if◌then◌else◌}
use pbs.Base.Int.{ℤ}
use pbs.Base.Text.{Text, str, is_empty}
use pbs.Base.Json.{Value}
use pbs.Base.Result.{Result, Io, bind, pure, fail}
use pbs.Client.Request.{Net, PbsClient, get_as}
use pbs.Api.{store_path}

pub record Group : Type 0 where
  pub backup_type : Text
  pub backup_id : Text
  pub backup_count : ℕ
  pub last_backup : ℤ
  pub owner : Option Text
  pub comment : Option Text

pub record PruneEntry : Type 0 where
  pub backup_type : Text
  pub backup_id : Text
  pub backup_time : ℤ
  pub keep : Bool
  pub protected : Bool

-- The derived decoders; a datastore is read by its name alone.
pub record GroupCodec : Type 0 where
  pub stores_of : Value → Result (List Text)
  pub groups_of : Value → Result (List Group)
  pub entries_of : Value → Result (List PruneEntry)

-- A namespace that is named and not the root.
abbrev pub proper_ns : Option Text → Option Text
proper_ns none = none
proper_ns (some ns) = if is_empty ns then none else some ns

abbrev query_of : Option Text → List (Text × Text)
query_of none = []
query_of (some ns) = (str "ns", ns) ∷ []

unfoldable pub ns_query : Option Text → List (Text × Text)
unfolding is_empty str
ns_query ns = query_of (proper_ns ns)

abbrev ns_or_root : Option Text → Text
ns_or_root none = str "root"
ns_or_root (some ns) = ns

unfoldable pub group_target : Text → Option Text → Text → Text → Text
unfolding is_empty str
group_target store ns backup_type backup_id =
    store
    ++ (str ":ns=" ++ (ns_or_root (proper_ns ns) ++ (b':' ∷ (backup_type ++ (b'/' ∷ backup_id)))))

module _ {W : Type 0} (net : Net W) (codec : GroupCodec) (c : PbsClient) where
  unfoldable pub groups : Text → Option Text → Io W (List Group)
  unfolding get_as store_path ns_query str
  groups store ns = get_as net codec.groups_of c (store_path store (str "/groups")) (ns_query ns)

  unfoldable pub datastores : List Text → Bool → Io W (List Text)
  unfolding get_as str
  datastores [] true = get_as net codec.stores_of c (str "/admin/datastore") []
  datastores [] false = fail (str "name at least one datastore, or set all_datastores")
  datastores (s ∷ ss) true = fail (str "pass either datastores or all_datastores, not both")
  datastores (s ∷ ss) false = pure (s ∷ ss)
