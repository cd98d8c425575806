-- ===== src/Jobs/Fields.antt =====
-- src/jobs.rs: the fields of sync and verify jobs, by their PBS keys.
use pbs.Base.{ℕ, Bool, Option, none, some, List, [], ◌∷◌}
use pbs.Base.Int.{pos}
use pbs.Base.Text.{Text, str}
use pbs.Base.Json.{Value, bool, int, string, array, Map, end, insert, array_of}

pub record SyncJobFields : Type 0 where
  pub store : Option Text
  pub remote : Option Text
  pub remote_store : Option Text
  pub ns : Option Text
  pub remote_ns : Option Text
  pub schedule : Option Text
  pub sync_direction : Option Text
  pub remove_vanished : Option Bool
  pub max_depth : Option ℕ
  pub transfer_last : Option ℕ
  pub verified_only : Option Bool
  pub owner : Option Text
  pub comment : Option Text
  pub group_filter : List Text

pub record VerifyJobFields : Type 0 where
  pub store : Option Text
  pub ns : Option Text
  pub schedule : Option Text
  pub ignore_verified : Option Bool
  pub outdated_after : Option ℕ
  pub max_depth : Option ℕ
  pub read_threads : Option ℕ
  pub verify_threads : Option ℕ
  pub comment : Option Text

-- `put`, whose values are texts, Booleans and `u64`s, and always serialise
unfoldable pub put_value : {A : Type 0} → (A → Value) → Text → Option A → Map → Map
unfolding insert
put_value to_value k none m = m
put_value to_value k (some a) m = insert k (to_value a) m

abbrev put_text : Text → Option Text → Map → Map
put_text = put_value string

abbrev put_bool : Text → Option Bool → Map → Map
put_bool = put_value bool

abbrev put_u64 : Text → Option ℕ → Map → Map
put_u64 = put_value (λ n. int (pos n))

abbrev put_filter : List Text → Map → Map
put_filter [] m = m
put_filter (t ∷ ts) m = insert (str "group-filter") (array (array_of (t ∷ ts))) m

unfoldable pub sync_map : SyncJobFields → Map
unfolding put_value insert array_of str
sync_map f =
    let m1 = put_text (str "store") f.store end in
    let m2 = put_text (str "remote") f.remote m1 in
    let m3 = put_text (str "remote-store") f.remote_store m2 in
    let m4 = put_text (str "ns") f.ns m3 in
    let m5 = put_text (str "remote-ns") f.remote_ns m4 in
    let m6 = put_text (str "schedule") f.schedule m5 in
    let m7 = put_text (str "sync-direction") f.sync_direction m6 in
    let m8 = put_bool (str "remove-vanished") f.remove_vanished m7 in
    let m9 = put_u64 (str "max-depth") f.max_depth m8 in
    let m10 = put_u64 (str "transfer-last") f.transfer_last m9 in
    let m11 = put_bool (str "verified-only") f.verified_only m10 in
    let m12 = put_text (str "owner") f.owner m11 in
    put_filter f.group_filter (put_text (str "comment") f.comment m12)

unfoldable pub verify_map : VerifyJobFields → Map
unfolding put_value insert str
verify_map f =
    let m1 = put_text (str "store") f.store end in
    let m2 = put_text (str "ns") f.ns m1 in
    let m3 = put_text (str "schedule") f.schedule m2 in
    let m4 = put_bool (str "ignore-verified") f.ignore_verified m3 in
    let m5 = put_u64 (str "outdated-after") f.outdated_after m4 in
    let m6 = put_u64 (str "max-depth") f.max_depth m5 in
    let m7 = put_u64 (str "read-threads") f.read_threads m6 in
    let m8 = put_u64 (str "verify-threads") f.verify_threads m7 in
    put_text (str "comment") f.comment m8
