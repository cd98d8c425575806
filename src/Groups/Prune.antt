-- ===== src/Groups/Prune.antt =====
-- src/groups.rs: the keep rules, `prune_steps` and `prune`.
pub mod Rules
pub mod SameRules
pub mod KeepRules
use pbs.Base.{ℕ, ◌+◌, Bool, true, false, not, ◌&&◌, Option, none, some, List, [], ◌∷◌, ◌++◌, map}
use pbs.Base.Tests.{ltb, if◌then◌else◌}
use pbs.Base.Lists.{length, filter}
use pbs.Base.Int.{ℤ, pos, ltb_ℤ}
use pbs.Base.Text.{Text, str, ◌==◌, join, show_nat}
use pbs.Base.Json.{Value, bool, int, string, object, Map, end, insert, map_is_empty, entries}
use pbs.Base.Result.{Result, ok, err, ◌>>◌, ensure, Io, bind, lift, pure}
use pbs.Client.Request.{Net, PbsClient, post_as}
use pbs.Plan.{Step, new_step, with_detail, post_call, CallerIdentity, Change}
use pbs.Plan.Apply.{plan_or_apply}
use pbs.Api.{store_path}
use pbs.Times.{utc}
use pbs.Groups.{Group, PruneEntry, GroupCodec, proper_ns, group_target, groups}

abbrev pub default_keep_last : ℕ
default_keep_last = 10

pub record PruneArgs : Type 0 where
  pub endpoint : Option Text
  pub datastore : Text
  pub ns : Option Text
  pub backup_type : Option Text
  pub all_groups : Bool
  pub backup_id : Option Text
  pub keep_last : Option ℕ
  pub keep_hourly : Option ℕ
  pub keep_daily : Option ℕ
  pub keep_weekly : Option ℕ
  pub keep_monthly : Option ℕ
  pub keep_yearly : Option ℕ
  pub items : List Text
  pub execute : Bool

unfoldable pub insert_some : Text → Option ℕ → Map → Map
unfolding insert
insert_some k none m = m
insert_some k (some n) m = insert k (int (pos n)) m

abbrev pub with_default : Map → Map
with_default m =
    if map_is_empty m then insert (str "keep-last") (int (pos default_keep_last)) m else m

unfoldable pub keep : PruneArgs → Map
unfolding insert_some insert map_is_empty str
keep args = with_default (
    insert_some (str "keep-yearly") args.keep_yearly (
      insert_some (str "keep-monthly") args.keep_monthly (
        insert_some (str "keep-weekly") args.keep_weekly (
          insert_some (str "keep-daily") args.keep_daily (
            insert_some (str "keep-hourly") args.keep_hourly
              (insert_some (str "keep-last") args.keep_last end))))))

abbrev insert_ns : Option Text → Map → Map
insert_ns none m = m
insert_ns (some ns) m = insert (str "ns") (string ns) m

abbrev pub prune_map : Map → Option Text → Text × Text → Bool → Map
prune_map rules ns g dry_run = insert_ns (proper_ns ns) (
    insert (str "dry-run") (bool dry_run)
      (insert (str "backup-id") (string g.1) (insert (str "backup-type") (string g.0) rules)))

unfoldable pub prune_body : Map → Option Text → Text × Text → Bool → Value
unfolding insert str
prune_body rules ns g dry_run = object (prune_map rules ns g dry_run)

abbrev pub is_doomed : PruneEntry → Bool
is_doomed e = not e.keep && not e.protected

abbrev oldest_of : ℤ → List PruneEntry → ℤ
oldest_of t [] = t
oldest_of t (e ∷ es) = oldest_of (if ltb_ℤ e.backup_time t then e.backup_time else t) es

abbrev newest_of : ℤ → List PruneEntry → ℤ
newest_of t [] = t
newest_of t (e ∷ es) = newest_of (if ltb_ℤ t e.backup_time then e.backup_time else t) es

abbrev protected_note : ℕ → Text
protected_note n =
    if ltb 0 n then str "; " ++ (show_nat n ++ str " protected snapshots stay") else []

unfoldable pub prune_detail : PruneEntry → List PruneEntry → List PruneEntry → Text
unfolding show_nat filter utc str
prune_detail e doomed entries =
    str "removes "
    ++ (show_nat (length (e ∷ doomed))
        ++ (str " snapshots ("
            ++ (utc (oldest_of e.backup_time doomed)
                ++ (str " .. "
                    ++ (utc (newest_of e.backup_time doomed)
                        ++ (str "), keeps "
                            ++ (show_nat (length (filter (λ x. x.keep) entries))
                                ++ (str
                                      "; PBS re-applies the keep rules at execute, so a snapshot taken after this dry run can shift which ones go"
                                    ++ protected_note (
                                        length
                                          (filter (λ x. not x.keep && x.protected) entries))))))))))

abbrev step_of :
    Text → Map → Option Text → Text × Text → List PruneEntry → List PruneEntry → List Step
step_of store rules ns g entries [] = []
step_of store rules ns g entries (e ∷ doomed) =
    with_detail (prune_detail e doomed entries) (
      new_step (group_target store ns g.0 g.1) (str "prune")
        (post_call (store_path store (str "/prune")) (prune_body rules ns g false)))
    ∷ []

unfoldable pub prune_steps :
    Text → Map → Option Text → List ((Text × Text) × List PruneEntry) → List Step
unfolding filter prune_detail group_target prune_body store_path str
prune_steps store rules ns [] = []
prune_steps store rules ns ((g, entries) ∷ previews) =
    step_of store rules ns g entries (filter is_doomed entries)
    ++ prune_steps store rules ns previews

-- `is_none_or(|t| *t == found)`
abbrev matches : Option Text → Text → Bool
matches none found = true
matches (some t) found = t == found

abbrev pub is_some : Option Text → Bool
is_some none = false
is_some (some t) = true

unfoldable pub check_args : PruneArgs → Result (Unit {0})
unfolding str
check_args args =
    ensure (not (is_some args.backup_id && not (is_some args.backup_type)))
      (str "backup_id needs backup_type")
    >> (if is_some args.backup_type
        then ensure (not args.all_groups) (str "pass either backup_type or all_groups, not both")
        else ensure args.all_groups
            (str "name a backup_type, or set all_groups to prune every group"))

unfoldable pub targets_of : PruneArgs → List Group → List (Text × Text)
unfolding filter ◌==◌
targets_of args gs =
    map (λ g. (g.backup_type, g.backup_id))
      (filter (λ g. matches args.backup_id g.backup_id)
        (filter (λ g. matches args.backup_type g.backup_type) gs))

module _ {W : Type 0} (net : Net W) (codec : GroupCodec) (c : PbsClient) where
  -- PBS's own dry run for each group.
  unfoldable pub previews :
      Text → Map → Option Text → List (Text × Text) → Io W (List ((Text × Text) × List PruneEntry))
  unfolding post_as store_path prune_body str
  previews store rules ns [] = pure []
  previews store rules ns (g ∷ gs) =
      bind
        (post_as net codec.entries_of c (store_path store (str "/prune"))
          (prune_body rules ns g true))
        λ found. bind (previews store rules ns gs) λ rest. pure ((g, found) ∷ rest)

  unfoldable pub policy : Map → Text
  unfolding join entries str
  policy rules = join (str " ") (map (λ kv. kv.0 ++ (b'=' ∷ net.render kv.1)) (entries rules))

  unfoldable pub prune : PruneArgs → Result Value → Option CallerIdentity → Io W Change
  unfolding check_args keep groups targets_of previews prune_steps policy plan_or_apply show_nat str
  prune args inputs caller = bind (lift (check_args args)) λ _.
      bind (groups net codec c args.datastore args.ns) λ gs.
        bind (previews args.datastore (keep args) args.ns (targets_of args gs)) λ found.
          plan_or_apply net c (str "pbs.prune") inputs args.execute caller
            (str "prune "
              ++ (show_nat (length found)
                  ++ (str " group(s) on "
                      ++ (args.datastore ++ (str " with " ++ policy (keep args))))))
            (prune_steps args.datastore (keep args) args.ns found) [] (some args.items)
