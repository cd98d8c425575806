-- ===== src/Tests/Groups.antt =====
-- Group deletion, pruning and the summary of snapshots at concrete inputs.
use pbs.Base.{true, false, Option, none, some, List, [], ◌∷◌, ◌+◌, ◌≡◌, inl, inr, refl}
use pbs.Base.Lists.{All, any, length}
use pbs.Base.Int.{pos}
use pbs.Base.Text.{Text, str, ◌==◌, one_of, contains_char}
use pbs.Base.Json.{null}
use pbs.Base.Result.{ok, err}
use pbs.Plan.{is_planned, item}
use pbs.Groups.{Group, GroupCodec, PruneEntry, datastores}
use pbs.Groups.Delete.{GroupDeleteArgs, steps_found, read_found, group_delete, group_delete_steps}
use pbs.Groups.Delete.Drift.{group_delete-refuses_drift}
use pbs.Groups.Prune.{PruneArgs, keep, previews, prune_steps}
use pbs.Groups.Prune.KeepRules.{CallKeepsSome, prune_steps-KeepsSome}
use pbs.Groups.Prune.SameRules.{FromDryRun, prune_steps-same_rules}
use pbs.Groups.Snapshots.{Snapshot, IsJudged, summarize, summarize-total}
use pbs.Tests.World.{World, net, client, admin}

-- The group has two snapshots by now.
abbrev vm : Group
vm = record {
  backup_type = str "vm";
  backup_id = str "100";
  backup_count = 2;
  last_backup = pos 900;
  owner = none;
  comment = none;
}

abbrev group_codec : GroupCodec
group_codec = record {
  stores_of = λ v. ok [];
  groups_of = λ v. ok (vm ∷ []);
  entries_of = λ v. ok [];
}

-- What was echoed names the group as it was, with one snapshot.
abbrev echoed_item : Text
echoed_item = str "delete-group tank:ns=root:vm/100#1@800"

abbrev args : GroupDeleteArgs
args = record {
  endpoint = none;
  datastores = str "tank" ∷ [];
  all_datastores = false;
  ns = none;
  backup_type = str "vm";
  backup_id = str "100";
  items = echoed_item ∷ [];
  execute = true;
}

abbrev found : List (Text × List Group)
found = (str "tank", vm ∷ []) ∷ []

abbrev after_reads : World
after_reads = (read_found net group_codec client (str "tank" ∷ []) none []).1

reads : read_found net group_codec client (str "tank" ∷ []) none [] ≡ (ok found, after_reads)
unfolding read_found
reads = refl

item_echoed : one_of echoed_item args.items ≡ true
unfolding one_of ◌==◌ str
item_echoed = refl

item_bound : contains_char b'#' echoed_item ≡ true
unfolding contains_char str
item_bound = refl

item_gone : is_planned (steps_found args found).0 echoed_item ≡ false
unfolding group_delete_steps any item
item_gone = refl

store_chosen :
    datastores net group_codec client args.datastores args.all_datastores []
    ≡ (ok (str "tank" ∷ []), [])
unfolding datastores
store_chosen = refl

group_delete-refuses_drift_example :
    (e : Text) × (group_delete net group_codec client args (ok null) (some admin) []
      ≡ (err e, after_reads))
group_delete-refuses_drift_example =
    group_delete-refuses_drift net group_codec client args (ok null) (some admin) echoed_item []
      refl store_chosen reads item_echoed item_bound item_gone

abbrev prune_args : PruneArgs
prune_args = record {
  endpoint = none;
  datastore = str "tank";
  ns = some (str "hosts");
  backup_type = some (str "vm");
  all_groups = false;
  backup_id = none;
  keep_last = none;
  keep_hourly = none;
  keep_daily = some 7;
  keep_weekly = none;
  keep_monthly = none;
  keep_yearly = none;
  items = [];
  execute = false;
}

abbrev previewed : List ((Text × Text) × List PruneEntry)
previewed =
    (
      (str "vm", str "100"),
      record {
        backup_type = str "vm";
        backup_id = str "100";
        backup_time = pos 100;
        keep = false;
        protected = false;
      }
          ∷ [],
    )
    ∷ []

prune_steps-KeepsSome_example :
    All
      (λ s. CallKeepsSome prune_args s.call)
      (prune_steps (str "tank") (keep prune_args) none previewed)
prune_steps-KeepsSome_example = prune_steps-KeepsSome prune_args (str "tank") none previewed

abbrev doomed : PruneEntry
doomed = record {
  backup_type = str "vm";
  backup_id = str "100";
  backup_time = pos 100;
  keep = false;
  protected = false;
}

abbrev prune_codec : GroupCodec
prune_codec = record group_codec { entries_of = λ v. ok (doomed ∷ []) }

abbrev asked : List (Text × Text)
asked = (str "vm", str "100") ∷ []

abbrev after_previews : World
after_previews =
    (previews net prune_codec client prune_args.datastore (keep prune_args) prune_args.ns asked
      []).1

previews_run :
    previews net prune_codec client prune_args.datastore (keep prune_args) prune_args.ns asked []
    ≡ (ok previewed, after_previews)
unfolding previews ◌==◌ str
previews_run = refl

one_planned :
    length (prune_steps prune_args.datastore (keep prune_args) prune_args.ns previewed) ≡ 1
unfolding prune_steps
one_planned = refl

prune_steps-same_rules_example :
    All
      (FromDryRun net prune_codec client prune_args asked)
      (prune_steps prune_args.datastore (keep prune_args) prune_args.ns previewed)
prune_steps-same_rules_example =
    prune_steps-same_rules net prune_codec client prune_args asked [] previews_run

abbrev snapshot : Option Text → Snapshot
snapshot verdict = record {
  backup_type = str "vm";
  backup_id = str "100";
  backup_time = pos 100;
  protected = false;
  size = none;
  verification = elim verdict [ none ↦ none | some t ↦ some (record { state = t; upid = none }) ];
}

abbrev snapshots : List Snapshot
snapshots = snapshot none ∷ snapshot (some (str "ok")) ∷ snapshot (some (str "failed")) ∷ []

snapshots-IsJudged : All IsJudged snapshots
unfolding ◌==◌ str
snapshots-IsJudged = (inl refl, (inr (inl refl), (inr (inr refl), tt)))

summarize-total_example :
    (summarize snapshots).ok + (summarize snapshots).failed + (summarize snapshots).unverified
    ≡ length snapshots
summarize-total_example = summarize-total snapshots snapshots-IsJudged
