-- ===== src/Tools/Health.antt =====
-- src/tools.rs: the health of datastores.
pub mod Healthy
use pbs.Base.{ℕ, ◌*◌, Bool, true, false, not, Option, none, some, List, [], ◌∷◌, ◌++◌}
use pbs.Base.Tests.{ltb, nat_eq, if◌then◌else◌}
use pbs.Base.Lists.{take, any, all, filter}
use pbs.Base.Text.{Text, str, ◌==◌, trim, eq_ignore_ascii_case, show_nat}
use pbs.Base.Json.{Value, str_field}
use pbs.Base.Result.{Result, ok, err, panic, map_err, Io, continue, bind, pure}
use pbs.Client.Request.{Net, PbsClient, get_as}
use pbs.Api.{store_path}
use pbs.Jobs.{verify}
use pbs.Jobs.Tool.{raw_jobs}

-- A read that may have failed: a failure is a finding here, and not the end.
pub data Read (A : Type 0) : Type 0 where
  got : A → Read A
  unread : Text → Read A

pub data RunState : Type 0 where
  run_ok run_warning run_failure : RunState

-- Nine bytes that spell `warnings:` are nine characters.
unfoldable pub run_state : Text → RunState
unfolding trim eq_ignore_ascii_case str
run_state text =
    let state = trim text in
    if eq_ignore_ascii_case state (str "ok")
    then run_ok
    else if eq_ignore_ascii_case (take 9 state) (str "warnings:")
    then run_warning
    else run_failure

-- The fields that the verb reads.
pub record Datastore : Type 0 where
  pub store : Text
  pub mount_status : Option Text
  pub maintenance : Option Text

pub record DatastoreStatus : Type 0 where
  pub total : ℕ
  pub avail : ℕ

pub record GcStatus : Type 0 where
  pub last_run_state : Option Text
  pub still_bad : ℕ

pub record DatastoreHealth : Type 0 where
  pub datastore : Text
  pub mount_status : Option Text
  pub maintenance : Option Text
  pub total : Option ℕ
  pub avail : Option ℕ
  pub gc_last_run_state : Option Text
  pub ok : Bool
  pub problems : List Text
  pub warnings : List Text

abbrev pub Report : Type 0
Report = List Text × List Text

abbrev pub on_state : RunState → Text → Report
on_state run_ok line = ([], [])
on_state run_warning line = ([], line ∷ [])
on_state run_failure line = (line ∷ [], [])

abbrev pub has_field : Text → Text → Value → Bool
has_field k t job = elim (str_field k job) [ none ↦ false | some found ↦ found == t ]

abbrev pub is_scheduled : Value → Bool
is_scheduled job = elim (str_field (str "schedule") job) [ none ↦ false | some s ↦ true ]

abbrev or_empty : Option Text → Text
or_empty none = []
or_empty (some t) = t

abbrev pub report_of : Value → Option Text → Report
report_of job none = ([], [])
report_of job (some state) =
    on_state (run_state state)
      (str "verify job " ++ (or_empty (str_field (str "id") job) ++ (str " last run: " ++ state)))

abbrev pub join_report : Report → Report → Report
join_report a b = (a.0 ++ b.0, a.1 ++ b.1)

unfoldable pub run_reports : List Value → Report
unfolding str_field run_state str
run_reports [] = ([], [])
run_reports (job ∷ jobs) =
    join_report (report_of job (str_field (str "last-run-state") job)) (run_reports jobs)

abbrev pub unscheduled : List Value → List Text
unscheduled mine =
    if not (any is_scheduled mine) then str "verify jobs exist but none is scheduled" ∷ [] else []

abbrev pub findings_of : List Value → Report
findings_of [] = (str "no verify job: corrupt chunks surface only at restore" ∷ [], [])
findings_of (job ∷ jobs) = join_report (unscheduled (job ∷ jobs), []) (run_reports (job ∷ jobs))

abbrev pub jobs_of : Text → List Value → List Value
jobs_of store jobs = filter (has_field (str "store") store) jobs

unfoldable pub verify_findings : Text → List Value → Report
unfolding filter any str_field ◌==◌ run_reports str
verify_findings store jobs = findings_of (jobs_of store jobs)

abbrev pub mount_problems : Option Text → List Text
mount_problems none = []
mount_problems (some m) =
    if m == str "notmounted" then str "removable datastore is not mounted" ∷ [] else []

abbrev pub maintenance_problems : Option Text → List Text
maintenance_problems none = []
maintenance_problems (some m) = (str "in maintenance mode: " ++ m) ∷ []

abbrev free_text : DatastoreStatus → ℕ → Text
free_text st pct =
    show_nat st.avail
    ++ (str " of "
        ++ (show_nat st.total ++ (str " bytes free, under " ++ (show_nat pct ++ str "%"))))

abbrev unreadable : Text → Text
unreadable e = str "status unreadable (chunk store missing or stale mount): " ++ e

-- The products are of `u128`, and do not overflow.
abbrev pub space_problems : Read DatastoreStatus → ℕ → List Text
space_problems (got st) pct =
    if nat_eq st.total 0
    then str "reports 0 bytes total: backing path empty or unmounted" ∷ []
    else if ltb (st.avail * 100) (st.total * pct)
    then free_text st pct ∷ []
    else []
space_problems (unread e) pct = unreadable e ∷ []

abbrev pub run_report : Option Text → Report
run_report none = ([], [])
run_report (some state) = on_state (run_state state) (str "last GC: " ++ state)

abbrev pub bad_chunks : ℕ → List Text
bad_chunks n =
    if ltb 0 n then (str "GC found " ++ (show_nat n ++ str " chunks still bad")) ∷ [] else []

abbrev pub gc_report : Option (Read GcStatus) → Report
gc_report none = ([], [])
gc_report (some (got gc)) = join_report (run_report gc.last_run_state) (bad_chunks gc.still_bad, [])
gc_report (some (unread e)) = ((str "GC status unreadable: " ++ e) ∷ [], [])

abbrev total_of : Read DatastoreStatus → Option ℕ
total_of (got st) = some st.total
total_of other = none

abbrev avail_of : Read DatastoreStatus → Option ℕ
avail_of (got st) = some st.avail
avail_of other = none

abbrev last_state_of : Option (Read GcStatus) → Option Text
last_state_of (some (got gc)) = gc.last_run_state
last_state_of other = none

abbrev pub no_problems : List Text → Bool
no_problems [] = true
no_problems (p ∷ ps) = false

unfoldable pub assess_datastore :
    Datastore → Read DatastoreStatus → Option (Read GcStatus) → ℕ → DatastoreHealth
unfolding run_state show_nat ◌==◌ str
assess_datastore ds status gc pct =
    let problems =
      mount_problems ds.mount_status
      ++ (maintenance_problems ds.maintenance ++ (space_problems status pct ++ (gc_report gc).0)) in
    record {
      datastore = ds.store;
      mount_status = ds.mount_status;
      maintenance = ds.maintenance;
      total = total_of status;
      avail = avail_of status;
      gc_last_run_state = last_state_of gc;
      ok = no_problems problems;
      problems = problems;
      warnings = (gc_report gc).1;
    }

abbrev pub verify_report : Text → Read (List Value) → Report
verify_report store (got jobs) = verify_findings store jobs
verify_report store (unread e) = ((str "verify jobs unreadable: " ++ e) ∷ [], [])

-- The assessment with what the verify jobs add to it.
unfoldable pub judged : DatastoreHealth → Read (List Value) → DatastoreHealth
unfolding verify_findings str
judged h jobs =
    let report = verify_report h.datastore jobs in
    record h {
      ok = no_problems (h.problems ++ report.0);
      problems = h.problems ++ report.0;
      warnings = h.warnings ++ report.1;
    }

pub record DatastoreHealthOutput : Type 0 where
  pub ok : Bool
  pub datastores : List DatastoreHealth

pub record HealthCodec : Type 0 where
  pub datastores_of : Value → Result (List Datastore)
  pub status_value : Value → Result DatastoreStatus
  pub gc_value : Value → Result GcStatus
  pub jobs_value : Value → Result (List Value)

module _ {W : Type 0} (net : Net W) (codec : HealthCodec) (c : PbsClient) where
  abbrev caught : {A : Type 0} → Result A × W → Result (Read A) × W
  caught (ok a, w) = (ok (got a), w)
  caught (err e, w) = (ok (unread e), w)
  caught (panic, w) = (panic, w)

  -- The GC status is read only if the status could be read.
  abbrev read_gc : Text → Read DatastoreStatus → Io W (Option (Read GcStatus))
  read_gc store (got st) =
      bind (λ w. caught (get_as net codec.gc_value c (store_path store (str "/gc")) [] w))
        (λ gc. pure (some gc))
  read_gc store (unread e) = pure none

  unfoldable pub check_all : Read (List Value) → ℕ → List Datastore → Io W (List DatastoreHealth)
  unfolding get_as store_path assess_datastore judged str
  check_all jobs pct [] = pure []
  check_all jobs pct (ds ∷ rest) =
      bind
        (λ w. caught (
          get_as net codec.status_value c (store_path ds.store (str "/status"))
            ((str "verbose", str "true") ∷ []) w))
        λ status. bind (read_gc ds.store status) λ gc.
          bind (check_all jobs pct rest)
            λ checked. pure (judged (assess_datastore ds status gc pct) jobs ∷ checked)

  unfoldable pub datastore_health : ℕ → Io W DatastoreHealthOutput
  unfolding raw_jobs get_as check_all all str
  datastore_health pct =
      bind (λ w. caught (raw_jobs net codec.jobs_value c verify none w))
        λ jobs. bind (get_as net codec.datastores_of c (str "/admin/datastore") []) λ stores.
          bind (check_all jobs pct stores)
            λ checked. pure (record { ok = all (λ h. h.ok) checked; datastores = checked })
