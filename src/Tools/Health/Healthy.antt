-- ===== src/Tools/Health/Healthy.antt =====
-- What it takes for a datastore to be reported as healthy.
use pbs.Base.{ℕ, ◌*◌, ◌≤◌, true, Option, none, some, List, [], ◌∷◌, ◌++◌, ◌≡◌, ◌≢◌, refl, arith}
use pbs.Base.Lists.{any}
use pbs.Base.Text.{Text, str}
use pbs.Base.Text.Equality.{text_eq_iff}
use pbs.Base.Json.{Value}
use pbs.Tools.Health.{
  Read, got, unread, Datastore, DatastoreStatus, GcStatus, is_scheduled, findings_of, unscheduled,
  run_reports, jobs_of, verify_findings, mount_problems, maintenance_problems, space_problems,
  run_report, bad_chunks, gc_report, no_problems, assess_datastore, verify_report, judged,
}

-- The status was read, and enough of a size that is not zero is free.
abbrev pub HasSpace : Read DatastoreStatus → ℕ → Type 0
HasSpace (got st) pct = (st.total ≢ 0) × (st.total * pct ≤ st.avail * 100)
HasSpace (unread e) pct = ⊥

-- The verify jobs were read, and one of the store is scheduled.
abbrev pub IsCovered : Text → Read (List Value) → Type 0
IsCovered store (got jobs) = any is_scheduled (jobs_of store jobs) ≡ true
IsCovered store (unread e) = ⊥

-- No chunk is bad, if the GC status was asked for.
abbrev pub IsClean : Option (Read GcStatus) → Type 0
IsClean none = Unit
IsClean (some (got gc)) = gc.still_bad ≡ 0
IsClean (some (unread e)) = ⊥

pub record IsHealthy (ds : Datastore) (status : Read DatastoreStatus) (gc : Option (Read GcStatus))
    (pct : ℕ) (jobs : Read (List Value)) : Type 0 where
  pub mounted : ds.mount_status ≢ some (str "notmounted")
  pub in_use : ds.maintenance ≡ none
  pub space : HasSpace status pct
  pub clean : IsClean gc
  pub covered : IsCovered ds.store jobs

append_left {ℓ} : {A : Type ℓ} (xs ys : List A) → xs ++ ys ≡ [] → xs ≡ []
append_left [] ys h = refl
append_left (x ∷ xs) ys h = cc

append_right {ℓ} : {A : Type ℓ} (xs ys : List A) → xs ++ ys ≡ [] → ys ≡ []
append_right [] ys h = h
append_right (x ∷ xs) ys h = cc

no_problems_nil : (ps : List Text) → no_problems ps ≡ true → ps ≡ []
no_problems_nil [] h = refl
no_problems_nil (p ∷ ps) h = cc

mounted_of : (m : Option Text) → mount_problems m ≡ [] → m ≢ some (str "notmounted")
mounted_of none h e = cc
mounted_of (some m) h e =
    let same : m ≡ str "notmounted" = cc in
    ground (arith, h, (text_eq_iff m (str "notmounted")).1 same)

in_use_of : (m : Option Text) → maintenance_problems m ≡ [] → m ≡ none
in_use_of none h = refl
in_use_of (some m) h = cc

space_of :
    (status : Read DatastoreStatus) (pct : ℕ) → space_problems status pct ≡ [] → HasSpace status pct
space_of (got st) pct h = ((λ e. ground (arith, h, e)), ground (arith, h))
space_of (unread e) pct h = cc

IsClean-of : (gc : Option (Read GcStatus)) → (gc_report gc).0 ≡ [] → IsClean gc
IsClean-of none h = tt
IsClean-of (some (got gc)) h =
    let none_bad = append_right (run_report gc.last_run_state).0 (bad_chunks gc.still_bad) h in
    ground (arith, none_bad)
IsClean-of (some (unread e)) h = cc

found_scheduled : (mine : List Value) → (findings_of mine).0 ≡ [] → any is_scheduled mine ≡ true
found_scheduled [] h = cc
found_scheduled (job ∷ jobs) h =
    let planned = append_left (unscheduled (job ∷ jobs)) (run_reports (job ∷ jobs)).0 h in
    ground (arith, planned)

IsCovered-of :
    (store : Text) (jobs : Read (List Value))
    → (verify_report store jobs).0 ≡ []
    → IsCovered store jobs
unfolding verify_findings
IsCovered-of store (got jobs) h = found_scheduled (jobs_of store jobs) h
IsCovered-of store (unread e) h = cc

-- A datastore is reported as healthy only if it is mounted and in use, its status was read and shows
-- enough free space, the GC status, if it was asked for, was read and counts no bad chunk, and the
-- verify jobs were read and one of the store is scheduled.
pub judged-IsHealthy :
    (ds : Datastore) (status : Read DatastoreStatus) (gc : Option (Read GcStatus)) (pct : ℕ)
    (jobs : Read (List Value))
    → (judged (assess_datastore ds status gc pct) jobs).ok ≡ true
    → IsHealthy ds status gc pct jobs
unfolding judged assess_datastore
judged-IsHealthy ds status gc pct jobs h =
    let mount = mount_problems ds.mount_status in
    let maintenance = maintenance_problems ds.maintenance in
    let space = space_problems status pct in
    let found = (gc_report gc).0 in
    let added = (verify_report ds.store jobs).0 in
    let empty = no_problems_nil ((mount ++ (maintenance ++ (space ++ found))) ++ added) h in
    let assessed = append_left (mount ++ (maintenance ++ (space ++ found))) added empty in
    let behind_mount = append_right mount (maintenance ++ (space ++ found)) assessed in
    let behind_use = append_right maintenance (space ++ found) behind_mount in
    record {
      mounted =
          mounted_of ds.mount_status (append_left mount (maintenance ++ (space ++ found)) assessed);
      in_use = in_use_of ds.maintenance (append_left maintenance (space ++ found) behind_mount);
      space = space_of status pct (append_left space found behind_use);
      clean = IsClean-of gc (append_right space found behind_use);
      covered =
          IsCovered-of ds.store jobs
            (append_right (mount ++ (maintenance ++ (space ++ found))) added empty);
    }
