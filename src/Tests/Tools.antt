-- ===== src/Tests/Tools.antt =====
-- The health of a datastore at concrete inputs.
use pbs.Base.{true, none, some, List, [], ◌∷◌, ◌≡◌, refl}
use pbs.Base.Text.{str}
use pbs.Base.Json.{Value, string, object, end, entry}
use pbs.Tools.Health.{Read, got, Datastore, DatastoreStatus, GcStatus, judged, assess_datastore}
use pbs.Tools.Health.Healthy.{IsHealthy, judged-IsHealthy}

abbrev store : Datastore
store = record { store = str "tank"; mount_status = some (str "mounted"); maintenance = none }

abbrev status : Read DatastoreStatus
status = got (record { total = 1000; avail = 400 })

abbrev gc : Read GcStatus
gc = got (record { last_run_state = some (str "OK"); still_bad = 0 })

abbrev jobs : Read (List Value)
jobs = got (
    object (
      entry (str "schedule") (string (str "daily")) (entry (str "store") (string (str "tank")) end))
    ∷ [])

healthy : (judged (assess_datastore store status (some gc) 10) jobs).ok ≡ true
unfolding judged assess_datastore
healthy = refl

judged-IsHealthy_example : IsHealthy store status (some gc) 10 jobs
judged-IsHealthy_example = judged-IsHealthy store status (some gc) 10 jobs healthy
