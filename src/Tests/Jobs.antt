-- ===== src/Tests/Jobs.antt =====
-- Jobs at concrete inputs.
use pbs.Base.{none, some, [], ◌∷◌, ◌≡◌, ◌≢◌, ◌↔◌, refl}
use pbs.Base.Lists.{Any}
use pbs.Base.Text.{Text, str, ◌==◌}
use pbs.Base.Json.{Value, string, object, Map, end, entry, get, entries}
use pbs.Base.Result.{ok}
use pbs.Jobs.{verify, diff_fields, update_body, update_steps}
use pbs.Jobs.Sync.{IsInSync, update_steps-IsInSync}
use pbs.Jobs.Body.{IsChanged, update_body-IsChanged}

abbrev render : Value → Text
render v = str "v"

abbrev current : Map
current =
    entry (str "schedule") (string (str "daily")) (entry (str "store") (string (str "tank")) end)

abbrev fields : Map
fields =
    entry (str "schedule") (string (str "05:30")) (entry (str "store") (string (str "tank")) end)

update_steps-IsInSync_example :
    (update_steps render verify (some (object current)) (str "v1") current (str "ns" ∷ []) none
      ≡ ok [])
    ↔ IsInSync current current (str "ns" ∷ [])
update_steps-IsInSync_example =
    update_steps-IsInSync render verify current (str "v1") current (str "ns" ∷ []) none

schedule-not-delete : str "schedule" ≢ str "delete"
unfolding str
schedule-not-delete h = cc

schedule-not-digest : str "schedule" ≢ str "digest"
unfolding str
schedule-not-digest h = cc

schedule_sent :
    get (str "schedule") (update_body (diff_fields current fields) [] (some (str "d")))
    ≡ some (string (str "05:30"))
unfolding get update_body diff_fields ◌==◌
schedule_sent = refl

update_body-IsChanged_example :
    Any (IsChanged current (str "schedule") (string (str "05:30"))) (entries fields)
update_body-IsChanged_example =
    update_body-IsChanged current fields [] (some (str "d")) (str "schedule") (string (str "05:30"))
      schedule-not-delete schedule-not-digest schedule_sent
