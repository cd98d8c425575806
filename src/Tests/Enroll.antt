-- ===== src/Tests/Enroll.antt =====
-- Enrolment and revocation at concrete inputs.
use pbs.Base.{none, true, false, some, List, [], ◌∷◌, ◌≡◌, ◌↔◌, inr, refl}
use pbs.Base.Lists.{All}
use pbs.Base.Json.{null, end}
use pbs.Base.Text.{Text, str, ◌==◌}
use pbs.Base.Result.{Result, ok}
use pbs.Client.Request.{HttpCall, Method, get_method, Net}
use pbs.Plan.{Step}
use pbs.Plan.Apply.{attempt}
use pbs.Enroll.Identity.{derive}
use pbs.Enroll.Diff.{diff_enroll, stray_drift}
use pbs.Enroll.State.{State, Drift}
use pbs.Enroll.Desired.{IsEnrolled, diff_enroll-IsEnrolled}
use pbs.Enroll.NoDrift.{nothing}
use pbs.Enroll.Revoke.{diff_revoke}
use pbs.Enroll.Stamp.{stamp_acl_digest, HasObject, Stamped, stamp_acl_digest-Stamped}
use pbs.Enroll.Run.{HostEnrollArgs, HostEnrollOutput, enroll}
use pbs.Enroll.Run.RevokeHost.{HostRevokeArgs, revoke}
use pbs.Enroll.Run.RevokeHost.DryRun.{revoke-IsQuiet}
use pbs.Base.Quiet.{IsQuiet}
use pbs.Enroll.Run.DryRun.{ReadsQuietly, enroll-IsQuiet}
use pbs.Enroll.Run.MintedRun.{Enrolled, enroll-IsMinted}
use pbs.Tests.World.{
  World, admin, net, client, codec, orca, identity, granted, stray, state_with, steps,
}

enrolled : diff_enroll identity (state_with granted) false ≡ ok nothing
unfolding diff_enroll derive
enrolled = refl

diff_enroll-IsEnrolled_example :
    (diff_enroll identity (state_with granted) false ≡ ok nothing)
    ↔ IsEnrolled identity (state_with granted)
diff_enroll-IsEnrolled_example = diff_enroll-IsEnrolled identity (state_with granted) false

abbrev stray_state : State
stray_state = state_with (stray ∷ granted)

abbrev stray_plan : Drift
stray_plan = stray_drift identity (stray ∷ granted)

abbrev steps_of : Result (List Step × List Text) → List Step
steps_of (ok p) = p.0
steps_of other = []

abbrev notes_of : Result (List Step × List Text) → List Text
notes_of (ok p) = p.1
notes_of other = []

abbrev revoked : Result (List Step × List Text)
revoked = diff_revoke identity stray_state false false

steps-HasObject : All (λ s. HasObject s.call) steps
steps-HasObject = (tt, (tt, (inr (end, refl), tt)))

stamp_acl_digest-Stamped_example :
    Stamped (str "d1") steps (stamp_acl_digest steps (some (str "d1")))
stamp_acl_digest-Stamped_example = stamp_acl_digest-Stamped (str "d1") steps steps-HasObject

abbrev recorded : HttpCall → Method → World → World
recorded call get_method log = log
recorded call method log = call ∷ log

-- A server that answers alike and records every call but the reads.
abbrev recorder : Net World
recorder = record {
  send = λ call log. (ok (record { status = 200; body = [] }), recorded call call.method log);
  to_vec = net.to_vec;
  from_slice = net.from_slice;
  render = net.render;
}

recorder_reads : ReadsQuietly recorder orca
recorder_reads = record {
  gets = λ req h w. rw h refl;
  secrets = λ name w. refl;
  presence = λ name w. refl;
}

abbrev dry_args : HostEnrollArgs
dry_args = record {
  endpoint = none;
  host = str "nas";
  datastore = str "tank";
  adopt = false;
  items = [];
  execute = false;
}

enroll-IsQuiet_example :
    IsQuiet
      (enroll recorder codec orca (str "pbs1") client identity dry_args (ok null) (some admin))
enroll-IsQuiet_example =
    enroll-IsQuiet recorder codec orca recorder_reads (str "pbs1") client identity dry_args
      (ok null) (some admin) refl

abbrev dry_revocation : HostRevokeArgs
dry_revocation = record {
  endpoint = none;
  host = str "nas";
  datastore = str "tank";
  delete_data = true;
  adopt = false;
  items = [];
  execute = false;
}

revoke-IsQuiet_example :
    IsQuiet (
      revoke recorder codec orca (str "pbs1") client identity dry_revocation (ok null) (some admin))
revoke-IsQuiet_example =
    revoke-IsQuiet recorder codec orca recorder_reads (str "pbs1") client identity dry_revocation
      (ok null) (some admin) refl

abbrev wet_args : HostEnrollArgs
wet_args = record {
  endpoint = none;
  host = str "nas";
  datastore = str "tank";
  adopt = false;
  items = str "create-token token:nas@pbs!backup" ∷ [];
  execute = true;
}

abbrev enrolment : Result HostEnrollOutput × World
enrolment = enroll net codec orca (str "pbs1") client identity wet_args (ok null) (some admin) []

enrolment_reports : (out : HostEnrollOutput) × (enrolment ≡ (ok out, enrolment.1))
unfolding enroll derive ◌==◌ attempt
enrolment_reports = (_, refl)

enroll-IsMinted_example : Enrolled net codec orca client (str "pbs1") identity wet_args enrolment.1
enroll-IsMinted_example =
    enroll-IsMinted net codec orca client (str "pbs1") identity wet_args (ok null) (some admin) []
      refl enrolment_reports.1
