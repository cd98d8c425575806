-- ===== src/Tests/Plan.antt =====
-- Plans and namespaces at concrete inputs.
use pbs.Base.{Bool, true, Option, none, some, List, [], ◌∷◌, ◌≡◌, ◌≢◌, refl}
use pbs.Base.Lists.{All}
use pbs.Base.Text.{Text, str, one_of, contains_char, starts_with, ◌==◌}
use pbs.Base.Json.{Value, null, string}
use pbs.Base.Result.{ok, err, Io, pure}
use pbs.Plan.{Step, confirm, is_planned, refuse_drifted, skip_note, applied, CallerIdentity, Change}
use pbs.Plan.Confirm.{Keeps, IsEchoed, confirm-Keeps, refuse_drifted-planned}
use pbs.Plan.Secrets.{SamePublic, none_left, secret, public, applied-SamePublic}
use pbs.Plan.Apply.{run_with, failure, plan_or_apply, send_step, attempt}
use pbs.Plan.Apply.Order.{Ran, StopsAt, run_with-Ran, run_with-StopsAt}
use pbs.Plan.Apply.DryRun.{IsAdmin, refused_sends_nothing, change_needs_consent}
use pbs.Api.{Namespace}
use pbs.Api.Namespaces.{missing_namespace_chain}
use pbs.Api.Chain.{
  ParentFirst, levels, name_list, create_all, parts_of, missing_namespace_chain-creates,
}
use pbs.Tests.World.{World, reply_value, network, net, client, make_ns, grant, steps, admin, guest}

abbrev echoed : List Text
echoed = str "grant a on b" ∷ str "old thing" ∷ []

confirm_run : confirm (str "t") steps echoed ≡ ok (grant ∷ [], skip_note (str "old thing") ∷ [])
unfolding confirm
confirm_run = refl

confirm-Keeps_example : Keeps (IsEchoed echoed) steps (grant ∷ [])
confirm-Keeps_example = confirm-Keeps (str "t") steps echoed confirm_run

refuse_drifted_run : refuse_drifted (str "t") steps echoed ≡ ok tt
unfolding refuse_drifted
refuse_drifted_run = refl

refuse_drifted-planned_example :
    All (λ i. contains_char b'#' i ≡ true → is_planned steps i ≡ true) echoed
refuse_drifted-planned_example = refuse_drifted-planned (str "t") steps echoed refuse_drifted_run

abbrev answers : Text → List Value
answers s = null ∷ string s ∷ null ∷ []

answers-SamePublic : SamePublic steps (answers (str "a")) (answers (str "b"))
answers-SamePublic = public refl (secret refl (public refl none_left))

applied-SamePublic_example :
    applied (str "t") (str "sum") steps (answers (str "a")) []
    ≡ applied (str "t") (str "sum") steps (answers (str "b")) []
applied-SamePublic_example = applied-SamePublic (str "t") (str "sum") [] answers-SamePublic

abbrev ignore : Step → Value → Io World (Unit {0})
ignore s v = pure tt

abbrev values : List Value
values = reply_value ∷ reply_value ∷ reply_value ∷ []

abbrev end_world : World
end_world = (run_with net client (str "t") steps ignore []).1

run_values : run_with net client (str "t") steps ignore [] ≡ (ok values, end_world)
unfolding run_with attempt ◌==◌
run_values = refl

run_with-Ran_example : Ran net client ignore steps values [] end_world
run_with-Ran_example = run_with-Ran net client ignore (str "t") steps [] run_values

abbrev refused_text : Text
refused_text =
    str
      "t: step 1 of 3 (create-namespace tank:a) failed: PBS POST /ns: HTTP 500: ; already applied: []"

abbrev one_sent : World
one_sent = (send_step (network 500) client make_ns.call []).1

run_refused : run_with (network 500) client (str "t") steps ignore [] ≡ (err refused_text, one_sent)
unfolding run_with attempt ◌==◌ failure starts_with
run_refused = refl

run_with-StopsAt_example :
    StopsAt (network 500) client ignore (str "t") steps 0 steps [] refused_text one_sent
run_with-StopsAt_example =
    run_with-StopsAt (network 500) client ignore (str "t") steps [] run_refused

abbrev apply_plan : Bool → Option CallerIdentity → Option (List Text) → Io World Change
apply_plan execute caller items =
    plan_or_apply net client (str "t") (ok null) execute caller (str "sum") steps [] items

guest-not-IsAdmin : ¬ IsAdmin (some guest)
unfolding str
guest-not-IsAdmin h = cc

refused_sends_nothing_example :
    (e : Text) × (apply_plan true (some guest) (some echoed) [] ≡ (err e, []))
refused_sends_nothing_example =
    refused_sends_nothing net client (str "t") (ok null) true (some guest) (str "sum") steps []
      (some echoed) [] guest-not-IsAdmin

applied_changes : (apply_plan true (some admin) (some echoed) []).1 ≢ []
unfolding plan_or_apply attempt ◌==◌
applied_changes h = cc

change_needs_consent_example : (true ≡ true) × IsAdmin (some admin) × (echoed ≢ [])
change_needs_consent_example =
    change_needs_consent net client (str "t") (ok null) true (some admin) (str "sum") steps []
      echoed [] applied_changes

abbrev existing : List Namespace
existing = record { ns = str "hosts"; comment = none } ∷ []

missing_namespace_chain-creates_example :
    ParentFirst (name_list existing) (missing_namespace_chain existing (str "hosts/nas/docs"))
    × All
        (λ t.
          one_of t (
            create_all
              (name_list existing)
              (missing_namespace_chain existing (str "hosts/nas/docs")))
          ≡ true)
        (levels [] (parts_of (str "hosts/nas/docs")))
missing_namespace_chain-creates_example =
    missing_namespace_chain-creates existing (str "hosts/nas/docs")
