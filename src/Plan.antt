-- ===== src/Plan.antt =====
-- src/plan.rs: steps, dry-run plans, and their application.
pub mod Apply
pub mod Confirm
pub mod Secrets
use pbs.Base.{ℕ, ◌+◌, Bool, true, false, not, ◌&&◌, Option, none, some, List, [], ◌∷◌, ◌++◌, map}
use pbs.Base.Tests.{if◌then◌else◌}
use pbs.Base.Lists.{length, take, any, filter}
use pbs.Base.Text.{Text, str, ◌==◌, one_of, contains_char, join, show_nat}
use pbs.Base.Json.{Value, string}
use pbs.Base.Result.{Result, ok, err, panic, ◌>>=◌, ◌>>◌, ensure}

pub data ApiCall : Type 0 where
  post_call : Text → Value → ApiCall
  put_call : Text → Value → ApiCall
  delete_call : Text → List (Text × Text) → ApiCall

unfoldable pub query_text : List (Text × Text) → Text
unfolding str join
query_text query = join (str "&") (map (λ kv. kv.0 ++ (b'=' ∷ kv.1)) query)

unfoldable pub describe : ApiCall → Text
unfolding query_text str
describe (post_call path body) = str "POST " ++ path
describe (put_call path body) = str "PUT " ++ path
describe (delete_call path []) = str "DELETE " ++ path
describe (delete_call path (kv ∷ kvs)) = str "DELETE " ++ (path ++ (b'?' ∷ query_text (kv ∷ kvs)))

pub record Step : Type 0 where
  pub target : Text
  pub action : Text
  pub detail : Option Text
  pub call : ApiCall
  -- The response carries a secret and is withheld from the applied report.
  pub sensitive_result : Bool

abbrev pub new_step : Text → Text → ApiCall → Step
new_step target action call = record {
  target = target;
  action = action;
  detail = none;
  call = call;
  sensitive_result = false;
}

abbrev pub with_detail : Text → Step → Step
with_detail d s = record s { detail = some d }

abbrev pub sensitive : Step → Step
sensitive s = record s { sensitive_result = true }

-- `<action> <target>`
unfoldable pub item : Step → Text
item s = s.action ++ (b' ' ∷ s.target)

-- What the source gives `PlannedChange::new` and `with_detail`.
pub record PlannedChange : Type 0 where
  pub target : Text
  pub action : Text
  pub detail : Text

unfoldable pub to_change : Step → PlannedChange
unfolding item describe str
to_change s = record {
  target = item s;
  action = s.action;
  detail = elim s.detail [
    | none ↦ describe s.call
    | some d ↦ d ++ (str " (" ++ (describe s.call ++ str ")"))
  ];
}

-- What the source gives `ExecutionPlan::generic` and `detailed`.
pub record ExecutionPlan : Type 0 where
  pub tool : Text
  pub inputs : Value
  pub summary : Text
  pub changes : List PlannedChange

pub record StepOutcome : Type 0 where
  pub target : Text
  pub action : Text
  pub result : Value

pub record Applied : Type 0 where
  pub dry_run : Bool
  pub tool : Text
  pub summary : Text
  pub steps : List StepOutcome
  pub notes : List Text

pub data Change : Type 0 where
  planned : ExecutionPlan → Change
  applied_change : Applied → Change

pub record CallerIdentity : Type 0 where
  pub user_id : Text
  pub username : Text
  pub role : Text
  pub can_mutate : Bool

unfoldable pub role_message : Text → CallerIdentity → Text
unfolding str
role_message tool c =
    tool
    ++ (str ": requires role 'admin' (dry run included); caller '"
        ++ (c.username ++ (str "' has '" ++ (c.role ++ str "'"))))

unfoldable pub require_admin : Text → Option CallerIdentity → Result (Unit {0})
unfolding str ◌==◌ role_message
require_admin tool none =
    err (tool ++ str ": refused: the call carries no caller identity, so admin cannot be verified")
require_admin tool (some c) = ensure (c.role == str "admin") (role_message tool c)

abbrev push_notes : Text → List Text → Text
push_notes summary [] = summary
push_notes summary (n ∷ ns) = push_notes (summary ++ (str "; " ++ n)) ns

abbrev push_empty : Text → List Step → Text
push_empty summary [] = summary ++ str "; nothing to change"
push_empty summary (s ∷ steps) = summary

-- `inputs` is the serialised arguments, which may fail to serialise.
unfoldable pub plan : Text → Result Value → Text → List Step → List Text → Result ExecutionPlan
unfolding to_change str
plan tool inputs summary steps notes = do
  value ← inputs
  ok (record {
    tool = tool;
    inputs = value;
    summary = push_empty (push_notes summary notes) steps;
    changes = map to_change steps;
  })

abbrev pub is_planned : List Step → Text → Bool
is_planned steps i = any (λ s. item s == i) steps

unfoldable pub skip_note : Text → Text
unfolding str
skip_note i = str "skipped " ++ (i ++ str ": no longer planned")

abbrev confirmable : List Step → List Text → Bool
confirmable (s ∷ steps) [] = false
confirmable steps items = true

unfoldable pub confirm : Text → List Step → List Text → Result (List Step × List Text)
unfolding str skip_note any filter one_of item ◌==◌
confirm tool steps items = do
  ensure (confirmable steps items) (
      tool
      ++ str
          ": execute needs the items from the dry run; re-run without execute and pass its change targets as items")
  ok (
    filter (λ s. one_of (item s) items) steps,
    map skip_note (filter (λ i. not (is_planned steps i)) items),
  )

abbrev pub drifted : List Step → List Text → List Text
drifted steps items = filter (λ i. contains_char b'#' i && not (is_planned steps i)) items

abbrev pub refuse : Text → List Text → Result (Unit {0})
refuse tool [] = ok tt
refuse tool (i ∷ is) = err (
    tool
    ++ (str ": refusing: "
        ++ (join (str ", ") (i ∷ is)
            ++ str " changed or vanished since the dry run; re-run it and confirm the new items")))

unfoldable pub refuse_drifted : Text → List Step → List Text → Result (Unit {0})
unfolding str filter contains_char any item ◌==◌ join
refuse_drifted tool steps items = refuse tool (drifted steps items)

unfoldable pub outcomes : List Step → List Value → List StepOutcome
unfolding str
outcomes [] rs = []
outcomes (s ∷ ss) [] = []
outcomes (s ∷ ss) (r ∷ rs) =
    record {
      target = s.target;
      action = s.action;
      result = if s.sensitive_result then string (str "<withheld>") else r;
    }
    ∷ outcomes ss rs

unfoldable pub applied : Text → Text → List Step → List Value → List Text → Applied
unfolding outcomes
applied tool summary steps results notes = record {
  dry_run = false;
  tool = tool;
  summary = summary;
  steps = outcomes steps results;
  notes = notes;
}
