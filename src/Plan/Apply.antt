-- ===== src/Plan/Apply.antt =====
-- src/plan.rs: `run_with`, `run` and `plan_or_apply`, which send the calls of a plan.
pub mod Order
pub mod DryRun
use pbs.Base.{ℕ, zero, suc, ◌+◌, Bool, Option, none, some, List, [], ◌∷◌, ◌++◌, map}
use pbs.Base.Tests.{if◌then◌else◌}
use pbs.Base.Lists.{length, take}
use pbs.Base.Text.{Text, str, join, show_nat}
use pbs.Base.Json.{Value}
use pbs.Base.Result.{
  Result, ok, err, panic, ◌>>=◌, map_err, with_context, Io, continue, bind, lift, pure,
}
use pbs.Client.Request.{Net, PbsClient, post, put, delete}
use pbs.Plan.{
  ApiCall, post_call, put_call, delete_call, Step, CallerIdentity, Change, planned, applied_change,
  require_admin, plan, confirm, applied,
}

-- `{action} {target}` of the steps in `steps[..upto]`
unfoldable pub done_text : List Step → Text
unfolding join str
done_text steps = join (str ", ") (map (λ s. s.action ++ (b' ' ∷ s.target)) steps)

unfoldable pub failure : Text → List Step → ℕ → Step → Text → Text
unfolding done_text show_nat str
failure tool steps i s e =
    tool
    ++ (str ": step "
        ++ (show_nat (i + 1)
            ++ (str " of "
                ++ (show_nat (length steps)
                    ++ (str " ("
                        ++ (s.action
                            ++ (b' '
                                ∷ (s.target
                                    ++ (str ") failed: "
                                        ++ (e
                                            ++ (str "; already applied: ["
                                                ++ (done_text (take i steps) ++ str "]"))))))))))))

module _ {W : Type 0} where
  abbrev pub recontext : Text → Io W (Unit {0}) → Io W (Unit {0})
  recontext c m w = let (r, w') = m w in (map_err (with_context c) r, w')

  -- The `match` on a step's result: go on, or `bail!` with the message of the failure.
  abbrev pub settle :
      Result Value × W → (Text → Text) → (Value → Io W (List Value)) → Result (List Value) × W
  settle (ok v, w) message next = next v w
  settle (err e, w) message next = (err (message e), w)
  settle (panic, w) message next = (panic, w)

module _ {W : Type 0} (net : Net W) (c : PbsClient) where
  unfoldable pub send_step : ApiCall → Io W Value
  unfolding post put delete
  send_step (post_call path body) = post net c path body
  send_step (put_call path body) = put net c path body
  send_step (delete_call path query) = delete net c path query

  -- One step and the callback on its response.
  unfoldable pub attempt : (Step → Value → Io W (Unit {0})) → Step → Io W Value
  unfolding send_step with_context str
  attempt after s =
      bind (send_step s.call)
        (λ v. bind (recontext (str "after the call succeeded") (after s v)) (λ _. pure v))

  -- The loop: `i` steps are done and their responses are in `out`.
  unfoldable pub run_loop :
      Text
      → List Step
      → (Step → Value → Io W (Unit {0}))
      → ℕ
      → List Value
      → List Step
      → Io W (List Value)
  run_loop tool steps after i out [] w = (ok out, w)
  run_loop tool steps after i out (s ∷ rest) w =
      settle (attempt after s w) (failure tool steps i s)
        (λ v. run_loop tool steps after (suc i) (out ++ v ∷ []) rest)

  unfoldable pub run_with : Text → List Step → (Step → Value → Io W (Unit {0})) → Io W (List Value)
  unfolding run_loop
  run_with tool steps after = run_loop tool steps after 0 [] steps

  unfoldable pub run : Text → List Step → Io W (List Value)
  unfolding run_with
  run tool steps = run_with tool steps (λ _ _. pure tt)

  abbrev confirmed_steps :
      Text → List Step → List Text → Option (List Text) → Result (List Step × List Text)
  confirmed_steps tool steps notes none = ok (steps, notes)
  confirmed_steps tool steps notes (some items) =
      confirm tool steps items >>= λ kept_dropped. ok (kept_dropped.0, notes ++ kept_dropped.1)

  unfoldable pub plan_or_apply :
      Text
      → Result Value
      → Bool
      → Option CallerIdentity
      → Text
      → List Step
      → List Text
      → Option (List Text)
      → Io W Change
  unfolding require_admin plan confirm run applied
  plan_or_apply tool inputs execute caller summary steps notes confirmed =
      bind (lift (require_admin tool caller)) λ _.
        if execute
        then bind (lift (confirmed_steps tool steps notes confirmed)) (λ kept.
          bind (run tool kept.0)
            (λ results. pure (applied_change (applied tool summary kept.0 results kept.1))))
        else lift (plan tool inputs summary steps notes >>= λ p. ok (planned p))
