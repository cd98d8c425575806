-- ===== src/Enroll/Run/MintedRun.antt =====
-- An enrolment that was carried out has stored every secret that it minted, under the host's name.
use pbs.Base.{Bool, true, false, not, Option, List, [], ◌∷◌, ◌++◌, ◌≡◌, inl, inr, refl, subst, sym}
use pbs.Base.Tests.{Bool-cases, if◌then◌else◌}
use pbs.Base.Text.{Text, str}
use pbs.Base.Json.{Value}
use pbs.Base.Result.{Result, ok, with_context, Io, lift, pure, continue-eq-ok, map_err-eq-ok}
use pbs.Client.Request.{Net, PbsClient}
use pbs.Plan.{Step, CallerIdentity, require_admin, plan, confirm}
use pbs.Plan.Apply.{recontext, send_step, attempt, run_with}
use pbs.Plan.Apply.Order.{Ran, stay, run_with-Ran}
use pbs.Api.{Codec}
use pbs.Orca.{Orca}
use pbs.Enroll.Identity.{Identity, check_not_self}
use pbs.Enroll.State.{State, Drift, Finding}
use pbs.Enroll.Diff.{diff_enroll}
use pbs.Enroll.Stamp.{stamp_acl_digest}
use pbs.Enroll.Run.{
  HostEnrollArgs, HostEnrollOutput, secret_name, enroll_tool, summary_of, keep_nonempty, is_held,
  read_state, store_minted, apply_enroll, enroll,
}
use pbs.Enroll.Run.Minted.{IsStored, attempt-IsStored}

lift-eq-ok :
    {W A : Type 0} (m : Result A) (w : W) {a : A} {w' : W}
    → ◌≡◌ {A = Result A × W} (m, w) (ok a, w')
    → (m ≡ ok a) × (w ≡ w')
lift-eq-ok m w h = (cc, cc)

module _ {W : Type 0} (net : Net W) (codec : Codec) (orca : Orca W) (c : PbsClient) (ep : Text)
    (id : Identity) where
  -- The steps ran in order. The secret that a sensitive step brought was stored under `sname` before
  -- the next step; a step that is not sensitive did no more than its call.
  pub data MintedRun (sname : Text) : List Step → W → W → Type 0 where
    stop : {w : W} → MintedRun sname [] w w
    minted :
        {s : Step} {v : Value} {ss : List Step} {w w1 w2 : W}
        → s.sensitive_result ≡ true
        → IsStored net codec orca c ep id sname s v w w1
        → MintedRun sname ss w1 w2
        → MintedRun sname (s ∷ ss) w w2
    sent :
        {s : Step} {v : Value} {ss : List Step} {w w1 w2 : W}
        → s.sensitive_result ≡ false
        → send_step net c s.call w ≡ (ok v, w1)
        → MintedRun sname ss w1 w2
        → MintedRun sname (s ∷ ss) w w2

  after_plain :
      (sname : Text) (s : Step) (v : Value) (w : W)
      → s.sensitive_result ≡ false
      → store_minted net codec orca ep id sname s v w ≡ (ok tt, w)
  unfolding store_minted
  after_plain sname s v w h = rw h refl

  attempt-sent :
      (sname : Text) (s : Step) (v : Value) (w w' : W)
      → s.sensitive_result ≡ false
      → attempt net c (store_minted net codec orca ep id sname) s w ≡ (ok v, w')
      → send_step net c s.call w ≡ (ok v, w')
  unfolding attempt
  attempt-sent sname s v w w' plain h =
      let (v0, w1, first, rest) = continue-eq-ok (send_step net c s.call w) _ h in
      let (u, w2, done, last) =
        continue-eq-ok
          (recontext (str "after the call succeeded") (store_minted net codec orca ep id sname s v0)
            w1)
          (λ _. pure v0) rest in
      let ran =
        map_err-eq-ok (with_context (str "after the call succeeded"))
          (store_minted net codec orca ep id sname s v0 w1) done in
      let quiet = after_plain sname s v0 w1 plain in
      let there : w1 ≡ w2 = cc in let world : w2 ≡ w' = cc in let value : v0 ≡ v = cc in cc

  Ran-MintedRun :
      (sname : Text) {ss : List Step} {vs : List Value} {w w' : W}
      → Ran net c (store_minted net codec orca ep id sname) ss vs w w'
      → MintedRun sname ss w w'
  Ran-MintedRun sname stay = stop
  Ran-MintedRun sname (Ran.then {s} {v} {ss} {vs} {w} {w'} {w''} first later) =
      elim (Bool-cases s.sensitive_result) [
        | inl secret ↦
            minted secret (attempt-IsStored net codec orca c ep id sname s v w w' secret first)
              (Ran-MintedRun sname later)
        | inr plain ↦
            sent plain (attempt-sent sname s v w w' plain first) (Ran-MintedRun sname later)
      ]

  -- The state that was read, the plan of it, what of it was confirmed, and the run of that.
  pub record Enrolled (args : HostEnrollArgs) (w' : W) : Type 0 where
    pub sname : Text
    pub stored : Option Text
    pub st : State
    pub drift : Drift
    pub kept : List Step
    pub dropped : List Text
    pub before : W
    pub middle : W
    pub named :
        orca.scoped_name (str "pbs") ep (str "host_" ++ (id.host ++ str "_token")) ≡ ok sname
    pub read : read_state net codec orca c id stored before ≡ (ok st, middle)
    pub planned : diff_enroll id st args.adopt ≡ ok drift
    pub confirmed : confirm enroll_tool drift.1 args.items ≡ ok (kept, dropped)
    pub ran : MintedRun sname (stamp_acl_digest kept st.acl_digest) middle w'

  applied-MintedRun :
      (items : List Text) (caller : Option CallerIdentity) (sname : Text) (held : Bool) (st : State)
      (findings : List Finding) (steps : List Step) (w : W) {out : HostEnrollOutput} {w' : W}
      → apply_enroll net codec orca ep c id items caller sname held st findings steps w
        ≡ (ok out, w')
      → (kept : List Step × List Text) × (confirm enroll_tool steps items ≡ ok kept)
        × MintedRun sname (stamp_acl_digest kept.0 st.acl_digest) w w'
  unfolding apply_enroll
  applied-MintedRun items caller sname held st findings steps w {out} {w'} h =
      let (u, w1, admin, h1) = continue-eq-ok (lift (require_admin enroll_tool caller) w) _ h in
      let (kept, w2, chosen, h2) =
        continue-eq-ok (lift (confirm enroll_tool steps items) w1) _ h1 in
      let (_, same1) = lift-eq-ok (require_admin enroll_tool caller) w admin in
      let (confirmed, same2) = lift-eq-ok (confirm enroll_tool steps items) w1 chosen in
      let stamped = stamp_acl_digest kept.0 st.acl_digest in
      let (results, w3, ran, last) =
        continue-eq-ok
          (run_with net c enroll_tool stamped (store_minted net codec orca ep id sname) w2) _ h2 in
      let start : w2 ≡ w = cc in
      let end_ : w3 ≡ w' = cc in
      (
        kept,
        confirmed,
        subst (λ x. MintedRun sname stamped x w') start
            (subst (λ y. MintedRun sname stamped w2 y) end_
              (Ran-MintedRun sname (
                run_with-Ran net c (store_minted net codec orca ep id sname) enroll_tool stamped w2
                  ran))),
      )

  executed :
      {A : Type 0} (b : Bool) (dry wet : Io W A) (w : W) {r : Result A × W}
      → b ≡ true
      → (if not b then dry else wet) w ≡ r
      → wet w ≡ r
  executed true dry wet w e h = h
  executed false dry wet w e h = cc

  -- If an enrolment that is to execute succeeds, then the steps that were confirmed of its plan ran, and
  -- every secret that a sensitive one brought was stored, before the next step, under the host's name.
  pub enroll-IsMinted :
      (args : HostEnrollArgs) (inputs : Result Value) (caller : Option CallerIdentity) (w : W)
      {out : HostEnrollOutput} {w' : W}
      → args.execute ≡ true
      → enroll net codec orca ep c id args inputs caller w ≡ (ok out, w')
      → Enrolled args w'
  unfolding enroll
  enroll-IsMinted args inputs caller w {out} {w'} wet h =
      let (_, w1, _, h1) = continue-eq-ok (lift (check_not_self id c) w) _ h in
      let (sname, w2, name, h2) = continue-eq-ok (lift (secret_name orca ep id.host) w1) _ h1 in
      let (found, w3, _, h3) = continue-eq-ok (orca.get_secret sname w2) _ h2 in
      let (st, w4, reads, h4) =
        continue-eq-ok (read_state net codec orca c id (keep_nonempty found) w3) _ h3 in
      let (drift, w5, diff, h5) = continue-eq-ok (lift (diff_enroll id st args.adopt) w4) _ h4 in
      let (p, w6, plans, h6) =
        continue-eq-ok (lift (plan enroll_tool inputs (summary_of id) drift.1 []) w5) _ h5 in
      let h7 = executed args.execute _ _ w6 wet h6 in
      let (kept, confirmed, ran) =
        applied-MintedRun args.items caller sname (is_held (keep_nonempty found)) st drift.0 drift.1
          w6 h7 in
      let (named, _) = lift-eq-ok (secret_name orca ep id.host) w1 name in
      let (planned, same5) = lift-eq-ok (diff_enroll id st args.adopt) w4 diff in
      let (_, same6) = lift-eq-ok (plan enroll_tool inputs (summary_of id) drift.1 []) w5 plans in
      let back = subst (λ x. x ≡ w4) same6 (sym same5) in
      record {
        sname = sname;
        stored = keep_nonempty found;
        st = st;
        drift = drift;
        kept = kept.0;
        dropped = kept.1;
        before = w3;
        middle = w4;
        named = named;
        read = reads;
        planned = planned;
        confirmed = confirmed;
        ran = subst (λ x. MintedRun sname (stamp_acl_digest kept.0 st.acl_digest) x w') back ran;
      }
