-- ===== src/Groups/Delete/Drift.antt =====
-- A group that changed since the dry run is not deleted.
use pbs.Base.{
  true, false, Option, none, some, List, [], ◌∷◌, ◌≡◌, ◌⊎◌, inl, inr, refl, subst, arith,
}
use pbs.Base.Tests.{Bool-cases}
use pbs.Base.Lists.{All}
use pbs.Base.Text.{Text, str, ◌==◌, one_of, contains_char}
use pbs.Base.Text.Equality.{text_eq_iff}
use pbs.Base.Json.{Value}
use pbs.Base.Result.{Result, ok, err}
use pbs.Client.Request.{Net, PbsClient}
use pbs.Plan.{Step, CallerIdentity, is_planned, drifted, refuse, refuse_drifted, require_admin}
use pbs.Plan.Confirm.{refuse_drifted-planned}
use pbs.Groups.{Group, GroupCodec, datastores}
use pbs.Groups.Delete.{GroupDeleteArgs, tool, steps_found, execute_guard, read_found, group_delete}

All-one_of :
    (P : Text → Type 0) (i : Text) (items : List Text) → All P items → one_of i items ≡ true → P i
unfolding one_of
All-one_of P i [] h k = cc
All-one_of P i (x ∷ items) h k = elim (Bool-cases (x == i)) [
  | inl same ↦ subst P ((text_eq_iff x i).0 same) h.0
  | inr differs ↦ All-one_of P i items h.1 (ground (arith, k, differs))
]

refuse_cases :
    (verb : Text) (is : List Text)
    → (refuse verb is ≡ ok tt) ⊎ ((e : Text) × (refuse verb is ≡ err e))
refuse_cases verb [] = inl refl
refuse_cases verb (i ∷ is) = inr (_, refl)

drift_refused :
    (verb : Text) (steps : List Step) (items : List Text) (i : Text)
    → one_of i items ≡ true
    → contains_char b'#' i ≡ true
    → is_planned steps i ≡ false
    → (e : Text) × (refuse_drifted verb steps items ≡ err e)
unfolding refuse_drifted
drift_refused verb steps items i echoed bound gone =
    elim (refuse_cases verb (drifted steps items)) [
      | inl accepted ↦ absurd (
          cc (
            All-one_of (λ j. contains_char b'#' j ≡ true → is_planned steps j ≡ true) i items
                (refuse_drifted-planned verb steps items accepted) echoed bound,
            gone,
          ))
      | inr refused ↦ refused
    ]

guard_refuses :
    (caller : Option CallerIdentity) (steps : List Step) (items : List Text)
    → (e : Text) × (refuse_drifted tool steps items ≡ err e)
    → (e : Text) × (execute_guard true caller steps items ≡ err e)
unfolding require_admin
guard_refuses none steps items (e, h) = (_, refl)
guard_refuses (some c) steps items (e, h) = elim (Bool-cases (c.role == str "admin")) [
  | inl same ↦ rw same (e, h)
  | inr differs ↦ rw differs (_, refl)
]

module _ {W : Type 0} (net : Net W) (codec : GroupCodec) (c : PbsClient) where
  -- If an echoed item was bound to a number of snapshots and the time of the last one, and the groups
  -- on the server now give no such item, then the execution fails after it has read them: nothing is
  -- deleted.
  pub group_delete-refuses_drift :
      (args : GroupDeleteArgs) (inputs : Result Value) (caller : Option CallerIdentity) (i : Text)
      (w : W) {stores : List Text} {found : List (Text × List Group)} {w0 w1 : W}
      → args.execute ≡ true
      → datastores net codec c args.datastores args.all_datastores w ≡ (ok stores, w0)
      → read_found net codec c stores args.ns w0 ≡ (ok found, w1)
      → one_of i args.items ≡ true
      → contains_char b'#' i ≡ true
      → is_planned (steps_found args found).0 i ≡ false
      → (e : Text) × (group_delete net codec c args inputs caller w ≡ (err e, w1))
  unfolding group_delete
  group_delete-refuses_drift args inputs caller i w {found = found} execute chosen reads echoed
        bound gone =
      let (e, refused) =
        guard_refuses caller (steps_found args found).0 args.items
          (drift_refused tool (steps_found args found).0 args.items i echoed bound gone) in
      (e, rw chosen (rw reads (rw execute (rw refused refl))))
