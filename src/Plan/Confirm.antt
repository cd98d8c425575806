-- ===== src/Plan/Confirm.antt =====
-- Execution acts only on items that the caller echoed, and on all of those that are still planned.
use pbs.Base.{true, false, not, ◌&&◌, List, [], ◌∷◌, ◌≡◌, subst, inl, inr, refl, arith}
use pbs.Base.Tests.{Bool-cases}
use pbs.Base.Lists.{All, All_mono, filter, filter-eq-nil}
use pbs.Base.Text.{Text, one_of, contains_char}
use pbs.Base.Result.{Result, ok}
use pbs.Plan.{Step, item, confirm, is_planned, drifted, refuse_drifted, refuse}

-- `kept` is what is left of a list when some of its items are dropped, in the same order; none of
-- the dropped ones satisfies `P`.
pub data Keeps (P : Step → Type 0) : List Step → List Step → Type 0 where
  done : Keeps P [] []
  keep : {s : Step} {ss kept : List Step} → P s → Keeps P ss kept → Keeps P (s ∷ ss) (s ∷ kept)
  drop : {s : Step} {ss kept : List Step} → ¬ P s → Keeps P ss kept → Keeps P (s ∷ ss) kept

abbrev pub IsEchoed : List Text → Step → Type 0
IsEchoed items s = one_of (item s) items ≡ true

filter-Keeps :
    (items : List Text) (ss : List Step)
    → Keeps (IsEchoed items) ss (filter (λ s. one_of (item s) items) ss)
unfolding filter
filter-Keeps items [] = done
filter-Keeps items (s ∷ ss) = elim (Bool-cases (one_of (item s) items)) [
  | inl yes_echoed ↦ rw yes_echoed (keep yes_echoed (filter-Keeps items ss))
  | inr not_echoed ↦ rw not_echoed (drop (λ h. cc) (filter-Keeps items ss))
]

kept-eq :
    {kept kept' : List Step} {notes notes' : List Text}
    → ◌≡◌ {A = Result (List Step × List Text)} (ok (kept, notes)) (ok (kept', notes'))
    → kept ≡ kept'
kept-eq h = cc

refuse-eq-ok : (tool : Text) (is : List Text) → refuse tool is ≡ ok tt → is ≡ []
refuse-eq-ok tool [] h = refl
refuse-eq-ok tool (i ∷ is) h = cc

-- A confirmation keeps exactly the planned steps whose items were echoed, in the order of the plan.
pub confirm-Keeps :
    (tool : Text) (steps : List Step) (items : List Text) {kept : List Step} {notes : List Text}
    → confirm tool steps items ≡ ok (kept, notes)
    → Keeps (IsEchoed items) steps kept
unfolding confirm
confirm-Keeps tool [] [] h = subst (Keeps (IsEchoed []) []) (kept-eq h) done
confirm-Keeps tool [] (i ∷ is) h = subst (Keeps (IsEchoed (i ∷ is)) []) (kept-eq h) done
confirm-Keeps tool (s ∷ ss) [] h = cc
confirm-Keeps tool (s ∷ ss) (i ∷ is) h =
    subst (Keeps (IsEchoed (i ∷ is)) (s ∷ ss)) (kept-eq h) (filter-Keeps (i ∷ is) (s ∷ ss))

drifted_none :
    (steps : List Step) (items : List Text)
    → drifted steps items ≡ []
    → All (λ i. contains_char b'#' i ≡ true → is_planned steps i ≡ true) items
drifted_none steps items h =
    All_mono (λ i. (contains_char b'#' i && not (is_planned steps i)) ≡ false) _ items
      (λ i k bound. ground arith) (filter-eq-nil _ items h)

-- If no drift is refused, every echoed item that is bound to contents is still planned.
pub refuse_drifted-planned :
    (tool : Text) (steps : List Step) (items : List Text)
    → refuse_drifted tool steps items ≡ ok tt
    → All (λ i. contains_char b'#' i ≡ true → is_planned steps i ≡ true) items
unfolding refuse_drifted
refuse_drifted-planned tool steps items h =
    drifted_none steps items (refuse-eq-ok tool (drifted steps items) h)
