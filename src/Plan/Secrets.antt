-- ===== src/Plan/Secrets.antt =====
-- A minted secret is withheld from the report of what was applied.
use pbs.Base.{true, List, [], ◌∷◌, ◌≡◌, refl}
use pbs.Base.Text.{Text}
use pbs.Base.Json.{Value}
use pbs.Plan.{Step, outcomes, applied}

-- Two lists of responses that differ at most where the step is sensitive.
pub data SamePublic : List Step → List Value → List Value → Type 0 where
  none_left : {rs qs : List Value} → SamePublic [] rs qs
  short : {ss : List Step} → SamePublic ss [] []
  secret :
      {s : Step} {ss : List Step} {r q : Value} {rs qs : List Value}
      → s.sensitive_result ≡ true
      → SamePublic ss rs qs
      → SamePublic (s ∷ ss) (r ∷ rs) (q ∷ qs)
  public :
      {s : Step} {ss : List Step} {r q : Value} {rs qs : List Value}
      → r ≡ q
      → SamePublic ss rs qs
      → SamePublic (s ∷ ss) (r ∷ rs) (q ∷ qs)

outcomes-SamePublic :
    {steps : List Step} {rs qs : List Value}
    → SamePublic steps rs qs
    → outcomes steps rs ≡ outcomes steps qs
unfolding outcomes
outcomes-SamePublic none_left = refl
outcomes-SamePublic (short {ss = []}) = refl
outcomes-SamePublic (short {ss = s ∷ ss}) = refl
outcomes-SamePublic (secret h t) = cc (h, outcomes-SamePublic t)
outcomes-SamePublic (public h t) = cc (h, outcomes-SamePublic t)

-- The report is the same whatever the responses of the sensitive steps are.
pub applied-SamePublic :
    (tool summary : Text) (notes : List Text) {steps : List Step} {rs qs : List Value}
    → SamePublic steps rs qs
    → applied tool summary steps rs notes ≡ applied tool summary steps qs notes
unfolding applied
applied-SamePublic tool summary notes h = cc (outcomes-SamePublic h)
