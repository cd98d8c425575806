-- ===== src/Plan/Apply/Order.antt =====
-- Steps run in the order of the plan, and a failure stops at its step.
use pbs.Base.{
  ℕ, suc, ◌+◌, List, [], ◌∷◌, ◌++◌, ◌≡◌, ◌⊎◌, inl, inr, subst, refl, sym, ap, ◌∙◌, append_assoc,
  append-nil, arith,
}
use pbs.Base.Lists.{length}
use pbs.Base.Text.{Text}
use pbs.Base.Json.{Value}
use pbs.Base.Result.{Result, ok, err, panic, Io}
use pbs.Client.Request.{Net, PbsClient}
use pbs.Plan.{Step}
use pbs.Plan.Apply.{failure, settle, attempt, run_loop, run_with}

ok-injective : {A : Type 0} {a b : A} → ok a ≡ ok b → a ≡ b
ok-injective h = cc

module _ {W : Type 0} (net : Net W) (c : PbsClient) (after : Step → Value → Io W (Unit {0})) where
  -- The steps ran one after the other, each with success, from the first world to the last, and
  -- gave these responses.
  pub data Ran : List Step → List Value → W → W → Type 0 where
    stay : {w : W} → Ran [] [] w w
    then :
        {s : Step} {v : Value} {ss : List Step} {vs : List Value} {w w' w'' : W}
        → attempt net c after s w ≡ (ok v, w')
        → Ran ss vs w' w''
        → Ran (s ∷ ss) (v ∷ vs) w w''

  -- Where a run of `steps`, `i` steps into `all`, stopped: `before` ran, the step behind it
  -- failed with `cause`, and nothing behind that was sent.
  pub record StopsAt (tool : Text) (all : List Step) (i : ℕ) (steps : List Step) (w : W) (e : Text)
      (w' : W) : Type 0 where
    pub before : List Step
    pub failed : Step
    pub unsent : List Step
    pub responses : List Value
    pub middle : W
    pub cause : Text
    pub splits : steps ≡ before ++ (failed ∷ unsent)
    pub ran : Ran before responses w middle
    pub fails : attempt net c after failed middle ≡ (err cause, w')
    pub says : e ≡ failure tool all (i + length before) failed cause

  settle-ok :
      (rw0 : Result Value × W) (message : Text → Text) (next : Value → Io W (List Value))
      {vs : List Value} {w' : W}
      → settle rw0 message next ≡ (ok vs, w')
      → (v : Value) × (w1 : W) × (rw0 ≡ (ok v, w1)) × (next v w1 ≡ (ok vs, w'))
  settle-ok (ok v, w1) message next h = (v, w1, refl, h)
  settle-ok (err e, w1) message next h = cc
  settle-ok (panic, w1) message next h = cc

  run_loop-Ran :
      (tool : Text) (all : List Step) (i : ℕ) (out : List Value) (rest : List Step) (w : W)
      {vs : List Value} {w' : W}
      → run_loop net c tool all after i out rest w ≡ (ok vs, w')
      → (new : List Value) × (vs ≡ out ++ new) × Ran rest new w w'
  unfolding run_loop
  run_loop-Ran tool all i out [] w h = (
    [],
    sym (ok-injective (ap (λ p. p.0) h)) ∙ sym (append-nil out),
    subst (Ran [] [] w) (ap (λ p. p.1) h) stay,
  )
  run_loop-Ran tool all i out (s ∷ rest) w h =
      let (v, w1, first, later) = settle-ok (attempt net c after s w) _ _ h in
      let (new, joined, ran) = run_loop-Ran tool all (suc i) (out ++ v ∷ []) rest w1 later in
      (v ∷ new, joined ∙ append_assoc out (v ∷ []) new, then first ran)

  settle-err :
      (rw0 : Result Value × W) (message : Text → Text) (next : Value → Io W (List Value)) {e : Text}
      {w' : W}
      → settle rw0 message next ≡ (err e, w')
      → ((cause : Text) × (rw0 ≡ (err cause, w')) × (e ≡ message cause))
        ⊎ ((v : Value) × (w1 : W) × (rw0 ≡ (ok v, w1)) × (next v w1 ≡ (err e, w')))
  settle-err (ok v, w1) message next h = inr (v, w1, refl, h)
  settle-err (err cause, w1) message next h = inl (cause, cc, cc)
  settle-err (panic, w1) message next h = cc

  StopsAt-then :
      (tool : Text) (all : List Step) (i : ℕ) (s : Step) (rest : List Step) (v : Value)
      {w w1 w' : W} {e : Text}
      → attempt net c after s w ≡ (ok v, w1)
      → StopsAt tool all (suc i) rest w1 e w'
      → StopsAt tool all i (s ∷ rest) w e w'
  StopsAt-then tool all i s rest v first later = record {
    before = s ∷ later.before;
    failed = later.failed;
    unsent = later.unsent;
    responses = v ∷ later.responses;
    middle = later.middle;
    cause = later.cause;
    splits = ap (◌∷◌ s) later.splits;
    ran = then first later.ran;
    fails = later.fails;
    says = later.says ∙ ap (λ n. failure tool all n later.failed later.cause) (omega arith);
  }

  run_loop-StopsAt :
      (tool : Text) (all : List Step) (i : ℕ) (out : List Value) (rest : List Step) (w : W)
      {e : Text} {w' : W}
      → run_loop net c tool all after i out rest w ≡ (err e, w')
      → StopsAt tool all i rest w e w'
  unfolding run_loop
  run_loop-StopsAt tool all i out [] w h = cc
  run_loop-StopsAt tool all i out (s ∷ rest) w h =
      elim (settle-err (attempt net c after s w) _ _ h) [
        | inl (cause, fails, says) ↦ record {
          before = [];
          failed = s;
          unsent = rest;
          responses = [];
          middle = w;
          cause = cause;
          splits = refl;
          ran = stay;
          fails = fails;
          says = says ∙ ap (λ n. failure tool all n s cause) (omega arith);
        }
        | inr (v, w1, first, later) ↦
            StopsAt-then tool all i s rest v first
              (run_loop-StopsAt tool all (suc i) (out ++ v ∷ []) rest w1 later)
      ]

  -- If a run succeeds, every step ran, in the order of the plan, and the results are their
  -- responses in that order.
  pub run_with-Ran :
      (tool : Text) (steps : List Step) (w : W) {vs : List Value} {w' : W}
      → run_with net c tool steps after w ≡ (ok vs, w')
      → Ran steps vs w w'
  unfolding run_with
  run_with-Ran tool steps w {w'} h =
      let (new, e, ran) = run_loop-Ran tool steps 0 [] steps w h in
      subst (λ rs. Ran steps rs w w') (sym e) ran

  -- If a run fails, the plan splits at one step: those before it ran with success, it failed, none
  -- behind it was sent, and the message names it and what already ran.
  pub run_with-StopsAt :
      (tool : Text) (steps : List Step) (w : W) {e : Text} {w' : W}
      → run_with net c tool steps after w ≡ (err e, w')
      → StopsAt tool steps 0 steps w e w'
  unfolding run_with
  run_with-StopsAt tool steps w h = run_loop-StopsAt tool steps 0 [] steps w h
