-- ===== src/Base/Gives.antt =====
-- What an action gives when it succeeds.
use pbs.Base.{Bool, true, false, ◌≡◌, refl, subst}
use pbs.Base.Tests.{if◌then◌else◌}
use pbs.Base.Text.{Text}
use pbs.Base.Result.{
  Result, ok, err, panic, Io, bind, lift, pure, fail, with_context, continue-eq-ok, map_err-eq-ok,
}
use pbs.Base.Action.{outcome, attempt, in_context}

abbrev pub Gives : {W A : Type 0} → (A → Type 0) → Io W A → Type 0
Gives {W} {A} P m = (w : W) (a : A) (w' : W) → m w ≡ (ok a, w') → P a

module _ {W A : Type 0} (P : A → Type 0) where
  pub pure-Gives : (a : A) → P a → Gives P (pure {W = W} a)
  pure-Gives a h w b w' e = let same : a ≡ b = cc in subst P same h

  pub fail-Gives : (e : Text) → Gives P (fail {W = W} e)
  fail-Gives e w b w' h = cc

pub if-Gives :
    {W A : Type 0} (P : A → Type 0) (b : Bool) (m n : Io W A)
    → ((b ≡ true) → Gives P m)
    → ((b ≡ false) → Gives P n)
    → Gives P (if b then m else n)
if-Gives P true m n h k = h refl
if-Gives P false m n h k = k refl

module _ {W A B : Type 0} (P : A → Type 0) (Q : B → Type 0) where
  pub bind-Gives :
      (m : Io W A) (f : A → Io W B)
      → Gives P m
      → ((a : A) → P a → Gives Q (f a))
      → Gives Q (bind m f)
  bind-Gives m f h k w b w' e =
      let (a, v, first, rest) = continue-eq-ok (m w) f e in k a (h w a v first) v b w' rest

-- Where nothing is claimed of the first action.
module _ {W A B : Type 0} (Q : B → Type 0) where
  pub then-Gives : (m : Io W A) (f : A → Io W B) → ((a : A) → Gives Q (f a)) → Gives Q (bind m f)
  then-Gives m f k w b w' e = let (a, v, first, rest) = continue-eq-ok (m w) f e in k a v b w' rest

-- Of a result, what holds of its value.
abbrev pub OkGives : {A : Type 0} → (A → Type 0) → Result A → Type 0
OkGives {A} P r = (a : A) → r ≡ ok a → P a

module _ {W A : Type 0} (P : A → Type 0) where
  pub lift-Gives : (r : Result A) → OkGives P r → Gives P (lift {W = W} r)
  lift-Gives r h w a w' e = h a cc

  outcome-eq-ok :
      (x : Result A × W) (r : Result A) (w' : W) (a : A)
      → outcome x ≡ (ok r, w')
      → r ≡ ok a
      → x ≡ (ok a, w')
  outcome-eq-ok (ok b, w) r w' a e k = cc
  outcome-eq-ok (err b, w) r w' a e k = cc
  outcome-eq-ok (panic, w) r w' a e k = cc

  pub attempt-Gives : (m : Io W A) → Gives P m → Gives (OkGives P) (attempt m)
  attempt-Gives m h w r w' e a k = h w a w' (outcome-eq-ok (m w) r w' a e k)

  pub in_context-Gives : (c : Text) (m : Io W A) → Gives P m → Gives P (in_context c m)
  in_context-Gives c m h w a w' e = h w a w' (map_err-eq-ok (with_context c) (m w) e)

  pub weaken-Gives : (Q : A → Type 0) (m : Io W A) → Gives P m → ((a : A) → P a → Q a) → Gives Q m
  weaken-Gives Q m h k w a w' e = k a (h w a w' e)
