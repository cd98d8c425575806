-- ===== src/Base/Quiet.antt =====
-- Actions that leave the world as it is.
use pbs.Base.{◌≡◌, ◌∙◌, Bool, true, false}
use pbs.Base.Tests.{if◌then◌else◌}
use pbs.Base.Text.{Text}
use pbs.Base.Result.{Result, ok, err, panic, Io, continue, bind}
use pbs.Base.Action.{in_context, attempt}

-- The action leaves the world as it is.
abbrev pub IsQuiet : {W A : Type 0} → Io W A → Type 0
IsQuiet {W} m = (w : W) → (m w).1 ≡ w

pub continue_quiet :
    {W A B : Type 0} (p : Result A × W) (f : A → Io W B) (w : W)
    → p.1 ≡ w
    → ((a : A) → IsQuiet (f a))
    → (continue p f).1 ≡ w
continue_quiet (ok a, v) f w h k = k a v ∙ h
continue_quiet (err e, v) f w h k = h
continue_quiet (panic, v) f w h k = h

pub bind-IsQuiet :
    {W A B : Type 0} (m : Io W A) (f : A → Io W B)
    → IsQuiet m
    → ((a : A) → IsQuiet (f a))
    → IsQuiet (bind m f)
bind-IsQuiet m f h k w = continue_quiet (m w) f w (h w) k

pub in_context-IsQuiet :
    {W A : Type 0} (c : Text) (m : Io W A) → IsQuiet m → IsQuiet (in_context c m)
in_context-IsQuiet c m h w = h w

outcome_quiet :
    {W A : Type 0} (p : Result A × W) (w : W) → p.1 ≡ w → (attempt (λ (v : W). p) w).1 ≡ w
outcome_quiet (ok a, v) w h = h
outcome_quiet (err e, v) w h = h
outcome_quiet (panic, v) w h = h

pub attempt-IsQuiet : {W A : Type 0} (m : Io W A) → IsQuiet m → IsQuiet (attempt m)
attempt-IsQuiet m h w = outcome_quiet (m w) w (h w)

pub choice-IsQuiet :
    {W A : Type 0} (b : Bool) (m n : Io W A) → IsQuiet m → IsQuiet n → IsQuiet (if b then m else n)
choice-IsQuiet true m n h k = h
choice-IsQuiet false m n h k = k

pub then-IsQuiet :
    {W A : Type 0} (b : Bool) (m n : Io W A) → b ≡ true → IsQuiet m → IsQuiet (if b then m else n)
then-IsQuiet true m n e h = h
then-IsQuiet false m n e h = cc
