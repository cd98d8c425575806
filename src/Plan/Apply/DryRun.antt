-- ===== src/Plan/Apply/DryRun.antt =====
-- A call that is no confirmed execution of an administrator sends nothing.
use pbs.Base.{
  Bool, true, false, Option, none, some, List, [], ◌∷◌, ◌≡◌, ◌⊎◌, inl, inr, ◌≢◌, refl, ap, arith,
}
use pbs.Base.Text.{Text, str, ◌==◌}
use pbs.Base.Tests.{Bool-cases}
use pbs.Base.Text.Equality.{text_eq_iff}
use pbs.Base.Json.{Value}
use pbs.Base.Result.{Result, ok, err}
use pbs.Client.Request.{Net, PbsClient}
use pbs.Plan.{Step, CallerIdentity, role_message, require_admin}
use pbs.Plan.Apply.{plan_or_apply}

-- The caller is known and has the role of an administrator.
abbrev pub IsAdmin : Option CallerIdentity → Type 0
IsAdmin none = ⊥
IsAdmin (some c) = c.role ≡ str "admin"

pub require_admin-IsAdmin :
    (tool : Text) (caller : Option CallerIdentity)
    → require_admin tool caller ≡ ok tt
    → IsAdmin caller
unfolding require_admin
require_admin-IsAdmin tool none h = cc
require_admin-IsAdmin tool (some c) h = ground (arith, text_eq_iff c.role (str "admin"))

pub not_admin :
    (tool : Text) (caller : Option CallerIdentity)
    → ¬ IsAdmin caller
    → (e : Text) × (require_admin tool caller ≡ err e)
unfolding require_admin
not_admin tool none h = (_, refl)
not_admin tool (some c) h = elim (Bool-cases (c.role == str "admin")) [
  | inl same ↦ absurd (h ((text_eq_iff c.role (str "admin")).0 same))
  | inr differs ↦ (role_message tool c, rw differs)
]

pub IsAdmin-or_not : (caller : Option CallerIdentity) → IsAdmin caller ⊎ ¬ IsAdmin caller
IsAdmin-or_not none = inr (λ h. h)
IsAdmin-or_not (some c) = elim (Bool-cases (c.role == str "admin")) [
  | inl same ↦ inl ((text_eq_iff c.role (str "admin")).0 same)
  | inr differs ↦ inr (λ h. cc (differs, (text_eq_iff c.role (str "admin")).1 h))
]

module _ {W : Type 0} (net : Net W) (c : PbsClient) where
  -- A dry run leaves the server as it was.
  pub dry_run_sends_nothing :
      (tool : Text) (inputs : Result Value) (caller : Option CallerIdentity) (summary : Text)
      (steps : List Step) (notes : List Text) (confirmed : Option (List Text)) (w : W)
      → (plan_or_apply net c tool inputs false caller summary steps notes confirmed w).1 ≡ w
  unfolding plan_or_apply
  dry_run_sends_nothing tool inputs caller summary steps notes confirmed w = ground arith

  -- If the caller is no administrator, the call fails and leaves the server as it was, whether it
  -- was to execute or not.
  pub refused_sends_nothing :
      (tool : Text) (inputs : Result Value) (execute : Bool) (caller : Option CallerIdentity)
      (summary : Text) (steps : List Step) (notes : List Text) (confirmed : Option (List Text))
      (w : W)
      → ¬ IsAdmin caller
      → (e : Text) × (plan_or_apply net c tool inputs execute caller summary steps notes confirmed w
          ≡ (err e, w))
  unfolding plan_or_apply
  refused_sends_nothing tool inputs execute caller summary steps notes confirmed w h =
      let (e, refused) = not_admin tool caller h in (e, rw refused)

  nothing_echoed :
      (tool : Text) (inputs : Result Value) (execute : Bool) (caller : Option CallerIdentity)
      (summary : Text) (steps : List Step) (notes : List Text) (w : W)
      → (plan_or_apply net c tool inputs execute caller summary steps notes (some []) w).1 ≡ w
  unfolding plan_or_apply
  nothing_echoed tool inputs false caller summary steps notes w = ground arith
  nothing_echoed tool inputs true caller summary [] notes w = ground arith
  nothing_echoed tool inputs true caller summary (s ∷ steps) notes w = ground arith

  -- A call that asks for confirmed items changes the server only if the caller is an administrator,
  -- asked to execute, and echoed an item.
  pub change_needs_consent :
      (tool : Text) (inputs : Result Value) (execute : Bool) (caller : Option CallerIdentity)
      (summary : Text) (steps : List Step) (notes : List Text) (items : List Text) (w : W)
      → (plan_or_apply net c tool inputs execute caller summary steps notes (some items) w).1 ≢ w
      → (execute ≡ true) × IsAdmin caller × (items ≢ [])
  change_needs_consent tool inputs false caller summary steps notes items w h =
      absurd (h (dry_run_sends_nothing tool inputs caller summary steps notes (some items) w))
  change_needs_consent tool inputs true caller summary steps notes [] w h =
      absurd (h (nothing_echoed tool inputs true caller summary steps notes w))
  change_needs_consent tool inputs true caller summary steps notes (i ∷ is) w h =
      elim (IsAdmin-or_not caller) [
        | inl admin ↦ (refl, admin, λ e. cc)
        | inr other ↦
            let (e, refused) =
              refused_sends_nothing tool inputs true caller summary steps notes (some (i ∷ is)) w
                other in
            absurd (h (ap (λ p. p.1) refused))
      ]
