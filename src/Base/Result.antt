-- ===== src/Base/Result.antt =====
-- `anyhow::Result`, and actions on the outside world. An error is kept as the text that `{e:#}`
-- prints, its contexts joined by ": ". A panic ends the call and is no error value.
use pbs.Base.{refl, ◌≡◌, ◌⊎◌, inl, inr, Bool, true, false, Option, none, some, ◌++◌}
use pbs.Base.Text.{Text, str}

pub data Result {ℓ} (A : Type ℓ) : Type ℓ where
  ok : A → Result A
  err : Text → Result A
  panic : Result A

-- `?` hands on an error, and a panic.
infixl 5 ◌>>=◌
abbrev pub ◌>>=◌ {κ ℓ} : {A : Type κ} {B : Type ℓ} → Result A → (A → Result B) → Result B
panic >>= next = panic
err why >>= next = err why
ok value >>= next = next value

infixl 5 ◌>>◌
abbrev pub ◌>>◌ {κ} : {B : Type κ} → Result (Unit {0}) → Result B → Result B
first >> next = first >>= λ u. next

-- `if !test { bail!(message) }`
abbrev pub ensure : Bool → Text → Result (Unit {0})
ensure true e = ok tt
ensure false e = err e

-- `ok_or_else`, `map_err`, and `context`
abbrev pub ok_or {ℓ} : {A : Type ℓ} → Option A → Text → Result A
ok_or none e = err e
ok_or (some a) e = ok a

abbrev pub map_err {ℓ} : {A : Type ℓ} → (Text → Text) → Result A → Result A
map_err f (ok a) = ok a
map_err f (err e) = err (f e)
map_err f panic = panic

unfoldable pub with_context : Text → Text → Text
unfolding str
with_context c e = c ++ (str ": " ++ e)

-- `o.map(f).transpose()`
abbrev pub transpose : {A B : Type 0} → (A → Result B) → Option A → Result (Option B)
transpose f none = ok none
transpose f (some a) = f a >>= λ b. ok (some b)

-- An action reads and changes the world, also when it fails.
abbrev pub Io {ℓ} : Type ℓ → Type ℓ → Type ℓ
Io W A = W → Result A × W

module _ {ℓ} {W A B : Type ℓ} where
  abbrev pub continue : Result A × W → (A → Io W B) → Result B × W
  continue (ok a, w) f = f a w
  continue (err e, w) f = (err e, w)
  continue (panic, w) f = (panic, w)

  abbrev pub bind : Io W A → (A → Io W B) → Io W B
  bind m f w = continue (m w) f

module _ {ℓ} {W A : Type ℓ} where
  abbrev pub lift : Result A → Io W A
  lift r w = (r, w)

  abbrev pub pure : A → Io W A
  pure a w = (ok a, w)

  abbrev pub fail : Text → Io W A
  fail e w = (err e, w)

-- Inversion of an action that succeeds.
module _ {W A B : Type 0} where
  pub continue-eq-ok :
      (m : Result A × W) (f : A → Io W B) {b : B} {w' : W}
      → continue m f ≡ (ok b, w')
      → (a : A) × (w : W) × (m ≡ (ok a, w)) × (f a w ≡ (ok b, w'))
  continue-eq-ok (ok a, w) f h = (a, w, refl, h)
  continue-eq-ok (err e, w) f h = cc
  continue-eq-ok (panic, w) f h = cc

  -- One that fails does so in its first part or in the rest.
  pub continue-eq-err :
      (m : Result A × W) (f : A → Io W B) {e : Text} {w' : W}
      → continue m f ≡ (err e, w')
      → (m ≡ (err e, w')) ⊎ ((a : A) × (w : W) × (m ≡ (ok a, w)) × (f a w ≡ (err e, w')))
  continue-eq-err (ok a, w) f h = inr (a, w, refl, h)
  continue-eq-err (err e, w) f h = inl cc
  continue-eq-err (panic, w) f h = cc

module _ {W A : Type 0} where
  pub ok_or-eq-ok :
      (o : Option A) (e : Text) (w : W) {a : A} {w' : W}
      → ◌≡◌ {A = Result A × W} (ok_or o e, w) (ok a, w')
      → (o ≡ some a) × (w ≡ w')
  ok_or-eq-ok none e w h = cc
  ok_or-eq-ok (some a) e w h = (cc, cc)

  pub map_err-eq-ok :
      (f : Text → Text) (m : Result A × W) {a : A} {w' : W}
      → ◌≡◌ {A = Result A × W} (map_err f m.0, m.1) (ok a, w')
      → m ≡ (ok a, w')
  map_err-eq-ok f (ok a, w) h = h
  map_err-eq-ok f (err e, w) h = cc
  map_err-eq-ok f (panic, w) h = cc
