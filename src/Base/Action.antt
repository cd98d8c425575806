-- ===== src/Base/Action.antt =====
-- Actions in `do` blocks, and sorting as `sort` and `sort_by_key` do it.
use pbs.Base.{Bool, List, [], ◌∷◌}
use pbs.Base.Tests.{if◌then◌else◌}
use pbs.Base.Text.{Text}
use pbs.Base.Result.{Result, ok, err, panic, Io, bind, map_err, with_context}

infixl 5 ◌>>=◌ ◌>>◌
abbrev pub ◌>>=◌ : {W A B : Type 0} → Io W A → (A → Io W B) → Io W B
m >>= f = bind m f

abbrev pub ◌>>◌ : {W B : Type 0} → Io W (Unit {0}) → Io W B → Io W B
m >> k = bind m (λ _. k)

-- `m.with_context(|| c)` and `m.is_ok()`
abbrev pub in_context : {W A : Type 0} → Text → Io W A → Io W A
in_context c m w = let (r, w') = m w in (map_err (with_context c) r, w')

-- The result as a value; a panic is none.
abbrev pub outcome : {W A : Type 0} → Result A × W → Result (Result A) × W
outcome (ok a, w) = (ok (ok a), w)
outcome (err e, w) = (ok (err e), w)
outcome (panic, w) = (panic, w)

abbrev pub attempt : {W A : Type 0} → Io W A → Io W (Result A)
attempt m w = outcome (m w)

-- A stable sort by insertion.
unfoldable pub insert_by {ℓ} : {A : Type ℓ} → (A → A → Bool) → A → List A → List A
insert_by lt x [] = x ∷ []
insert_by lt x (y ∷ ys) = if lt y x then y ∷ insert_by lt x ys else x ∷ y ∷ ys

unfoldable pub sort_by {ℓ} : {A : Type ℓ} → (A → A → Bool) → List A → List A
unfolding insert_by
sort_by lt [] = []
sort_by lt (x ∷ xs) = insert_by lt x (sort_by lt xs)
