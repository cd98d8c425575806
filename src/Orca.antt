-- ===== src/Orca.antt =====
-- What the plugin takes from orca's toolkit, which is not part of this repository: the secrets
-- domain and the clock.
use pbs.Base.{Bool, Option}
use pbs.Base.Int.{ℤ}
use pbs.Base.Text.{Text}
use pbs.Base.Result.{Result, Io}

pub record Orca (W : Type 0) : Type 0 where
  pub get_secret : Text → Io W (Option Text)
  pub set_secret : Text → Text → Text → Io W (Unit {0})
  pub delete_secret : Text → Io W Bool
  pub secret_exists : Text → Io W Bool
  pub scoped_name : Text → Text → Text → Result Text
  pub now : W → ℤ
