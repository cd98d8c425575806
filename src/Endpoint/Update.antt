-- ===== src/Endpoint/Update.antt =====
-- src/endpoint.rs: `pbs_update`.
use pbs.Base.{Bool, true, false, Option, none, some, List, [], ◌∷◌, ◌++◌}
use pbs.Base.Tests.{if◌then◌else◌}
use pbs.Base.Text.{Text, str, is_empty, trim, join}
use pbs.Base.Result.{Result, ok, err, panic, ◌>>=◌, ensure, ok_or, Io, continue, bind, lift, pure}
use pbs.Client.Token.{validate_token_id}
use pbs.Orca.{Orca}
use pbs.Tls.{Fingerprint, parse}
use pbs.Endpoint.{
  Routes, EndpointRow, Registry, validate_name, fingerprint_name, resolve_ref, drop_staged,
  store_secrets,
}

pub record PbsUpdateArgs : Type 0 where
  pub name : Text
  pub token_id : Option Text
  pub token_secret_ref : Option Text
  pub fingerprint : Option Text
  pub insecure : Option Bool
  pub routes : Routes
  pub enabled : Option Bool

pub record PbsUpdateOutput : Type 0 where
  pub endpoint : EndpointRow
  pub applied : List Text

-- `Some(None)` takes the pin away.
abbrev pin_change : Text → Result (Option (Option Fingerprint))
pin_change s = if is_empty s then ok (some none) else parse s >>= λ fp. ok (some (some fp))

abbrev trimmed_change : Option Text → Result (Option (Option Fingerprint))
trimmed_change none = ok none
trimmed_change (some s) = pin_change (trim s)

abbrev check_id : Option Text → Result (Unit {0})
check_id none = ok tt
check_id (some id) = validate_token_id id

abbrev set_id : Option Text → EndpointRow → EndpointRow
set_id none row = row
set_id (some id) row = record row { token_id = id }

abbrev set_insecure : Option Bool → EndpointRow → EndpointRow
set_insecure none row = row
set_insecure (some b) row = record row { insecure = b }

abbrev set_routes : Routes → EndpointRow → EndpointRow
set_routes [] row = row
set_routes (r ∷ rs) row = record row { routes = r ∷ rs }

abbrev set_enabled : Option Bool → EndpointRow → EndpointRow
set_enabled none row = row
set_enabled (some b) row = record row { enabled = b }

unfoldable pub patched : PbsUpdateArgs → EndpointRow → EndpointRow
patched args row =
    set_enabled args.enabled
      (set_routes args.routes (set_insecure args.insecure (set_id args.token_id row)))

abbrev named_if {ℓ} : {A : Type ℓ} → Text → Option A → List Text
named_if name none = []
named_if name (some a) = name ∷ []

abbrev named_routes : Routes → List Text
named_routes [] = []
named_routes (r ∷ rs) = str "routes" ∷ []

unfoldable pub row_fields : PbsUpdateArgs → List Text
unfolding str
row_fields args =
    named_if (str "token_id") args.token_id
    ++ (named_if (str "insecure") args.insecure
        ++ (named_routes args.routes ++ named_if (str "enabled") args.enabled))

abbrev changes_something : List Text → Option Text → Option (Option Fingerprint) → Bool
changes_something [] none none = false
changes_something fields secret pin = true

unfoldable pub failed : Text → List Text → Text → Text
unfolding join str
failed name applied e =
    str "pbs.update '"
    ++ (name
        ++ (str "': "
            ++ (e ++ (str "; already applied: [" ++ (join (str ", ") applied ++ str "]")))))

module _ {W : Type 0} (orca : Orca W) (db : Registry W) where
  abbrev optional_ref : Option Text → Text → Io W (Option Text)
  optional_ref none name = pure none
  optional_ref (some reference) name =
      bind (resolve_ref orca reference name) (λ secret. pure (some secret))

  -- Each write gives the list of what has been applied by then.
  abbrev write_secret : Text → Option Text → Io W (List Text)
  write_secret name none = pure []
  write_secret name (some s) =
      bind (store_secrets orca name (some s) none) (λ _. pure (str "token_secret" ∷ []))

  -- `name` is the name in the arguments, which the messages of failed writes give.
  abbrev row_written :
      Text → Text → List Text → List Text → Result Bool × W → Result (List Text) × W
  row_written name row_name fields applied (ok true, w) = (ok (applied ++ fields), w)
  row_written name row_name fields applied (ok false, w) = (
    err (failed name applied (str "update reported no row change for `" ++ (row_name ++ str "`"))),
    w,
  )
  row_written name row_name fields applied (err e, w) = (err (failed name applied e), w)
  row_written name row_name fields applied (panic, w) = (panic, w)

  abbrev write_row : Text → EndpointRow → List Text → List Text → Io W (List Text)
  write_row name row [] applied w = (ok applied, w)
  write_row name row (f ∷ fields) applied w =
      row_written name row.name (f ∷ fields) applied (db.update_row row w)

  abbrev pin_written : {A : Type 0} → Text → List Text → Result A × W → Result (List Text) × W
  pin_written name applied (ok a, w) = (ok (applied ++ str "fingerprint" ∷ []), w)
  pin_written name applied (err e, w) = (err (failed name applied e), w)
  pin_written name applied (panic, w) = (panic, w)

  abbrev write_pin : Text → Text → Option (Option Fingerprint) → List Text → Io W (List Text)
  write_pin name row_name none applied w = (ok applied, w)
  write_pin name row_name (some (some fp)) applied w =
      pin_written name applied (store_secrets orca row_name none (some fp) w)
  write_pin name row_name (some none) applied w =
      continue (fingerprint_name orca row_name, w)
        λ key w'. pin_written name applied (orca.delete_secret key w')

  abbrev drop_ref : Option Text → Io W (Unit {0})
  drop_ref none = pure tt
  drop_ref (some reference) = drop_staged orca reference

  -- The writes: the secret, the row, the pin; the staged copy goes when all of them are done.
  unfoldable pub write_all :
      PbsUpdateArgs → EndpointRow → Option Text → Option (Option Fingerprint) → Io W PbsUpdateOutput
  unfolding store_secrets failed row_fields str
  write_all args row secret pin = bind (write_secret row.name secret) λ a1.
      bind (write_row args.name row (row_fields args) a1) λ a2.
        bind (write_pin args.name row.name pin a2) λ a3.
          bind (drop_ref args.token_secret_ref) λ _. pure (record { endpoint = row; applied = a3 })

  unfoldable pub pbs_update : PbsUpdateArgs → Io W PbsUpdateOutput
  unfolding validate_name resolve_ref validate_token_id parse is_empty trim patched row_fields
      write_all str
  pbs_update args = bind (lift (validate_name args.name)) λ _.
      bind (optional_ref args.token_secret_ref args.name) λ secret.
        bind (lift (trimmed_change args.fingerprint)) λ pin.
          bind (lift (check_id args.token_id)) λ _. bind (db.get_row args.name) λ found.
            bind (lift (ok_or found (db.missing_row args.name))) λ row.
              bind
                (lift (
                  ensure (changes_something (row_fields args) secret pin)
                    (str "no fields to update; pass at least one flag")))
                λ _. write_all args (patched args row) secret pin
