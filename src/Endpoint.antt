-- ===== src/Endpoint.antt =====
-- src/endpoint.rs: the registry of endpoints, its secrets, and connecting.
pub mod Create
pub mod Update
pub mod Rollback
use pbs.Base.{ℕ, Bool, true, false, not, ◌&&◌, ◌||◌, Option, none, some, List, [], ◌∷◌, ◌++◌}
use pbs.Base.Tests.{leb, nat_eq, if◌then◌else◌}
use pbs.Base.Lists.{all, length}
use pbs.Base.Text.{
  Text, str, ◌==◌, is_empty, trim, byte_len, bytes, is_ascii_alphanumeric, show_nat,
}
use pbs.Base.Result.{
  Result, ok, err, panic, ensure, ok_or, transpose, Io, continue, bind, lift, pure, fail,
}
use pbs.Client.Token.{ApiToken, new_token}
use pbs.Client.Request.{Net, PbsClient, new_client}
use pbs.Orca.{Orca}
use pbs.Tls.{Fingerprint, parse, display, TlsPolicy, from_config, probe_insecure}

-- A route is its kind and its URL.
abbrev pub Routes : Type 0
Routes = List (Text × Text)

pub record EndpointRow : Type 0 where
  pub name : Text
  pub token_id : Text
  pub insecure : Bool
  pub routes : Routes
  pub enabled : Bool

-- The table of endpoints and what the toolkit says of its errors, the search of a route that
-- answers, and the transport for a policy.
pub record Registry (W : Type 0) : Type 0 where
  pub get_row : Text → Io W (Option EndpointRow)
  pub list_rows : Io W (List EndpointRow)
  pub insert_row : EndpointRow → Io W (Unit {0})
  pub update_row : EndpointRow → Io W Bool
  pub remove_row : Text → Io W Bool
  pub insert_conflict : Text → Text → Text
  pub missing_row : Text → Text
  pub resolve_reachable : Text → Routes → Bool → Io W Text
  pub transport : TlsPolicy → Result (Net W)

abbrev name_byte : ℕ → Bool
name_byte b = is_ascii_alphanumeric b || nat_eq b b'_' || nat_eq b b'-'

unfoldable pub validate_name : Text → Result (Unit {0})
unfolding byte_len bytes all is_ascii_alphanumeric str
validate_name name =
    ensure (leb 1 (byte_len name) && leb (byte_len name) 64 && all name_byte (bytes name))
      (str "invalid endpoint name '" ++ (name ++ str "': must match ^[A-Za-z0-9_-]{1,64}$"))

abbrev keep_inked : Option Text → Option Text
keep_inked none = none
keep_inked (some s) = if is_empty (trim s) then none else some s

abbrev keep_nonempty : Option Text → Option Text
keep_nonempty none = none
keep_nonempty (some s) = if is_empty s then none else some s

unfoldable pub no_secret : Text → Text
unfolding str
no_secret name =
    str "no token secret stored for pbs endpoint '"
    ++ (name
        ++ (str "'; set one with `pbs.update --name " ++ (name ++ str " --token-secret <secret>`")))

unfoldable pub not_staged : Text → Text
unfolding str
not_staged reference =
    str "no orca secret named '"
    ++ (reference
        ++ (str "'; write it first with `orca secrets upsert --name "
            ++ (reference ++ str " --value-stdin`")))

unfoldable pub staged_name : Text → Text
unfolding str
staged_name endpoint = str "pbs." ++ (endpoint ++ str ".staged")

module _ {W : Type 0} (orca : Orca W) where
  abbrev pub token_secret_name : Text → Result Text
  token_secret_name endpoint = orca.scoped_name (str "pbs") endpoint (str "token_secret")

  abbrev pub fingerprint_name : Text → Result Text
  fingerprint_name endpoint = orca.scoped_name (str "pbs") endpoint (str "fingerprint")

  unfoldable pub fingerprint : Text → Io W (Option Fingerprint)
  unfolding parse is_empty trim str
  fingerprint endpoint =
      bind (lift (fingerprint_name endpoint))
        λ name. bind (orca.get_secret name) λ found. lift (transpose parse (keep_inked found))

  unfoldable pub token : EndpointRow → Io W ApiToken
  unfolding new_token no_secret is_empty str
  token row = bind (lift (token_secret_name row.name)) λ name. bind (orca.get_secret name) λ found.
      bind (lift (ok_or (keep_nonempty found) (no_secret row.name)))
        λ secret. lift (new_token row.token_id secret)

  -- Only the staged secret of this endpoint is read.
  unfoldable pub resolve_ref : Text → Text → Io W Text
  unfolding staged_name not_staged ◌==◌ is_empty trim str
  resolve_ref reference endpoint =
      if not (reference == staged_name endpoint)
      then fail (str "token_secret_ref must be the orca secret " ++ staged_name endpoint)
      else bind (orca.get_secret reference)
          (λ found. lift (ok_or (keep_inked found) (not_staged reference)))

  abbrev pub ignored : Result Bool × W → Result (Unit {0}) × W
  ignored (ok b, w) = (ok tt, w)
  ignored (err e, w) = (ok tt, w)
  ignored (panic, w) = (panic, w)

  -- A failure is logged alone.
  abbrev pub drop_staged : Text → Io W (Unit {0})
  drop_staged reference w = ignored (orca.delete_secret reference w)

  abbrev store_token : Text → Option Text → Io W (Unit {0})
  store_token name none = pure tt
  store_token name (some s) =
      bind (lift (token_secret_name name)) λ key.
        orca.set_secret key s (str "PBS API token secret for endpoint '" ++ (name ++ str "'"))

  abbrev store_pin : Text → Option Fingerprint → Io W (Unit {0})
  store_pin name none = pure tt
  store_pin name (some fp) = bind (lift (fingerprint_name name)) λ key.
      orca.set_secret key (display fp)
        (str "PBS TLS certificate pin for endpoint '" ++ (name ++ str "' (not sensitive)"))

  unfoldable pub store_secrets : Text → Option Text → Option Fingerprint → Io W (Unit {0})
  unfolding display str
  store_secrets name secret fp = bind (store_token name secret) (λ _. store_pin name fp)

module _ {W : Type 0} (orca : Orca W) (db : Registry W) where
  abbrev only_row : List EndpointRow → Result EndpointRow
  only_row [] = err (str "no pbs endpoints registered — add one with `pbs.create`")
  only_row (row ∷ []) = ok row
  only_row (row ∷ other ∷ rows) = err (
      show_nat (length (row ∷ other ∷ rows))
      ++ str " pbs endpoints registered — pass `endpoint` to pick one")

  unfoldable pub select : Option Text → Io W EndpointRow
  unfolding show_nat str
  select none = bind db.list_rows (λ rows. lift (only_row rows))
  select (some name) = bind (db.get_row name) λ found.
      lift (ok_or found (str "no pbs endpoint named `" ++ (name ++ str "` — see `pbs.list`")))

  -- The client of an endpoint, by name, and the transport that it sends its calls over.
  unfoldable pub connect_named : Option Text → Io W (Text × (PbsClient × Net W))
  unfolding select token fingerprint new_client str
  connect_named endpoint = bind (select endpoint) λ row.
      bind (lift (ensure row.enabled (str "pbs endpoint '" ++ (row.name ++ str "' is disabled"))))
        λ _. bind (token orca row) λ tok. bind (fingerprint orca row.name) λ fp.
          let policy = from_config fp row.insecure in
          bind (db.resolve_reachable row.name row.routes (probe_insecure policy)) λ base.
            bind (lift (db.transport policy)) λ net. pure (row.name, (new_client base tok, net))
