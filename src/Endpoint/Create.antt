-- ===== src/Endpoint/Create.antt =====
-- src/endpoint.rs: `pbs_create` and `pbs_delete`.
use pbs.Base.{Bool, true, false, Option, none, some, List, [], ◌∷◌, ◌++◌}
use pbs.Base.Tests.{if◌then◌else◌}
use pbs.Base.Text.{Text, str}
use pbs.Base.Result.{Result, ok, err, panic, map_err, transpose, Io, bind, lift, pure}
use pbs.Client.Token.{validate_token_id}
use pbs.Orca.{Orca}
use pbs.Tls.{Fingerprint, parse}
use pbs.Endpoint.{
  Routes, EndpointRow, Registry, validate_name, token_secret_name, fingerprint_name, resolve_ref,
  drop_staged, store_secrets,
}

pub record PbsCreateArgs : Type 0 where
  pub name : Text
  pub token_id : Text
  pub token_secret_ref : Text
  pub fingerprint : Option Text
  pub insecure : Bool
  pub routes : Routes

pub record PbsCreateOutput : Type 0 where
  pub endpoint : EndpointRow
  pub fingerprint_pinned : Bool

pub record PbsDeleteOutput : Type 0 where
  pub name : Text
  pub changed : Bool
  pub secrets_removed : List Text

abbrev pub new_row : PbsCreateArgs → EndpointRow
new_row args = record {
  name = args.name;
  token_id = args.token_id;
  insecure = args.insecure;
  routes = args.routes;
  enabled = true;
}

abbrev is_pinned : Option Fingerprint → Bool
is_pinned none = false
is_pinned (some fp) = true

module _ {W : Type 0} (orca : Orca W) (db : Registry W) where
  abbrev pub removed : Text → Text → Result Bool × W → Result (Unit {0}) × W
  removed name e (panic, w) = (panic, w)
  removed name e (r, w) = (err e, w)

  -- If the secrets cannot be stored, the row is removed again, whatever that gives.
  abbrev pub or_rollback : Text → Result (Unit {0}) × W → Result (Unit {0}) × W
  or_rollback name (err e, w) = removed name e (db.remove_row name w)
  or_rollback name (ok u, w) = (ok u, w)
  or_rollback name (panic, w) = (panic, w)

  abbrev pub inserted : EndpointRow → Result (Unit {0}) × W → Result (Unit {0}) × W
  inserted row (r, w) = (map_err (λ e. db.insert_conflict e row.name) r, w)

  -- What follows the checks: the row, its secrets, and the end of the staged copy.
  unfoldable pub register : PbsCreateArgs → Text → Option Fingerprint → Io W PbsCreateOutput
  unfolding store_secrets
  register args secret fp =
      let row = new_row args in
      bind (λ w. inserted row (db.insert_row row w))
        λ _.
          bind (λ w. or_rollback row.name (store_secrets orca row.name (some secret) fp w))
            λ _.
              bind (drop_staged orca args.token_secret_ref)
                λ _. pure (record { endpoint = row; fingerprint_pinned = is_pinned fp })

  unfoldable pub pbs_create : PbsCreateArgs → Io W PbsCreateOutput
  unfolding validate_name validate_token_id resolve_ref parse register
  pbs_create args = bind (lift (validate_name args.name)) λ _.
      bind (lift (validate_token_id args.token_id)) λ _.
        bind (resolve_ref orca args.token_secret_ref args.name)
          λ secret. bind (lift (transpose parse args.fingerprint)) λ fp. register args secret fp

  abbrev remove_field : Result Text → Text → Io W (List Text)
  remove_field name field =
      bind (lift name)
        λ key. bind (orca.delete_secret key) λ gone. pure (if gone then field ∷ [] else [])

  unfoldable pub pbs_delete : Text → Io W PbsDeleteOutput
  unfolding validate_name str
  pbs_delete name = bind (lift (validate_name name)) λ _. bind (db.remove_row name) λ changed.
      bind (remove_field (token_secret_name orca name) (str "token_secret")) λ token_gone.
        bind (remove_field (fingerprint_name orca name) (str "fingerprint")) λ pin_gone.
          pure (record { name = name; changed = changed; secrets_removed = token_gone ++ pin_gone })
