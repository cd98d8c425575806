-- ===== src/Tests/World.antt =====
-- A server that answers every call alike, and the inputs of the examples. The world is the list of
-- the calls that were sent, newest first.
use pbs.Base.{ℕ, true, false, none, some, List, [], ◌∷◌}
use pbs.Base.Int.{pos}
use pbs.Base.Text.{Text, str}
use pbs.Base.Json.{Value, null, string, object, end, entry}
use pbs.Base.Result.{ok}
use pbs.Client.Token.{ApiToken}
use pbs.Client.Request.{HttpCall, Net, PbsClient}
use pbs.Plan.{post_call, put_call, Step, new_step, sensitive, CallerIdentity}
use pbs.Orca.{Orca}
use pbs.Api.{Codec, User, UserToken, AclEntry}
use pbs.Enroll.Identity.{Identity, derive}
use pbs.Enroll.State.{State, valid}

abbrev pub World : Type 0
World = List HttpCall

abbrev pub reply_value : Value
reply_value = object (entry (str "value") (string (str "s3cret")) end)

abbrev pub network : ℕ → Net World
network status = record {
  send = λ call log. (ok (record { status = status; body = [] }), call ∷ log);
  to_vec = λ v. [];
  from_slice = λ b. some (object (entry (str "data") reply_value end));
  render = λ v. str "{}";
}

abbrev pub net : Net World
net = network 200

abbrev pub token : ApiToken
token = record { id = str "orca@pbs!plugin"; secret = str "0f-secret" }

abbrev pub client : PbsClient
client = record { base = str "https://pbs:8007"; token = token }

abbrev pub codec : Codec
codec = record {
  namespaces_of = λ v. ok [];
  users_of = λ v. ok [];
  acls_of = λ v. ok [];
  counts_of = λ v. ok [];
}

abbrev pub orca : Orca World
orca = record {
  get_secret = λ name w. (ok none, w);
  set_secret = λ name secret note w. (ok tt, w);
  delete_secret = λ name w. (ok true, w);
  secret_exists = λ name w. (ok false, w);
  scoped_name = λ plugin endpoint name. ok name;
  now = λ w. pos 1000;
}

abbrev pub make_ns : Step
make_ns =
    new_step (str "tank:a") (str "create-namespace") (post_call (str "/ns") (string (str "a")))

abbrev pub grant : Step
grant = new_step (str "a on b") (str "grant") (put_call (str "/access/acl") (object end))

abbrev pub mint : Step
mint = sensitive (new_step (str "token") (str "create-token") (post_call (str "/t") null))

abbrev pub steps : List Step
steps = make_ns ∷ mint ∷ grant ∷ []

abbrev pub admin : CallerIdentity
admin = record { user_id = str "1"; username = str "ann"; role = str "admin"; can_mutate = true }

abbrev pub guest : CallerIdentity
guest = record { user_id = str "2"; username = str "bob"; role = str "user"; can_mutate = true }

abbrev pub identity : Identity
identity = derive (str "nas") (str "tank")

abbrev pub host_entry : Text → Text → Text → AclEntry
host_entry path ugid role = record {
  path = path;
  ugid = ugid;
  ugid_type = str "user";
  roleid = role;
  propagate = true;
}

abbrev pub stray : AclEntry
stray = host_entry (str "/datastore/other") (str "nas@pbs") (str "Admin")

abbrev pub host_token : UserToken
host_token = record { tokenid = str "nas@pbs!backup"; enable = none; expire = none; comment = none }

abbrev pub host_user : User
host_user = record {
  userid = str "nas@pbs";
  enable = some true;
  expire = some (pos 0);
  comment = some (str "orca: backup client for nas");
  tokens = host_token ∷ [];
}

abbrev pub state_with : List AclEntry → State
state_with acls = record {
  namespaces =
      record { ns = str "hosts"; comment = none }
      ∷ record { ns = str "hosts/nas"; comment = none }
      ∷ [];
  users = host_user ∷ [];
  acls = acls;
  acl_digest = some (str "d1");
  secret = valid;
  now = pos 1000;
  ns_contents = none;
}

abbrev pub own_path : Text
own_path = str "/datastore/tank/hosts/nas"

abbrev pub granted : List AclEntry
granted =
    host_entry own_path (str "nas@pbs") (str "DatastoreBackup")
    ∷ host_entry own_path (str "nas@pbs") (str "DatastorePowerUser")
    ∷ host_entry own_path (str "nas@pbs!backup") (str "DatastoreBackup")
    ∷ host_entry own_path (str "nas@pbs!backup") (str "DatastorePowerUser")
    ∷ []
