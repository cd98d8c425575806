-- ===== src/Enroll/Identity.antt =====
-- src/enroll.rs and src/lib.rs: host names, and what enrolment derives from them.
use pbs.Base.{ℕ, Bool, false, not, ◌&&◌, ◌||◌, Option, none, some, List, [], ◌∷◌, ◌++◌}
use pbs.Base.Tests.{leb, nat_eq}
use pbs.Base.Lists.{all, any}
use pbs.Base.Text.{
  Text, str, ◌==◌, one_of, is_empty, contains_char, starts_with, strip_prefix, strip_suffix, split,
  is_ascii_alphanumeric, eq_ignore_ascii_case, byte_len,
}
use pbs.Base.Result.{Result, ok, ◌>>◌, ensure, map_err}
use pbs.Client.Encode.{encode}
use pbs.Client.Request.{PbsClient}
use pbs.Api.{AclEntry, User}
use pbs.Api.Namespaces.{validate_ns}

abbrev pub backup_role : Text
backup_role = str "DatastoreBackup"

abbrev pub power_role : Text
power_role = str "DatastorePowerUser"

abbrev pub roles : List Text
roles = backup_role ∷ power_role ∷ []

abbrev reserved : List Text
reserved = str "admin" ∷ str "root" ∷ str "orca" ∷ []

abbrev pub marker : Text
marker = str "orca: backup client for"

pub record Identity : Type 0 where
  pub host : Text
  pub datastore : Text
  pub userid : Text
  pub tokenid : Text
  pub ns : Text
  pub acl_path : Text

abbrev plain_char : ℕ → Bool
plain_char c = is_ascii_alphanumeric c || (nat_eq c b'-' || nat_eq c b'_')

abbrev starts_plain : Text → Bool
starts_plain [] = false
starts_plain (c ∷ s) = is_ascii_alphanumeric c && all plain_char s

unfoldable pub plain_name : Text → ℕ → Bool
unfolding is_ascii_alphanumeric all byte_len
plain_name s max = leb 1 (byte_len s) && leb (byte_len s) max && starts_plain s

unfoldable pub validate_host : Text → Result (Unit {0})
unfolding plain_name eq_ignore_ascii_case any str
validate_host host = do
  ensure (plain_name host 32)
      (str "invalid host '" ++ (host ++ str "': must match ^[A-Za-z0-9][A-Za-z0-9_-]{0,31}$"))
  ensure (not (any (λ r. eq_ignore_ascii_case r host) reserved))
      (str "host name '" ++ (host ++ str "' is reserved"))

unfoldable pub datastore_message : Text → Text
unfolding str
datastore_message store = str "invalid datastore '" ++ (store ++ str "'")

unfoldable pub validate_datastore : Text → Result (Unit {0})
unfolding validate_ns contains_char datastore_message
validate_datastore store = do
  ensure (not (contains_char b'/' store)) (datastore_message store)
  map_err (λ _. datastore_message store) (validate_ns store)

-- The names that the host and the datastore determine.
unfoldable pub derive : Text → Text → Identity
unfolding str
derive host datastore = record {
  host = host;
  datastore = datastore;
  userid = host ++ str "@pbs";
  tokenid = (host ++ str "@pbs") ++ str "!backup";
  ns = str "hosts/" ++ host;
  acl_path = str "/datastore/" ++ (datastore ++ (str "/hosts/" ++ host));
}

unfoldable pub new_identity : Text → Text → Result Identity
unfolding validate_host validate_datastore derive
new_identity host datastore = do
  validate_host host
  validate_datastore datastore
  ok (derive host datastore)

abbrev pub auth_ids : Identity → List Text
auth_ids id = id.userid ∷ id.tokenid ∷ []

unfoldable pub owns : Identity → AclEntry → Bool
unfolding ◌==◌ one_of str
owns id e = e.ugid_type == str "user" && one_of e.ugid (auth_ids id)

abbrev store_part : Option Text → Text → Option Text
store_part none tail = none
store_part (some rest) tail = strip_suffix tail rest

abbrev is_store : Option Text → Bool
is_store none = false
is_store (some store) = not (is_empty store) && not (contains_char b'/' store)

unfoldable pub in_scope : Identity → AclEntry → Bool
unfolding strip_prefix strip_suffix is_empty contains_char one_of str
in_scope id e =
    is_store (store_part (strip_prefix (str "/datastore/") e.path) (str "/hosts/" ++ id.host))
    && one_of e.roleid roles

unfoldable pub user_path : Identity → Text
unfolding encode str
user_path id = str "/access/users/" ++ encode id.userid

unfoldable pub token_path : Identity → Text
unfolding encode str
token_path id = str "/access/users/" ++ (encode id.userid ++ (str "/token/" ++ str "backup"))

abbrev head_or_empty : List Text → Text
head_or_empty [] = []
head_or_empty (p ∷ ps) = p

unfoldable pub check_not_self : Identity → PbsClient → Result (Unit {0})
unfolding split ◌==◌ str
check_not_self id c = ensure (not (head_or_empty (split b'!' c.token.id) == id.userid)) (
    str "host '"
    ++ (id.host
        ++ (str "' maps to "
            ++ (id.userid ++ str ", the user behind this endpoint's own token; refusing"))))

abbrev comment_marked : Option Text → Bool
comment_marked none = false
comment_marked (some c) = starts_with marker c

unfoldable pub is_marked : User → Bool
unfolding starts_with str
is_marked u = comment_marked u.comment

unfoldable pub unmanaged_message : Identity → Text
unfolding str
unmanaged_message id =
    str "user "
    ++ (id.userid
        ++ (str " exists but was not created by orca (its comment lacks '"
            ++ (marker ++ str "'); pass adopt: true to take it over")))

unfoldable pub require_managed : Identity → Option User → Bool → Result (Unit {0})
unfolding is_marked unmanaged_message
require_managed id none adopt = ok tt
require_managed id (some u) adopt = ensure (is_marked u || adopt) (unmanaged_message id)
