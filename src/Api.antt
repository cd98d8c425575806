-- ===== src/Api.antt =====
-- src/api.rs: the typed API calls that enrolment and the namespace verbs use, activity of users, and
-- namespaces. Decoding is derived code, and enters as the record `Codec`.
pub mod Namespaces
pub mod Chain
use pbs.Base.{
  ℕ, ◌+◌, ◌%◌, Bool, true, false, not, ◌&&◌, ◌||◌, Option, none, some, List, [], ◌∷◌, ◌++◌,
}
use pbs.Base.Tests.{leb, if◌then◌else◌}
use pbs.Base.Int.{ℤ, pos, negsuc, pos_part, neg_part, ltb_ℤ}
use pbs.Base.Text.{Text, str}
use pbs.Base.Json.{Value, str_field, as_str, Map, get, and_then}
use pbs.Base.Result.{Result, ok, err, map_err, with_context, Io, bind, lift, pure}
use pbs.Client.Encode.{encode}
use pbs.Client.Request.{Net, PbsClient, call, get_method, get_as}

pub record Namespace : Type 0 where
  pub ns : Text
  pub comment : Option Text

pub record UserToken : Type 0 where
  pub tokenid : Text
  pub enable : Option Bool
  pub expire : Option ℤ
  pub comment : Option Text

pub record User : Type 0 where
  pub userid : Text
  pub enable : Option Bool
  pub expire : Option ℤ
  pub comment : Option Text
  pub tokens : List UserToken

pub record AclEntry : Type 0 where
  pub path : Text
  pub ugid : Text
  pub ugid_type : Text
  pub roleid : Text
  pub propagate : Bool

pub record GroupCount : Type 0 where
  pub backup_count : ℕ
  pub last_backup : ℤ

pub record Codec : Type 0 where
  pub namespaces_of : Value → Result (List Namespace)
  pub users_of : Value → Result (List User)
  pub acls_of : Value → Result (List AclEntry)
  pub counts_of : Value → Result (List GroupCount)

-- `enable != Some(false)`
abbrev pub not_disabled : Option Bool → Bool
not_disabled (some false) = false
not_disabled other = true

-- `expire.is_none_or(|e| e <= 0 || e > now)`
abbrev pub not_expired : Option ℤ → ℤ → Bool
not_expired none now = true
not_expired (some e) now = not (ltb_ℤ (pos 0) e) || ltb_ℤ now e

unfoldable pub is_active : Option Bool → Option ℤ → ℤ → Bool
is_active enable expire now = not_disabled enable && not_expired expire now

unfoldable pub store_path : Text → Text → Text
unfolding encode str
store_path store rest = str "/admin/datastore/" ++ (encode store ++ rest)

module _ {W : Type 0} (net : Net W) (codec : Codec) (c : PbsClient) where
  unfoldable pub users : Io W (List User)
  unfolding get_as str
  users =
      get_as net codec.users_of c (str "/access/users") ((str "include_tokens", str "true") ∷ [])

  unfoldable pub acls_with_digest : Io W (List AclEntry × Option Text)
  unfolding call get str with_context as_str
  acls_with_digest = bind (call net c get_method (str "/access/acl") [] none) (λ env.
      bind
        (lift (map_err (with_context (str "decode PBS ACL list")) (codec.acls_of env.data_value)))
        (λ entries. pure (entries, and_then (get (str "digest") env.extra) as_str)))

  unfoldable pub namespaces : Text → Io W (List Namespace)
  unfolding get_as store_path str
  namespaces store = get_as net codec.namespaces_of c (store_path store (str "/namespace")) []
