-- ===== src/Client/Token.antt =====
-- src/client.rs: API tokens, their validation, and the redaction of secrets.
pub mod Redaction
use pbs.Base.{ℕ, zero, suc, ◌-◌, Bool, false, not, ◌&&◌, ◌||◌, Option, none, some, [], ◌∷◌, ◌++◌}
use pbs.Base.Tests.{if◌then◌else◌}
use pbs.Base.Lists.{length}
use pbs.Base.Text.{Text, str, is_empty, contains_char, starts_with, split_once, trim}
use pbs.Base.Result.{Result, ok, ◌>>=◌, ◌>>◌, ensure, ok_or}

pub record ApiToken : Type 0 where
  pub id : Text
  pub secret : Text

-- `<user>@<realm>!<tokenid>`
abbrev some_nonempty : Option (Text × Text) → Bool
some_nonempty none = false
some_nonempty (some (u, r)) = not (is_empty u) && not (is_empty r)

unfoldable pub token_id_message : Text → Text
unfolding str
token_id_message id = str "PBS token id '" ++ (id ++ str "' must look like user@realm!tokenid")

unfoldable pub validate_token_id : Text → Result (Unit {0})
unfolding is_empty
validate_token_id id = do
  (user, token) ← ok_or (split_once b'!' id) (token_id_message id)
  ensure
      (some_nonempty (split_once b'@' user)
        && not (is_empty token)
        && not (contains_char b':' id || contains_char b' ' id || contains_char b'\n' id))
      (token_id_message id)

unfoldable pub new_token : Text → Text → Result ApiToken
unfolding validate_token_id
new_token id secret = do
  validate_token_id id
  ensure (not (is_empty (trim secret))) (str "PBS token secret for '" ++ (id ++ str "' is empty"))
  ok (record { id = id; secret = secret })

unfoldable pub header : ApiToken → Text
unfolding str
header t = str "PBSAPIToken=" ++ (t.id ++ (b':' ∷ t.secret))

-- `text.replace(from, to)`: matches from the left, which do not overlap. `skip` characters of the
-- last match are still to be passed over.
unfoldable pub replace : ℕ → Text → Text → Text → Text
replace skip from to [] = []
replace (suc skip) from to (c ∷ s) = replace skip from to s
replace zero from to (c ∷ s) =
    let after = replace (length from - 1) from to s in
    let rest = replace zero from to s in if starts_with from (c ∷ s) then to ++ after else c ∷ rest

unfoldable pub redact_secret : Text → Text → Text
unfolding replace is_empty str
redact_secret text secret =
    if is_empty secret then text else replace zero secret (str "<redacted>") text

unfoldable pub redact : ApiToken → Text → Text
unfolding redact_secret
redact t text = redact_secret text t.secret
