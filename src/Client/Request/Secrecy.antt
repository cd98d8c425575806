-- ===== src/Client/Request/Secrecy.antt =====
-- The token secret is in no error that a call returns.
use pbs.Base.{false, Option, List, ◌++◌, ◌≡◌}
use pbs.Base.Text.{Text, str}
use pbs.Base.Json.{Value}
use pbs.Base.Result.{Result, ok, err, panic, ◌>>=◌, map_err}
use pbs.Client.Token.{ApiToken, redact}
use pbs.Client.Token.Redaction.{occurs, IsPlainSecret, occurs-redact_secret}
use pbs.Client.Request.{
  Method, HttpReply, Envelope, Net, PbsClient, request_line, build, parse_reply, call,
}

-- An error, if there is one, does not hold the secret.
abbrev pub HidesSecret : {A : Type 0} → Text → Result A → Type 0
HidesSecret secret (ok a) = Unit
HidesSecret secret (err e) = occurs secret e ≡ false
HidesSecret secret panic = Unit

module _ (token : ApiToken) (plain : IsPlainSecret token.secret) where
  map_err-HidesSecret :
      {A : Type 0} (before : Text → Text) (r : Result A)
      → HidesSecret token.secret (map_err (λ e. redact token (before e)) r)
  unfolding redact
  map_err-HidesSecret before (ok a) = tt
  map_err-HidesSecret before (err e) = occurs-redact_secret (before e) token.secret plain
  map_err-HidesSecret before panic = tt

  two_stages :
      (before : Text → Text) (reply : Result HttpReply) (parse : HttpReply → Result Envelope)
      → HidesSecret token.secret
          (map_err (λ e. redact token (before e)) reply >>= λ r. map_err (redact token) (parse r))
  two_stages before (ok r) parse = map_err-HidesSecret (λ e. e) (parse r)
  two_stages before (err e) parse = map_err-HidesSecret {A = HttpReply} before (err e)
  two_stages before panic parse = tt

-- Whatever the transport and the server answer, the error of a call does not hold the secret of
-- its token, if that has no angle bracket and is no part of the word "redacted".
pub call-HidesSecret :
    {W : Type 0} (net : Net W) (c : PbsClient) (method : Method) (path : Text)
    (query : List (Text × Text)) (body : Option Value) (w : W)
    → IsPlainSecret c.token.secret
    → HidesSecret c.token.secret (call net c method path query body w).0
unfolding call
call-HidesSecret net c method path query body w plain =
    two_stages c.token plain (λ e. str "PBS " ++ (request_line net method path ++ (str ": " ++ e)))
      (net.send (build net c method path query body) w).0
      (parse_reply net (request_line net method path))
