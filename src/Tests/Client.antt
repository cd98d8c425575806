-- ===== src/Tests/Client.antt =====
-- The client at concrete inputs.
use pbs.Base.{false, none, some, [], ◌∷◌, ◌≡◌, refl, arith}
use pbs.Base.Lists.{All}
use pbs.Base.Text.{Text, str, bytes, is_empty, contains_char}
use pbs.Client.Token.{redact_secret}
use pbs.Client.Token.Redaction.{occurs, IsPlainSecret, occurs-redact_secret}
use pbs.Client.Encode.{encode}
use pbs.Client.Encode.RoundTrip.{
  percent_decode, IsScalar, IsSafe, percent_decode-encode, encode-IsSafe,
}
use pbs.Client.Request.{call, get_method}
use pbs.Client.Request.Secrecy.{HidesSecret, call-HidesSecret}
use pbs.Tests.World.{network, token, client}

token_secret-IsPlainSecret : IsPlainSecret token.secret
unfolding occurs str is_empty contains_char
token_secret-IsPlainSecret = record {
  nonempty = refl;
  no_open = refl;
  no_close = refl;
  not_in_mark = refl;
}

abbrev leaked : Text
leaked = str "auth 0f-secret0f-secret failed"

occurs-redact_secret_example :
    occurs (str "0f-secret") (redact_secret leaked (str "0f-secret")) ≡ false
occurs-redact_secret_example =
    occurs-redact_secret leaked (str "0f-secret") token_secret-IsPlainSecret

-- "ns/ä"
abbrev word : Text
word = 110 ∷ 115 ∷ 47 ∷ 228 ∷ []

word-IsScalar : All IsScalar word
word-IsScalar = (omega arith, (omega arith, (omega arith, (omega arith, tt))))

percent_decode-encode_example : percent_decode (encode word) ≡ some (bytes word)
percent_decode-encode_example = percent_decode-encode word word-IsScalar

encode-IsSafe_example : All IsSafe (encode word)
encode-IsSafe_example = encode-IsSafe word word-IsScalar

call-HidesSecret_example :
    HidesSecret
      (str "0f-secret")
      (call (network 500) client get_method (str "/version") [] none []).0
call-HidesSecret_example =
    call-HidesSecret (network 500) client get_method (str "/version") [] none []
      token_secret-IsPlainSecret
