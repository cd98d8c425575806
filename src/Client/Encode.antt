-- ===== src/Client/Encode.antt =====
-- src/client.rs: percent-encoding of path segments and query strings.
pub mod RoundTrip
use pbs.Base.{ℕ, ◌+◌, ◌-◌, ◌/◌, ◌%◌, Bool, ◌||◌, List, [], ◌∷◌, ◌++◌, map}
use pbs.Base.Tests.{ltb, nat_eq, if◌then◌else◌}
use pbs.Base.Text.{Text, str, join, is_ascii_alphanumeric, bytes}

-- `"{:02X}"` of a byte
unfoldable pub hex_digit : ℕ → ℕ
hex_digit n = if ltb n 10 then b'0' + n else b'A' + (n - 10)

unfoldable pub hex_byte : ℕ → Text
unfolding hex_digit
hex_byte b = hex_digit (b / 16) ∷ hex_digit (b % 16) ∷ []

unfoldable pub is_unreserved : ℕ → Bool
unfolding is_ascii_alphanumeric
is_unreserved b =
    is_ascii_alphanumeric b || nat_eq b b'-' || nat_eq b b'_' || nat_eq b b'.' || nat_eq b b'~'

unfoldable pub encode_bytes : List ℕ → Text
unfolding is_unreserved hex_byte
encode_bytes [] = []
encode_bytes (b ∷ bs) =
    if is_unreserved b then b ∷ encode_bytes bs else b'%' ∷ (hex_byte b ++ encode_bytes bs)

unfoldable pub encode : Text → Text
unfolding encode_bytes bytes
encode s = encode_bytes (bytes s)

unfoldable pub encode_query : List (Text × Text) → Text
unfolding encode str
encode_query query = join (str "&") (map (λ kv. encode kv.0 ++ (b'=' ∷ encode kv.1)) query)
