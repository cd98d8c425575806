-- ===== src/Tls.antt =====
-- src/tls.rs: fingerprints and the policy. The certificate verifier only calls rustls.
pub mod RoundTrip
use pbs.Base.{
  ℕ, ◌+◌, ◌-◌, ◌*◌, ◌/◌, ◌%◌, Bool, true, false, not, ◌&&◌, Option, none, some, List, [], ◌∷◌, ◌++◌,
  map,
}
use pbs.Base.Tests.{ltb, leb, nat_eq, if◌then◌else◌}
use pbs.Base.Lists.{filter, length}
use pbs.Base.Text.{Text, str, trim, byte_len, join, show_nat}
use pbs.Base.Result.{Result, ok, err, panic, ◌>>=◌}
use pbs.Client.Encode.{hex_digit}

-- The 32 bytes of a SHA-256.
pub record Fingerprint : Type 0 where
  pub octets : List ℕ

unfoldable pub hex_value : ℕ → Option ℕ
hex_value c =
    if leb b'0' c && leb c b'9'
    then some (c - b'0')
    else if leb b'A' c && leb c b'F'
    then some (c - 55)
    else if leb b'a' c && leb c b'f'
    then some (c - 87)
    else none

abbrev joined : Option ℕ → Option ℕ → Option ℕ
joined (some h) (some l) = some (16 * h + l)
joined h l = none

-- `u8::from_str_radix(pair, 16)` at two ASCII characters; a leading plus sign is taken.
unfoldable pub radix_16 : ℕ → ℕ → Option ℕ
unfolding hex_value
radix_16 c d = if nat_eq c b'+' then hex_value d else joined (hex_value c) (hex_value d)

abbrev non_hex : Text
non_hex = str "TLS fingerprint contains a non-hex digit"

abbrev cons_octet : Option ℕ → Result (List ℕ) → Result (List ℕ)
cons_octet none rest = err non_hex
cons_octet (some b) rest = rest >>= λ bs. ok (b ∷ bs)

abbrev wide : Bool → Result (List ℕ)
wide two_bytes = if two_bytes then err non_hex else panic

-- The slices of two bytes. One of a character of two bytes is no number; one that ends within a
-- character panics.
unfoldable pub octets_of : Text → Result (List ℕ)
unfolding radix_16 str
octets_of [] = ok []
octets_of (c ∷ []) = wide (leb 0x80 c && ltb c 0x800)
octets_of (c ∷ d ∷ s) =
    let rest = octets_of s in
    if ltb c 0x80
    then if ltb d 0x80 then cons_octet (radix_16 c d) rest else panic
    else wide (ltb c 0x800)

abbrev pub hex_of : Text → Text
hex_of s = filter (λ c. not (nat_eq c b':')) (trim s)

abbrev pub sized : Text → Result Fingerprint
sized hex =
    if nat_eq (byte_len hex) 64
    then (octets_of hex >>= λ bs. ok (record { octets = bs }))
    else err (
        str "TLS fingerprint must be a SHA-256 (32 bytes, `AA:BB:…`), got "
        ++ (show_nat (byte_len hex) ++ str " hex digits"))

unfoldable pub parse : Text → Result Fingerprint
unfolding trim filter byte_len octets_of show_nat str
parse s = sized (hex_of s)

abbrev pub octet_text : ℕ → Text
octet_text b = hex_digit (b / 16) ∷ hex_digit (b % 16) ∷ []

-- `to_string()`
unfoldable pub display : Fingerprint → Text
unfolding join hex_digit str
display fp = join (str ":") (map octet_text fp.octets)

pub data TlsPolicy : Type 0 where
  check_chain : TlsPolicy
  pinned : Fingerprint → TlsPolicy
  insecure : TlsPolicy

abbrev pub from_config : Option Fingerprint → Bool → TlsPolicy
from_config (some fp) skip = pinned fp
from_config none true = insecure
from_config none false = check_chain

abbrev pub probe_insecure : TlsPolicy → Bool
probe_insecure check_chain = false
probe_insecure other = true
