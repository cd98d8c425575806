-- ===== src/Tls/RoundTrip.antt =====
-- A fingerprint is read back from its rendering.
use pbs.Base.{
  ℕ, ◌*◌, ◌/◌, ◌%◌, ◌<◌, Bool, true, false, not, some, List, [], ◌∷◌, map, ◌≡◌, refl, ap, ◌∙◌,
  arith,
}
use pbs.Base.Tests.{nat_eq}
use pbs.Base.Lists.{All, all, filter, length}
use pbs.Base.Text.{
  Text, str, trim, trim_start, trim_end, is_whitespace, byte_len, bytes, utf8, join,
}
use pbs.Base.Result.{ok}
use pbs.Client.Encode.{hex_digit}
use pbs.Tls.{Fingerprint, hex_value, radix_16, octets_of, sized, parse, octet_text, display}

abbrev pub IsOctet : ℕ → Type 0
IsOctet b = b < 256

-- The two characters of every octet, with no colons.
abbrev hexes : List ℕ → Text
hexes [] = []
hexes (b ∷ bs) = hex_digit (b / 16) ∷ hex_digit (b % 16) ∷ hexes bs

abbrev IsHex : ℕ → Type 0
IsHex c = (is_whitespace c ≡ false) × (c < 128)

hex_digit-IsHex : (n : ℕ) → n < 16 → IsHex (hex_digit n) × (nat_eq (hex_digit n) b':' ≡ false)
unfolding hex_digit is_whitespace
hex_digit-IsHex n h = ground arith

radix_16-octet : (b : ℕ) → b < 256 → radix_16 (hex_digit (b / 16)) (hex_digit (b % 16)) ≡ some b
unfolding radix_16 hex_value hex_digit
radix_16-octet b h = ground arith

octets_of-hexes : (bs : List ℕ) → All IsOctet bs → octets_of (hexes bs) ≡ ok bs
unfolding octets_of
octets_of-hexes [] h = refl
octets_of-hexes (b ∷ bs) h = ground (
  arith,
  (hex_digit-IsHex (b / 16) (omega (arith, h.0))).0.1,
  (hex_digit-IsHex (b % 16) (omega arith)).0.1,
  radix_16-octet b h.0,
  octets_of-hexes bs h.1,
)

bytes-hexes : (bs : List ℕ) → All IsOctet bs → length (bytes (hexes bs)) ≡ 2 * length bs
unfolding bytes utf8
bytes-hexes [] h = refl
bytes-hexes (b ∷ bs) h = ground (
  arith,
  (hex_digit-IsHex (b / 16) (omega (arith, h.0))).0.1,
  (hex_digit-IsHex (b % 16) (omega arith)).0.1,
  bytes-hexes bs h.1,
)

abbrev not_colon : ℕ → Bool
not_colon c = not (nat_eq c b':')

filter-display :
    (bs : List ℕ)
    → All IsOctet bs
    → filter not_colon (join (str ":") (map octet_text bs)) ≡ hexes bs
unfolding filter join str
filter-display [] h = refl
filter-display (b ∷ []) h = ground (
  arith,
  (hex_digit-IsHex (b / 16) (omega (arith, h.0))).1,
  (hex_digit-IsHex (b % 16) (omega arith)).1,
)
filter-display (b ∷ a ∷ bs) h = ground (
  arith,
  (hex_digit-IsHex (b / 16) (omega (arith, h.0))).1,
  (hex_digit-IsHex (b % 16) (omega arith)).1,
  filter-display (a ∷ bs) h.1,
)

abbrev IsInk : ℕ → Type 0
IsInk c = is_whitespace c ≡ false

trim_end-IsInk : (s : Text) → All IsInk s → trim_end s ≡ s
unfolding trim_end all
trim_end-IsInk [] h = refl
trim_end-IsInk (c ∷ s) h = ground (arith, h.0, trim_end-IsInk s h.1)

trim-IsInk : (s : Text) → All IsInk s → trim s ≡ s
unfolding trim trim_start
trim-IsInk [] h = unfold trim_end in refl
trim-IsInk (c ∷ s) h = ground (arith, h.0, trim_end-IsInk (c ∷ s) h)

display-IsInk : (bs : List ℕ) → All IsOctet bs → All IsInk (join (str ":") (map octet_text bs))
unfolding join str is_whitespace
display-IsInk [] h = tt
display-IsInk (b ∷ []) h = (
  (hex_digit-IsHex (b / 16) (omega (arith, h.0))).0.0,
  ((hex_digit-IsHex (b % 16) (omega arith)).0.0, tt),
)
display-IsInk (b ∷ a ∷ bs) h = (
  (hex_digit-IsHex (b / 16) (omega (arith, h.0))).0.0,
  ((hex_digit-IsHex (b % 16) (omega arith)).0.0, (refl, display-IsInk (a ∷ bs) h.1)),
)

-- A fingerprint of 32 octets is read back from its rendering.
pub parse-display :
    (fp : Fingerprint) → length fp.octets ≡ 32 → All IsOctet fp.octets → parse (display fp) ≡ ok fp
unfolding parse display byte_len
parse-display fp size h =
    let ink = trim-IsInk (join (str ":") (map octet_text fp.octets)) (display-IsInk fp.octets h) in
    let hex = ap (filter not_colon) ink ∙ filter-display fp.octets h in
    let fits : nat_eq (byte_len (hexes fp.octets)) 64 ≡ true =
      ground (arith, bytes-hexes fp.octets h, size) in
    ap sized hex ∙ rw fits (rw (octets_of-hexes fp.octets h) refl)
