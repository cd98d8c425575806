-- ===== src/Client/Encode/RoundTrip.antt =====
-- Percent-encoding is undone by percent-decoding, and leaves no character that has a meaning in a
-- path or a query.
use pbs.Base.{
  ℕ, ◌+◌, ◌-◌, ◌*◌, ◌/◌, ◌%◌, ◌<◌, true, false, ◌&&◌, ◌||◌, Option, none, some, List, [], ◌∷◌, ◌++◌,
  ◌≡◌, refl, ap, ◌∙◌, arith, inl, inr,
}
use pbs.Base.Tests.{leb, nat_eq, if◌then◌else◌, Bool-cases}
use pbs.Base.Lists.{All, All-append}
use pbs.Base.Text.{Text, utf8, bytes}
use pbs.Client.Encode.{hex_digit, hex_byte, is_unreserved, encode_bytes, encode}

-- The value of an upper-case hexadecimal digit.
abbrev pub hex_value : ℕ → Option ℕ
hex_value c =
    if leb b'0' c && leb c b'9'
    then some (c - b'0')
    else if leb b'A' c && leb c b'F'
    then some (c - b'A' + 10)
    else none

abbrev join_hex : Option ℕ → Option ℕ → Option ℕ
join_hex (some h) (some l) = some (h * 16 + l)
join_hex h l = none

abbrev cons_byte : Option ℕ → Option (List ℕ) → Option (List ℕ)
cons_byte (some b) (some bs) = some (b ∷ bs)
cons_byte b bs = none

-- RFC 3986 decoding: `%XY` stands for a byte, any other character for itself.
unfoldable pub percent_decode : Text → Option (List ℕ)
percent_decode [] = some []
percent_decode (c ∷ []) = if nat_eq c b'%' then none else some (c ∷ [])
percent_decode (c ∷ h ∷ []) =
    let rest = percent_decode (h ∷ []) in if nat_eq c b'%' then none else cons_byte (some c) rest
percent_decode (c ∷ h ∷ l ∷ s) =
    let hit = percent_decode s in
    let rest = percent_decode (h ∷ l ∷ s) in
    if nat_eq c b'%'
    then cons_byte (join_hex (hex_value h) (hex_value l)) hit
    else cons_byte (some c) rest

hex_value-hex_digit : (n : ℕ) → n < 16 → hex_value (hex_digit n) ≡ some n
unfolding hex_digit
hex_value-hex_digit n h = ground arith

nibbles_join : (b : ℕ) → b / 16 * 16 + b % 16 ≡ b
nibbles_join b = omega arith

plain_step :
    (c : ℕ) (s : Text)
    → nat_eq c b'%' ≡ false
    → percent_decode (c ∷ s) ≡ cons_byte (some c) (percent_decode s)
unfolding percent_decode
plain_step c [] h = rw h
plain_step c (a ∷ []) h = rw h
plain_step c (a ∷ b ∷ s) h = rw h

unreserved_ne_percent : (c : ℕ) → is_unreserved c ≡ true → nat_eq c b'%' ≡ false
unfolding is_unreserved
unreserved_ne_percent c h = ground arith

hex_step :
    (b : ℕ) (s : Text)
    → b < 256
    → percent_decode (b'%' ∷ (hex_byte b ++ s)) ≡ cons_byte (some b) (percent_decode s)
unfolding hex_byte percent_decode
hex_step b s h =
    rw (hex_value-hex_digit (b / 16) (omega arith), hex_value-hex_digit (b % 16) (omega arith))
      (ap (λ x. cons_byte (some x) (percent_decode s)) (nibbles_join b))

percent_decode-encode_bytes :
    (bs : List ℕ) → All (λ b. b < 256) bs → percent_decode (encode_bytes bs) ≡ some bs
unfolding encode_bytes
percent_decode-encode_bytes [] h = unfold percent_decode in refl
percent_decode-encode_bytes (b ∷ bs) h = elim (Bool-cases (is_unreserved b)) [
  | inl plain ↦ rw plain (
      plain_step b (encode_bytes bs) (unreserved_ne_percent b plain)
      ∙ rw (percent_decode-encode_bytes bs h.1))
  | inr escaped ↦
      rw escaped (hex_step b (encode_bytes bs) h.0 ∙ rw (percent_decode-encode_bytes bs h.1))
]

-- A code point of Unicode.
abbrev pub IsScalar : ℕ → Type 0
IsScalar c = c < 0x110000

utf8-lt : (c : ℕ) → IsScalar c → All (λ b. b < 256) (utf8 c)
unfolding utf8
utf8-lt c h = ground arith

bytes-lt : (s : Text) → All IsScalar s → All (λ b. b < 256) (bytes s)
unfolding bytes
bytes-lt [] h = tt
bytes-lt (c ∷ s) h = All-append (λ b. b < 256) (utf8 c) (bytes s) (utf8-lt c h.0) (bytes-lt s h.1)

-- Decoding an encoded text gives back its UTF-8 bytes.
pub percent_decode-encode : (s : Text) → All IsScalar s → percent_decode (encode s) ≡ some (bytes s)
unfolding encode
percent_decode-encode s h = percent_decode-encode_bytes (bytes s) (bytes-lt s h)

abbrev pub IsSafe : ℕ → Type 0
IsSafe c = (is_unreserved c || nat_eq c b'%') ≡ true

hex_digit-IsSafe : (n : ℕ) → n < 16 → IsSafe (hex_digit n)
unfolding hex_digit is_unreserved
hex_digit-IsSafe n h = ground arith

encode_bytes-IsSafe : (bs : List ℕ) → All (λ b. b < 256) bs → All IsSafe (encode_bytes bs)
unfolding encode_bytes hex_byte
encode_bytes-IsSafe [] h = tt
encode_bytes-IsSafe (b ∷ bs) h = elim (Bool-cases (is_unreserved b)) [
  | inl plain ↦ rw plain (rw plain refl, encode_bytes-IsSafe bs h.1)
  | inr escaped ↦ rw escaped (
    refl,
    (
      hex_digit-IsSafe (b / 16) (omega (arith, h.0)),
      (hex_digit-IsSafe (b % 16) (omega arith), encode_bytes-IsSafe bs h.1),
    ),
  )
]

-- Every character of an encoded text is unreserved or a percent sign, so it holds no separator.
pub encode-IsSafe : (s : Text) → All IsScalar s → All IsSafe (encode s)
unfolding encode
encode-IsSafe s h = encode_bytes-IsSafe (bytes s) (bytes-lt s h)
