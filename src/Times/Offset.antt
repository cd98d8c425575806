-- ===== src/Times/Offset.antt =====
-- An offset that is rendered as `+HH:MM` or `-HH:MM` is read back.
use pbs.Base.{
  ℕ, zero, suc, ◌+◌, ◌*◌, ◌/◌, ◌%◌, ◌<◌, ◌≤◌, Bool, true, false, ◌&&◌, ◌||◌, some, [], ◌∷◌, ◌++◌,
  ◌≡◌, ◌⊎◌, inl, inr, refl, ap, ◌∙◌, arith,
}
use pbs.Base.Tests.{ltb, if◌then◌else◌, Bool-cases}
use pbs.Base.Lists.{all}
use pbs.Base.Int.{ℤ, pos, neg, mul_ℕ, ◌+ℤ◌, ltb_ℤ, rem_euclid}
use pbs.Base.Text.{
  Text, str, ◌==◌, trim, eq_ignore_ascii_case, split_once, digits, show_nat, pad_nat, pad_int,
  is_digit, is_whitespace, trim_start, trim_end,
}
use pbs.Base.Result.{ok}
use pbs.Times.{wrap, abs_i32, offset_text}
use pbs.Times.ParseOffset.{
  seconds, parse_i32, parse_hours_minutes, parse_trimmed, parse_offset, value_of,
}

abbrev two_digits : ℕ → Text
two_digits n = (48 + n / 10) ∷ (48 + n % 10) ∷ []

digits_one : (f n : ℕ) → n < 10 → digits (suc f) n ≡ (48 + n) ∷ []
unfolding digits
digits_one f n h = ground arith

digits_two : (f n : ℕ) → 10 ≤ n → n < 100 → digits (suc (suc f)) n ≡ two_digits n
unfolding digits
digits_two f n low high = ground (arith, digits_one f (n / 10))

show_two : (n : ℕ) → 10 ≤ n → n < 100 → show_nat n ≡ two_digits n
unfolding show_nat
show_two zero low high = absurd (omega (arith, low))
show_two (suc n) low high = digits_two n (suc n) low high

pad_nat-two : (n : ℕ) → n < 100 → pad_nat 2 n ≡ two_digits n
unfolding pad_nat
pad_nat-two n h = elim (Bool-cases (ltb n 10)) [
  | inl small ↦
      unfold show_nat in rw (digits_one n n (ground (arith, small))) (ground (arith, small))
  | inr large ↦ rw (show_two n (ground (arith, large)) h) refl
]

abbrev pub seconds_east : Bool → ℕ → ℕ → ℤ
seconds_east minus h m = if minus then neg (pos (h * 3600 + m * 60)) else pos (h * 3600 + m * 60)

abs-seconds_east :
    (minus : Bool) (h m : ℕ)
    → h ≤ 14
    → m ≤ 59
    → abs_i32 (seconds_east minus h m) ≡ pos (h * 3600 + m * 60)
unfolding wrap neg rem_euclid
abs-seconds_east minus h m hb mb = ground arith

abbrev clock : ℕ → ℕ → Text
clock h m = two_digits h ++ (b':' ∷ two_digits m)

abbrev sign_of : ℤ → ℕ
sign_of offset = if ltb_ℤ offset (pos 0) then b'-' else b'+'

offset_text-clock :
    (minus : Bool) (h m : ℕ)
    → h ≤ 14
    → m ≤ 59
    → offset_text (seconds_east minus h m) ≡ sign_of (seconds_east minus h m) ∷ clock h m
unfolding pad_int
offset_text-clock minus h m hb mb =
    let hours : (h * 3600 + m * 60) / 3600 ≡ h = omega (arith, hb, mb) in
    let minutes : (h * 3600 + m * 60) % 3600 / 60 ≡ m = omega (arith, hb, mb) in
    rw (abs-seconds_east minus h m hb mb) (
      rw hours (
        rw minutes
          (rw (pad_nat-two h (omega (arith, hb))) (rw (pad_nat-two m (omega (arith, mb))) refl))))

trim-clock :
    (c h m : ℕ) → (c ≡ b'+') ⊎ (c ≡ b'-') → h ≤ 14 → m ≤ 59 → trim (c ∷ clock h m) ≡ c ∷ clock h m
unfolding trim trim_start trim_end is_whitespace all
trim-clock c h m sign hb mb = ground arith

split_once-clock :
    (h m : ℕ) → h ≤ 14 → m ≤ 59 → split_once b':' (clock h m) ≡ some (two_digits h, two_digits m)
unfolding split_once
split_once-clock h m hb mb = ground arith

parse_i32-two : (n : ℕ) → n < 100 → parse_i32 (two_digits n) ≡ some (pos n)
unfolding parse_i32 value_of is_digit all
parse_i32-two n h = ground arith

seconds-seconds_east :
    (minus : Bool) (h m : ℕ)
    → h ≤ 14
    → m ≤ 59
    → seconds minus (pos h) (pos m) ≡ seconds_east minus h m
unfolding wrap neg rem_euclid mul_ℕ ◌+ℤ◌
seconds-seconds_east minus h m hb mb = ground arith

in_range : (h m : ℕ) → h ≤ 14 → m ≤ 59 → ltb_ℤ (pos 14) (pos h) || ltb_ℤ (pos 59) (pos m) ≡ false
in_range h m hb mb = ground arith

parse_hours_minutes-clock :
    (s : Text) (minus : Bool) (h m : ℕ)
    → h ≤ 14
    → m ≤ 59
    → parse_hours_minutes s minus (clock h m) ≡ ok (seconds_east minus h m)
unfolding parse_hours_minutes
parse_hours_minutes-clock s minus h m hb mb = rw (split_once-clock h m hb mb) (
    rw (parse_i32-two h (omega (arith, hb))) (
      rw (parse_i32-two m (omega (arith, mb)))
        (rw (in_range h m hb mb) (ap ok (seconds-seconds_east minus h m hb mb)))))

parse_offset-clock :
    (minus : Bool) (h m : ℕ)
    → h ≤ 14
    → m ≤ 59
    → parse_offset ((if minus then b'-' else b'+') ∷ clock h m) ≡ ok (seconds_east minus h m)
unfolding parse_offset eq_ignore_ascii_case ◌==◌ str
parse_offset-clock true h m hb mb =
    ap parse_trimmed (trim-clock b'-' h m (inr refl) hb mb)
    ∙ parse_hours_minutes-clock (b'-' ∷ clock h m) true h m hb mb
parse_offset-clock false h m hb mb =
    ap parse_trimmed (trim-clock b'+' h m (inl refl) hb mb)
    ∙ parse_hours_minutes-clock (b'+' ∷ clock h m) false h m hb mb

abbrev is_west : Bool → ℕ → ℕ → Bool
is_west minus h m = minus && ltb 0 (h * 3600 + m * 60)

sign_of-seconds_east :
    (minus : Bool) (h m : ℕ)
    → sign_of (seconds_east minus h m) ≡ (if is_west minus h m then b'-' else b'+')
unfolding neg
sign_of-seconds_east minus h m = ground arith

seconds_east-is_west :
    (minus : Bool) (h m : ℕ) → seconds_east (is_west minus h m) h m ≡ seconds_east minus h m
unfolding neg
seconds_east-is_west minus h m = ground arith

-- An offset of up to 14 hours and 59 minutes, east or west, is read back from its rendering.
pub parse_offset-offset_text :
    (minus : Bool) (h m : ℕ)
    → h ≤ 14
    → m ≤ 59
    → parse_offset (offset_text (seconds_east minus h m)) ≡ ok (seconds_east minus h m)
parse_offset-offset_text minus h m hb mb =
    ap parse_offset (offset_text-clock minus h m hb mb)
    ∙ ap (λ c. parse_offset (c ∷ clock h m)) (sign_of-seconds_east minus h m)
    ∙ parse_offset-clock (is_west minus h m) h m hb mb
    ∙ ap ok (seconds_east-is_west minus h m)
