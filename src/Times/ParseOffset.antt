-- ===== src/Times/ParseOffset.antt =====
-- src/times.rs: `parse_offset`.
use pbs.Base.{ℕ, ◌+◌, ◌-◌, ◌*◌, Bool, true, false, not, ◌||◌, Option, none, some, [], ◌∷◌, ◌++◌}
use pbs.Base.Tests.{ltb, nat_eq, if◌then◌else◌}
use pbs.Base.Lists.{all}
use pbs.Base.Int.{ℤ, pos, ◌+ℤ◌, neg, mul_ℕ, ltb_ℤ}
use pbs.Base.Text.{Text, str, ◌==◌, trim, eq_ignore_ascii_case, is_digit, split_once}
use pbs.Base.Result.{Result, ok, err, ◌>>=◌, ◌>>◌, ensure, ok_or}
use pbs.Times.{wrap, half_i32}

-- `str::parse::<i32>`: an optional sign and at least one digit, within the range.
unfoldable pub value_of : ℕ → Text → ℕ
value_of n [] = n
value_of n (c ∷ s) = value_of (10 * n + (c - b'0')) s

abbrev pub digits_value : Text → Option ℕ
digits_value [] = none
digits_value (c ∷ s) = if all is_digit (c ∷ s) then some (value_of 0 (c ∷ s)) else none

abbrev pub below : ℕ → Option ℕ → Option ℕ
below bound none = none
below bound (some n) = if ltb n bound then some n else none

abbrev pub signed : (ℕ → ℤ) → Option ℕ → Option ℤ
signed f none = none
signed f (some n) = some (f n)

unfoldable pub parse_i32 : Text → Option ℤ
unfolding value_of is_digit all neg
parse_i32 [] = none
parse_i32 (c ∷ s) =
    if nat_eq c b'-'
    then signed (λ n. neg (pos n)) (below 2147483649 (digits_value s))
    else if nat_eq c b'+'
    then signed pos (below 2147483648 (digits_value s))
    else signed pos (below 2147483648 (digits_value (c ∷ s)))

abbrev pub bad_offset : Text → Text → Text
bad_offset s why = str "utc_offset '" ++ (s ++ (str "'" ++ why))

abbrev pub parts_of_offset : Text → Option (Text × Text) → Text × Text
parts_of_offset rest none = (rest, str "0")
parts_of_offset rest (some p) = p

-- `sign * (h * 3600 + m * 60)`, with every operation on `i32`
abbrev pub seconds : Bool → ℤ → ℤ → ℤ
seconds minus h m =
    let east = wrap half_i32 (wrap half_i32 (mul_ℕ h 3600) +ℤ wrap half_i32 (mul_ℕ m 60)) in
    wrap half_i32 (if minus then neg east else east)

unfoldable pub parse_hours_minutes : Text → Bool → Text → Result ℤ
unfolding parse_i32 split_once wrap str
parse_hours_minutes s minus rest = do
  h ←
      ok_or (parse_i32 (parts_of_offset rest (split_once b':' rest)).0)
        (bad_offset s (str ": bad hours"))
  m ←
      ok_or (parse_i32 (parts_of_offset rest (split_once b':' rest)).1)
        (bad_offset s (str ": bad minutes"))
  ensure (not (ltb_ℤ (pos 14) h || ltb_ℤ (pos 59) m)) (bad_offset s (str " is out of range"))
  ok (seconds minus h m)

abbrev pub parse_signed : Text → Result ℤ
parse_signed [] = err (bad_offset [] (str " must look like +HH:MM or -HH:MM"))
parse_signed (c ∷ rest) =
    if nat_eq c b'+'
    then parse_hours_minutes (c ∷ rest) false rest
    else if nat_eq c b'-'
    then parse_hours_minutes (c ∷ rest) true rest
    else err (bad_offset (c ∷ rest) (str " must look like +HH:MM or -HH:MM"))

abbrev pub parse_trimmed : Text → Result ℤ
parse_trimmed s =
    if eq_ignore_ascii_case s (str "z") || s == str "UTC" then ok (pos 0) else parse_signed s

unfoldable pub parse_offset : Text → Result ℤ
unfolding trim eq_ignore_ascii_case ◌==◌ parse_hours_minutes str
parse_offset text = parse_trimmed (trim text)
