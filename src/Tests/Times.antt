-- ===== src/Tests/Times.antt =====
-- Dates and offsets at concrete inputs.
use pbs.Base.{true, ◌≡◌, refl, arith}
use pbs.Base.Int.{pos, negsuc, ◌+ℤ◌, mul_ℕ}
use pbs.Base.Text.{str}
use pbs.Base.Result.{ok}
use pbs.Times.{civil_from_days, format, offset_text}
use pbs.Times.ParseOffset.{parse_offset}
use pbs.Times.Calendar.{next_day}
use pbs.Times.NextDay.{civil_from_days-next_day}
use pbs.Times.Offset.{seconds_east, parse_offset-offset_text}

dates :
    (civil_from_days (pos 11016) ≡ (pos 2000, (2, 29)))
    × (civil_from_days (negsuc 0) ≡ (pos 1969, (12, 31)))
    × (civil_from_days (pos 0) ≡ (pos 1970, (1, 1)))
unfolding civil_from_days
dates = (refl, refl, refl)

rendered :
    (format (pos 1791091800) (negsuc 21599) ≡ str "2026-10-03 23:30:00 -06:00")
    × (format (pos 0) (pos 19800) ≡ str "1970-01-01 05:30:00 +05:30")
unfolding format str
rendered = (refl, refl)

-- A second sign is taken for the sign of the hours, and negative hours have no lower bound.
second_sign : parse_offset (str "+-99:30") ≡ ok (negsuc 354599)
unfolding parse_offset mul_ℕ
second_sign = refl

civil_from_days-next_day_example :
    civil_from_days (pos 11016 +ℤ pos 1) ≡ next_day (civil_from_days (pos 11016))
civil_from_days-next_day_example = civil_from_days-next_day (pos 11016)

parse_offset-offset_text_example :
    parse_offset (offset_text (seconds_east true 9 30)) ≡ ok (seconds_east true 9 30)
parse_offset-offset_text_example = parse_offset-offset_text true 9 30 (omega arith) (omega arith)
