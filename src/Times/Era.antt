-- ===== src/Times/Era.antt =====
-- Years and months within an era of 400 years, in the terms of src/times.rs.
use pbs.Base.{ℕ, ◌+◌, ◌-◌, ◌*◌, ◌/◌, ◌%◌, ◌<◌, ◌≤◌, Bool, not, ◌&&◌, ◌||◌, ◌≡◌, arith}
use pbs.Base.Tests.{ltb, nat_eq, if◌then◌else◌}
use pbs.Base.Int.{ℤ, pos, negsuc, ◌+ℤ◌, div_euclid, rem_euclid}
use pbs.Times.{
  year_of_era, day_of_year, month_from_march, day_of_month, month_of, january_or_february,
}
use pbs.Times.Calendar.{month_length}

abbrev pub start : ℕ → ℕ
start yoe = 365 * yoe + yoe / 4 - yoe / 100

pub year_of_era-lt : (doe : ℕ) → doe < 146097 → year_of_era doe < 400
year_of_era-lt doe h = omega (arith, h)

pub start-le : (doe : ℕ) → doe < 146097 → start (year_of_era doe) ≤ doe
start-le doe h = omega (arith, h)

pub day_of_year-lt : (doe : ℕ) → doe < 146097 → day_of_year doe (year_of_era doe) < 366
day_of_year-lt doe h = omega (arith, h)

pub month_from_march-lt : (doy : ℕ) → doy < 366 → month_from_march doy < 12
month_from_march-lt doy h = omega (arith, h)

pub month_start-le : (doy : ℕ) → doy < 366 → (153 * month_from_march doy + 2) / 5 ≤ doy
month_start-le doy h = omega (arith, h)

pub day_of_month-le : (doy : ℕ) → doy < 366 → day_of_month doy (month_from_march doy) ≤ 31
day_of_month-le doy h = omega (arith, h)

-- Leap years by the year of the era.
abbrev pub leap_in_era : ℕ → Bool
leap_in_era n = nat_eq (n % 4) 0 && (not (nat_eq (n % 100) 0) || nat_eq (n % 400) 0)

-- The first day behind a year of the era; the last year of an era ends with the era.
abbrev pub year_end : ℕ → ℕ
year_end yoe = 365 * (yoe + 1) + (yoe + 1) / 4 - (yoe + 1) / 100 + (yoe + 1) / 400

pub same_year :
    (doe : ℕ)
    → doe < 146097
    → doe + 1 < year_end (year_of_era doe)
    → year_of_era (doe + 1) ≡ year_of_era doe
same_year doe h k = omega (arith, h, k)

pub next_year :
    (doe : ℕ)
    → doe + 1 < 146097
    → year_end (year_of_era doe) ≤ doe + 1
    → year_of_era (doe + 1) ≡ year_of_era doe + 1
next_year doe h k = omega (arith, h, k)

pub year_end-le : (doe : ℕ) → doe < 146097 → doe + 1 ≤ year_end (year_of_era doe)
year_end-le doe h = omega (arith, h)

abbrev pub year_length : Bool → ℕ
year_length leap = if leap then 366 else 365

pub year_end-start :
    (yoe : ℕ) → yoe < 400 → year_end yoe ≡ start yoe + year_length (leap_in_era (yoe + 1))
year_end-start yoe h = ground arith

-- The next date, with the years counted from March.
abbrev pub step : Bool → ℕ → ℕ → ℕ × (ℕ × ℕ)
step leap m d =
    if ltb d (month_length leap m)
    then (january_or_february m, (m, d + 1))
    else if ltb m 12
    then (january_or_february m, (m + 1, 1))
    else (january_or_february m + 1, (1, 1))

abbrev pub date_in_year : ℕ → ℕ × (ℕ × ℕ)
date_in_year doy =
    let mp = month_from_march doy in
    (january_or_february (month_of mp), (month_of mp, day_of_month doy mp))

pub date_in_year-next :
    (leap : Bool) (doy : ℕ)
    → doy + 1 < year_length leap
    → date_in_year (doy + 1) ≡ step leap (date_in_year doy).1.0 (date_in_year doy).1.1
date_in_year-next leap doy h = ground arith

pub last_day :
    (leap : Bool) (doy : ℕ)
    → doy + 1 ≡ year_length leap
    → date_in_year doy ≡ (1, (2, month_length leap 2))
last_day leap doy h = ground arith

pub div_next :
    (z : ℤ)
    → rem_euclid z 146097 + 1 < 146097
    → (div_euclid (z +ℤ pos 1) 146097 ≡ div_euclid z 146097)
      × (rem_euclid (z +ℤ pos 1) 146097 ≡ rem_euclid z 146097 + 1)
unfolding div_euclid rem_euclid ◌+ℤ◌
div_next (pos n) h = ground arith
div_next (negsuc n) h = ground arith

pub div_wraps :
    (z : ℤ)
    → rem_euclid z 146097 + 1 ≡ 146097
    → (div_euclid (z +ℤ pos 1) 146097 ≡ div_euclid z 146097 +ℤ pos 1)
      × (rem_euclid (z +ℤ pos 1) 146097 ≡ 0)
unfolding div_euclid rem_euclid ◌+ℤ◌
div_wraps (pos n) h = ground arith
div_wraps (negsuc n) h = ground arith
