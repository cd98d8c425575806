-- ===== src/Times/Calendar.antt =====
-- The Gregorian calendar, apart from the code: leap years, the lengths of the months, and the next
-- date.
use pbs.Base.{ℕ, ◌+◌, Bool, not, ◌&&◌, ◌||◌}
use pbs.Base.Tests.{ltb, nat_eq, if◌then◌else◌}
use pbs.Base.Int.{ℤ, pos, ◌+ℤ◌, rem_euclid}

-- The calendar itself: every fourth year is a leap year, but of the centuries only every fourth.
unfoldable pub is_leap : ℤ → Bool
unfolding rem_euclid
is_leap y =
    nat_eq (rem_euclid y 4) 0 && (not (nat_eq (rem_euclid y 100) 0) || nat_eq (rem_euclid y 400) 0)

abbrev pub month_length : Bool → ℕ → ℕ
month_length leap m =
    if nat_eq m 2
    then if leap then 29 else 28
    else if nat_eq m 4 || nat_eq m 6 || nat_eq m 9 || nat_eq m 11
    then 30
    else 31

unfoldable pub next_day : ℤ × (ℕ × ℕ) → ℤ × (ℕ × ℕ)
next_day (y, (m, d)) =
    if ltb d (month_length (is_leap y) m)
    then (y, (m, d + 1))
    else if ltb m 12
    then (y, (m + 1, 1))
    else (y +ℤ pos 1, (1, 1))
