-- ===== src/Times.antt =====
-- src/times.rs: rendering of epochs, and UTC offsets.
pub mod Calendar
pub mod Era
pub mod NextDay
pub mod Offset
pub mod ParseOffset
use pbs.Base.{
  ℕ, zero, suc, ◌+◌, ◌-◌, ◌*◌, ◌/◌, ◌%◌, Bool, true, false, not, ◌&&◌, ◌||◌, Option, none, some,
  List, [], ◌∷◌, ◌++◌,
}
use pbs.Base.Tests.{ltb, leb, nat_eq, if◌then◌else◌}
use pbs.Base.Lists.{all}
use pbs.Base.Int.{
  ℤ, pos, negsuc, pos_part, neg_part, ◌+ℤ◌, neg, mul_ℕ, div_euclid, rem_euclid, ltb_ℤ,
}
use pbs.Base.Text.{
  Text, str, ◌==◌, trim, eq_ignore_ascii_case, is_digit, split_once, pad_nat, pad_int,
}
use pbs.Base.Json.{Value, str_field, i64_field}
use pbs.Base.Result.{Result, ok, err, panic, ◌>>=◌, ◌>>◌, ensure, ok_or, Io}
use pbs.Client.Request.{Net, PbsClient, get_value}

-- The value of an integer of `2 * half` values that wraps around.
unfoldable pub wrap : ℕ → ℤ → ℤ
unfolding rem_euclid ◌+ℤ◌
wrap half z =
    let r = rem_euclid z (2 * half) in if ltb r half then pos r else pos r +ℤ neg (pos (2 * half))

abbrev pub half_i32 : ℕ
half_i32 = 2147483648

abbrev pub half_i64 : ℕ
half_i64 = 9223372036854775808

-- `/` and `%` on signed integers round to zero.
abbrev pub quot : ℤ → ℕ → ℤ
quot (pos n) k = pos (n / k)
quot (negsuc n) k = neg (pos (suc n / k))

abbrev pub remainder : ℤ → ℕ → ℤ
remainder (pos n) k = pos (n % k)
remainder (negsuc n) k = neg (pos (suc n % k))

-- `i32::abs`, which wraps at the least value
abbrev abs_i32 : ℤ → ℤ
abs_i32 z = wrap half_i32 (pos (pos_part z + neg_part z))

-- The day of an era of 400 years, the year of the era, and the month, both from March.
abbrev pub year_of_era : ℕ → ℕ
year_of_era doe = (doe - doe / 1460 + doe / 36524 - doe / 146096) / 365

abbrev pub day_of_year : ℕ → ℕ → ℕ
day_of_year doe yoe = doe - (365 * yoe + yoe / 4 - yoe / 100)

abbrev pub month_from_march : ℕ → ℕ
month_from_march doy = (5 * doy + 2) / 153

abbrev pub day_of_month : ℕ → ℕ → ℕ
day_of_month doy mp = doy - (153 * mp + 2) / 5 + 1

abbrev pub month_of : ℕ → ℕ
month_of mp = if ltb mp 10 then mp + 3 else mp - 9

abbrev pub january_or_february : ℕ → ℕ
january_or_february m = if leb m 2 then 1 else 0

abbrev pub date_in_era : ℤ → ℕ → ℤ × (ℕ × ℕ)
date_in_era era doe =
    let yoe = year_of_era doe in
    let doy = day_of_year doe yoe in
    let mp = month_from_march doy in
    let m = month_of mp in
    (pos yoe +ℤ mul_ℕ era 400 +ℤ pos (january_or_february m), (m, day_of_month doy mp))

-- Days since 1970-01-01 to the date of the proleptic Gregorian calendar.
unfoldable pub civil_from_days : ℤ → ℤ × (ℕ × ℕ)
unfolding ◌+ℤ◌ mul_ℕ div_euclid rem_euclid
civil_from_days days =
    let z = days +ℤ pos 719468 in date_in_era (div_euclid z 146097) (rem_euclid z 146097)

abbrev date_text : ℤ × (ℕ × ℕ) → Text
date_text date = pad_int 4 date.0 ++ (b'-' ∷ (pad_nat 2 date.1.0 ++ (b'-' ∷ pad_nat 2 date.1.1)))

abbrev clock_text : ℕ → Text
clock_text secs =
    pad_nat 2 (secs / 3600)
    ++ (b':' ∷ (pad_nat 2 (secs % 3600 / 60) ++ (b':' ∷ pad_nat 2 (secs % 60))))

abbrev pub offset_text : ℤ → Text
offset_text offset =
    let off = abs_i32 offset in
    let sign = if ltb_ℤ offset (pos 0) then b'-' else b'+' in
    sign ∷ (pad_int 2 (quot off 3600) ++ (b':' ∷ pad_int 2 (quot (remainder off 3600) 60)))

unfoldable pub format : ℤ → ℤ → Text
unfolding wrap civil_from_days pad_nat pad_int div_euclid rem_euclid
format epoch offset =
    let t = wrap half_i64 (epoch +ℤ offset) in
    date_text (civil_from_days (div_euclid t 86400))
    ++ (b' ' ∷ (clock_text (rem_euclid t 86400) ++ (b' ' ∷ offset_text offset)))

unfoldable pub utc : ℤ → Text
unfolding format
utc epoch = format epoch (pos 0)

pub record Zones : Type 0 where
  pub server : Option ℤ
  pub local : Option ℤ

pub record When : Type 0 where
  pub epoch : ℤ
  pub utc : Text
  pub server : Option Text
  pub local : Option Text

abbrev at_offset : ℤ → Option ℤ → Option Text
at_offset epoch none = none
at_offset epoch (some o) = some (format epoch o)

unfoldable pub new_when : ℤ → Zones → When
unfolding utc
new_when epoch zones = record {
  epoch = epoch;
  utc = utc epoch;
  server = at_offset epoch zones.server;
  local = at_offset epoch zones.local;
}

-- `i32::try_from(l - t)`, after the subtraction of two `i64`
unfoldable pub clock_offset : Option ℤ → Option ℤ → Option ℤ
unfolding wrap neg ◌+ℤ◌
clock_offset (some l) (some t) =
    let east = wrap half_i64 (l +ℤ neg t) in
    if ltb_ℤ east (neg (pos half_i32)) || ltb_ℤ (pos (half_i32 - 1)) east then none else some east
clock_offset l t = none

abbrev zone_of : Option Text → Text
zone_of none = str "unknown"
zone_of (some zone) = zone

abbrev clock_of : {W : Type 0} → Result Value × W → Result (Text × Option ℤ) × W
clock_of (ok v, w) = (
  ok (
    zone_of (str_field (str "timezone") v),
    clock_offset (i64_field (str "localtime") v) (i64_field (str "time") v),
  ),
  w,
)
clock_of (err e, w) = (ok (str "unknown", none), w)
clock_of (panic, w) = (panic, w)

-- The server's zone and offset; a failed read gives none.
unfoldable pub server_clock : {W : Type 0} → Net W → PbsClient → Io W (Text × Option ℤ)
unfolding get_value str_field i64_field clock_offset str
server_clock net c w = clock_of (get_value net c (str "/nodes/localhost/time") [] w)
