-- ===== src/Times/NextDay.antt =====
-- From one day to the next, `civil_from_days` gives the next date of the calendar.
use pbs.Base.{ℕ, ◌+◌, ◌%◌, ◌<◌, Bool, ◌≡◌, ap, sym, ◌∙◌, ◌⊎◌, inl, inr, refl, arith}
use pbs.Base.Tests.{ltb, Bool-cases}
use pbs.Base.Int.{ℤ, pos, negsuc, ◌+ℤ◌, mul_ℕ, div_euclid, rem_euclid}
use pbs.Times.{
  year_of_era, day_of_year, month_from_march, day_of_month, month_of, january_or_february,
  civil_from_days,
}
use pbs.Times.Calendar.{is_leap, month_length, next_day}
use pbs.Times.Era.{
  year_of_era-lt, start-le, leap_in_era, year_end, same_year, next_year, year_end-le, year_length,
  year_end-start, step, date_in_year, date_in_year-next, last_day, div_next, div_wraps,
}

-- A whole number of eras does not change the remainder.
rem_era :
    (era : ℤ) (n j k : ℕ)
    → (k ≡ 4) ⊎ (k ≡ 100) ⊎ (k ≡ 400)
    → rem_euclid (pos n +ℤ mul_ℕ era 400 +ℤ pos j) k ≡ (n + j) % k
unfolding rem_euclid ◌+ℤ◌ mul_ℕ
rem_era (pos e) n j k h = ground arith
rem_era (negsuc e) n j k h = ground arith

-- The year is a leap year or not whatever the era is.
is_leap_era : (era : ℤ) (n j : ℕ) → is_leap (pos n +ℤ mul_ℕ era 400 +ℤ pos j) ≡ leap_in_era (n + j)
unfolding is_leap
is_leap_era era n j =
    rw (rem_era era n j 4 (inl refl))
      (rw (rem_era era n j 100 (inr (inl refl))) (rw (rem_era era n j 400 (inr (inr refl))) refl))

+ℤ_assoc_pos : (a : ℤ) (j k : ℕ) → a +ℤ pos j +ℤ pos k ≡ a +ℤ pos (j + k)
unfolding ◌+ℤ◌
+ℤ_assoc_pos (pos n) j k = ground arith
+ℤ_assoc_pos (negsuc n) j k = ground arith

abbrev of_year : ℤ → ℕ × (ℕ × ℕ) → ℤ × (ℕ × ℕ)
of_year base (j, date) = (base +ℤ pos j, date)

step_leap : (l l' : Bool) (m d : ℕ) → (m ≡ 2 → l ≡ l') → step l m d ≡ step l' m d
step_leap l l' m d h = ground arith

next_day-step :
    (base : ℤ) (m d : ℕ)
    → next_day (of_year base (january_or_february m, (m, d)))
      ≡ of_year base (step (is_leap (base +ℤ pos (january_or_february m))) m d)
unfolding next_day
next_day-step base m d =
    let leap = is_leap (base +ℤ pos (january_or_february m)) in
    elim (Bool-cases (ltb d (month_length leap m))) [
      | inl inside ↦ rw inside refl
      | inr past ↦ rw past (elim (Bool-cases (ltb m 12)) [
        | inl more ↦ rw more refl
        | inr december ↦ rw december (rw (+ℤ_assoc_pos base (january_or_february m) 1) refl)
      ])
    ]

february_leap :
    (era : ℤ) (yoe m : ℕ)
    → m ≡ 2
    → is_leap (pos yoe +ℤ mul_ℕ era 400 +ℤ pos (january_or_february m)) ≡ leap_in_era (yoe + 1)
february_leap era yoe m h = rw h (is_leap_era era yoe 1)

-- The date of a day of an era, by its year.
next_in_year :
    (era : ℤ) (yoe doy : ℕ)
    → doy + 1 < year_length (leap_in_era (yoe + 1))
    → next_day (of_year (pos yoe +ℤ mul_ℕ era 400) (date_in_year doy))
      ≡ of_year (pos yoe +ℤ mul_ℕ era 400) (date_in_year (doy + 1))
next_in_year era yoe doy h =
    let m = month_of (month_from_march doy) in
    let d = day_of_month doy (month_from_march doy) in
    let base = pos yoe +ℤ mul_ℕ era 400 in
    next_day-step base m d
    ∙ ap (of_year base) (
        step_leap (is_leap (base +ℤ pos (january_or_february m))) (leap_in_era (yoe + 1)) m d
          (february_leap era yoe m)
        ∙ sym (date_in_year-next (leap_in_era (yoe + 1)) doy h))

end_of_february : (leap : Bool) → step leap 2 (month_length leap 2) ≡ (1, (3, 1))
end_of_february leap = ground arith

next_after_year :
    (era : ℤ) (yoe doy : ℕ)
    → doy + 1 ≡ year_length (leap_in_era (yoe + 1))
    → next_day (of_year (pos yoe +ℤ mul_ℕ era 400) (date_in_year doy))
      ≡ of_year (pos yoe +ℤ mul_ℕ era 400 +ℤ pos 1) (date_in_year 0)
next_after_year era yoe doy h =
    let base = pos yoe +ℤ mul_ℕ era 400 in
    let leap = leap_in_era (yoe + 1) in
    ap (λ x. next_day (of_year base x)) (last_day leap doy h)
    ∙ next_day-step base 2 (month_length leap 2)
    ∙ ap (λ l. of_year base (step l 2 (month_length leap 2))) (february_leap era yoe 2 refl)
    ∙ ap (of_year base) (end_of_february leap)
    ∙ ap (λ y. (y, (3, 1))) (sym (+ℤ_assoc_pos base 1 0))

abbrev date_at : ℤ → ℕ → ℕ → ℤ × (ℕ × ℕ)
date_at era yoe doy = of_year (pos yoe +ℤ mul_ℕ era 400) (date_in_year doy)

abbrev in_era : ℤ → ℕ → ℤ × (ℕ × ℕ)
in_era era doe = date_at era (year_of_era doe) (day_of_year doe (year_of_era doe))

same_date :
    (era : ℤ) {yoe yoe' doy doy' : ℕ}
    → yoe ≡ yoe'
    → doy ≡ doy'
    → date_at era yoe doy ≡ date_at era yoe' doy'
same_date era p q = λ i. date_at era (p i) (q i)

year_later :
    (era : ℤ) (yoe : ℕ) → pos yoe +ℤ mul_ℕ era 400 +ℤ pos 1 ≡ pos (yoe + 1) +ℤ mul_ℕ era 400
unfolding ◌+ℤ◌ mul_ℕ
year_later (pos e) yoe = ground arith
year_later (negsuc e) yoe = ground arith

era_later : (era : ℤ) → pos 399 +ℤ mul_ℕ era 400 +ℤ pos 1 ≡ pos 0 +ℤ mul_ℕ (era +ℤ pos 1) 400
unfolding ◌+ℤ◌ mul_ℕ
era_later (pos e) = ground arith
era_later (negsuc e) = ground arith

same_year_day :
    (doe : ℕ)
    → doe < 146097
    → doe + 1 < year_end (year_of_era doe)
    → day_of_year (doe + 1) (year_of_era doe) ≡ day_of_year doe (year_of_era doe) + 1
same_year_day doe h k = omega (arith, start-le doe h)

day_of_year-before :
    (doe : ℕ)
    → doe < 146097
    → doe + 1 < year_end (year_of_era doe)
    → day_of_year doe (year_of_era doe) + 1 < year_length (leap_in_era (year_of_era doe + 1))
day_of_year-before doe h k =
    omega (arith, k, year_end-start (year_of_era doe) (year_of_era-lt doe h), start-le doe h)

day_of_year-last :
    (doe : ℕ)
    → doe < 146097
    → doe + 1 ≡ year_end (year_of_era doe)
    → day_of_year doe (year_of_era doe) + 1 ≡ year_length (leap_in_era (year_of_era doe + 1))
day_of_year-last doe h k =
    omega (arith, k, year_end-start (year_of_era doe) (year_of_era-lt doe h), start-le doe h)

new_year_day :
    (doe : ℕ)
    → doe + 1 < 146097
    → doe + 1 ≡ year_end (year_of_era doe)
    → day_of_year (doe + 1) (year_of_era doe + 1) ≡ 0
new_year_day doe h k = omega (arith, k)

in_era-next :
    (era : ℤ) (doe : ℕ) → doe + 1 < 146097 → next_day (in_era era doe) ≡ in_era era (doe + 1)
in_era-next era doe h =
    let within : doe < 146097 = omega (arith, h) in
    elim (Bool-cases (ltb (doe + 1) (year_end (year_of_era doe)))) [
      | inl inside ↦
          let before : doe + 1 < year_end (year_of_era doe) = ground (arith, inside) in
          next_in_year era (year_of_era doe) (day_of_year doe (year_of_era doe))
            (day_of_year-before doe within before)
          ∙ same_date era (sym (same_year doe within before)) (
              sym (same_year_day doe within before)
              ∙ ap (day_of_year (doe + 1)) (sym (same_year doe within before)))
      | inr past ↦
          let ends : doe + 1 ≡ year_end (year_of_era doe) =
            ground (arith, past, year_end-le doe within) in
          next_after_year era (year_of_era doe) (day_of_year doe (year_of_era doe))
            (day_of_year-last doe within ends)
          ∙ ap (λ base. of_year base (date_in_year 0)) (year_later era (year_of_era doe))
          ∙ same_date era (sym (next_year doe h (ground (arith, ends)))) (
              sym (new_year_day doe h ends)
              ∙ ap (day_of_year (doe + 1)) (sym (next_year doe h (ground (arith, ends)))))
    ]

in_era-last : (era : ℤ) → next_day (in_era era 146096) ≡ in_era (era +ℤ pos 1) 0
in_era-last era =
    next_after_year era 399 365 refl ∙ ap (λ base. of_year base (date_in_year 0)) (era_later era)

shift_later : (days : ℤ) → days +ℤ pos 1 +ℤ pos 719468 ≡ days +ℤ pos 719468 +ℤ pos 1
shift_later days = +ℤ_assoc_pos days 1 719468 ∙ sym (+ℤ_assoc_pos days 719468 1)

rem_euclid-lt : (z : ℤ) → rem_euclid z 146097 < 146097
unfolding rem_euclid
rem_euclid-lt (pos n) = omega arith
rem_euclid-lt (negsuc n) = omega arith

in_era-of_next :
    (z : ℤ)
    → in_era (div_euclid (z +ℤ pos 1) 146097) (rem_euclid (z +ℤ pos 1) 146097)
      ≡ next_day (in_era (div_euclid z 146097) (rem_euclid z 146097))
in_era-of_next z = elim (Bool-cases (ltb (rem_euclid z 146097 + 1) 146097)) [
  | inl inside ↦
      let before : rem_euclid z 146097 + 1 < 146097 = ground (arith, inside) in
      let (era, doe) = div_next z before in
      (λ i. in_era (era i) (doe i))
      ∙ sym (in_era-next (div_euclid z 146097) (rem_euclid z 146097) before)
  | inr past ↦
      let last : rem_euclid z 146097 ≡ 146096 = ground (arith, past, rem_euclid-lt z) in
      let (era, doe) = div_wraps z (ap (λ n. n + 1) last) in
      (λ i. in_era (era i) (doe i))
      ∙ sym (in_era-last (div_euclid z 146097))
      ∙ ap (λ n. next_day (in_era (div_euclid z 146097) n)) (sym last)
]

-- The date of the day after is the next date of the Gregorian calendar.
pub civil_from_days-next_day :
    (days : ℤ) → civil_from_days (days +ℤ pos 1) ≡ next_day (civil_from_days days)
unfolding civil_from_days
civil_from_days-next_day days =
    ap (λ z. in_era (div_euclid z 146097) (rem_euclid z 146097)) (shift_later days)
    ∙ in_era-of_next (days +ℤ pos 719468)

-- The calendar starts at the epoch: day 0 is 1970-01-01.
pub civil_from_days-epoch : civil_from_days (pos 0) ≡ (pos 1970, (1, 1))
unfolding civil_from_days
civil_from_days-epoch = refl
