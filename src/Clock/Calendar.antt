-- ===== src/Clock/Calendar.antt =====
-- The calendar of src/rtc.c: a day number becomes a date, and the date that number again.
use computer_os.Prelude.{
  ℕ, ◌+◌, ◌-◌, ◌*◌, ◌/◌, ◌%◌, ◌≡◌, ◌≤◌, ◌<◌, ◌⊎◌, inl, inr, refl, arith, Bool, ◌&&◌, ◌||◌, not,
  ◌==◌, if◌then◌else◌, Bool-cases, ltb, true, ◌^◌, some, bind,
}
use computer_os.Clock.{is_int, julian_day, days_to_jdn, calendar_date, jdn_to_ymd}

-- The days are those of whole centuries and a rest, of whole years and a rest, and of months.
century :
    (a b c : ℕ)
    → b ≡ (4 * a + 3) / 146097
    → c ≡ a - 146097 * b / 4
    → (a ≡ 36524 * b + b / 4 + c) × (c < 36525)
century a b c hb hc = omega arith

year :
    (c dd e : ℕ)
    → c < 36525
    → dd ≡ (4 * c + 3) / 1461
    → e ≡ c - 1461 * dd / 4
    → (c ≡ 365 * dd + dd / 4 + e) × (e < 366) × (dd < 100)
year c dd e small hd he = omega arith

month :
    (e mm d : ℕ)
    → e < 366
    → mm ≡ (5 * e + 2) / 153
    → d ≡ e - (153 * mm + 2) / 5 + 1
    → (e + 1 ≡ (153 * mm + 2) / 5 + d) × (mm < 12) × (1 ≤ d) × (d ≤ 31)
month e mm d he hm hd = omega arith

-- The parts of a year number.
year_parts :
    (b dd yy : ℕ)
    → dd < 100
    → yy ≡ 100 * b + dd
    → (yy / 4 ≡ 25 * b + dd / 4) × (yy / 100 ≡ b) × (yy / 400 ≡ b / 4)
year_parts b dd yy small e = omega arith

-- The months from March on, and those of the calendar.
month_parts :
    (mm m : ℕ)
    → mm < 12
    → m ≡ mm + 3 - 12 * (mm / 10)
    → (1 ≤ m) × (m ≤ 12) × ((14 - m) / 12 ≡ mm / 10) × (m + 12 * ((14 - m) / 12) - 3 ≡ mm)
month_parts mm m small e = omega arith

abbrev pub jdn_of : ℕ × ℕ × ℕ → ℕ
jdn_of (y, m, d) = julian_day y m d

-- A date of the calendar, apart from the lengths of the months.
abbrev pub InYear : ℕ × ℕ × ℕ → Type 0
InYear (y, m, d) = (1 ≤ m) × (m ≤ 12) × (1 ≤ d) × (d ≤ 31)

-- From the first day of year 1 on.
abbrev pub first_day : ℕ
first_day = 1721426

joined :
    (jdn b c dd e mm m d y : ℕ)
    → first_day ≤ jdn
    → jdn + 32044 ≡ 36524 * b + b / 4 + c
    → c < 36525
    → (c ≡ 365 * dd + dd / 4 + e) × (e < 366) × (dd < 100)
    → (e + 1 ≡ (153 * mm + 2) / 5 + d) × (mm < 12) × (1 ≤ d) × (d ≤ 31)
    → (1 ≤ m) × (m ≤ 12) × ((14 - m) / 12 ≡ mm / 10) × (m + 12 * ((14 - m) / 12) - 3 ≡ mm)
    → y ≡ 100 * b + dd - 4800 + mm / 10
    → julian_day y m d ≡ jdn
unfolding julian_day
joined jdn b c dd e mm m d y late century small years months named hy =
    let late_century : 48 ≤ b = omega (arith, late, century, small) in
    let whole : y + 4800 - (14 - m) / 12 ≡ 100 * b + dd =
      omega (arith, hy, named.2, late_century) in
    let parts = year_parts b dd (100 * b + dd) years.2 refl in
    rw (whole, named.3, parts.0, parts.1, parts.2) (omega (arith, century, years.0, months.0))

-- For every day number from that of the first day of year 1 on, the day number of its date is the
-- number again, and the date has a month from 1 to 12 and a day from 1 to 31.
pub julian_day-calendar_date :
    (jdn : ℕ) → first_day ≤ jdn → (jdn_of (calendar_date jdn) ≡ jdn) × InYear (calendar_date jdn)
unfolding julian_day calendar_date
julian_day-calendar_date jdn late =
    let a = jdn + 32044 in
    let b = (4 * a + 3) / 146097 in
    let c = a - 146097 * b / 4 in
    let dd = (4 * c + 3) / 1461 in
    let e = c - 1461 * dd / 4 in
    let mm = (5 * e + 2) / 153 in
    let m = mm + 3 - 12 * (mm / 10) in
    let d = e - (153 * mm + 2) / 5 + 1 in
    let centuries = century a b c refl refl in
    let years = year c dd e centuries.1 refl refl in
    let months = month e mm d years.1 refl refl in
    let named = month_parts mm m months.1 refl in
    let parts = year_parts b dd (100 * b + dd) years.2 refl in
    let y = 100 * b + dd - 4800 + mm / 10 in
    (
      joined jdn b c dd e mm m d y late centuries.0 centuries.1 years months named refl,
      (named.0, named.1, months.2, months.3),
    )

-- The Gregorian calendar, written down on its own.
abbrev pub leap : ℕ → Bool
leap y = (y % 4 == 0) && (not (y % 100 == 0) || (y % 400 == 0))

abbrev pub month_days : ℕ → ℕ → ℕ
month_days y m =
    if m == 2
    then (if leap y then 29 else 28)
    else if (m == 4) || (m == 6) || (m == 9) || (m == 11)
    then 30
    else 31

abbrev pub IsDate : ℕ → ℕ → ℕ → Type 0
IsDate y m d = (1 ≤ y) × (1 ≤ m) × (m ≤ 12) × (1 ≤ d) × (d ≤ month_days y m)

-- The parts from which the code computes the day number.
within_year :
    (y m d b dd : ℕ)
    → IsDate y m d
    → y + 4800 - (14 - m) / 12 ≡ 100 * b + dd
    → dd < 100
    → let mm = m + 12 * ((14 - m) / 12) - 3 in
      let e = (153 * mm + 2) / 5 + d - 1 in
      ((5 * e + 2) / 153 ≡ mm)
      × (((e ≤ 364) ⊎ ((e ≡ 365) × (dd % 4 ≡ 3) × ((dd ≡ 99) → (b % 4 ≡ 3)))))
within_year y m d b dd date whole small = ground arith

century_back :
    (b c : ℕ)
    → (c ≤ 36523) ⊎ ((c ≡ 36524) × (b % 4 ≡ 3))
    → let a = 36524 * b + b / 4 + c in ((4 * a + 3) / 146097 ≡ b) × (a - 146097 * b / 4 ≡ c)
century_back b c (inl small) = omega arith
century_back b c (inr last) = omega (arith, last.0, last.1)

year_back :
    (dd e : ℕ)
    → dd < 100
    → (e ≤ 364) ⊎ ((e ≡ 365) × (dd % 4 ≡ 3))
    → let c = 365 * dd + dd / 4 + e in ((4 * c + 3) / 1461 ≡ dd) × (c - 1461 * dd / 4 ≡ e)
year_back dd e small (inl plain) = omega arith
year_back dd e small (inr last) = omega (arith, last.0, last.1)

-- The last day of a century is there only in every fourth.
century_end :
    (b dd e : ℕ)
    → dd < 100
    → (e ≤ 364) ⊎ ((e ≡ 365) × (dd % 4 ≡ 3) × (dd ≡ 99 → b % 4 ≡ 3))
    → let c = 365 * dd + dd / 4 + e in (c ≤ 36523) ⊎ ((c ≡ 36524) × (b % 4 ≡ 3))
century_end b dd e small (inl plain) = inl (omega arith)
century_end b dd e small (inr (last, third, rule)) = elim (Bool-cases (dd == 99)) [
  | inl end ↦ inr (ground arith, rule (ground arith))
  | inr before ↦ inl (ground arith)
]

-- The stages of `calendar_date`, from their values.
stages :
    (jdn b c dd e mm y m d : ℕ)
    → ((4 * (jdn + 32044) + 3) / 146097 ≡ b) × (jdn + 32044 - 146097 * b / 4 ≡ c)
    → ((4 * c + 3) / 1461 ≡ dd) × (c - 1461 * dd / 4 ≡ e)
    → (5 * e + 2) / 153 ≡ mm
    → (100 * b + dd - 4800 + mm / 10 ≡ y)
      × (mm + 3 - 12 * (mm / 10) ≡ m)
      × (e - (153 * mm + 2) / 5 + 1 ≡ d)
    → calendar_date jdn ≡ (y, m, d)
unfolding calendar_date
stages jdn b c dd e mm y m d (hb, hc) (hd, he) hm (hy, hm', hd') =
    rw (hb, hc, hd, he, hm, hy, hm', hd') refl

day_number :
    (y m d b dd mm : ℕ)
    → 1 ≤ d
    → 48 ≤ b
    → dd < 100
    → y + 4800 - (14 - m) / 12 ≡ 100 * b + dd
    → m + 12 * ((14 - m) / 12) - 3 ≡ mm
    → julian_day y m d + 32044
      ≡ 36524 * b + b / 4 + (365 * dd + dd / 4 + ((153 * mm + 2) / 5 + d - 1))
unfolding julian_day
day_number y m d b dd mm first late small whole named =
    let parts = year_parts b dd (100 * b + dd) small refl in
    rw (whole, named, parts.0, parts.1, parts.2) (omega (arith, first, late))

calendar_date-julian_day : (y m d : ℕ) → IsDate y m d → calendar_date (julian_day y m d) ≡ (y, m, d)
calendar_date-julian_day y m d date =
    let yy = y + 4800 - (14 - m) / 12 in
    let b = yy / 100 in
    let dd = yy % 100 in
    let mm = m + 12 * ((14 - m) / 12) - 3 in
    let e = (153 * mm + 2) / 5 + d - 1 in
    let c = 365 * dd + dd / 4 + e in
    let whole : yy ≡ 100 * b + dd = omega arith in
    let small : dd < 100 = omega arith in
    let inside = within_year y m d b dd date whole small in
    let cent = century_back b c (century_end b dd e small inside.1) in
    let number = day_number y m d b dd mm date.3 (omega (arith, date)) small whole refl in
    stages (julian_day y m d) b c dd e mm y m d (rw number cent)
      (year_back dd e small (last_day e dd b inside.1)) inside.0 (omega (arith, date))
  where
    last_day :
        (e dd b : ℕ)
        → (e ≤ 364) ⊎ ((e ≡ 365) × (dd % 4 ≡ 3) × (dd ≡ 99 → b % 4 ≡ 3))
        → (e ≤ 364) ⊎ ((e ≡ 365) × (dd % 4 ≡ 3))
    last_day e dd b (inl plain) = inl plain
    last_day e dd b (inr (last, third, rule)) = inr (last, third)

-- A date whose day number can be computed.
abbrev pub latest_year : ℕ
latest_year = 1465000

pub days_to_jdn_lem :
    (y m d : ℕ)
    → (1 ≤ m) × (m ≤ 12) × (1 ≤ d) × (d ≤ 31)
    → y ≤ latest_year
    → days_to_jdn y m d ≡ some (julian_day y m d)
unfolding days_to_jdn is_int
days_to_jdn_lem y m d date early =
    let mm = m + 12 * ((14 - m) / 12) - 3 in
    let yy = y + 4800 - (14 - m) / 12 in
    let one : ltb (153 * mm + 2) (2 ^ 31) ≡ true = ground (arith, date) in
    let two : ltb (d + (153 * mm + 2) / 5 + 365 * yy + yy / 4) (2 ^ 31) ≡ true =
      ground (arith, date) in
    rw (one, two) refl

pub julian_day_le :
    (y m d : ℕ)
    → (1 ≤ m) × (m ≤ 12) × (1 ≤ d) × (d ≤ 31)
    → 400 * julian_day y m d ≤ 146097 * (y + 4800)
unfolding julian_day
julian_day_le y m d date = omega (arith, date)

pub jdn_to_ymd_lem : (jdn : ℕ) → jdn ≤ 536838866 → jdn_to_ymd jdn ≡ some (calendar_date jdn)
unfolding jdn_to_ymd is_int
jdn_to_ymd_lem jdn small =
    let fits : ltb (4 * (jdn + 32044) + 3) (2 ^ 31) ≡ true = ground arith in rw fits refl

-- For every date of the Gregorian calendar from year 1 to year 1,465,000, with its leap years and
-- lengths of months, no value of `days_to_jdn` and `jdn_to_ymd` leaves `int`, and the date of its
-- day number is the date again.
pub jdn_to_ymd-days_to_jdn :
    (y m d : ℕ)
    → IsDate y m d
    → y ≤ latest_year
    → bind (days_to_jdn y m d) jdn_to_ymd ≡ some (y, m, d)
jdn_to_ymd-days_to_jdn y m d date early =
    let days : d ≤ 31 = ground (arith, date) in
    let in_year : (1 ≤ m) × (m ≤ 12) × (1 ≤ d) × (d ≤ 31) = (date.1, date.2, date.3, days) in
    rw
      (
        days_to_jdn_lem y m d in_year early,
        jdn_to_ymd_lem (julian_day y m d) (omega (arith, julian_day_le y m d in_year, early)),
        calendar_date-julian_day y m d date,
      )
      refl
