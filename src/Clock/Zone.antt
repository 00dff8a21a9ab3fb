-- ===== src/Clock/Zone.antt =====
-- `rtc_apply_offset` of src/rtc.c: the time moves by exactly the offset.
use computer_os.Prelude.{
  ℕ, ◌+◌, ◌*◌, ◌≡◌, ◌≤◌, ◌<◌, refl, arith, true, Bool-cases, inl, inr, ◌^◌, some,
}
use computer_os.Clock.{
  RtcTime, Offset, east, west, is_int, is_int_total, julian_day, calendar_date, with_date,
  ahead_of_midnight, before_midnight, normalized, with_minutes, is_zero, rtc_apply_offset,
}
use computer_os.Clock.Calendar.{
  first_day, InYear, julian_day-calendar_date, days_to_jdn_lem, julian_day_le, jdn_to_ymd_lem,
}

-- The minutes since the start of the day numbers.
abbrev pub instant : RtcTime → ℕ
instant t = julian_day t.year t.month t.day * 1440 + t.hour * 60 + t.minute

-- `after` is `before` moved by the offset.
abbrev pub Moved : Offset → ℕ → ℕ → Type 0
Moved (east o) before after = after ≡ before + o
Moved (west o) before after = after + o ≡ before

-- How far the offset reaches back.
abbrev pub reach : Offset → ℕ
reach (east o) = 0
reach (west o) = o

-- Its number of minutes, without the sign.
abbrev pub size : Offset → ℕ
size (east o) = o
size (west o) = o

pub record Local (t : RtcTime) (offset : Offset) (t' : RtcTime) : Type 0 where
  pub moved : Moved offset (instant t) (instant t')
  pub hour : t'.hour < 24
  pub minute : t'.minute < 60
  pub date : InYear (t'.year, t'.month, t'.day)
  pub second : t'.second ≡ t.second

normalized-Moved :
    (jdn minutes : ℕ) (offset : Offset)
    → first_day * 1440 + reach offset ≤ jdn * 1440 + minutes
    → let r = normalized jdn minutes offset in
      Moved offset (jdn * 1440 + minutes) (r.1 * 1440 + r.0) × (r.0 < 1440) × (first_day ≤ r.1)
unfolding normalized ahead_of_midnight before_midnight
normalized-Moved jdn minutes (east o) late = omega arith
normalized-Moved jdn minutes (west o) late = ground arith

with_date-Local :
    (t : RtcTime) (offset : Offset) (r : ℕ × ℕ)
    → Moved offset (instant t) (r.1 * 1440 + r.0)
    → r.0 < 1440
    → first_day ≤ r.1
    → Local t offset (with_date t r.0 (calendar_date r.1))
unfolding with_date
with_date-Local t offset (new_min, jdn) moved small late =
    let back = julian_day-calendar_date jdn late in
    record {
      moved = moved_to offset (jdn * 1440 + new_min) _ moved (omega (arith, back.0));
      hour = omega arith;
      minute = omega arith;
      date = back.1;
      second = refl;
    }
  where
    moved_to :
        (offset : Offset) (x y : ℕ)
        → Moved offset (instant t) x
        → y ≡ x
        → Moved offset (instant t) y
    moved_to (east o) x y m e = omega (arith, m, e)
    moved_to (west o) x y m e = omega (arith, m, e)

-- The day to which the offset leads has a date that can be computed.
normalized_le :
    (jdn minutes : ℕ) (offset : Offset)
    → jdn ≤ 535100000
    → minutes < 1440
    → size offset + 1440 ≤ 2 ^ 31
    → (normalized jdn minutes offset).1 ≤ 536838866
unfolding normalized ahead_of_midnight before_midnight
normalized_le jdn minutes (east o) early small near = omega arith
normalized_le jdn minutes (west o) early small near = ground arith

is_int_total_lem :
    (minutes : ℕ) (offset : Offset)
    → minutes < 1440
    → size offset + 1440 ≤ 2 ^ 31
    → is_int_total minutes offset ≡ true
unfolding is_int_total is_int
is_int_total_lem minutes (east o) small near = ground arith
is_int_total_lem minutes (west o) small near = ground arith

with_minutes_lem :
    (t : RtcTime) (r : ℕ × ℕ)
    → r.1 ≤ 536838866
    → with_minutes t r ≡ some (with_date t r.0 (calendar_date r.1))
unfolding with_minutes
with_minutes_lem t (new_min, jdn) small = rw (jdn_to_ymd_lem jdn small) refl

-- For a time with a normal hour, minute, month and day, up to the year 1,460,000 and at least the
-- offset behind the first day of year 1, and an offset of at most 2 ^ 31 - 1,440 minutes, no sum of
-- `rtc_apply_offset` leaves `int`: it returns a time, which moves the number of minutes by exactly
-- the offset, across days, months and years, has a normal hour, minute, month and day, and keeps
-- the seconds.
pub rtc_apply_offset-Local :
    (t : RtcTime) (offset : Offset)
    → t.hour < 24
    → t.minute < 60
    → InYear (t.year, t.month, t.day)
    → first_day * 1440 + reach offset ≤ instant t
    → t.year ≤ 1460000
    → size offset + 1440 ≤ 2 ^ 31
    → (t' : RtcTime) × (rtc_apply_offset t offset ≡ some t') × Local t offset t'
unfolding rtc_apply_offset is_zero
rtc_apply_offset-Local t offset hour minute date late early near =
    elim (Bool-cases (is_zero offset)) [
      | inl nothing ↦ (
        t,
        rw nothing refl,
        record {
          moved = unmoved offset nothing;
          hour = hour;
          minute = minute;
          date = date;
          second = refl;
        },
      )
      | inr some_way ↦
          let jdn = julian_day t.year t.month t.day in
          let minutes = t.hour * 60 + t.minute in
          let r = normalized jdn minutes offset in
          let total = is_int_total_lem minutes offset (omega (arith, hour, minute)) near in
          let number = days_to_jdn_lem t.year t.month t.day date (omega (arith, early)) in
          let bound = julian_day_le t.year t.month t.day date in
          let small =
            normalized_le jdn minutes offset (omega (arith, bound, early))
              (omega (arith, hour, minute)) near in
          let n = normalized-Moved jdn minutes offset (omega (arith, late)) in
          (
            with_date t r.0 (calendar_date r.1),
            rw (some_way, total, number, with_minutes_lem t r small) refl,
            with_date-Local t offset r (regroup offset _ n.0) n.1 n.2,
          )
    ]
  where
    unmoved : (o : Offset) → is_zero o ≡ true → Moved o (instant t) (instant t)
    unmoved (east o) z = ground arith
    unmoved (west o) z = ground arith

    regroup :
        (o : Offset) (x : ℕ)
        → Moved o (julian_day t.year t.month t.day * 1440 + (t.hour * 60 + t.minute)) x
        → Moved o (instant t) x
    regroup (east o) x m = omega (arith, m)
    regroup (west o) x m = omega (arith, m)
