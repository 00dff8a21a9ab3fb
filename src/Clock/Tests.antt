-- ===== src/Clock/Tests.antt =====
-- Runs of the clock of src/rtc.c, and the theorems at concrete times.
use computer_os.Prelude.{◌≡◌, refl, arith, some, none, bind}
use computer_os.Clock.{
  is_int, is_int_total, julian_day, calendar_date, with_date, RtcTime, west, days_to_jdn,
  jdn_to_ymd, before_midnight, normalized, with_minutes, is_zero, rtc_apply_offset,
}
use computer_os.Clock.Calendar.{jdn_to_ymd-days_to_jdn}
use computer_os.Clock.{Scratch}
use computer_os.Clock.Zone.{Local, rtc_apply_offset-Local}

-- The first of January 2000, half past two in the morning.
abbrev new_year : RtcTime
new_year = record { year = 2000; month = 1; day = 1; hour = 2; minute = 30; second = 7 }

jdn_run : days_to_jdn 2000 1 1 ≡ some 2451545
unfolding days_to_jdn julian_day is_int
jdn_run = refl

-- Five hours west it is still the year before.
west_run :
    rtc_apply_offset new_year (west 300)
    ≡ some (record { year = 1999; month = 12; day = 31; hour = 21; minute = 30; second = 7 })
unfolding is_int is_int_total julian_day calendar_date with_date rtc_apply_offset is_zero
    with_minutes normalized before_midnight days_to_jdn jdn_to_ymd
west_run = refl

-- The last day of a year whose day number is no `int` on the way.
far_run : days_to_jdn 5900000 12 31 ≡ none
unfolding days_to_jdn is_int
far_run = refl

jdn_to_ymd-days_to_jdn_example : bind (days_to_jdn 2000 2 29) jdn_to_ymd ≡ some (2000, 2, 29)
jdn_to_ymd-days_to_jdn_example =
    jdn_to_ymd-days_to_jdn 2000 2 29
      (omega arith, omega arith, omega arith, omega arith, omega arith) (omega arith)

rtc_apply_offset-Local_example :
    (t' : RtcTime) × (rtc_apply_offset new_year (west 300) ≡ some t') × Local new_year (west 300) t'
unfolding julian_day
rtc_apply_offset-Local_example =
    rtc_apply_offset-Local new_year (west 300) (omega arith) (omega arith)
      (omega arith, omega arith, omega arith, omega arith) (omega arith) (omega arith) (omega arith)

abbrev blank : Scratch
blank = record { tz_lo = 0; tz_hi = 0; tz_magic = 0 }
