-- ===== src/Clock/Persist.antt =====
-- What src/rtc.c makes of the registers of the chip: the hour, and the time zone kept there.
use computer_os.Prelude.{
  ℕ, ◌+◌, ◌*◌, ◌/◌, ◌%◌, ◌≡◌, ◌≤◌, arith, Bool, true, false, if◌then◌else◌, ◌==◌,
}
use computer_os.Clock.{
  Offset, east, west, Scratch, signed16, unsigned16, clamp, rtc_tz_offset_minutes,
  rtc_tz_set_offset_minutes, RtcTime, RawTime, bcd_to_bin, full_hour, decode,
}

-- An offset of 0 to the west is read back as one to the east.
abbrev pub canonical : Offset → Offset
canonical (east o) = east o
canonical (west o) = if o == 0 then east 0 else west o

-- Whatever the scratch registers held, the offset that is read after one was set is that one, cut
-- to 720 minutes to the west and 840 to the east.
pub rtc_tz_offset_minutes-set :
    (minutes : Offset) (s : Scratch)
    → rtc_tz_offset_minutes (rtc_tz_set_offset_minutes minutes s) ≡ canonical (clamp minutes)
unfolding rtc_tz_offset_minutes rtc_tz_set_offset_minutes signed16 unsigned16 clamp
rtc_tz_offset_minutes-set (east o) s = ground arith
rtc_tz_offset_minutes-set (west o) s = ground arith

-- A number of two digits as the chip keeps it.
abbrev pub to_bcd : ℕ → ℕ
to_bcd n = n / 10 * 16 + n % 10

abbrev pub half_day : RtcTime → ℕ → Bool → RawTime
half_day t hour afternoon = record {
  raw = record t { hour = to_bcd hour + (if afternoon then 128 else 0) };
  is_binary = false;
  is_24hour = false;
}

-- For a chip that keeps decimal digits and 12-hour times, an hour from 1 to 12 in either half of
-- the day is read as the hour from 0 to 23: 12 at night is 0, and 12 at noon is 12.
pub decode-hour :
    (t : RtcTime) (hour : ℕ) (afternoon : Bool)
    → 1 ≤ hour
    → hour ≤ 12
    → (decode (half_day t hour afternoon)).hour ≡ hour % 12 + (if afternoon then 12 else 0)
unfolding decode full_hour bcd_to_bin
decode-hour t hour true lo hi = ground arith
decode-hour t hour false lo hi = ground arith
