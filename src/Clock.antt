-- ===== src/Clock.antt =====
-- The clock of src/rtc.c: calendar arithmetic and the offset of a time zone. Dates are those from
-- year 1 on, where no intermediate value of the code is negative. A year or a sum that is
-- no `int` gives `none`, and nothing is said about it.
pub mod Calendar
pub mod Zone
pub mod Persist
mod Tests
use computer_os.Prelude.{
  ℕ, ◌+◌, ◌-◌, ◌*◌, ◌/◌, ◌%◌, Bool, true, false, leb, ltb, ◌==◌, if◌then◌else◌, not, ◌^◌, ◌&&◌,
  Option, none, some, bind,
}

pub bcd_to_bin : ℕ → ℕ
bcd_to_bin v = v % 16 + (v / 16) * 10

-- The value is an `int`.
pub is_int : ℕ → Bool
is_int n = ltb n (2 ^ 31)

-- The formula of `days_to_jdn`.
pub julian_day : ℕ → ℕ → ℕ → ℕ
julian_day y m d =
    let a = (14 - m) / 12 in
    let yy = y + 4800 - a in
    let mm = m + 12 * a - 3 in
    d + (153 * mm + 2) / 5 + 365 * yy + yy / 4 - yy / 100 + yy / 400 - 32045

-- The largest values on the way are that of the month and the sum before the first subtraction.
pub days_to_jdn : ℕ → ℕ → ℕ → Option ℕ
days_to_jdn y m d =
    let a = (14 - m) / 12 in
    let yy = y + 4800 - a in
    let mm = m + 12 * a - 3 in
    if is_int (153 * mm + 2) && is_int (d + (153 * mm + 2) / 5 + 365 * yy + yy / 4)
    then some (julian_day y m d)
    else none

-- The formulas of `jdn_to_ymd`: the year, the month and the day.
pub calendar_date : ℕ → ℕ × ℕ × ℕ
calendar_date jdn =
    let a = jdn + 32044 in
    let b = (4 * a + 3) / 146097 in
    let c = a - 146097 * b / 4 in
    let dd = (4 * c + 3) / 1461 in
    let e = c - 1461 * dd / 4 in
    let mm = (5 * e + 2) / 153 in
    (100 * b + dd - 4800 + mm / 10, mm + 3 - 12 * (mm / 10), e - (153 * mm + 2) / 5 + 1)

-- The largest value on the way is the first.
pub jdn_to_ymd : ℕ → Option (ℕ × ℕ × ℕ)
jdn_to_ymd jdn = if is_int (4 * (jdn + 32044) + 3) then some (calendar_date jdn) else none

pub record RtcTime : Type 0 where
  pub year : ℕ
  pub month : ℕ
  pub day : ℕ
  pub hour : ℕ
  pub minute : ℕ
  pub second : ℕ

-- `offset_minutes`, by its sign.
pub data Offset : Type 0 where
  east : ℕ → Offset
  west : ℕ → Offset

-- `new_min` and the day number with `day_delta` added, for a total that is not negative and for one
-- that is `-(n + 1)`.
pub ahead_of_midnight : ℕ → ℕ → ℕ × ℕ
ahead_of_midnight jdn total = (total % (24 * 60), jdn + total / (24 * 60))

pub before_midnight : ℕ → ℕ → ℕ × ℕ
before_midnight jdn n =
    let new_min = (n + 1) % (24 * 60) in
    if new_min == 0
    then (0, jdn - (n + 1) / (24 * 60))
    else (24 * 60 - new_min, jdn - (n + 1) / (24 * 60) - 1)

-- The total of the minutes since midnight and the offset, normalized.
pub normalized : ℕ → ℕ → Offset → ℕ × ℕ
normalized jdn minutes (east o) = ahead_of_midnight jdn (minutes + o)
normalized jdn minutes (west o) =
    if leb o minutes
    then ahead_of_midnight jdn (minutes - o)
    else before_midnight jdn (o - minutes - 1)

pub with_date : RtcTime → ℕ → ℕ × ℕ × ℕ → RtcTime
with_date t new_min (y, m, d) = record t {
  year = y;
  month = m;
  day = d;
  hour = new_min / 60;
  minute = new_min % 60;
}

pub with_minutes : RtcTime → ℕ × ℕ → Option RtcTime
with_minutes t (new_min, jdn) = bind (jdn_to_ymd jdn) λ date. some (with_date t new_min date)

pub is_zero : Offset → Bool
is_zero (east o) = o == 0
is_zero (west o) = o == 0

-- The offset is an `int`, and so is the total.
pub is_int_total : ℕ → Offset → Bool
is_int_total minutes (east o) = is_int (minutes + o)
is_int_total minutes (west o) = leb o (2 ^ 31)

pub rtc_apply_offset : RtcTime → Offset → Option RtcTime
rtc_apply_offset t offset =
    let minutes = t.hour * 60 + t.minute in
    if is_zero offset
    then some t
    else if not (is_int_total minutes offset)
    then none
    else bind (days_to_jdn t.year t.month t.day)
        λ jdn. with_minutes t (normalized jdn minutes offset)

-- What the ports have delivered: the registers, and the status register B.
pub record RawTime : Type 0 where
  pub raw : RtcTime
  pub is_binary : Bool
  pub is_24hour : Bool

-- The hour from 0 to 23.
pub full_hour : RawTime → ℕ
full_hour r =
    let hr = r.raw.hour in
    let plain =
      if not r.is_binary then bcd_to_bin (hr % 128) else if not r.is_24hour then hr % 128 else hr in
    if r.is_24hour
    then plain
    else (if plain == 12 then 0 else plain) + (if leb 128 hr then 12 else 0)

-- The code reads the year as two digits.
pub full_year : RawTime → ℕ
full_year r =
    let yr = if r.is_binary then r.raw.year else bcd_to_bin r.raw.year in
    if leb yr 70 then 2000 + yr else 1900 + yr

-- What `rtc_read` makes of the registers, once it has read them twice alike.
pub decode : RawTime → RtcTime
decode r =
    let bin = λ (v : ℕ). if r.is_binary then v else bcd_to_bin v in
    record {
      year = full_year r;
      month = bin r.raw.month;
      day = bin r.raw.day;
      hour = full_hour r;
      minute = bin r.raw.minute;
      second = bin r.raw.second;
    }

-- The three scratch registers of the chip.
pub record Scratch : Type 0 where
  pub tz_lo : ℕ
  pub tz_hi : ℕ
  pub tz_magic : ℕ

abbrev pub tz_magic_byte : ℕ
tz_magic_byte = 0x5a

-- A word of 16 bits with its sign, and back.
pub signed16 : ℕ → Offset
signed16 v = if leb 0x8000 v then west (0x10000 - v) else east v

pub unsigned16 : Offset → ℕ
unsigned16 (east o) = o % 0x10000
unsigned16 (west o) = (0x10000 - o % 0x10000) % 0x10000

pub rtc_tz_offset_minutes : Scratch → Offset
rtc_tz_offset_minutes s =
    if not (s.tz_magic == tz_magic_byte) then east 0 else signed16 (s.tz_hi * 256 + s.tz_lo)

pub clamp : Offset → Offset
clamp (east o) = if ltb 840 o then east 840 else east o
clamp (west o) = if ltb 720 o then west 720 else west o

pub rtc_tz_set_offset_minutes : Offset → Scratch → Scratch
rtc_tz_set_offset_minutes minutes s =
    let u = unsigned16 (clamp minutes) in
    record { tz_lo = u % 256; tz_hi = (u / 256) % 256; tz_magic = tz_magic_byte }
