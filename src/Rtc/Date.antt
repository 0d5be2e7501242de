-- ===== src/Rtc/Date.antt =====
-- The time that `rtc_get_time` returns, against the calendar.
use projectmod.Base.{
  ℕ, zero, suc, ◌+◌, ◌-◌, ◌*◌, ◌/◌, ◌%◌, ◌≤◌, ◌<◌, ◌≡◌, ◌&&◌, arith, bit_and, ◌==◌, ltb,
  if◌then◌else◌, get_or,
}
use projectmod.Base.Digits.{bit_and-halves, bit_and_zero}
use projectmod.Rtc.{bcd_to_bin, days_per_month}

-- A number below 100 as a BCD byte
abbrev pub bcd : ℕ → ℕ
bcd n = n / 10 * 16 + n % 10

low_half : (x : ℕ) → bit_and x 15 ≡ x % 16
low_half x = omega (
  arith,
  bit_and-halves x 15,
  bit_and-halves (x / 2) 7,
  bit_and-halves (x / 2 / 2) 3,
  bit_and-halves (x / 2 / 2 / 2) 1,
  bit_and_zero (x / 2 / 2 / 2 / 2),
)

pub bcd_to_bin-bcd : (n : ℕ) → n < 100 → bcd_to_bin (bcd n) ≡ n
unfolding bcd_to_bin
bcd_to_bin-bcd n h = omega (arith, low_half (bcd n))

-- The days of a year before a month, in a year that is no leap year
abbrev pub days_before : ℕ → ℕ
days_before mon =
    if mon == 1
    then 0
    else if mon == 2
    then 31
    else if mon == 3
    then 59
    else if mon == 4
    then 90
    else if mon == 5
    then 120
    else if mon == 6
    then 151
    else if mon == 7
    then 181
    else if mon == 8
    then 212
    else if mon == 9
    then 243
    else if mon == 10
    then 273
    else if mon == 11
    then 304
    else 334

-- Seconds from 1970 to a date of the years 1970 to 2069, of which `year` counts those since 1970: each
-- fourth year is a leap year, from 1972 on.
abbrev pub calendar : (sec min hour mday mon year : ℕ) → ℕ
calendar sec min hour mday mon year =
    let leap = if ltb 2 mon && ((year + 2) % 4 == 0) then 1 else 0 in
    ((year * 365 + (year + 1) / 4 + days_before mon + leap + (mday - 1)) * 24 + hour) * 3600
    + min * 60
    + sec

-- The days that the loop adds
unfoldable days_of : ℕ → ℕ → ℕ
days_of zero i = 0
days_of (suc n) i = get_or days_per_month (i - 1) 0 + days_of n (i + 1)

abbrev Late : ℕ → Type 0
Late mon = (days_before mon + 28 ≤ days_of mon 1) × (2 < mon → days_before mon + 30 ≤ days_of mon 1)
