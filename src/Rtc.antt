-- ===== src/Rtc.antt =====
-- devices/rtc.c: the time from the registers of the real-time clock. The loop that reads them until
-- they are stable is I/O; the registers of its last round are arguments here. `time_t` has 32 bits,
-- and wraps; `none` is that an `int` overflows, which C leaves undefined.
pub mod Date
mod Tests
use projectmod.Base.{
  ℕ, zero, suc, ◌+◌, ◌-◌, ◌*◌, ◌/◌, ◌%◌, ◌^◌, Bool, true, false, ◌&&◌, List, [], ◌∷◌, bit_and, ◌==◌,
  ltb, if◌then◌else◌, get_or, Option, some, ◌>>◌, assert,
}

unfoldable pub bcd_to_bin : ℕ → ℕ
bcd_to_bin x = bit_and x 15 + x / 2 ^ 4 * 10

abbrev pub days_per_month : List ℕ
days_per_month = 31 ∷ 28 ∷ 31 ∷ 30 ∷ 31 ∷ 30 ∷ 31 ∷ 31 ∷ 30 ∷ 31 ∷ 30 ∷ 31 ∷ []

abbrev pub wrap : ℕ → ℕ
wrap n = n % 2 ^ 32

-- The registers, in the order in which they are read
pub record Registers : Type 0 where
  pub sec : ℕ
  pub min : ℕ
  pub hour : ℕ
  pub mday : ℕ
  pub mon : ℕ
  pub year : ℕ

-- `for (i = 1; i <= mon; i++) time += days_per_month[i - 1] * 24 * 60 * 60;` with `n` rounds left
unfoldable pub month_loop : ℕ → (i time : ℕ) → ℕ
month_loop zero i time = time
month_loop (suc n) i time =
    month_loop n (i + 1) (wrap (time + get_or days_per_month (i - 1) 0 * 24 * 60 * 60))

-- The years since 1970; a year below 70 is one after 2000.
unfoldable pub year_of : ℕ → ℕ
year_of year = (if ltb year 70 then year + 100 else year) - 70

-- The time of a date; `(year - 1) / 4` is 0 for year 0, in C as well.
unfoldable pub time_of : (sec min hour mday mon year : ℕ) → Option ℕ
unfolding month_loop
time_of sec min hour mday mon year =
    let start = (year * 365 + (year - 1) / 4) * 24 * 60 * 60 in
    let months = month_loop mon 1 start in
    let leap = if ltb 2 mon && (year % 4 == 0) then wrap (months + 24 * 60 * 60) else months in
    assert (ltb start (2 ^ 31))
    >> some (wrap (leap + (mday - 1) * 24 * 60 * 60 + hour * 60 * 60 + min * 60 + sec))

unfoldable pub rtc_get_time : Registers → Option ℕ
unfolding bcd_to_bin year_of time_of
rtc_get_time r =
    time_of (bcd_to_bin r.sec) (bcd_to_bin r.min) (bcd_to_bin r.hour) (bcd_to_bin r.mday)
      (bcd_to_bin r.mon) (year_of (bcd_to_bin r.year))
