-- ===== src/Util/Calendar.antt =====
-- The calendar of lib/util.c: format_time and format_time_int. `unsigned long` has 32 bits. What
-- sprintf makes of its arguments is left to the printing library: format_time is modelled up to
-- that call, whose format and arguments it returns.
pub mod Dates
use wrpc_sw.Prelude.{
  ℕ, zero, suc, ◌+◌, ◌-◌, ◌*◌, ◌/◌, ◌%◌, ◌^◌, ◌≤◌, ◌<◌, min, bit_and, bit_or, ◌≡◌, refl, sym, ap,
  ◌∙◌, ◌≢◌, ◌↔◌, ◌⊎◌, inl, inr, Bool, true, false, not, ◌&&◌, ◌||◌, Option, none, some, List, [],
  ◌∷◌, ◌++◌, map, arith, length, get_or, set, get_elem?, ltb, leb, ◌==◌, if◌then◌else◌, Bool-cases,
  Option-cases, dec_lt, dec_le,
}
use wrpc_sw.Prelude.Int.{
  ℤ, pos, negsuc, pos_part, neg_part, ◌+ℤ◌, ◌-ℤ◌, ◌*ℤ◌, ◌≤ℤ◌, ◌<ℤ◌, ltb_ℤ, leb_ℤ, eqb_ℤ, i32, i64,
  sar, tdiv, neg, low_bits, Fits32, i32_of_Fits32, +ℤ_parts, -ℤ_parts, eq_of_parts, parts_of_eq,
  word_laws,
}

abbrev pub epoch_yr : ℕ
epoch_yr = 1970

abbrev pub secs_day : ℕ
secs_day = 86400

abbrev pub leapyear : ℕ → Bool
leapyear year = year % 4 == 0

abbrev pub yearsize : ℕ → ℕ
yearsize year = if leapyear year then 366 else 365

-- `_ytab`
abbrev pub ytab : Bool → List ℕ
ytab leap = 31 ∷ (if leap then 29 else 28) ∷ 31 ∷ 30 ∷ 31 ∷ 30 ∷ 31 ∷ 31 ∷ 30 ∷ 31 ∷ 30 ∷ 31 ∷ []

-- `while (dayno >= YEARSIZE(year))`. Each round takes off a day at least, so that dayno rounds are
-- enough.
unfoldable pub year_loop : ℕ → ℕ → ℕ → ℕ × ℕ
year_loop zero dayno year = (dayno, year)
year_loop (suc fuel) dayno year =
    let rest = year_loop fuel (dayno - yearsize year) (year + 1) in
    if leb (yearsize year) dayno then rest else (dayno, year)

-- `while (dayno >= _ytab[LEAPYEAR(year)][t.tm_mon])`, on the rest of the table from month tm_mon on.
unfoldable pub month_loop : List ℕ → ℕ → ℕ → ℕ × ℕ
month_loop [] dayno mon = (dayno, mon)
month_loop (days ∷ table) dayno mon =
    let rest = month_loop table (dayno - days) (mon + 1) in
    if leb days dayno then rest else (dayno, mon)

-- The results of format_time_int.
pub record TimeInt : Type 0 where
  pub year : ℕ
  pub month : ℕ
  pub day : ℕ
  pub hour : ℕ
  pub min_of_hour : ℕ
  pub sec : ℕ
  pub sbs : ℕ
  pub diy : ℕ

unfoldable pub format_time_int : ℕ → TimeInt
format_time_int sec_in =
    let dayclock = sec_in % 2 ^ 32 % secs_day in
    let (diy, year) =
      year_loop (sec_in % 2 ^ 32 / secs_day) (sec_in % 2 ^ 32 / secs_day) epoch_yr in
    let (dayno, mon) = month_loop (ytab (leapyear year)) diy 0 in
    record {
      year = year;
      month = mon + 1;
      day = dayno + 1;
      hour = dayclock / 3600;
      min_of_hour = dayclock % 3600 / 60;
      sec = dayclock % 60;
      sbs = dayclock;
      diy = diy;
    }

-- `struct time_m`
pub record TimeM : Type 0 where
  pub tm_sec : ℕ
  pub tm_min : ℕ
  pub tm_hour : ℕ
  pub tm_wday : ℕ
  pub tm_mday : ℕ
  pub tm_mon : ℕ
  pub tm_year : ℕ

pub data TimeFormat : Type 0 where
  time_format_legacy time_format_syslog time_format_sorted : TimeFormat

-- The arguments of sprintf after the buffer and the format: of the two tables of names, the indices.
pub data TimeText : Type 0 where
  legacy_text : (wday mon mday year hour min sec : ℕ) → TimeText
  syslog_text : (mon mday hour min sec : ℕ) → TimeText
  sorted_text : (year mon mday hour min sec : ℕ) → TimeText

-- The fields that format_time computes before it prints.
unfoldable pub split_time : ℕ → TimeM
split_time sec =
    let dayclock = sec % 2 ^ 32 % secs_day in
    let days = sec % 2 ^ 32 / secs_day in
    let (diy, year) = year_loop days days epoch_yr in
    let (dayno, mon) = month_loop (ytab (leapyear year)) diy 0 in
    record {
      tm_sec = dayclock % 60;
      tm_min = dayclock % 3600 / 60;
      tm_hour = dayclock / 3600;
      tm_wday = (days + 4) % 7;
      tm_mday = dayno + 1;
      tm_mon = mon;
      tm_year = year;
    }

unfoldable pub format_time : ℕ → TimeFormat → TimeText
unfolding split_time
format_time sec time_format_legacy =
    let t = split_time sec in
    legacy_text t.tm_wday t.tm_mon t.tm_mday t.tm_year t.tm_hour t.tm_min t.tm_sec
format_time sec time_format_syslog =
    let t = split_time sec in syslog_text t.tm_mon t.tm_mday t.tm_hour t.tm_min t.tm_sec
format_time sec time_format_sorted =
    let t = split_time sec in
    sorted_text t.tm_year (t.tm_mon + 1) t.tm_mday t.tm_hour t.tm_min t.tm_sec
