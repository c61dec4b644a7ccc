-- ===== src/Util/Calendar/Dates.antt =====
-- The dates of lib/util.c name the second they were made from.
use wrpc_sw.Prelude.{
  ℕ, zero, suc, ◌+◌, ◌-◌, ◌*◌, ◌/◌, ◌%◌, ◌^◌, ◌≤◌, ◌<◌, ◌≡◌, inl, inr, Bool, take, List, [], ◌∷◌,
  arith, length, get_or, leb, Bool-cases,
}
use wrpc_sw.Util.Calendar.{
  epoch_yr, secs_day, leapyear, yearsize, ytab, year_loop, month_loop, TimeInt, format_time_int,
}

-- The days from the start of 1970 to the start of the year, by the rule of every fourth year.
abbrev pub days_before_year : ℕ → ℕ
days_before_year y = 365 * (y - 1970) + (y - 1969) / 4

year_loop_lem :
    (fuel dayno year : ℕ)
    → 1970 ≤ year
    → dayno ≤ fuel
    → let (d, y) = year_loop fuel dayno year in
      (days_before_year y + d ≡ days_before_year year + dayno) × (d < yearsize y) × (year ≤ y)
unfolding year_loop
year_loop_lem zero dayno year h k = ground arith
year_loop_lem (suc fuel) dayno year h k =
    ground (arith, year_loop_lem fuel (dayno - yearsize year) (year + 1))

abbrev sum : List ℕ → ℕ
sum [] = 0
sum (x ∷ xs) = x + sum xs

-- The days from the start of the year to the start of month m, counted from 0.
abbrev pub days_before_month : Bool → ℕ → ℕ
days_before_month leap m = sum (take m (ytab leap))

month_loop_lem :
    (table : List ℕ) (dayno mon : ℕ)
    → dayno < sum table
    → let (d, m) = month_loop table dayno mon in
      (j : ℕ) × (m ≡ mon + j)
      × (j < length table)
      × (sum (take j table) + d ≡ dayno)
      × (d < get_or table j 0)
unfolding month_loop
month_loop_lem [] dayno mon h = absurd (omega arith)
month_loop_lem (t ∷ table) dayno mon h = elim (Bool-cases (leb t dayno)) [
  | inl e ↦
      let (j, a, b, c, d) = month_loop_lem table (dayno - t) (mon + 1) (ground arith) in
      rw e (suc j, omega (arith, a), omega (arith, b), ground (arith, c), d)
  | inr e ↦ rw e (0, omega arith, omega arith, omega arith, ground arith)
]

-- A calendar date with a time of day, and the second that it names, counted from 1970.
abbrev pub second_of : TimeInt → ℕ
second_of t =
    (days_before_year t.year + days_before_month (leapyear t.year) (t.month - 1) + (t.day - 1))
      * secs_day
    + t.hour * 3600
    + t.min_of_hour * 60
    + t.sec

-- Every field is in its range.
pub record IsDate (t : TimeInt) : Type 0 where
  pub year_from : epoch_yr ≤ t.year
  pub month_from : 1 ≤ t.month
  pub month_to : t.month ≤ 12
  pub day_from : 1 ≤ t.day
  pub day_to : t.day ≤ get_or (ytab (leapyear t.year)) (t.month - 1) 0
  pub hour_to : t.hour < 24
  pub min_to : t.min_of_hour < 60
  pub sec_to : t.sec < 60
  pub sbs_sum : t.sbs ≡ t.hour * 3600 + t.min_of_hour * 60 + t.sec
  pub diy_sum : t.diy ≡ days_before_month (leapyear t.year) (t.month - 1) + (t.day - 1)

sum-ytab : (year : ℕ) → sum (ytab (leapyear year)) ≡ yearsize year
sum-ytab year = ground arith

length-ytab : (leap : Bool) → length (ytab leap) ≡ 12
length-ytab leap = ground arith

-- format_time_int gives a date of the calendar in which every fourth year is a leap year, and this
-- date names the second that it was given, of which it takes the low 32 bits.
pub format_time_int_lem :
    (s : ℕ) → IsDate (format_time_int s) × (second_of (format_time_int s) ≡ s % 2 ^ 32)
unfolding format_time_int
format_time_int_lem s =
    let days = s % 2 ^ 32 / secs_day in
    let (e, small, from) = year_loop_lem days days epoch_yr (omega arith) (omega arith) in
    let (diy, year) = year_loop days days epoch_yr in
    let (j, m, lt, f, g) =
      month_loop_lem (ytab (leapyear year)) diy 0 (omega (arith, small, sum-ytab year)) in
    let (dayno, mon) = month_loop (ytab (leapyear year)) diy 0 in
    let k : mon + 1 - 1 ≡ j = omega (arith, m) in
    (
      record {
        year_from = from;
        month_from = omega arith;
        month_to = omega (arith, m, lt, length-ytab (leapyear year));
        day_from = omega arith;
        day_to = rw k (omega (arith, g));
        hour_to = omega arith;
        min_to = omega arith;
        sec_to = omega arith;
        sbs_sum = omega arith;
        diy_sum = rw k (omega (arith, f));
      },
      rw k (omega (arith, e, f)),
    )
