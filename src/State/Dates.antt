-- ===== src/State/Dates.antt =====
-- The calendar of a creation's time.
use marstack_container.Prelude.{
  Bool, Bool-cases, ℕ, ◌==◌, ◌&&◌, ◌||◌, not, zero, suc, refl, List, [], ◌∷◌, ◌⊎◌, inl, inr, true,
  false, if◌then◌else◌, ◌+◌, ◌-◌, ◌*◌, ◌/◌, ◌%◌, ◌≤◌, ◌<◌, ◌≡◌, arith, ltb, leb,
}
use marstack_container.State.Calendar.{Civil, civil_from_unix, year_of_era, day_of_year, month_day}

year_of_era-bound : (doe : ℕ) → doe < 146_097 → year_of_era doe < 400
unfolding year_of_era
year_of_era-bound doe h = omega arith

day_of_year-bound : (doe : ℕ) → doe < 146_097 → day_of_year doe (year_of_era doe) < 366
unfolding year_of_era day_of_year
day_of_year-bound doe h = omega arith

month_day-bounds :
    (doy : ℕ)
    → doy < 366
    → (1 ≤ (month_day doy).0)
      × ((month_day doy).0 ≤ 12)
      × (1 ≤ (month_day doy).1)
      × ((month_day doy).1 ≤ 31)
unfolding month_day
month_day-bounds doy h = ground arith

-- The days from the first of March of year 0 to that of year y: one more every fourth year, but
-- not every hundredth, though every four hundredth.
days_to_year : ℕ → ℕ
days_to_year y = 365 * y + y / 4 - y / 100 + y / 400

-- March to January.
month_lengths : List ℕ
month_lengths = 31 ∷ 30 ∷ 31 ∷ 30 ∷ 31 ∷ 31 ∷ 30 ∷ 31 ∷ 30 ∷ 31 ∷ 31 ∷ []

sum_first : ℕ → List ℕ → ℕ
sum_first zero ls = 0
sum_first (suc n) [] = 0
sum_first (suc n) (l ∷ ls) = l + sum_first n ls

-- The days of a year that begins in March before its month n, where March is 0.
month_start : ℕ → ℕ
unfolding sum_first month_lengths
month_start n = sum_first n month_lengths

-- The number of a date's day, from the first of March of year 0.
pub ordinal : Civil → ℕ
unfolding days_to_year month_start
ordinal c =
    if leb c.month 2
    then days_to_year (c.year - 1) + month_start (c.month + 9) + c.day - 1
    else days_to_year c.year + month_start (c.month - 3) + c.day - 1

-- Every fourth year has a leap day, but for the hundredth ones that are not four hundredth.
unfoldable leap : ℕ → Bool
leap y = y % 4 == 0 && (not (y % 100 == 0) || y % 400 == 0)

-- The days of a month, in a year that begins in January.
unfoldable pub days_in : ℕ → ℕ → ℕ
unfolding leap
days_in y m =
    if m == 2
    then (if leap y then 29 else 28)
    else if m == 4 || m == 6 || m == 9 || m == 11
    then 30
    else 31

-- A date whose month is one of the twelve, whose day is one of that month, and whose hour, minute
-- and second are in their ranges.
abbrev pub IsDate : Civil → Type 0
IsDate c =
    (1 ≤ c.month)
    × (c.month ≤ 12)
    × (1 ≤ c.day)
    × (c.day ≤ days_in c.year c.month)
    × (c.hour < 24)
    × (c.minute < 60)
    × (c.second < 60)

month_start-formula : (n : ℕ) → n < 12 → month_start n ≡ (153 * n + 2) / 5
unfolding month_start
month_start-formula zero h = refl
month_start-formula (suc zero) h = refl
month_start-formula (suc (suc zero)) h = refl
month_start-formula (suc (suc (suc zero))) h = refl
month_start-formula (suc (suc (suc (suc zero)))) h = refl
month_start-formula (suc (suc (suc (suc (suc zero))))) h = refl
month_start-formula (suc (suc (suc (suc (suc (suc zero)))))) h = refl
month_start-formula (suc (suc (suc (suc (suc (suc (suc zero))))))) h = refl
month_start-formula (suc (suc (suc (suc (suc (suc (suc (suc zero)))))))) h = refl
month_start-formula (suc (suc (suc (suc (suc (suc (suc (suc (suc zero))))))))) h = refl
month_start-formula (suc (suc (suc (suc (suc (suc (suc (suc (suc (suc zero)))))))))) h = refl
month_start-formula (suc (suc (suc (suc (suc (suc (suc (suc (suc (suc (suc zero))))))))))) h = refl
month_start-formula (suc (suc (suc (suc (suc (suc (suc (suc (suc (suc (suc (suc n)))))))))))) h =
    absurd (omega arith)

day_of_year-sum :
    (doe : ℕ)
    → doe < 146_097
    → doe ≡ days_to_year (year_of_era doe) + day_of_year doe (year_of_era doe)
unfolding year_of_era day_of_year days_to_year
day_of_year-sum doe h = omega arith

days_to_year-era :
    (yoe era : ℕ) → yoe < 400 → days_to_year (yoe + era * 400) ≡ days_to_year yoe + era * 146_097
unfolding days_to_year
days_to_year-era yoe era h = omega arith

month_start-month :
    (doy n : ℕ)
    → doy < 366
    → n ≡ (5 * doy + 2) / 153
    → month_start n + (doy - (153 * ((5 * doy + 2) / 153) + 2) / 5 + 1) ≡ suc doy
month_start-month doy n h e = omega (arith, month_start-formula n (omega arith))

-- The month and the day make up the day of the year.
month_day-sum :
    (doy : ℕ)
    → doy < 366
    → (leb (month_day doy).0 2 ≡ true)
        × (month_start ((month_day doy).0 + 9) + (month_day doy).1 ≡ suc doy)
      ⊎ (leb (month_day doy).0 2 ≡ false)
        × (month_start ((month_day doy).0 - 3) + (month_day doy).1 ≡ suc doy)
unfolding month_day
month_day-sum doy h =
    let mp = (5 * doy + 2) / 153 in
    elim (Bool-cases (ltb mp 10)) [
      | inl early ↦
          inr
            (rw early (ground arith), rw early (month_start-month doy (mp + 3 - 3) h (omega arith)))
      | inr late ↦
          inl
            (rw late (ground arith), rw late (month_start-month doy (mp - 9 + 9) h (ground arith)))
    ]

-- A year of the era that has 366 days, from March on, ends with a leap day.
last_day-leap :
    (doe era : ℕ)
    → doe < 146_097
    → 365 ≤ day_of_year doe (year_of_era doe)
    → leap (year_of_era doe + era * 400 + 1) ≡ true
unfolding year_of_era day_of_year leap
last_day-leap doe era h full = ground arith

month_day-days_in :
    (doy y : ℕ)
    → doy < 366
    → (365 ≤ doy → leap (y + 1) ≡ true)
    → (month_day doy).1 ≤ days_in (if leb (month_day doy).0 2 then y + 1 else y) (month_day doy).0
unfolding month_day days_in
month_day-days_in doy y h last = elim (Bool-cases (ltb doy 365)) [
  | inl before ↦ ground arith
  | inr at_end ↦ ground (arith, last (ground arith))
]

-- The first of January 1970.
abbrev pub epoch : Civil
epoch = record { year = 1970; month = 1; day = 1; hour = 0; minute = 0; second = 0 }

epoch-ordinal : ordinal epoch ≡ 719_468
unfolding ordinal days_to_year month_start
epoch-ordinal = refl

ordinal-date :
    (y doy hour minute second : ℕ)
    → doy < 366
    → ordinal (record {
      year = if leb (month_day doy).0 2 then y + 1 else y;
      month = (month_day doy).0;
      day = (month_day doy).1;
      hour = hour;
      minute = minute;
      second = second;
    })
      ≡ days_to_year y + doy
unfolding ordinal
ordinal-date y doy hour minute second h = elim (month_day-sum doy h) [
  | inl (next_year, sum) ↦ rw next_year (omega (arith, sum))
  | inr (same_year, sum) ↦ rw same_year (omega (arith, sum))
]

-- The date of a number of seconds since 1970 is a date, whose day is one of its month in its year;
-- it is as many days after the first of January 1970 as the seconds make up, in a calendar where
-- every fourth year is a leap year but for the hundredth ones that are not four hundredth; and its
-- time of day is the seconds left over.
pub civil_from_unix-ordinal :
    (secs : ℕ)
    → (ordinal (civil_from_unix secs) ≡ ordinal epoch + secs / 86_400)
      × ((civil_from_unix secs).hour * 3_600
            + (civil_from_unix secs).minute * 60
            + (civil_from_unix secs).second
          ≡ secs % 86_400)
      × IsDate (civil_from_unix secs)
unfolding civil_from_unix
civil_from_unix-ordinal secs =
    let z = secs / 86_400 + 719_468 in
    let doe = z % 146_097 in
    let yoe = year_of_era doe in
    let doy = day_of_year doe yoe in
    let small : doe < 146_097 = omega arith in
    let in_year = day_of_year-bound doe small in
    let date =
      ordinal-date (yoe + z / 146_097 * 400) doy (secs % 86_400 / 3_600)
        (secs % 86_400 % 3_600 / 60) (secs % 86_400 % 60) in_year in
    let (m1, m2, d1, d2) = month_day-bounds doy in_year in
    let in_month =
      month_day-days_in doy (yoe + z / 146_097 * 400) in_year
        (λ full. last_day-leap doe (z / 146_097) small full) in
    (
      omega (
        arith,
        epoch-ordinal,
        date,
        day_of_year-sum doe small,
        days_to_year-era yoe (z / 146_097) (year_of_era-bound doe small),
      ),
      omega arith,
      (m1, m2, d1, in_month, omega arith, omega arith, omega arith),
    )
