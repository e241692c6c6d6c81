-- ===== src/State/Calendar.antt =====
-- state.rs: the time of a container's creation, as text. The seconds since 1970 are not negative,
-- since the clock's time before 1970 counts as 1970, and are below 2^63.
use marstack_container.Prelude.{
  ℕ, zero, suc, ◌+◌, ◌-◌, ◌*◌, ◌/◌, ◌%◌, [], ◌∷◌, ◌++◌, length, ltb, leb, if◌then◌else◌,
}
use marstack_container.Std.Text.{Text, codes}
use marstack_container.Std.Decimal.{to_string}

pub record Civil : Type 0 where
  pub year : ℕ
  pub month : ℕ
  pub day : ℕ
  pub hour : ℕ
  pub minute : ℕ
  pub second : ℕ

-- The day within the era of 400 years, which begins on a first of March.
unfoldable pub year_of_era : ℕ → ℕ
year_of_era doe = (doe - doe / 1_460 + doe / 36_524 - doe / 146_096) / 365

unfoldable pub day_of_year : ℕ → ℕ → ℕ
day_of_year doe yoe = doe - (365 * yoe + yoe / 4 - yoe / 100)

-- The month and the day of a day of the year that begins in March.
unfoldable pub month_day : ℕ → ℕ × ℕ
month_day doy =
    let mp = (5 * doy + 2) / 153 in
    (if ltb mp 10 then mp + 3 else mp - 9, doy - (153 * mp + 2) / 5 + 1)

unfoldable pub civil_from_unix : ℕ → Civil
unfolding year_of_era day_of_year month_day
civil_from_unix secs =
    let z = secs / 86_400 + 719_468 in
    let doe = z % 146_097 in
    let yoe = year_of_era doe in
    let y = yoe + z / 146_097 * 400 in
    let (m, d) = month_day (day_of_year doe yoe) in
    let rem = secs % 86_400 in
    record {
      year = if leb m 2 then y + 1 else y;
      month = m;
      day = d;
      hour = rem / 3_600;
      minute = rem % 3_600 / 60;
      second = rem % 60;
    }

unfoldable pub zeros : ℕ → Text
zeros zero = []
zeros (suc n) = b'0' ∷ zeros n

-- `{n:0width$}`.
unfoldable pub padded : ℕ → ℕ → Text
unfolding zeros
padded width n = zeros (width - length (to_string n)) ++ to_string n

-- The text of a time given by its seconds and nanoseconds.
unfoldable pub rfc3339 : ℕ × ℕ → Text
unfolding civil_from_unix padded
rfc3339 (secs, nanos) =
    let c = civil_from_unix secs in
    padded 4 c.year
    ++ (b'-'
        ∷ (padded 2 c.month
            ++ (b'-'
                ∷ (padded 2 c.day
                    ++ (b'T'
                        ∷ (padded 2 c.hour
                            ++ (b':'
                                ∷ (padded 2 c.minute
                                    ++ (b':'
                                        ∷ (padded 2 c.second
                                            ++ (b'.' ∷ (padded 9 nanos ++ codes "Z"))))))))))))
