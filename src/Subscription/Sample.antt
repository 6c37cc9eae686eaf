-- ===== src/Subscription/Sample.antt =====
-- A lunar calendar for the tests.
use quotapulse.Base.{◌&&◌, none, some, leb, if◌then◌else◌, refl, arith}
use quotapulse.Calendar.{date, month_length}
use quotapulse.Calendar.Order.{ordinal-lt_of_year}
use quotapulse.Subscription.Date.{Lunar}
use quotapulse.Subscription.Date.Spec.{LunarLaws}

-- A lunar calendar that meets the laws: its months are the solar ones.
abbrev pub toy : Lunar
toy = record {
  lunar_year = λ d. d.year;
  day_count = λ y m. if leb 1 m && leb m 12 then some (month_length y m) else none;
  solar = date;
}

abbrev pub toy_laws : LunarLaws toy
toy_laws = record {
  solar-IsDate = λ y m d c hy e lo hi. ground arith;
  lunar_year-solar = λ y m d c hy e lo hi. refl;
  lunar_year_lt = ordinal-lt_of_year;
  lunar_year_lag = λ d v. omega arith;
}
