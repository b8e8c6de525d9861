-- ===== src/Locale/Tests.antt =====
-- Dates and ticks at concrete values.
use dread.Base.{◌≡◌, refl, arith, inl, none, [], ◌∷◌, replicate}
use dread.Locale.{Locale, parse_number, get_date_time, increase_seconds}
use dread.Locale.Ticking.{IsValid}
use dread.Locale.Fields.{get_date_time-outside}

-- 13:45:59 on the 14th of February 2014
abbrev evening : Locale
evening = record { secs = 59; mins = 45; hrs = 13; days = 14; months = 2; year = 14 }

evening-IsValid : IsValid evening
evening-IsValid = omega arith

evening_tick : increase_seconds evening ≡ record evening { secs = 0; mins = 46; hrs = 213 }
unfolding increase_seconds
evening_tick = refl

-- "45" is read as 49.
misread : parse_number (52 ∷ 53 ∷ []) 0 2 ≡ 49
unfolding parse_number
misread = refl

get_date_time-outside_example : get_date_time evening (replicate 18 0) ≡ none
get_date_time-outside_example =
    get_date_time-outside evening (replicate 18 0) (omega arith) (inl (omega arith))
