-- ===== src/Locale/Ticking.antt =====
-- What a tick makes of the clock.
use dread.Base.{◌+◌, ◌<◌, ◌≡◌, arith, ◌==◌, if◌then◌else◌, ◌⊎◌, ◌↔◌}
use dread.Locale.{Locale, increase_seconds}

-- The fields are in range.
pub record IsValid (l : Locale) : Type 0 where
  pub secs : l.secs < 60
  pub mins : l.mins < 60
  pub hrs : l.hrs < 24

-- A tick of the seconds carries into the minutes, and leaves seconds and minutes in range.
pub increase_seconds-carry :
    (l : Locale)
    → IsValid l
    → let l' = increase_seconds l in
      ((l'.secs ≡ (if l.secs == 59 then 0 else l.secs + 1)))
      × ((l'.mins ≡ (if l.secs == 59 then (if l.mins == 59 then 0 else l.mins + 1) else l.mins)))
      × (l'.days ≡ l.days)
      × (l'.months ≡ l.months)
      × (l'.year ≡ l.year)
unfolding increase_seconds
increase_seconds-carry l v = ground arith

-- A tick of the seconds keeps a valid hour exactly when the hour is 0 and no carry arrives: every
-- other hour is lost.
pub increase_seconds-hour :
    (l : Locale)
    → IsValid l
    → ((increase_seconds l).hrs ≡ l.hrs) ↔ ((l.hrs ≡ 0) × ((l.secs < 59) ⊎ (l.mins < 59)))
unfolding increase_seconds
increase_seconds-hour l v = (λ e. ground arith, λ e. ground arith)
