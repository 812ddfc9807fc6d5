-- ===== src/Subscription/WallTime.antt =====
-- Wall-clock times of subscription-form.tsx: `toDateTimeInput`, `wallTimeToISO` and
-- `zoneOffsetMinutes`. `Intl` and `Date` are the host's, given as a `Clock`.
pub mod Laws
use mihomo_cp.Prelude.{
  ℕ, zero, suc, ◌+◌, ◌-◌, ◌*◌, ◌/◌, ◌%◌, Bool, not, ◌&&◌, ◌||◌, [], ◌∷◌, ◌++◌, Option, none, some,
  ◌>>=◌, leb, ltb, ◌==◌, if◌then◌else◌,
}
use mihomo_cp.Js.Text.{Text, is_empty}
use mihomo_cp.Js.Text.Decimal.{decimal}
use mihomo_cp.Js.Date.{ℤ, pos, negsuc, ◌-ℤ◌, pos_part, neg_part, sub_ℕ}

-- The six groups of the pattern, as numbers.
pub record WallTime : Type 0 where
  pub year : ℕ
  pub month : ℕ
  pub day : ℕ
  pub hour : ℕ
  pub minute : ℕ
  pub second : ℕ

-- What the host knows: `Date.UTC` (the month from 1), the zones that `Intl.DateTimeFormat` takes,
-- the wall clock of an instant in a zone (`none` where `Intl` throws), `toISOString` (`none` where
-- it throws) and `new Date(text).getTime()` (`none` for NaN).
pub record Clock : Type 0 where
  pub utc : WallTime → ℤ
  pub is_zone : Text → Bool
  pub wall_clock : ℤ → Text → Option WallTime
  pub to_iso : ℤ → Option Text
  pub time_of : Text → Option ℤ

-- `\d`, with its value.
abbrev pub digit_value : ℕ → Option ℕ
digit_value c = if leb 48 c && leb c 57 then some (c - 48) else none

-- `(\d{n})`: the number and what follows it.
unfoldable pub digits : ℕ → ℕ → Text → Option (ℕ × Text)
digits zero acc s = some (acc, s)
digits (suc n) acc [] = none
digits (suc n) acc (c ∷ s) = do d ← digit_value c; digits n (acc * 10 + d) s

abbrev pub literal : ℕ → Text → Option Text
literal a [] = none
literal a (c ∷ s) = if c == a then some s else none

-- `(?::(\d{2}))?$`.
unfoldable pub seconds : Text → Option ℕ
unfolding digits
seconds [] = some 0
seconds (c ∷ s) = do
  rest ← literal 58 (c ∷ s)
  p ← digits 2 0 rest
  if is_empty p.1 then some p.0 else none

-- `/^(\d{4})-(\d{2})-(\d{2})T(\d{2}):(\d{2})(?::(\d{2}))?$/.exec(value)`.
unfoldable pub match_wall : Text → Option WallTime
unfolding digits seconds
match_wall value = do
  year ← digits 4 0 value
  s₁ ← literal 45 year.1
  month ← digits 2 0 s₁
  s₂ ← literal 45 month.1
  day ← digits 2 0 s₂
  s₃ ← literal 84 day.1
  hour ← digits 2 0 s₃
  s₄ ← literal 58 hour.1
  minute ← digits 2 0 s₄
  second ← seconds minute.1
  some (record {
    year = year.0;
    month = month.0;
    day = day.0;
    hour = hour.0;
    minute = minute.0;
    second = second;
  })

-- The test that returns `null`.
unfoldable pub out_of_range : WallTime → Bool
out_of_range w =
    w.year == 0
    || ltb w.month 1
    || ltb 12 w.month
    || ltb w.day 1
    || ltb 31 w.day
    || ltb 23 w.hour
    || ltb 59 w.minute
    || ltb 59 w.second

-- `Math.round(ms / 60000)`: halves go up.
unfoldable pub round_minutes : ℤ → ℤ
round_minutes (pos n) = pos ((n + 30_000) / 60_000)
round_minutes (negsuc n) = if ltb n 30_000 then pos 0 else negsuc ((n + 30_000) / 60_000 - 1)

-- `minutes * 60000`.
abbrev pub minutes_ms : ℤ → ℤ
minutes_ms m = sub_ℕ (pos_part m * 60_000) (neg_part m * 60_000)

-- Two digits, as `Intl` prints the fields under the year.
abbrev pub two : ℕ → Text → Text
two n rest = (48 + n / 10) ∷ (48 + n % 10) ∷ rest

-- The text of `toDateTimeInput`; the year is printed with the digits it has.
unfoldable pub wall_text : WallTime → Text
unfolding decimal
wall_text w =
    decimal w.year
    ++ 45
      ∷ two w.month (45 ∷ two w.day (84 ∷ two w.hour (58 ∷ two w.minute (58 ∷ two w.second []))))

module _ (clock : Clock) where
  unfoldable pub zone_offset_minutes : ℤ → Text → Option ℤ
  unfolding round_minutes ◌-ℤ◌
  zone_offset_minutes t zone = do
    w ← clock.wall_clock t zone
    some (round_minutes (clock.utc (record w { hour = w.hour % 24 }) -ℤ t))

  -- The instant that `wallTimeToISO` prints.
  unfoldable pub wall_instant : ℤ → Text → Option ℤ
  unfolding zone_offset_minutes
  wall_instant wall zone = do
    first ← zone_offset_minutes wall zone
    second ← zone_offset_minutes (wall -ℤ minutes_ms first) zone
    some (wall -ℤ minutes_ms second)

  unfoldable pub wall_time_to_iso : Text → Text → Option Text
  unfolding match_wall out_of_range wall_instant
  wall_time_to_iso value zone = do
    w ← match_wall value
    let instant = wall_instant (clock.utc w) zone
    if out_of_range w
        then none
        else if not (is_empty zone) && not (clock.is_zone zone)
        then none
        else instant >>= clock.to_iso

  -- `none` is the value null or an empty text.
  unfoldable pub to_date_time_input : Option Text → Text → Text
  unfolding wall_text
  to_date_time_input none zone = []
  to_date_time_input (some iso) zone = if is_empty iso then [] else elim (clock.time_of iso) [
    | none ↦ []
    | some t ↦ elim (clock.wall_clock t zone) [ none ↦ [] | some w ↦ wall_text w ]
  ]
