-- ===== src/Subscription/WallTime/Laws.antt =====
-- The wall clock is read back as it is printed, and what `wallTimeToISO` accepts.
use mihomo_cp.Prelude.{
  ℕ, ◌+◌, ◌*◌, ◌/◌, ◌%◌, ◌<◌, ◌≤◌, ◌++◌, ◌∷◌, ◌≡◌, refl, ap, not, true, false, some, Bool-cases,
  inl, inr, Option-cases, arith, ◌&&◌,
}
use mathlib.Core.Bool.{and-false}
use mihomo_cp.Js.Text.{Text, is_empty}
use mihomo_cp.Js.Text.Decimal.{decimal, decimal-four}
use mihomo_cp.Js.Date.{ℤ, ◌-ℤ◌}
use mihomo_cp.Subscription.WallTime.{
  WallTime, Clock, digit_value, digits, seconds, match_wall, out_of_range, minutes_ms, two,
  wall_text, zone_offset_minutes, wall_instant, wall_time_to_iso,
}

digit_value_lem : (d : ℕ) → d < 10 → digit_value (48 + d) ≡ some d
digit_value_lem d h = ground arith

pub digits-two : (n : ℕ) (rest : Text) → n < 100 → digits 2 0 (two n rest) ≡ some (n, rest)
unfolding digits
digits-two n rest h =
    let high = digit_value_lem (n / 10) (omega arith) in
    let low = digit_value_lem (n % 10) (omega arith) in
    let value : (0 * 10 + n / 10) * 10 + n % 10 ≡ n = omega arith in
    rw (high, low) (ap (λ v. some (v, rest)) value)

four : ℕ → Text → Text
four n rest = (48 + n / 1000) ∷ (48 + n / 100 % 10) ∷ (48 + n / 10 % 10) ∷ (48 + n % 10) ∷ rest

decimal_of_four : (n : ℕ) (rest : Text) → 1000 ≤ n → n < 10_000 → decimal n ++ rest ≡ four n rest
unfolding four
decimal_of_four n rest low high = ap (λ (s : Text). s ++ rest) (decimal-four n low high)

digits-four : (n : ℕ) (rest : Text) → n < 10_000 → digits 4 0 (four n rest) ≡ some (n, rest)
unfolding digits four
digits-four n rest h =
    let a = digit_value_lem (n / 1000) (omega arith) in
    let b = digit_value_lem (n / 100 % 10) (omega arith) in
    let c = digit_value_lem (n / 10 % 10) (omega arith) in
    let d = digit_value_lem (n % 10) (omega arith) in
    let value : (((0 * 10 + n / 1000) * 10 + n / 100 % 10) * 10 + n / 10 % 10) * 10 + n % 10 ≡ n =
      omega arith in
    rw (a, b, c, d) (ap (λ v. some (v, rest)) value)

-- The year has four digits, as the pattern asks, and the other fields have the width they are
-- printed with.
pub record Printable (w : WallTime) : Type 0 where
  pub from : 1000 ≤ w.year
  pub year : w.year < 10_000
  pub month : w.month < 100
  pub day : w.day < 100
  pub hour : w.hour < 100
  pub minute : w.minute < 100
  pub second : w.second < 100

-- A wall clock with a year of four digits and other fields of at most two, printed as the form shows
-- it, is read back as it was.
pub match_wall-wall_text : (w : WallTime) → Printable w → match_wall (wall_text w) ≡ some w
unfolding match_wall wall_text seconds
match_wall-wall_text w p =
    rw
      (
        decimal_of_four w.year _ p.from p.year,
        digits-four w.year _ p.year,
        digits-two w.month _ p.month,
        digits-two w.day _ p.day,
        digits-two w.hour _ p.hour,
        digits-two w.minute _ p.minute,
        digits-two w.second _ p.second,
      )
      refl

module _ (clock : Clock) where
  -- A printed wall clock within the calendar's bounds, in a known zone, stands for the instant that
  -- the second offset gives: the one of the zone at the instant that the first offset gives.
  wall_time_to_iso-wall_text :
      (w : WallTime) (zone : Text) (a b : ℤ)
      → Printable w
      → out_of_range w ≡ false
      → clock.is_zone zone ≡ true
      → zone_offset_minutes clock (clock.utc w) zone ≡ some a
      → zone_offset_minutes clock (clock.utc w -ℤ minutes_ms a) zone ≡ some b
      → wall_time_to_iso clock (wall_text w) zone ≡ clock.to_iso (clock.utc w -ℤ minutes_ms b)
  unfolding wall_time_to_iso wall_instant
  wall_time_to_iso-wall_text w zone a b p r z first second =
      rw (match_wall-wall_text w p, r, z, first, second, and-false (not (is_empty zone))) refl

  -- A text is turned into an instant only if it has the form of a wall clock, lies within the
  -- calendar's bounds, and its zone is the host's own or a known one.
  wall_time_to_iso-eq-some :
      (value zone iso : Text)
      → wall_time_to_iso clock value zone ≡ some iso
      → (w : WallTime) × (match_wall value ≡ some w)
        × (out_of_range w ≡ false)
        × ((not (is_empty zone) && not (clock.is_zone zone)) ≡ false)
  unfolding wall_time_to_iso
  wall_time_to_iso-eq-some value zone iso e = elim (Option-cases (match_wall value)) [
    | inl bad ↦ cc (rw bad at e)
    | inr (w, good) ↦ elim (Bool-cases (out_of_range w)) [
      | inl out ↦ cc (rw (good, out) at e)
      | inr fine ↦ elim (Bool-cases (not (is_empty zone) && not (clock.is_zone zone))) [
        | inl unknown ↦ cc (rw (good, fine, unknown) at e)
        | inr known ↦ (w, good, fine, known)
      ]
    ]
  ]
