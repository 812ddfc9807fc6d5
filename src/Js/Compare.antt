-- ===== src/Js/Compare.antt =====
-- Comparisons of doubles with natural number literals, and `Number.isInteger`.
use mihomo_cp.Prelude.{ℕ, ◌*◌, ◌%◌, ◌^◌, Bool, true, false, not, ltb, ◌==◌, if◌then◌else◌}
use mihomo_cp.Js.Value.{Number, nan, infinity, plus, minus, int}

-- `Number.isInteger(x)`.
abbrev pub is_integer : Number → Bool
is_integer nan = false
is_integer (infinity _) = false
is_integer (plus m k) = m % (2 ^ k) == 0
is_integer (minus m k) = m % (2 ^ k) == 0

-- `x < n`.
abbrev pub below : Number → ℕ → Bool
below nan n = false
below (infinity positive) n = not positive
below (plus m k) n = ltb m (n * 2 ^ k)
below (minus m k) n = if m == 0 then ltb 0 n else true

-- `x > n`.
abbrev pub above : Number → ℕ → Bool
above nan n = false
above (infinity positive) n = positive
above (plus m k) n = ltb (n * 2 ^ k) m
above (minus m k) n = false

-- `x <= 0`.
abbrev pub not_positive : Number → Bool
not_positive nan = false
not_positive (infinity positive) = not positive
not_positive (plus m k) = m == 0
not_positive (minus m k) = true

-- `x || 0`.
abbrev pub or_zero : Number → Number
or_zero nan = int 0
or_zero (plus m k) = if m == 0 then int 0 else plus m k
or_zero (minus m k) = if m == 0 then int 0 else minus m k
or_zero (infinity positive) = infinity positive
