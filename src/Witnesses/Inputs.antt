-- ===== src/Witnesses/Inputs.antt =====
-- Concrete stand-ins for the host's functions: `toLowerCase` on ASCII letters, `String(value)` on
-- texts, `Number(text)` on single digits, and the year of a date that starts with `0` or `2`.
use mihomo_cp.Prelude.{◌+◌, ◌-◌, ◌&&◌, [], ◌∷◌, map, Option, none, some, leb, if◌then◌else◌}
use mihomo_cp.Js.Text.{Text}
use mihomo_cp.Js.Value.{Number, nan, int, Value, str}
use mihomo_cp.Js.Date.{ℤ, pos}

abbrev pub ascii_lower : Text → Text
ascii_lower = map (λ c. if leb b'A' c && leb c b'Z' then c + 32 else c)

abbrev pub plain_text : Value → Text
plain_text (str s) = s
plain_text _ = b'?' ∷ []

abbrev pub digit : Text → Number
digit (c ∷ []) = if leb b'0' c && leb c b'9' then int (c - 48) else nan
digit _ = nan

abbrev pub century : Text → Option ℤ
century [] = none
century (c ∷ _) = if leb c b'0' then some (pos 1) else some (pos 2026)
