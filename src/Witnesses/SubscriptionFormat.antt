-- ===== src/Witnesses/SubscriptionFormat.antt =====
-- Offsets, masked URLs and countdowns at concrete inputs.
use mihomo_cp.Prelude.{◌≡◌, refl, Option, none, some}
use mihomo_cp.Js.Text.{Text, codes}
use mihomo_cp.Js.Date.{pos, ◌-ℤ◌}
use mihomo_cp.Subscription.Format.{
  ParsedUrl, display_masked_url, display_masked_url_lem, days_until, Reaches, days_until-Reaches,
}
use mihomo_cp.Witnesses.Inputs.{century}

-- Every text stands for a path of one host.
abbrev one_host : Text → Option ParsedUrl
one_host path = some (record { protocol = codes "https:"; host = codes "a.example"; rest = path })

display_masked_url_lem_example :
    display_masked_url one_host none (some (codes "x"))
    ≡ display_masked_url one_host none (some (codes "y"))
display_masked_url_lem_example =
    display_masked_url_lem one_host (codes "x") (codes "y")
      (record { protocol = codes "https:"; host = codes "a.example"; rest = codes "x" })
      (record { protocol = codes "https:"; host = codes "a.example"; rest = codes "y" }) refl refl
      refl refl (λ e. cc) (λ e. cc)

days_left : days_until century (some (codes "2")) (pos 1026) ≡ some 1
unfolding days_until
days_left = refl

days_until-Reaches_example : Reaches 1 (pos 2026 -ℤ pos 1026)
days_until-Reaches_example =
    days_until-Reaches century (codes "2") (pos 2026) (pos 1026) 1 refl days_left
