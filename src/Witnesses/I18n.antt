-- ===== src/Witnesses/I18n.antt =====
-- Translation at concrete keys and parameters.
use Prim.Native.String.{String}
use mihomo_cp.Prelude.{◌≡◌, refl, List, [], ◌∷◌, some}
use mihomo_cp.Js.Text.{Text, codes}
use mihomo_cp.I18n.{en, zh, translations, entry, replace_all, placeholder}
use mihomo_cp.I18n.Parity.{Translates, zh-Translates}
use mihomo_cp.I18n.Interpolate.{Piece, literal, here}

abbrev refreshed : String
refreshed = "Refreshed \"{name}\""

refreshed-entry : entry (translations en) "ruleProviders.refreshed" ≡ some refreshed
unfolding entry translations
refreshed-entry = refl

zh-Translates_example :
    (w : String) × (entry (translations zh) "ruleProviders.refreshed" ≡ some w)
    × Translates refreshed w
zh-Translates_example = zh-Translates "ruleProviders.refreshed" refreshed refreshed-entry

abbrev named : List (Text × Text)
named = (codes "name", codes "A") ∷ []

abbrev pieces : List Piece
pieces = literal (codes "a") ∷ here ∷ []

-- A value with `$&` is not inserted verbatim: the placeholder comes back.
dollar_in_value :
    replace_all (codes "Hi {name}") (placeholder (codes "name")) (codes "$&") ≡ codes "Hi {name}"
unfolding replace_all
dollar_in_value = refl
