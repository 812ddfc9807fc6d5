-- ===== src/I18n.antt =====
-- Translation, web/src/i18n/index.ts: the two dictionaries, the stored locale, and the function `t` of
-- the hook `useT`, with its interpolation by `String.prototype.replaceAll`.
pub mod En
pub mod Zh
pub mod Parity
pub mod Interpolate
use Prim.Native.String.{String}
use text.Mathlib.Text.{◌==◌ as str_eq}
use mihomo_cp.Prelude.{
  ℕ, zero, suc, ◌-◌, ◌≡◌, refl, true, false, List, [], ◌∷◌, ◌++◌, Option, none, some, ◌or_else◌,
  ◌==◌, if◌then◌else◌, length, drop,
}
use mihomo_cp.Js.Text.{Text, codes, starts_with}
use mihomo_cp.I18n.En.{en_sections}
use mihomo_cp.I18n.Zh.{zh_sections}

pub data Locale : Type 0 where
  en zh : Locale

abbrev pub Dictionary : Type 0
Dictionary = List (String × String)

abbrev pub concat : List Dictionary → Dictionary
concat [] = []
concat (d ∷ ds) = d ++ concat ds

-- `translations[locale]`.
unfoldable pub translations : Locale → Dictionary
translations en = concat en_sections
translations zh = concat zh_sections

-- `dict[key]`.
unfoldable pub entry : Dictionary → String → Option String
entry [] key = none
entry ((k, v) ∷ rest) key = if str_eq k key then some v else entry rest key

-- GetSubstitution of ECMAScript, with no captures: `$$`, `$&`, the text before the match and the
-- text behind it; any other `$` stands for itself.
unfoldable pub expand : Text → Text → Text → Text → Text
expand matched before after [] = []
expand matched before after (c ∷ []) = c ∷ []
expand matched before after (c ∷ d ∷ rest) =
    let both = expand matched before after rest in
    let one = expand matched before after (d ∷ rest) in
    if c == b'$'
    then (if d == b'$'
        then b'$' ∷ both
        else if d == b'&'
        then matched ++ both
        else if d == 0x60
        then before ++ both
        else if d == 0x27
        then after ++ both
        else c ∷ one)
    else c ∷ one

-- `text.replaceAll(pattern, template)` for a pattern that is not empty: `skip` units of a match are
-- still to be passed over, and `before` is the text up to here.
unfoldable pub replace_from : Text → Text → ℕ → Text → Text → Text
unfolding expand starts_with
replace_from pattern template skip before [] = []
replace_from pattern template zero before (c ∷ s) = elim (starts_with (c ∷ s) pattern) [
  | true ↦
      expand pattern before (drop (length pattern) (c ∷ s)) template
      ++ replace_from pattern template (length pattern - 1) (before ++ c ∷ []) s
  | false ↦ c ∷ replace_from pattern template zero (before ++ c ∷ []) s
]
replace_from pattern template (suc skip) before (c ∷ s) =
    replace_from pattern template skip (before ++ c ∷ []) s

unfoldable pub replace_all : Text → Text → Text → Text
unfolding replace_from
replace_all text pattern template = replace_from pattern template zero [] text

-- The placeholder `{${k}}`.
abbrev pub placeholder : Text → Text
placeholder k = b'{' ∷ (k ++ b'}' ∷ [])

-- The loop over `Object.entries(params)`, with each value as `String(v)`.
unfoldable pub interpolate : List (Text × Text) → Text → Text
unfolding replace_all
interpolate [] text = text
interpolate ((k, v) ∷ params) text = interpolate params (replace_all text (placeholder k) v)

abbrev pub text_or_key : Option String → String → Text
text_or_key none key = codes key
text_or_key (some text) key = codes text

-- `t(key, params)`; no parameters are the empty list.
unfoldable pub translate : Locale → String → List (Text × Text) → Text
unfolding entry translations interpolate
translate locale key params =
    interpolate params
      (text_or_key (entry (translations locale) key or_else entry (translations en) key) key)

greeting :
    translate zh "proxies.deleteConfirm" ((codes "name", codes "A") ∷ [])
    ≡ codes "确定要删除 \"A\" 吗？此操作不可撤销。"
unfolding translate
greeting = refl
