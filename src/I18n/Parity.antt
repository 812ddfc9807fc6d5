-- ===== src/I18n/Parity.antt =====
-- The two dictionaries against one another: the same keys, no blank entry, the same placeholders apart from `{s}`.
use Prim.Native.String.{String}
use mathlib.Core.Path.{ap₂, subst}
use text.Mathlib.Text.{◌==◌ as str_eq}
use text.Mathlib.TextEquality.{eq_iff}
use mihomo_cp.Prelude.{
  ℕ, ◌≡◌, refl, inl, inr, Bool, true, false, not, ◌&&◌, ◌||◌, List, [], ◌∷◌, ◌++◌, map, Option,
  none, some, ◌==◌, leb, if◌then◌else◌, Bool-cases, some_inj, arith,
}
use mihomo_cp.Js.Text.{Text, codes, text_eq, is_empty, trim}
use mihomo_cp.Js.Text.Laws.{text_eq_iff}
use mihomo_cp.NodeInventory.Options.{sort}
use mihomo_cp.I18n.{Dictionary, Locale, en, zh, translations, entry, translate, interpolate}

abbrev pub keys : Dictionary → List String
keys = map (λ e. e.0)

and_parts : (a b : Bool) → (a && b) ≡ true → (a ≡ true) × (b ≡ true)
and_parts a b h = ground arith

not-true : {a : Bool} → not a ≡ true → a ≡ false
not-true {a} h = ground arith

-- `\w`.
abbrev is_word : ℕ → Bool
is_word c =
    (leb b'a' c && leb c b'z')
    || (leb b'A' c && leb c b'Z')
    || (leb b'0' c && leb c b'9')
    || c == b'_'

-- The names of the placeholders of a text, in order: what `/\{(\w+)\}/g` captures, but for the
-- English plural suffix `{s}`. Outside of braces there is no word; inside, the word so far.
scan : Option Text → Text → List Text
scan state [] = []
scan none (c ∷ s) = scan (if c == b'{' then some [] else none) s
scan (some word) (c ∷ s) =
    let longer = scan (some (word ++ c ∷ [])) s in
    let again = scan (some []) s in
    let closed = scan none s in
    if is_word c
    then longer
    else if c == b'{'
    then again
    else if (c == b'}') && not (is_empty word) && not (text_eq word (codes "s"))
    then word ∷ closed
    else closed

-- The placeholders, sorted.
unfoldable pub placeholders : String → List Text
unfolding scan sort text_eq
placeholders s = sort (scan none (codes s))

same_texts : List Text → List Text → Bool
same_texts [] [] = true
same_texts (s ∷ ss) (t ∷ ts) = text_eq s t && same_texts ss ts
same_texts _ _ = false

-- One entry against the entry at the same place.
fits : String → String → String → String → Bool
unfolding placeholders same_texts trim
fits k v l w =
    str_eq k l
    && (same_texts (placeholders v) (placeholders w)
        && (not (is_empty (trim (codes v))) && not (is_empty (trim (codes w)))))

-- The two dictionaries entry by entry.
agree : Dictionary → Dictionary → Bool
agree [] [] = true
agree ((k, v) ∷ d) ((l, w) ∷ e) = fits k v l w && agree d e
agree _ _ = false

en-zh-agree : agree (translations en) (translations zh) ≡ true
unfolding agree fits translations
en-zh-agree = refl

same_texts-eq : (ss ts : List Text) → same_texts ss ts ≡ true → ss ≡ ts
unfolding same_texts
same_texts-eq [] [] h = refl
same_texts-eq [] (_ ∷ _) h = cc
same_texts-eq (_ ∷ _) [] h = cc
same_texts-eq (s ∷ ss) (t ∷ ts) h =
    let (first, rest) = and_parts (text_eq s t) (same_texts ss ts) h in
    ap₂ (λ a b. a ∷ b) ((text_eq_iff s t).0 first) (same_texts-eq ss ts rest)

-- `w` translates `v`: it has the same placeholders apart from `{s}`, and neither is blank.
pub record Translates (v w : String) : Type 0 where
  pub same : placeholders v ≡ placeholders w
  pub filled_from : is_empty (trim (codes v)) ≡ false
  pub filled_to : is_empty (trim (codes w)) ≡ false

fits-parts : (k v l w : String) → fits k v l w ≡ true → (k ≡ l) × Translates v w
unfolding fits
fits-parts k v l w h =
    let (same_key, later) = and_parts _ _ h in
    let (same, filled) = and_parts (same_texts (placeholders v) (placeholders w)) _ later in
    let (full_v, full_w) =
      and_parts (not (is_empty (trim (codes v)))) (not (is_empty (trim (codes w)))) filled in
    (
      (eq_iff k l).0 same_key,
      record {
        same = same_texts-eq (placeholders v) (placeholders w) same;
        filled_from = not-true full_v;
        filled_to = not-true full_w;
      },
    )

agree-entry :
    (d e : Dictionary) (key v : String)
    → agree d e ≡ true
    → entry d key ≡ some v
    → (w : String) × (entry e key ≡ some w) × Translates v w
unfolding agree entry
agree-entry [] e key v a h = cc
agree-entry ((k, x) ∷ d) [] key v a h = cc
agree-entry ((k, x) ∷ d) ((l, y) ∷ e) key v a h =
    let (first, rest) = and_parts (fits k x l y) (agree d e) a in
    let (e_k, t) = fits-parts k x l y first in
    elim (Bool-cases (str_eq k key)) [
      | inl hit ↦
          let e_v : x ≡ v = some_inj (rw hit at h) in
          (y, rw (← e_k) (rw hit), subst (λ z. Translates z y) e_v t)
      | inr miss ↦
          let (w, found, u) = agree-entry d e key v rest (rw miss at h) in
          (w, rw (← e_k) (rw miss found), u)
    ]

-- Every key of the English dictionary has a Chinese entry, with the same placeholders apart from
-- the English plural suffix `{s}`, which is left out of the comparison, and neither text is blank.
pub zh-Translates :
    (key v : String)
    → entry (translations en) key ≡ some v
    → (w : String) × (entry (translations zh) key ≡ some w) × Translates v w
zh-Translates key v h = agree-entry (translations en) (translations zh) key v en-zh-agree h

-- The two dictionaries have the same keys in the same order.
pub same_keys : keys (translations zh) ≡ keys (translations en)
unfolding translations
same_keys = refl

-- For a key of the English dictionary `t` never falls back, neither to English in Chinese nor to
-- the key: it interpolates the entry of the locale's own dictionary.
translate_own :
    (locale : Locale) (key v : String) (params : List (Text × Text))
    → entry (translations en) key ≡ some v
    → (w : String) × (entry (translations locale) key ≡ some w)
      × (translate locale key params ≡ interpolate params (codes w))
unfolding translate
translate_own en key v params h = (v, h, rw h)
translate_own zh key v params h = let (w, found, t) = zh-Translates key v h in (w, found, rw found)
