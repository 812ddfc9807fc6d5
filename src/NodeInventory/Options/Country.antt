-- ===== src/NodeInventory/Options/Country.antt =====
-- What `countryOptions` offers.
use mihomo_cp.Prelude.{
  ◌≡◌, ◌≢◌, refl, sym, ◌∙◌, ap, ◌↔◌, inl, inr, true, false, not, List, [], ◌∷◌, map, Bool-cases, In,
  keep,
}
use mihomo_cp.Prelude.Unique.{Unique}
use mihomo_cp.Js.Text.{Text, is_empty}
use mihomo_cp.Js.TextSet.{add_all, add_all-Unique, In-add_all}
use mihomo_cp.NodeInventory.{NodeRow, is_static}
use mihomo_cp.Prelude.Kept.{In-keep}
use mihomo_cp.NodeInventory.Options.{country_options}
use mihomo_cp.NodeInventory.Options.Sorting.{In-sort, sort-Unique, sort-IsSorted, IsSorted}

-- The countries of the static rows, without empty ones.
countries : List NodeRow → List Text
countries rows =
    keep (λ c. not (is_empty c)) (map (λ r. r.country) (keep (λ r. is_static r.kind) rows))

not-is_empty : (c : Text) → not (is_empty c) ≡ true → c ≢ []
not-is_empty [] h e = cc
not-is_empty (_ ∷ _) h e = cc

is_empty_of_ne : (c : Text) → c ≢ [] → not (is_empty c) ≡ true
is_empty_of_ne [] n = absurd (n refl)
is_empty_of_ne (_ ∷ _) n = refl

-- A country that some static row has.
abbrev pub OfStatic : Text → List NodeRow → Type 0
OfStatic c rows = (row : NodeRow) × In row rows × (is_static row.kind ≡ true) × (row.country ≡ c)

In-static_countries :
    (c : Text) (rows : List NodeRow)
    → In c (map (λ r. r.country) (keep (λ r. is_static r.kind) rows)) ↔ OfStatic c rows
In-static_countries c [] = (λ m. absurd m, λ m. absurd m.1)
In-static_countries c (row ∷ rows) = elim (Bool-cases (is_static row.kind)) [
  | inl fixed ↦
      rw (fixed, keep)
        (
          λ m. elim m [
            | inl e ↦ (row, inl refl, fixed, sym e)
            | inr k ↦ let (r, h, s, e) = (In-static_countries c rows).0 k in (r, inr h, s, e)
          ],
          λ m. elim (m.1) [
            | inl e ↦ inl (sym (m.3) ∙ ap (λ r. r.country) e)
            | inr k ↦ inr ((In-static_countries c rows).1 (m.0, k, m.2, m.3))
          ],
        )
  | inr other ↦
      rw (other, keep)
        (
          λ m. let (r, h, s, e) = (In-static_countries c rows).0 m in (r, inr h, s, e),
          λ m. elim (m.1) [
            | inl e ↦
                let bad : true ≡ false = sym (m.2) ∙ ap (λ r. is_static r.kind) e ∙ other in cc
            | inr k ↦ (In-static_countries c rows).1 (m.0, k, m.2, m.3)
          ],
        )
]

-- The country options are in the order of code units and without doubles, and they are exactly the
-- non-empty countries of static rows: no provider row adds one.
country_options_lem :
    (rows : List NodeRow)
    → IsSorted (country_options rows)
      × Unique (country_options rows)
      × ((c : Text) → In c (country_options rows) ↔ ((c ≢ []) × OfStatic c rows))
unfolding country_options countries
country_options_lem rows = (
  sort-IsSorted (add_all [] (countries rows)),
  sort-Unique _ (add_all-Unique [] (countries rows) tt),
  λ c. (
    λ m. elim ((In-add_all c [] (countries rows)).0 ((In-sort c _).0 m)) [
      | inl bad ↦ absurd bad
      | inr k ↦
          let (h, e) = (In-keep (λ d. not (is_empty d)) c _).0 k in
          (not-is_empty c e, (In-static_countries c rows).0 h)
    ],
    λ m. (In-sort c _).1 (
        (In-add_all c [] (countries rows)).1 (
          inr (
            (In-keep (λ d. not (is_empty d)) c _).1
              ((In-static_countries c rows).1 m.1, is_empty_of_ne c m.0)))),
  ),
)
