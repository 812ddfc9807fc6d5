-- ===== src/NodeScoresPage/Shown.antt =====
-- The rows that the page of the score table shows.
use mihomo_cp.Prelude.{
  ◌≡◌, refl, ◌↔◌, ◌⊎◌, inl, inr, Bool, true, false, not, ◌&&◌, ◌||◌, List, Option, if◌then◌else◌,
  Bool-cases, In, arith,
}
use mihomo_cp.Prelude.Kept.{In-keep}
use mihomo_cp.Js.Text.{Text, codes, text_eq, is_empty, trim, includes}
use mihomo_cp.Js.Text.Occurs.{Occurs, search_iff}
use mihomo_cp.Js.Text.Laws.{text_eq_iff}
use mihomo_cp.Js.Value.{Number}
use mihomo_cp.Js.Date.{ℤ}
use mihomo_cp.NodeScore.View.{NodeScore}
use mihomo_cp.NodeScoresPage.{Filters, row_status, row_shown, filtered, searched}

gates_iff :
    (a b c d e f : Bool)
    → ((if not a && not b then false else if not c && not d then false else if e then true else f)
        ≡ true)
      ↔ (((a || b) ≡ true) × ((c || d) ≡ true) × ((e || f) ≡ true))
gates_iff a b c d e f = ground arith

either_iff : (a b c d : Text) → ((text_eq a b || text_eq c d) ≡ true) ↔ ((a ≡ b) ⊎ (c ≡ d))
either_iff a b c d = (
  λ e. elim (Bool-cases (text_eq a b)) [
    | inl same ↦ inl ((text_eq_iff a b).0 same)
    | inr other ↦ inr ((text_eq_iff c d).0 (rw other at e))
  ],
  λ h. elim h [
    | inl same ↦ rw ((text_eq_iff a b).1 same) refl
    | inr same ↦ elim (Bool-cases (text_eq a b)) [
      | inl e ↦ rw e refl
      | inr e ↦ rw (e, (text_eq_iff c d).1 same) refl
    ]
  ],
)

module _ (lower : Text → Text) (number_text : Number → Text) (to_number : Text → Number)
    (utc_year : Text → Option ℤ) where
  -- A row answers a filter of the page that is not `all` if it has that kind, and that status in its
  -- view; a search that is not blank stands somewhere in its text.
  pub record Shown (filters : Filters) (row : NodeScore) : Type 0 where
    pub kind : (filters.kind_filter ≡ codes "all") ⊎ (row.node_kind ≡ filters.kind_filter)
    pub status :
        (filters.status_filter ≡ codes "all")
        ⊎ (row_status lower number_text to_number utc_year row ≡ filters.status_filter)
    pub found : Occurs (lower (trim filters.search)) (lower (searched lower number_text row))

  row_shown_iff :
      (filters : Filters) (row : NodeScore)
      → (row_shown lower number_text to_number utc_year filters row ≡ true) ↔ Shown filters row
  unfolding row_shown
  row_shown_iff filters row =
      let any : Text = codes "all" in
      let status = row_status lower number_text to_number utc_year row in
      let needle = lower (trim filters.search) in
      let kinds = either_iff filters.kind_filter any row.node_kind filters.kind_filter in
      let statuses = either_iff filters.status_filter any status filters.status_filter in
      let gates =
        gates_iff (text_eq filters.kind_filter any) (text_eq row.node_kind filters.kind_filter)
          (text_eq filters.status_filter any) (text_eq status filters.status_filter)
          (is_empty needle) (includes (lower (searched lower number_text row)) needle) in
      (
        λ e.
            let (kind, known, found) = gates.0 e in
            record {
              kind = kinds.0 kind;
              status = statuses.0 known;
              found = (search_iff _ needle).0 found;
            },
        λ s. gates.1 (kinds.1 s.kind, statuses.1 s.status, (search_iff _ needle).1 s.found),
      )

  -- The page shows a row exactly when it is one of the fetched rows and answers every filter, where
  -- the status is the one of its view.
  pub In-filtered :
      (rows : List NodeScore) (filters : Filters) (row : NodeScore)
      → In row (filtered lower number_text to_number utc_year rows filters)
        ↔ (In row rows × Shown filters row)
  unfolding filtered
  In-filtered rows filters row =
      let (there, back) =
        In-keep (row_shown lower number_text to_number utc_year filters) row rows in
      (
        λ m. let (h, t) = there m in (h, (row_shown_iff filters row).0 t),
        λ p. let (h, s) = p in back (h, (row_shown_iff filters row).1 s),
      )
