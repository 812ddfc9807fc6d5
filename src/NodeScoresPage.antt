-- ===== src/NodeScoresPage.antt =====
-- The page of the score table, web/src/pages/node-scores.tsx: its filters, its selection and the
-- batch refresh. `lower` is `toLowerCase`, `number_text` the `toString` of a number.
pub mod Shown
pub mod Selection
use mihomo_cp.Prelude.{
  Bool, true, false, not, ◌&&◌, ◌||◌, List, [], ◌∷◌, ◌++◌, map, keep, all, find, Option, none, some,
  if◌then◌else◌,
}
use mihomo_cp.Js.Text.{Text, codes, text_eq, is_empty, trim, includes}
use mihomo_cp.Js.Value.{Number}
use mihomo_cp.Js.Date.{ℤ}
use mihomo_cp.Js.TextSet.{has, add, add_all}
use mihomo_cp.NodeScore.View.{
  NodeScore, NodeScoreView, ViewStatus, pending, checking, ok, error, skipped, to_node_score_view,
  or_blank,
}

-- The words of `NodeScoreView.status`, which the menu of the filter offers.
abbrev pub status_word : ViewStatus → Text
status_word pending = codes "pending"
status_word checking = codes "checking"
status_word ok = codes "ok"
status_word error = codes "error"
status_word skipped = codes "skipped"

pub record Filters : Type 0 where
  pub search : Text
  pub kind_filter : Text
  pub status_filter : Text

abbrev pub is_active : NodeScore → Bool
is_active row =
    text_eq row.status (codes "pending")
    || text_eq row.status (codes "checking")
    || text_eq row.status (codes "testing")

-- Whether the page polls every ten seconds.
unfoldable pub has_active : List NodeScore → Bool
unfolding text_eq
has_active [] = false
has_active (row ∷ rows) = is_active row || has_active rows

module _ (lower : Text → Text) (number_text : Number → Text) where
  abbrev pub asn_text : Option Number → Text
  asn_text none = []
  asn_text (some n) = number_text n

  -- The text that is searched: six fields, joined by blanks.
  unfoldable pub searched : NodeScore → Text
  searched row =
      row.node_name
      ++ 32 ∷ or_blank row.provider_name
      ++ 32 ∷ row.exit_ip
      ++ 32 ∷ or_blank row.country
      ++ 32 ∷ or_blank row.asn_org
      ++ 32 ∷ asn_text row.asn

  module _ (to_number : Text → Number) (utc_year : Text → Option ℤ) where
    unfoldable pub row_status : NodeScore → Text
    unfolding to_node_score_view
    row_status row = status_word (to_node_score_view to_number utc_year row).status

    unfoldable pub row_shown : Filters → NodeScore → Bool
    unfolding row_status text_eq trim includes searched
    row_shown filters row =
        let needle = lower (trim filters.search) in
        if not (text_eq filters.kind_filter (codes "all"))
          && not (text_eq row.node_kind filters.kind_filter)
        then false
        else if not (text_eq filters.status_filter (codes "all"))
            && not (text_eq (row_status row) filters.status_filter)
        then false
        else if is_empty needle
        then true
        else includes (lower (searched row)) needle

    unfoldable pub filtered : List NodeScore → Filters → List NodeScore
    unfolding row_shown
    filtered rows filters = keep (row_shown filters) rows

-- `filtered.map((r) => r.id)`.
abbrev pub ids : List NodeScore → List Text
ids rows = map (λ r. r.id) rows

-- The state of the page that the selection depends on.
pub record Scores : Type 0 where
  pub rows : List NodeScore
  pub filters : Filters
  pub selected : List Text

abbrev pub first_scores : Scores
first_scores = record {
  rows = [];
  filters = record { search = []; kind_filter = codes "all"; status_filter = codes "all" };
  selected = [];
}

module _ (lower : Text → Text) (number_text : Number → Text) (to_number : Text → Number)
    (utc_year : Text → Option ℤ) where
  -- The rows of the table.
  unfoldable pub shown_rows : Scores → List NodeScore
  unfolding filtered
  shown_rows s = filtered lower number_text to_number utc_year s.rows s.filters

  unfoldable pub toggle_all : Bool → Scores → Scores
  unfolding add_all shown_rows
  toggle_all checked s = record s {
    selected = if checked then add_all [] (ids (shown_rows s)) else [];
  }

unfoldable pub toggle_one : Text → Bool → Scores → Scores
unfolding add text_eq
toggle_one id checked s = record s {
  selected = if checked then add s.selected id else keep (λ x. not (text_eq x id)) s.selected;
}

unfoldable pub all_filtered_selected : List NodeScore → List Text → Bool
unfolding has
all_filtered_selected [] selected = false
all_filtered_selected (row ∷ rows) selected = all (λ r. has selected r.id) (row ∷ rows)

-- The body of the request: `{ ids }` or `{ all: true }`.
pub data BatchBody : Type 0 where
  some_ids : List Text → BatchBody
  all_nodes : BatchBody

-- `ids && ids.length ? { ids } : { all: true }`.
unfoldable pub batch_body : Option (List Text) → BatchBody
batch_body none = all_nodes
batch_body (some []) = all_nodes
batch_body (some (id ∷ ids)) = some_ids (id ∷ ids)

-- `refreshBatch` up to its request, if it sends one. The buttons call it with the selection and
-- without an argument.
unfoldable pub refresh_batch : Bool → Option (List Text) → Option BatchBody
unfolding batch_body
refresh_batch is_admin ids = if is_admin then some (batch_body ids) else none

-- The selection after the answer.
unfoldable pub settle_batch : Bool → Scores → Scores
settle_batch succeeded s = record s { selected = if succeeded then [] else s.selected }
