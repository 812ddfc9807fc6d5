-- ===== src/Witnesses/NodeScoresPage.antt =====
-- The page of the score table at concrete rows.
use mihomo_cp.Prelude.{◌≡◌, refl, inl, true, List, [], ◌∷◌, none, some}
use mihomo_cp.Js.Text.{Text, codes}
use mihomo_cp.NodeScore.View.{NodeScore}
use mihomo_cp.NodeScoresPage.{
  Filters, filtered, Scores, first_scores, shown_rows, toggle_all, toggle_one, some_ids, all_nodes,
  refresh_batch,
}
use mihomo_cp.NodeScoresPage.Selection.{
  Steps, start, next, fetched, head_box, row_box, Fits, Steps-refresh_batch,
}
use mihomo_cp.Witnesses.Inputs.{ascii_lower, digit, century}
use mihomo_cp.Witnesses.NodeScore.{row}

-- The old word `failed` is found under the filter `error`.
abbrev errors : Filters
errors = record { search = codes " a "; kind_filter = codes "all"; status_filter = codes "error" }

found : filtered ascii_lower (λ n. codes "7") digit century (row ∷ []) errors ≡ row ∷ []
unfolding filtered
found = refl

abbrev other : NodeScore
other = record row { id = codes "s" }

-- The page with some rows and some selected ids, under the filters it starts with.
abbrev page : List NodeScore → List Text → Scores
page rows selected = record first_scores { rows = rows; selected = selected }

-- The states before each event: the row `r` comes and is selected with the box in the head, then the
-- row `s` comes in its place and is selected with its own box.
abbrev past : List Scores
past =
    page (other ∷ []) (codes "r" ∷ [])
    ∷ page (row ∷ []) (codes "r" ∷ [])
    ∷ page (row ∷ []) []
    ∷ first_scores
    ∷ []

both :
    Steps ascii_lower
      (λ n. codes "7")
      digit
      century
      past
      (page (other ∷ []) (codes "r" ∷ codes "s" ∷ []))
unfolding toggle_all toggle_one shown_rows
both =
    next (next (next (next start (fetched (row ∷ []))) (head_box true)) (fetched (other ∷ [])))
      (row_box other true (inl refl))

Steps-refresh_batch_example :
    (true ≡ true)
    × Fits ascii_lower
        (λ n. codes "7")
        digit
        century
        past
        (codes "r" ∷ codes "s" ∷ [])
        (some_ids (codes "r" ∷ codes "s" ∷ []))
unfolding refresh_batch
Steps-refresh_batch_example =
    Steps-refresh_batch ascii_lower (λ n. codes "7") digit century true
      (some_ids (codes "r" ∷ codes "s" ∷ [])) both refl

-- The button for all nodes has no argument.
batch_all : refresh_batch true none ≡ some all_nodes
unfolding refresh_batch
batch_all = refl
