-- ===== src/NodeScoresPage/Selection.antt =====
-- The selection of the page of the score table, over everything a user does.
use mihomo_cp.Prelude.{
  ◌≡◌, refl, sym, ◌↔◌, ◌⊎◌, inl, inr, Bool, true, false, not, List, [], ◌∷◌, some, some_inj, In,
  subst, Option,
}
use mihomo_cp.Prelude.Unique.{Unique}
use mihomo_cp.Prelude.Kept.{In-keep, Unique-keep}
use mihomo_cp.Js.Text.{Text, text_eq}
use mihomo_cp.Js.TextSet.{add, add_all, add-Unique, In-add}
use mihomo_cp.Js.Value.{Number}
use mihomo_cp.Js.Date.{ℤ}
use mihomo_cp.NodeScore.View.{NodeScore}
use mihomo_cp.NodeScoresPage.Shown.{Shown, In-filtered}
use mihomo_cp.NodeScoresPage.{
  Filters, ids, Scores, first_scores, shown_rows, toggle_all, toggle_one, BatchBody, some_ids,
  all_nodes, batch_body, refresh_batch, settle_batch,
}

add_all-Unique : (xs ys : List Text) → Unique ys → Unique (add_all ys xs)
unfolding add_all
add_all-Unique [] ys u = u
add_all-Unique (x ∷ xs) ys u = add_all-Unique xs (add ys x) (add-Unique ys x u)

In-add_all : (a : Text) (xs ys : List Text) → In a (add_all ys xs) ↔ (In a ys ⊎ In a xs)
unfolding add_all
In-add_all a [] ys = (λ m. inl m, λ m. elim m [ inl h ↦ h | inr h ↦ absurd h ])
In-add_all a (x ∷ xs) ys = (
  λ m. elim ((In-add_all a xs (add ys x)).0 m) [
    | inl h ↦ elim ((In-add a ys x).0 h) [ inl k ↦ inl k | inr e ↦ inr (inl e) ]
    | inr h ↦ inr (inr h)
  ],
  λ m. (In-add_all a xs (add ys x)).1 (elim m [
    | inl h ↦ inl ((In-add a ys x).1 (inl h))
    | inr h ↦ elim h [ inl e ↦ inl ((In-add a ys x).1 (inr e)) | inr k ↦ inr k ]
  ]),
)

row_of_id :
    (id : Text) (rows : List NodeScore)
    → In id (ids rows)
    → (row : NodeScore) × In row rows × (row.id ≡ id)
row_of_id id [] m = absurd m
row_of_id id (r ∷ rs) (inl e) = (r, inl refl, sym e)
row_of_id id (r ∷ rs) (inr m) = let (row, here, same) = row_of_id id rs m in (row, inr here, same)

module _ (lower : Text → Text) (number_text : Number → Text) (to_number : Text → Number)
    (utc_year : Text → Option ℤ) where
  -- One event of the page: an answer with rows, a change of the filters, the box in the head of the
  -- table, the box of a row that the table shows, and the answer to a batch.
  pub data Step (s : Scores) : Scores → Type 0 where
    fetched : (rows : List NodeScore) → Step s (record s { rows = rows })
    filtering : (filters : Filters) → Step s (record s { filters = filters })
    head_box : (checked : Bool) → Step s (toggle_all lower number_text to_number utc_year checked s)
    row_box :
        (row : NodeScore) (checked : Bool)
        → In row (shown_rows lower number_text to_number utc_year s)
        → Step s (toggle_one row.id checked s)
    batch : (succeeded : Bool) → Step s (settle_batch succeeded s)

  -- Events one after another since the page was opened, with the states before each of them.
  pub data Steps : List Scores → Scores → Type 0 where
    start : Steps [] first_scores
    next : {past : List Scores} {s s' : Scores} → Steps past s → Step s s' → Steps (s ∷ past) s'

  -- In one of the states a row with this id was fetched and answered the filters.
  abbrev pub WasShown : List Scores → Text → Type 0
  WasShown [] id = ⊥
  WasShown (s ∷ past) id =
      ((row : NodeScore) × In row s.rows
        × Shown lower number_text to_number utc_year s.filters row
        × (row.id ≡ id))
      ⊎ WasShown past id

  Step-Unique : (s s' : Scores) → Step s s' → Unique s.selected → Unique s'.selected
  unfolding toggle_all toggle_one settle_batch
  Step-Unique s s' (fetched rows) u = u
  Step-Unique s s' (filtering filters) u = u
  Step-Unique s s' (head_box true) u =
      add_all-Unique (ids (shown_rows lower number_text to_number utc_year s)) [] tt
  Step-Unique s s' (head_box false) u = tt
  Step-Unique s s' (row_box row true m) u = add-Unique s.selected row.id u
  Step-Unique s s' (row_box row false m) u = Unique-keep (λ x. not (text_eq x row.id)) s.selected u
  Step-Unique s s' (batch true) u = tt
  Step-Unique s s' (batch false) u = u

  -- A row of the table was fetched and answers the filters.
  shown_row :
      (s : Scores) (past : List Scores) (row : NodeScore)
      → In row (shown_rows lower number_text to_number utc_year s)
      → WasShown (s ∷ past) row.id
  unfolding shown_rows
  shown_row s past row m =
      let (here, fits) =
        (In-filtered lower number_text to_number utc_year s.rows s.filters row).0 m in
      inl (row, here, fits, refl)

  Step-WasShown :
      (past : List Scores) (s s' : Scores) (id : Text)
      → Step s s'
      → In id s'.selected
      → WasShown (s ∷ past) id ⊎ In id s.selected
  unfolding toggle_all toggle_one settle_batch
  Step-WasShown past s s' id (fetched rows) h = inr h
  Step-WasShown past s s' id (filtering filters) h = inr h
  Step-WasShown past s s' id (head_box true) h =
      let rows = shown_rows lower number_text to_number utc_year s in
      elim ((In-add_all id (ids rows) []).0 h) [
        | inl bad ↦ absurd bad
        | inr m ↦
            let (row, here, same) = row_of_id id rows m in
            inl (subst (WasShown (s ∷ past)) same (shown_row s past row here))
      ]
  Step-WasShown past s s' id (head_box false) h = absurd h
  Step-WasShown past s s' id (row_box row true m) h = elim ((In-add id s.selected row.id).0 h) [
    | inl k ↦ inr k
    | inr e ↦ inl (subst (WasShown (s ∷ past)) (sym e) (shown_row s past row m))
  ]
  Step-WasShown past s s' id (row_box row false m) h =
      inr (((In-keep (λ x. not (text_eq x row.id)) id s.selected).0 h).0)
  Step-WasShown past s s' id (batch true) h = absurd h
  Step-WasShown past s s' id (batch false) h = inr h

  Steps-Unique : {past : List Scores} {s : Scores} → Steps past s → Unique s.selected
  Steps-Unique start = tt
  Steps-Unique (next before step) = Step-Unique _ _ step (Steps-Unique before)

  Steps-WasShown :
      {past : List Scores} {s : Scores}
      → Steps past s
      → (id : Text) → In id s.selected
      → WasShown past id
  Steps-WasShown start id h = absurd h
  Steps-WasShown (next before step) id h = elim (Step-WasShown _ _ _ id step h) [
    | inl m ↦ m
    | inr m ↦ inr (Steps-WasShown before id m)
  ]

  -- What a batch may ask for: the selected ids, each once and each of a row that was shown, or all
  -- nodes where nothing is selected.
  abbrev pub Fits : List Scores → List Text → BatchBody → Type 0
  Fits past selected (some_ids sent) =
      (sent ≡ selected) × Unique sent × ((id : Text) → In id sent → WasShown past id)
  Fits past selected all_nodes = selected ≡ []

  batch_body-Fits :
      (past : List Scores) (selected : List Text)
      → Unique selected
      → ((id : Text) → In id selected → WasShown past id)
      → Fits past selected (batch_body (some selected))
  unfolding batch_body
  batch_body-Fits past [] u shown = refl
  batch_body-Fits past (id ∷ rest) u shown = (refl, u, shown)

  -- After any events of the page, a batch for the selection is sent by an administrator only. It names
  -- exactly the selected ids, none twice, each the id of a row that was fetched and answered the
  -- filters in some earlier state, or, only where nothing is selected, asks for all nodes.
  pub Steps-refresh_batch :
      {past : List Scores} {s : Scores} (is_admin : Bool) (body : BatchBody)
      → Steps past s
      → refresh_batch is_admin (some s.selected) ≡ some body
      → (is_admin ≡ true) × Fits past s.selected body
  unfolding refresh_batch
  Steps-refresh_batch {past} {s} true body c e = (
    refl,
    subst (Fits past s.selected) (some_inj e)
        (batch_body-Fits past s.selected (Steps-Unique c) (Steps-WasShown c)),
  )
  Steps-refresh_batch false body c e = cc
