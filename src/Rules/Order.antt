-- ===== src/Rules/Order.antt =====
-- What a drag does to the order of the rules.
use mihomo_cp.Prelude.{
  ℕ, zero, suc, ◌<◌, ◌≡◌, ◌≢◌, refl, sym, subst, ap, ◌∙◌, ◌↔◌, inl, inr, true, false, List, [], ◌∷◌,
  ◌++◌, some, some_inj, Bool-cases, Option-cases, In, All, find, length, length-append, arith,
}
use mihomo_cp.Prelude.Unique.{In-append, In-append_left, In-append_right}
use mihomo_cp.Js.Text.{Text, text_eq}
use mihomo_cp.Js.Text.Laws.{text_eq_iff}
use mihomo_cp.Js.Date.{ℤ, pos}
use mihomo_cp.Js.Move.{
  get_elem?, remove_at, insert_at, to_index, MovesItem, find-find_index, In-insert_at, In-remove_at,
  length-remove_at,
}
use mihomo_cp.Js.Move.Append.{
  get_elem?-append, remove_at-append, insert_at-append, find_index-append, find-concat,
}
use mihomo_cp.Rules.{Rule, match_type, has_id, rule_index, handle_drag_end}

-- No rule but the last is a `MATCH`, and the last one is.
pub record MatchLast (rules : List Rule) : Type 0 where
  pub front : List Rule
  pub last : Rule
  pub split : rules ≡ front ++ last ∷ []
  pub other : All (λ r. r.type ≢ match_type) front
  pub is_match : last.type ≡ match_type

module _ (array_move : List Rule → ℤ → ℤ → List Rule) (moves : MovesItem array_move) where
  in_front :
      (front : List Rule) (m : Rule) (id : Text) (r : Rule)
      → m.type ≡ match_type
      → r.type ≢ match_type
      → find (has_id id) (front ++ m ∷ []) ≡ some r
      → (i : ℕ) × (rule_index (front ++ m ∷ []) id ≡ pos i)
        × (get_elem? front i ≡ some r)
        × (i < length front)
  unfolding rule_index
  in_front front m id r match other e = elim (find-concat (has_id id) front m r e) [
    | inr same ↦ absurd (other (ap (λ q. q.type) (sym same) ∙ match))
    | inl found ↦
        let (i, at, there, below, holds) = find-find_index (has_id id) front r found in
        (i, ap to_index (find_index-append (has_id id) i front (m ∷ []) at), there, below)
  ]

  All-insert_at :
      (j : ℕ) (a : Rule) (rs : List Rule)
      → a.type ≢ match_type
      → All (λ r. r.type ≢ match_type) rs
      → All (λ r. r.type ≢ match_type) (insert_at j a rs)
  All-insert_at zero a rs n h = (n, h)
  All-insert_at (suc j) a [] n h = (n, tt)
  All-insert_at (suc j) a (r ∷ rs) n (k, h) = (k, All-insert_at j a rs n h)

  All-remove_at :
      (i : ℕ) (rs : List Rule)
      → All (λ r. r.type ≢ match_type) rs
      → All (λ r. r.type ≢ match_type) (remove_at i rs)
  All-remove_at i [] h = tt
  All-remove_at zero (r ∷ rs) (k, h) = h
  All-remove_at (suc i) (r ∷ rs) (k, h) = (k, All-remove_at i rs h)

  -- The list that a drag gives, from the two rules that it finds.
  dragged :
      (front : List Rule) (m a o : Rule) (active over : Text)
      → m.type ≡ match_type
      → a.type ≢ match_type
      → o.type ≢ match_type
      → find (has_id active) (front ++ m ∷ []) ≡ some a
      → find (has_id over) (front ++ m ∷ []) ≡ some o
      → (i : ℕ) × (j : ℕ) × (get_elem? front i ≡ some a)
        × (array_move
              (front ++ m ∷ [])
              (rule_index (front ++ m ∷ []) active)
              (rule_index (front ++ m ∷ []) over)
            ≡ insert_at j a (remove_at i front) ++ m ∷ [])
  dragged front m a o active over match not_a not_o found_a found_o =
      let (i, at_i, there_i, below_i) = in_front front m active a match not_a found_a in
      let (j, at_j, there_j, below_j) = in_front front m over o match not_o found_o in
      let size = length-remove_at i a front there_i in
      (
        i,
        j,
        there_i,
        rw (at_i, at_j)
            (moves (front ++ m ∷ []) i j a (get_elem?-append i a front (m ∷ []) there_i)
                (omega (arith, length-append front (m ∷ [])))
              ∙ ap (insert_at j a) (remove_at-append i front (m ∷ []) below_i)
              ∙ insert_at-append j a (remove_at i front) (m ∷ []) (omega arith)),
      )

  still_last :
      (front : List Rule) (m a : Rule) (i j : ℕ)
      → All (λ r. r.type ≢ match_type) front
      → m.type ≡ match_type
      → a.type ≢ match_type
      → MatchLast (insert_at j a (remove_at i front) ++ m ∷ [])
  still_last front m a i j others match not_a = record {
    front = insert_at j a (remove_at i front);
    last = m;
    split = refl;
    other = All-insert_at j a (remove_at i front) not_a (All-remove_at i front others);
    is_match = match;
  }

  -- What a drag that is not ignored has found.
  found_drag :
      (rules after : List Rule) (active over : Text)
      → handle_drag_end array_move rules active (some over) ≡ some after
      → (a : Rule) × (o : Rule) × (find (has_id active) rules ≡ some a)
        × (find (has_id over) rules ≡ some o)
        × (o.type ≢ match_type)
        × (array_move rules (rule_index rules active) (rule_index rules over) ≡ after)
  unfolding handle_drag_end
  found_drag rules after active over e = elim (Bool-cases (text_eq active over)) [
    | inl same ↦ cc (rw (handle_drag_end, same) at e)
    | inr other ↦ elim (Option-cases (find (has_id active) rules)) [
      | inl lost ↦ cc (rw (handle_drag_end, other, lost) at e)
      | inr (a, found_a) ↦ elim (Option-cases (find (has_id over) rules)) [
        | inl lost ↦ cc (rw (handle_drag_end, other, found_a, lost) at e)
        | inr (o, found_o) ↦ elim (Bool-cases (text_eq o.type match_type)) [
          | inl match ↦ cc (rw (handle_drag_end, other, found_a, found_o, match) at e)
          | inr free ↦ (
            a,
            o,
            found_a,
            found_o,
            λ h. let bad : true ≡ false = sym ((text_eq_iff o.type match_type).1 h) ∙ free in cc,
            some_inj (rw (handle_drag_end, other, found_a, found_o, free) at e),
          )
        ]
      ]
    ]
  ]

  same_before :
      (r : Rule) (xs ys zs : List Rule) → (In r xs → In r ys) → In r (xs ++ zs) → In r (ys ++ zs)
  same_before r xs ys zs f m = elim (In-append r xs zs m) [
    | inl h ↦ In-append_left r ys zs (f h)
    | inr h ↦ In-append_right r ys zs h
  ]

  In-moved :
      (front : List Rule) (a r : Rule) (i j : ℕ)
      → get_elem? front i ≡ some a
      → In r (insert_at j a (remove_at i front)) ↔ In r front
  In-moved front a r i j there = (
    λ m. (In-remove_at i a r front there).1 ((In-insert_at j a r (remove_at i front)).0 m),
    λ m. (In-insert_at j a r (remove_at i front)).1 ((In-remove_at i a r front there).0 m),
  )

  drag_core :
      (front : List Rule) (m : Rule) (after : List Rule) (active over : Text)
      → All (λ r. r.type ≢ match_type) front
      → m.type ≡ match_type
      → ((a : Rule) → find (has_id active) (front ++ m ∷ []) ≡ some a → a.type ≢ match_type)
      → handle_drag_end array_move (front ++ m ∷ []) active (some over) ≡ some after
      → MatchLast after × ((r : Rule) → In r after ↔ In r (front ++ m ∷ []))
  drag_core front m after active over others match free e =
      let (a, o, found_a, found_o, not_o, result) =
        found_drag (front ++ m ∷ []) after active over e in
      let not_a = free a found_a in
      let (i, j, there, moved) =
        dragged front m a o active over match not_a not_o found_a found_o in
      let same : insert_at j a (remove_at i front) ++ m ∷ [] ≡ after = sym moved ∙ result in
      subst (λ rs. MatchLast rs × ((r : Rule) → In r rs ↔ In r (front ++ m ∷ []))) same
        (
          still_last front m a i j others match not_a,
          λ r. (
            same_before r _ _ (m ∷ []) (In-moved front a r i j there).0,
            same_before r _ _ (m ∷ []) (In-moved front a r i j there).1,
          ),
        )

  -- When the `MATCH` rule is the last one and is not the one that is dragged, it is still the last one
  -- in the order that a drag asks for, and no other rule is lost or added.
  pub handle_drag_end-MatchLast :
      (rules after : List Rule) (active over : Text)
      → MatchLast rules
      → ((a : Rule) → find (has_id active) rules ≡ some a → a.type ≢ match_type)
      → handle_drag_end array_move rules active (some over) ≡ some after
      → MatchLast after × ((r : Rule) → In r after ↔ In r rules)
  unfolding handle_drag_end
  handle_drag_end-MatchLast rules after active over last free e =
      subst (λ rs. MatchLast after × ((r : Rule) → In r after ↔ In r rs)) (sym last.split)
        (drag_core last.front last.last after active over last.other last.is_match
          (λ a f. free a (subst (λ rs. find (has_id active) rs ≡ some a) (sym last.split) f))
          (subst (λ rs. handle_drag_end array_move rs active (some over) ≡ some after) last.split
            e))
