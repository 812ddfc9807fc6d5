-- ===== src/Rules/Table.antt =====
-- What the table of the server holds after an order is sent.
use mihomo_cp.Prelude.{
  ℕ, suc, ◌+◌, ◌≡◌, refl, sym, subst, ap, ◌∙◌, inl, inr, List, [], ◌∷◌, map, Option, none, some,
  Bool-cases, In, arith,
}
use mathlib.Core.Path.{ap₂}
use mihomo_cp.Prelude.Unique.{Unique}
use mihomo_cp.Js.Text.{Text, text_eq}
use mihomo_cp.Js.Text.Laws.{text_eq_iff}
use mihomo_cp.Js.Move.{find_index}
use mihomo_cp.Rules.{Rule, set_order, reorder_from, reorder}

abbrev pub counted : ℕ → ℕ → Option ℕ → ℕ
counted i old none = old
counted i old (some k) = i + k

-- Where an id stands among the ids that are sent, counted from `i`, or else the old number.
abbrev pub order_from : ℕ → List Text → Rule → ℕ
order_from i ids rule = counted i rule.sort_order (find_index (λ id. text_eq rule.id id) ids)

abbrev pub placed : ℕ → List Text → Rule → Rule
placed i ids rule = record rule { sort_order = order_from i ids rule }

not_sent : (id : Text) (ids : List Text) → ¬ In id ids → find_index (λ k. text_eq id k) ids ≡ none
not_sent id [] n = refl
not_sent id (k ∷ ks) n = elim (Bool-cases (text_eq id k)) [
  | inl e ↦ absurd (n (inl ((text_eq_iff id k).0 e)))
  | inr e ↦ rw (find_index, e, not_sent id ks (λ m. n (inr m))) refl
]

abbrev one_later : Option ℕ → Option ℕ
one_later none = none
one_later (some k) = some (suc k)

count_later : (i old : ℕ) (o : Option ℕ) → counted (suc i) old o ≡ counted i old (one_later o)
count_later i old none = refl
count_later i old (some k) = omega arith

placed_step :
    (i : ℕ) (id : Text) (ids : List Text) (rule : Rule)
    → ¬ In id ids
    → placed (suc i) ids (set_order id i rule) ≡ placed i (id ∷ ids) rule
placed_step i id ids rule n = elim (Bool-cases (text_eq rule.id id)) [
  | inl e ↦
      let same : rule.id ≡ id = (text_eq_iff rule.id id).0 e in
      let absent = not_sent rule.id ids (λ m. n (subst (λ x. In x ids) same m)) in
      let here : find_index (λ k. text_eq rule.id k) (id ∷ ids) ≡ some 0 =
        rw (find_index, e) refl in
      let first : counted i rule.sort_order (some 0) ≡ i = omega arith in
      rw e (
        ap (λ k. record rule { sort_order = k })
          (ap (counted (suc i) i) absent ∙ sym first ∙ sym (ap (counted i rule.sort_order) here)))
  | inr e ↦
      let later : find_index (λ k. text_eq rule.id k) (id ∷ ids)
          ≡ one_later (find_index (λ k. text_eq rule.id k) ids) =
        rw (find_index, e) refl in
      rw e (
        ap (λ k. record rule { sort_order = k })
          (count_later i rule.sort_order _ ∙ sym (ap (counted i rule.sort_order) later)))
]

place_all :
    (i : ℕ) (id : Text) (ids : List Text) (rows : List Rule)
    → ¬ In id ids
    → map (placed (suc i) ids) (map (set_order id i) rows) ≡ map (placed i (id ∷ ids)) rows
place_all i id ids [] n = refl
place_all i id ids (r ∷ rows) n =
    ap₂ (λ (s : Rule) (rest : List Rule). s ∷ rest) (placed_step i id ids r n)
      (place_all i id ids rows n)

place_none : (i : ℕ) (rows : List Rule) → rows ≡ map (placed i []) rows
place_none i [] = refl
place_none i (r ∷ rows) = ap (λ (rest : List Rule). r ∷ rest) (place_none i rows)

reorder_from_lem :
    (i : ℕ) (ids : List Text) (rows : List Rule)
    → Unique ids
    → reorder_from i ids rows ≡ map (placed i ids) rows
unfolding reorder_from
reorder_from_lem i [] rows u = place_none i rows
reorder_from_lem i (id ∷ ids) rows (n, u) =
    reorder_from_lem (suc i) ids (map (set_order id i) rows) u ∙ place_all i id ids rows n

-- Where the ids that are sent are pairwise different, the updates one by one, in the order of these
-- ids, come to one change of the table:
-- a row whose id is sent gets the place of its id, and every other row keeps its old number.
pub reorder_lem :
    (ids : List Text) (rows : List Rule) → Unique ids → reorder ids rows ≡ map (placed 0 ids) rows
unfolding reorder
reorder_lem ids rows u = reorder_from_lem 0 ids rows u
