-- ===== src/Witnesses/Rules.antt =====
-- The order of the rules at concrete inputs.
use mihomo_cp.Prelude.{
  ◌≡◌, ◌≢◌, refl, ◌↔◌, inl, inr, List, [], ◌∷◌, map, none, some, In, some_inj, find, ap, ◌∙◌,
}
use mihomo_cp.Prelude.Unique.{Unique}
use mihomo_cp.Js.Text.{Text, codes, text_eq}
use mihomo_cp.Js.Text.Laws.{text_eq-eq-false}
use mihomo_cp.Js.Value.{empty}
use mihomo_cp.Rules.{
  Rule, match_type, has_id, handle_drag_end, reorder, handle_save, handle_submit, load,
}
use mihomo_cp.Rules.Order.{MatchLast, handle_drag_end-MatchLast}
use mihomo_cp.Rules.Table.{placed, reorder_lem}
use mihomo_cp.Rules.Save.{load-handle_save}
use mihomo_cp.Witnesses.Moving.{array_move, array_move-MovesItem}

abbrev first : Rule
first = record {
  id = codes "1";
  type = codes "DOMAIN";
  payload = codes "a.b";
  target = codes "DIRECT";
  params = empty;
  sort_order = 0;
}

abbrev second : Rule
second = record first { id = codes "2"; sort_order = 1 }

abbrev last : Rule
last = record first { id = codes "3"; type = match_type; payload = []; sort_order = 2 }

abbrev rules : List Rule
rules = first ∷ second ∷ last ∷ []

abbrev swapped : List Rule
swapped = second ∷ first ∷ last ∷ []

domain-differs : codes "DOMAIN" ≢ match_type
unfolding text_eq
domain-differs = text_eq-eq-false (codes "DOMAIN") match_type refl

rules-MatchLast : MatchLast rules
unfolding text_eq
rules-MatchLast = record {
  front = first ∷ second ∷ [];
  last = last;
  split = refl;
  other = (domain-differs, (domain-differs, tt));
  is_match = refl;
}

first-found : (a : Rule) → find (has_id (codes "1")) rules ≡ some a → a.type ≢ match_type
unfolding text_eq
first-found a e m = domain-differs (ap (λ r. r.type) (some_inj e) ∙ m)

drag : handle_drag_end array_move rules (codes "1") (some (codes "2")) ≡ some swapped
unfolding handle_drag_end
drag = refl

handle_drag_end-MatchLast_example : MatchLast swapped × ((r : Rule) → In r swapped ↔ In r rules)
handle_drag_end-MatchLast_example =
    handle_drag_end-MatchLast array_move array_move-MovesItem rules swapped (codes "1") (codes "2")
      rules-MatchLast first-found drag

-- Only two of the three ids are sent, as under a filter: then two rules have the number 1.
abbrev sent : List Text
sent = codes "3" ∷ codes "1" ∷ []

sent-Unique : Unique sent
unfolding text_eq
sent-Unique = (
  λ m. elim m [ inl e ↦ text_eq-eq-false (codes "3") (codes "1") refl e | inr k ↦ k ],
  (λ k. k, tt),
)

reorder_lem_example : reorder sent rules ≡ map (placed 0 sent) rules
reorder_lem_example = reorder_lem sent rules sent-Unique

same_number :
    reorder sent rules
    ≡ record first { sort_order = 1 } ∷ second ∷ record last { sort_order = 0 } ∷ []
unfolding reorder
same_number = refl

load-handle_save_example :
    (saved : Rule) × (In saved
      (handle_save (codes "9") (some last) (handle_submit (load (some last) none)) rules))
    × (saved.id ≡ codes "3")
    × (saved.type ≡ match_type)
    × (saved.target ≡ codes "DIRECT")
    × (saved.sort_order ≡ 0)
    × (In first (handle_save (codes "9") (some last) (handle_submit (load (some last) none)) rules))
unfolding text_eq
load-handle_save_example =
    load-handle_save (codes "9") last first rules (inr (inr (inl refl))) (inl refl)
      (text_eq-eq-false (codes "1") (codes "3") refl)
