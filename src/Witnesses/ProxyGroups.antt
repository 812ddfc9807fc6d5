-- ===== src/Witnesses/ProxyGroups.antt =====
-- A group, its members and its form at concrete inputs.
use mihomo_cp.Prelude.{refl, ◌⊎◌, inl, inr, List, [], ◌∷◌, In}
use mihomo_cp.Prelude.Unique.{Unique}
use mihomo_cp.Js.Text.{Text, codes}
use mihomo_cp.Js.Value.{str, arr, nil, cons, empty, field}
use mihomo_cp.ProxyGroups.{
  ProxyGroup, listed, index_of, handle_add, handle_drag_end, unselected_items,
}
use mihomo_cp.ProxyGroups.Members.{Edits, unedited, edited, adds, drags, Edits-Unique}
use mihomo_cp.Witnesses.Moving.{array_move, array_move-MovesItem}

abbrev offered : List Text
offered = codes "A" ∷ codes "B" ∷ []

abbrev two : List Text
two = codes "A" ∷ codes "B" ∷ []

abbrev swapped : List Text
swapped = codes "B" ∷ codes "A" ∷ []

offered-In : In (codes "B") (unselected_items (codes "A" ∷ []) offered)
unfolding unselected_items
offered-In = inl refl

edits : Edits array_move array_move-MovesItem offered (codes "A" ∷ []) swapped
unfolding handle_add handle_drag_end index_of
edits =
    edited (edited unedited (adds (codes "A" ∷ []) (codes "B") offered-In))
      (drags two (codes "A") (codes "B") (inl refl) (inr (inl refl)))

Edits-Unique_example :
    Unique swapped × ((x : Text) → In x swapped → In x (codes "A" ∷ []) ⊎ In x offered)
Edits-Unique_example =
    Edits-Unique array_move array_move-MovesItem offered (codes "A" ∷ []) swapped (λ m. m, tt) edits

-- A group that takes its nodes from a provider.
abbrev using : ProxyGroup
using = record {
  id = codes "1";
  name = codes "Auto";
  type = codes "url-test";
  config = field (codes "use") (arr (cons (str (codes "P")) nil)) empty;
  members = listed [];
}
