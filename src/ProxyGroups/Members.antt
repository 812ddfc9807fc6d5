-- ===== src/ProxyGroups/Members.antt =====
-- The member list of a group under any sequence of edits.
use mihomo_cp.Prelude.{
  ◌<◌, ◌<◌, ℕ, ◌≡◌, refl, sym, ap, ◌∙◌, ◌↔◌, ◌⊎◌, inl, inr, Bool, true, false, not, ◌&&◌, List, [],
  ◌∷◌, Option, none, some, Bool-cases, arith, In, find, length,
}
use mihomo_cp.Prelude.Unique.{Unique, Unique-concat, In-append}
use mihomo_cp.Prelude.Kept.{In-keep, Unique-keep}
use mihomo_cp.Js.Text.{Text, text_eq, is_empty}
use mihomo_cp.Js.Text.Laws.{text_eq_iff}
use mihomo_cp.Js.TextSet.{has, has-eq-false}
use mihomo_cp.Js.Date.{ℤ, pos}
use mihomo_cp.Js.Move.{
  get_elem?, remove_at, insert_at, to_index, MovesItem, find-find_index, In-insert_at, In-remove_at,
  Unique-insert_at, Unique-remove_at,
}
use mihomo_cp.ProxyGroups.{index_of, handle_add, handle_remove, handle_drag_end, unselected_items}

fresh_value : (a b : Bool) → (a && not b) ≡ true → b ≡ false
fresh_value true b e = ground arith
fresh_value false b e = cc

handle_add-Unique :
    (members : List Text) (value : Option Text) → Unique members → Unique (handle_add members value)
unfolding handle_add
handle_add-Unique members none u = u
handle_add-Unique members (some value) u =
    elim (Bool-cases (not (is_empty value) && not (has members value))) [
      | inl new ↦
          rw (handle_add, new)
            (Unique-concat members value u (has-eq-false members value (fresh_value _ _ new)))
      | inr old ↦ rw (handle_add, old) u
    ]

found :
    (members : List Text) (name : Text)
    → In name members
    → find (λ m. text_eq m name) members ≡ some name
found [] name m = absurd m
found (m ∷ ms) name k = elim (Bool-cases (text_eq m name)) [
  | inl same ↦ rw (find, same) (ap some ((text_eq_iff m name).0 same))
  | inr other ↦ elim k [
    | inl e ↦ let bad : true ≡ false = sym ((text_eq_iff m name).1 (sym e)) ∙ other in cc
    | inr later ↦ rw (find, other) (found ms name later)
  ]
]

index_of_lem :
    (members : List Text) (name : Text)
    → In name members
    → (i : ℕ) × (index_of members name ≡ pos i)
      × (get_elem? members i ≡ some name)
      × (i < length members)
unfolding index_of
index_of_lem members name m =
    let (i, at, there, below, holds) =
      find-find_index (λ n. text_eq n name) members name (found members name m) in
    (i, ap to_index at, there, below)

module _ (array_move : List Text → ℤ → ℤ → List Text) (moves : MovesItem array_move) where
  -- A drag of one member onto another puts it at the place of the other, and keeps the rest in order.
  moved :
      (members : List Text) (active over : Text)
      → In active members
      → In over members
      → (handle_drag_end array_move members active (some over) ≡ members)
        ⊎ ((i : ℕ) × (j : ℕ) × (get_elem? members i ≡ some active)
            × (handle_drag_end array_move members active (some over)
                ≡ insert_at j active (remove_at i members)))
  unfolding handle_drag_end
  moved members active over a o = elim (Bool-cases (text_eq active over)) [
    | inl same ↦ inl (rw (handle_drag_end, same) refl)
    | inr other ↦
        let (i, at_i, there, below_i) = index_of_lem members active a in
        let (j, at_j, there_j, below_j) = index_of_lem members over o in
        inr (
          i,
          j,
          there,
          rw (handle_drag_end, other, at_i, at_j) (moves members i j active there below_j),
        )
  ]

  -- The edits that the list offers: a choice of the select box, which lists the unselected items, the
  -- button of a member, and a drag of one member, dropped on a member or outside.
  pub data Edit (available : List Text) : List Text → List Text → Type 0 where
    adds :
        (members : List Text) (value : Text)
        → In value (unselected_items members available)
        → Edit available members (handle_add members (some value))
    removes :
        (members : List Text) (name : Text) → Edit available members (handle_remove members name)
    drags :
        (members : List Text) (active over : Text)
        → In active members
        → In over members
        → Edit available members (handle_drag_end array_move members active (some over))
    drops :
        (members : List Text) (active : Text)
        → Edit available members (handle_drag_end array_move members active none)

  pub data Edits (available : List Text) (start : List Text) : List Text → Type 0 where
    unedited : Edits available start start
    edited :
        {ms ns : List Text}
        → Edits available start ms
        → Edit available ms ns
        → Edits available start ns

  handle_remove-Unique :
      (members : List Text) (name : Text) → Unique members → Unique (handle_remove members name)
  unfolding handle_remove
  handle_remove-Unique members name u = Unique-keep _ members u

  drag-Unique :
      (members : List Text) (active over : Text)
      → In active members
      → In over members
      → Unique members
      → Unique (handle_drag_end array_move members active (some over))
  drag-Unique members active over a o u = elim (moved members active over a o) [
    | inl same ↦ rw same u
    | inr (i, j, there, e) ↦
        let (rest, gone) = Unique-remove_at i active members there u in
        rw e (Unique-insert_at j active (remove_at i members) rest gone)
  ]

  Edit-Unique : {available ms ns : List Text} → Edit available ms ns → Unique ms → Unique ns
  unfolding handle_drag_end
  Edit-Unique (adds members value i) u = handle_add-Unique members (some value) u
  Edit-Unique (removes members name) u = handle_remove-Unique members name u
  Edit-Unique (drags members active over a o) u = drag-Unique members active over a o u
  Edit-Unique (drops members active) u = u

  drag-In :
      (members : List Text) (active over x : Text)
      → In active members
      → In over members
      → In x (handle_drag_end array_move members active (some over)) ↔ In x members
  drag-In members active over x a o = elim (moved members active over a o) [
    | inl same ↦ rw same (λ m. m, λ m. m)
    | inr (i, j, there, e) ↦ rw e (
      λ m.
          (In-remove_at i active x members there).1
            ((In-insert_at j active x (remove_at i members)).0 m),
      λ m.
          (In-insert_at j active x (remove_at i members)).1
            ((In-remove_at i active x members there).0 m),
    )
  ]

  -- A member is one of the old ones or one of the items on offer.
  Edit-In :
      {available ms ns : List Text} (x : Text)
      → Edit available ms ns
      → In x ns
      → In x ms ⊎ In x available
  unfolding handle_add handle_remove handle_drag_end unselected_items
  Edit-In x (adds members value i) m =
      elim (Bool-cases (not (is_empty value) && not (has members value))) [
        | inl new ↦ elim (In-append x members (value ∷ []) (rw (handle_add, new) at m)) [
          | inl h ↦ inl h
          | inr k ↦ elim k [ inl e ↦ inr (rw e ((In-keep _ value _).0 i).0) | inr bad ↦ absurd bad ]
        ]
        | inr old ↦ inl (rw (handle_add, old) at m)
      ]
  Edit-In x (removes members name) m = inl ((In-keep _ x members).0 m).0
  Edit-In x (drags members active over a o) m = inl ((drag-In members active over x a o).0 m)
  Edit-In x (drops members active) m = inl m

  -- After any sequence of edits of a list without doubles there are no doubles, and every member is
  -- one that was there at the start or one that was on offer.
  pub Edits-Unique :
      (available start ms : List Text)
      → Unique start
      → Edits available start ms
      → Unique ms × ((x : Text) → In x ms → In x start ⊎ In x available)
  Edits-Unique available start ms u unedited = (u, λ x m. inl m)
  Edits-Unique available start ns u (edited {ms} before e) =
      let (v, from) = Edits-Unique available start ms u before in
      (Edit-Unique e v, λ x m. elim (Edit-In x e m) [ inl h ↦ from x h | inr k ↦ inr k ])
